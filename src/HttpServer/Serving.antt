-- ===== src/HttpServer/Serving.antt =====
-- The request that is read stays in the queue, so that there is always a response to write.
use mathlib.Core.Path.{subst}
use gnyproxy.Prelude.{
  ℕ, ◌≡◌, refl, sym, ap, ◌∙◌, Bool, true, false, ◌&&◌, List, [], ◌∷◌, Option, none, some, ◌==◌,
  if◌then◌else◌, Result, ok, ◌>>=◌, in_range, Holds, Holds-bind, Holds-ok, in_range-eq-ok,
}
use gnyproxy.HttpMessage.{MessageState, rank, HttpMessage, is_sent, is_empty}
use gnyproxy.HttpServer.{
  Generation, Transaction, is_done, EntityLinker, front, set_front, pop, writer_size, retire,
}

module _ (G : Generation) where
  abbrev pub is_complete : HttpMessage → Bool
  is_complete m = rank m.state == rank MessageState.done

  -- `process` does not change how far the request has been read.
  abbrev pub KeepsState : Type 0
  KeepsState =
      (gen : G.Gen) (in_msg out_msg : HttpMessage)
      → Holds (λ (p : G.Gen × HttpMessage × HttpMessage). is_complete p.1 ≡ is_complete in_msg)
          (G.process gen in_msg out_msg)

  -- There is a request that is read, and it is not complete.
  abbrev pub InReading : Option (Transaction G) → Type 0
  InReading none = ⊥
  InReading (some t) = is_complete t.in_msg ≡ false

  abbrev pub IsServing : EntityLinker G → Type 0
  IsServing l = InReading l.reading

  -- A request that is not complete is not done.
  not_done : (t : Transaction G) → is_complete t.in_msg ≡ false → is_done G t ≡ false
  unfolding is_done is_sent
  not_done t h =
      ap
        (λ b.
          (b
            && (is_empty t.in_msg.headers && (is_empty t.in_msg.body && is_empty t.in_msg.footers)))
          && is_sent t.out_msg)
        h

  -- The front is changed, with its request as far as it was.
  pub set_front-IsServing :
      (l : EntityLinker G) (t t' : Transaction G)
      → front G l ≡ some t
      → is_complete t'.in_msg ≡ is_complete t.in_msg
      → IsServing l
      → IsServing (set_front G l t')
  set_front-IsServing l t t' at same serving = by_queue l.waiting l.reading at serving
    where
      by_queue :
          (q : List (Transaction G)) (r : Option (Transaction G))
          → elim q as (λ _. Option (Transaction G)) [ [] ↦ r | x ∷ rest ↦ some x ] ≡ some t
          → InReading r
          → InReading
              (elim q as (λ _. EntityLinker G) [
                | [] ↦ record l { waiting = q; reading = some t' }
                | old ∷ rest ↦ record l { waiting = t' ∷ rest; reading = r }
              ]).reading
      by_queue [] r at' serving' = same ∙ subst InReading at' serving'
      by_queue (x ∷ rest) r at' serving' = serving'

  pub front-set_front :
      (l : EntityLinker G) (t : Transaction G) → front G (set_front G l t) ≡ some t
  front-set_front l t = by_queue l.waiting
    where
      by_queue :
          (q : List (Transaction G))
          → front G (elim q as (λ _. EntityLinker G) [
            | [] ↦ record l { waiting = q; reading = some t }
            | old ∷ rest ↦ record l { waiting = t ∷ rest }
          ])
            ≡ some t
      by_queue [] = refl
      by_queue (x ∷ rest) = refl

  -- The front goes only when it is done.
  pop-IsServing :
      (l : EntityLinker G) (t : Transaction G)
      → front G l ≡ some t
      → is_done G t ≡ true
      → IsServing l
      → IsServing (pop G l)
  pop-IsServing l t at done serving = by_queue l.waiting l.reading at serving
    where
      different : false ≡ true → ⊥
      different h = cc

      by_queue :
          (q : List (Transaction G)) (r : Option (Transaction G))
          → elim q as (λ _. Option (Transaction G)) [ [] ↦ r | x ∷ rest ↦ some x ] ≡ some t
          → InReading r
          → InReading
              (elim q as (λ _. EntityLinker G) [
                | [] ↦ record l { waiting = q; reading = none }
                | old ∷ rest ↦ record l { waiting = rest; reading = r }
              ]).reading
      by_queue [] r at' serving' =
          absurd (different (sym (not_done t (subst InReading at' serving')) ∙ done))
      by_queue (x ∷ rest) r at' serving' = serving'

  -- A request that is read means that the queue has a front.
  pub IsServing-front :
      (l : EntityLinker G) → IsServing l → (t : Transaction G) × (front G l ≡ some t)
  IsServing-front l serving = by_queue l.waiting l.reading serving
    where
      by_queue :
          (q : List (Transaction G)) (r : Option (Transaction G))
          → InReading r
          → (t : Transaction G) × (elim q as (λ _. Option (Transaction G)) [
            | [] ↦ r
            | x ∷ rest ↦ some x
          ]
              ≡ some t)
      by_queue (x ∷ rest) r serving' = (x, refl)
      by_queue [] (some t) serving' = (t, refl)
      by_queue [] none serving' = absurd serving'

  -- A call of the writer: the front has the response that it leaves.
  abbrev pub Sized : ℕ × Transaction G × EntityLinker G → Type 0
  Sized (n, t, l) = IsServing l × (front G l ≡ some t)

  pub writer_size-Sized :
      (l : EntityLinker G) (w : G.writer_creator.Writer)
      → IsServing l
      → Holds Sized (writer_size G l w)
  unfolding writer_size
  writer_size-Sized l w serving = Holds-bind Sized (in_range (front G l)) _ (λ t eq.
      Holds-bind Sized (G.writer_creator.get_write_size (G.writer_creator.point w t.out_msg)) _
        (λ (n, w') eq'.
          let t' : Transaction G = record t { out_msg = G.writer_creator.drained w' } in
          (set_front-IsServing l t t' (in_range-eq-ok _ eq) refl serving, front-set_front l t')))

  pub retire-IsServing : (l : EntityLinker G) → IsServing l → Holds IsServing (retire G l)
  unfolding retire
  retire-IsServing l serving = by_writer l.writer
    where
      either :
          (b : Bool) (x y : EntityLinker G)
          → ((b ≡ true) → IsServing x)
          → IsServing y
          → IsServing (if b then x else y)
      either true x y one other = one refl
      either false x y one other = other

      both : (a b : Bool) → (a && b) ≡ true → b ≡ true
      both true b h = h
      both false b h = absurd (cc)

      by_writer :
          (o : Option G.writer_creator.Writer)
          → Holds IsServing (elim o as (λ _. Result (EntityLinker G)) [
            | none ↦ ok l
            | some w ↦ do
              (n, t, sized) ← writer_size G l w
              ok (if n == 0 && is_done G t then record (pop G sized) { writer = none } else sized)
          ])
      by_writer none = serving
      by_writer (some w) = Holds-bind IsServing (writer_size G l w) _ (λ (n, t, sized) eq.
          let (still, at) = Holds-ok Sized _ (n, t, sized) eq (writer_size-Sized l w serving) in
          either (n == 0 && is_done G t) (record (pop G sized) { writer = none }) sized
            (λ both_hold. pop-IsServing sized t at (both (n == 0) (is_done G t) both_hold) still)
            still)
