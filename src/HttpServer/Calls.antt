-- ===== src/HttpServer/Calls.antt =====
-- Calls of the server's side in any order: there is always a writer for the response in front.
use mathlib.Core.Path.{subst}
use gnyproxy.Prelude.{
  ℕ, ◌≡◌, refl, sym, ap, ◌∙◌, Option, none, some, ◌==◌, Result, ok, ◌>>=◌, in_range, Holds,
  Holds-bind, Holds-ok, in_range-eq-ok, Bool-cases, Option-cases, inl, inr,
}
use gnyproxy.Prelude.Int.{ℤ}
use gnyproxy.HttpMessage.{MessageState, rank, HttpMessage, init}
use gnyproxy.Socket.{Socket}
use gnyproxy.HttpServer.{
  Generation, Transaction, EntityLinker, new_transaction, create, front, set_front,
  process_transaction, writer_size, retire, renew, process_front, measure, get_write_size, write,
  next_request, read,
}
use gnyproxy.HttpServer.Serving.{
  KeepsState, IsServing, is_complete, Sized, set_front-IsServing, IsServing-front,
  writer_size-Sized, retire-IsServing,
}

module _ (G : Generation) where
  -- A writer is there, and a response in front for it.
  abbrev pub HasWriter : EntityLinker G → Type 0
  HasWriter l =
      (w : G.writer_creator.Writer) × (t : Transaction G) × (l.writer ≡ some w)
      × (front G l ≡ some t)

  renew-HasWriter :
      (l : EntityLinker G) → IsServing G l → IsServing G (renew G l) × HasWriter (renew G l)
  unfolding renew
  renew-HasWriter l serving =
      let (t, at) = IsServing-front G l serving in
      elim (Option-cases l.writer) [
        | inr (w, e) ↦
            subst (λ m. IsServing G m × HasWriter m) (sym (ap by_writer e)) (serving, (w, t, e, at))
        | inl e ↦
            subst (λ m. IsServing G m × HasWriter m) (sym (ap by_writer e ∙ ap by_front at))
              (serving, (G.writer_creator.create t.out_msg, t, refl, at))
      ]
    where
      by_front : Option (Transaction G) → EntityLinker G
      by_front o = elim o [
        | none ↦ l
        | some t ↦ record l { writer = some (G.writer_creator.create t.out_msg) }
      ]

      by_writer : Option G.writer_creator.Writer → EntityLinker G
      by_writer o = elim o [ some w ↦ l | none ↦ by_front (front G l) ]

  process_front-IsServing :
      KeepsState G → (l : EntityLinker G) → IsServing G l → Holds (IsServing G) (process_front G l)
  unfolding process_front
  process_front-IsServing keeps l serving =
      Holds-bind (IsServing G) (in_range (front G l)) _ (λ t eq.
        Holds-bind (IsServing G) (process_transaction G t) _ (λ t' eq'.
          set_front-IsServing G l t t' (in_range-eq-ok _ eq)
            (Holds-ok (λ (u : Transaction G). is_complete G u.in_msg ≡ is_complete G t.in_msg) _ t'
              eq'
              (Holds-bind (λ (u : Transaction G). is_complete G u.in_msg ≡ is_complete G t.in_msg)
                (G.process t.gen t.in_msg t.out_msg) _
                (λ p eq''.
                  Holds-ok
                    (λ (q : G.Gen × HttpMessage × HttpMessage).
                      is_complete G q.1 ≡ is_complete G t.in_msg)
                    _ p eq'' (keeps t.gen t.in_msg t.out_msg))))
            serving))

  abbrev pub Leaves : {A : Type 0} → A × EntityLinker G → Type 0
  Leaves p = IsServing G p.1

  -- Behind `get_write_size`.
  abbrev pub Measured : ℕ × EntityLinker G → Type 0
  Measured (n, l) = IsServing G l × HasWriter l

  sized_writer :
      (l : EntityLinker G) (w : G.writer_creator.Writer)
      → Holds
          (λ (q : ℕ × Transaction G × EntityLinker G).
            (w' : G.writer_creator.Writer) × (q.2.writer ≡ some w'))
          (writer_size G l w)
  unfolding writer_size
  sized_writer l w =
      Holds-bind
        (λ (q : ℕ × Transaction G × EntityLinker G).
          (w' : G.writer_creator.Writer) × (q.2.writer ≡ some w'))
        (in_range (front G l)) _
        (λ t eq.
          Holds-bind
            (λ (q : ℕ × Transaction G × EntityLinker G).
              (w' : G.writer_creator.Writer) × (q.2.writer ≡ some w'))
            (G.writer_creator.get_write_size (G.writer_creator.point w t.out_msg)) _
            (λ (n, w') eq'. (w', refl)))

  measure-Measured :
      KeepsState G
      → (l : EntityLinker G) → IsServing G l
      → HasWriter l
      → Holds Measured (measure G l)
  unfolding measure
  measure-Measured keeps l serving (w, t, here, at) =
      subst (Holds Measured) (sym (ap by_writer here)) (
        Holds-bind Measured (process_front G l) _ (λ processed eq.
          let still =
            Holds-ok (IsServing G) _ processed eq (process_front-IsServing keeps l serving) in
          Holds-bind Measured (writer_size G processed w) _ (λ (n, t', sized) eq'.
            let (served, front_at) =
              Holds-ok (Sized G) _ (n, t', sized) eq' (writer_size-Sized G processed w still) in
            let (w', has) =
              Holds-ok
                (λ (q : ℕ × Transaction G × EntityLinker G).
                  (w' : G.writer_creator.Writer) × (q.2.writer ≡ some w'))
                _ (n, t', sized) eq' (sized_writer processed w) in
            (served, (w', t', has, front_at)))))
    where
      by_writer : Option G.writer_creator.Writer → Result (ℕ × EntityLinker G)
      by_writer o = elim o [
        | none ↦ ok (0, l)
        | some w ↦ do
          processed ← process_front G l
          (n, t, sized) ← writer_size G processed w
          ok (n, sized)
      ]

  pub get_write_size-Measured :
      KeepsState G → (l : EntityLinker G) → IsServing G l → Holds Measured (get_write_size G l)
  unfolding get_write_size
  get_write_size-Measured keeps l serving = Holds-bind Measured (retire G l) _ (λ retired eq.
      let still = Holds-ok (IsServing G) _ retired eq (retire-IsServing G l serving) in
      let (renewed, has) = renew-HasWriter retired still in
      measure-Measured keeps (renew G retired) renewed has)

  write-IsServing :
      KeepsState G
      → (l : EntityLinker G) (s : Socket) (max_write : ℕ) → IsServing G l
      → Holds Leaves (write G l s max_write)
  unfolding write
  write-IsServing keeps l s max_write serving = Holds-bind Leaves (in_range l.writer) _ (λ w eq.
      Holds-bind Leaves (in_range (front G l)) _ (λ t eq'.
        Holds-bind Leaves (G.writer_creator.write (G.writer_creator.point w t.out_msg) s max_write)
          _
          (λ (ret, w') eq''.
            let t' : Transaction G = record t { out_msg = G.writer_creator.drained w' } in
            let l' : EntityLinker G = record (set_front G l t') { writer = some w' } in
            let still : IsServing G l' =
              set_front-IsServing G l t t' (in_range-eq-ok _ eq') refl serving in
            Holds-bind Leaves (process_front G l') _ (λ processed e.
              Holds-ok (IsServing G) _ processed e (process_front-IsServing keeps l' still)))))

  -- What `read` leaves: a request that is not complete, and the writer as it was.
  abbrev pub ReadOn : EntityLinker G → ℤ × EntityLinker G → Type 0
  ReadOn l p = IsServing G p.1 × (p.1.writer ≡ l.writer)

  next_request-ReadOn :
      (l : EntityLinker G) (t : Transaction G) (ret : ℤ) → ReadOn l (ret, next_request G l t)
  unfolding next_request new_transaction init
  next_request-ReadOn l t ret = elim (Bool-cases (rank t.in_msg.state == rank MessageState.done)) [
    | inl over ↦ rw over (refl, refl)
    | inr more ↦ rw more (more, refl)
  ]

  read-ReadOn :
      (l : EntityLinker G) (s : Socket) (max_read : ℕ) → Holds (ReadOn l) (read G l s max_read)
  unfolding read
  read-ReadOn l s max_read = Holds-bind (ReadOn l) (in_range l.reading) _ (λ t eq.
      Holds-bind (ReadOn l)
        (G.reader_creator.read (G.reader_creator.point l.reader t.in_msg) s max_read) _
        (λ (ret, r) eq'.
          Holds-bind (ReadOn l)
            (process_transaction G (record t { in_msg = G.reader_creator.filled r })) _
            (λ t' eq''. next_request-ReadOn (record l { reader = r }) t' ret)))

  -- What a link may come to be.
  pub data Reached : EntityLinker G → Type 0 where
    creates : Reached (create G)
    sizes :
        (l : EntityLinker G) (p : ℕ × EntityLinker G)
        → Reached l
        → get_write_size G l ≡ ok p
        → Reached p.1
    writes :
        (l : EntityLinker G) (s : Socket) (max_write : ℕ) (p : ℤ × EntityLinker G)
        → Reached l
        → write G l s max_write ≡ ok p
        → Reached p.1
    reads :
        (l : EntityLinker G) (s : Socket) (max_read : ℕ) (p : ℤ × EntityLinker G)
        → Reached l
        → read G l s max_read ≡ ok p
        → Reached p.1

  pub Reached-IsServing : KeepsState G → (l : EntityLinker G) → Reached l → IsServing G l
  unfolding create new_transaction init
  Reached-IsServing keeps l creates = refl
  Reached-IsServing keeps l (sizes l0 p before eq) =
      (Holds-ok Measured _ p eq
        (get_write_size-Measured keeps l0 (Reached-IsServing keeps l0 before))).0
  Reached-IsServing keeps l (writes l0 s max_write p before eq) =
      Holds-ok Leaves _ p eq
        (write-IsServing keeps l0 s max_write (Reached-IsServing keeps l0 before))
  Reached-IsServing keeps l (reads l0 s max_read p before eq) =
      (Holds-ok (ReadOn l0) _ p eq (read-ReadOn l0 s max_read)).0

  -- Calls of `read` alone.
  pub data ReadsOn : EntityLinker G → EntityLinker G → Type 0 where
    stop : (l : EntityLinker G) → ReadsOn l l
    then_read :
        (l m : EntityLinker G) (s : Socket) (max_read : ℕ) (p : ℤ × EntityLinker G)
        → ReadsOn l m
        → read G m s max_read ≡ ok p
        → ReadsOn l p.1

  ReadsOn-kept :
      (l m : EntityLinker G) → IsServing G l → ReadsOn l m → IsServing G m × (m.writer ≡ l.writer)
  ReadsOn-kept l _ serving (stop _) = (serving, refl)
  ReadsOn-kept l n serving (then_read _ m s max_read p before eq) =
      let (still, same) = ReadsOn-kept l m serving before in
      let (now, kept) = Holds-ok (ReadOn m) _ p eq (read-ReadOn m s max_read) in (now, kept ∙ same)

  -- With generators whose process does not complete a request: after any calls of the server's
  -- side, behind get_write_size and any calls of read, there is a writer and a response in front
  -- for it, so that write follows no null pointer.
  pub Reached-HasWriter :
      KeepsState G
      → (l : EntityLinker G) (n : ℕ) (m k : EntityLinker G) → Reached l
      → get_write_size G l ≡ ok (n, m)
      → ReadsOn m k
      → HasWriter k
  Reached-HasWriter keeps l n m k reached size between =
      let (serving, (w, t, here, at)) =
        Holds-ok Measured _ (n, m) size
          (get_write_size-Measured keeps l (Reached-IsServing keeps l reached)) in
      let (still, same) = ReadsOn-kept m k serving between in
      let (t', at') = IsServing-front G k still in (w, t', same ∙ here, at')
