-- ===== src/TestHttpServer/Filling.antt =====
-- The loop that reads a file.

use gnyproxy.Prelude.{
  assert, ◌>>◌, leb, ℕ, zero, suc, ◌-◌, ◌<◌, ◌≡◌, refl, ap, Bool, true, false, ◌&&◌, ◌∷◌, ◌++◌,
  length-append, none, some, ltb, ltb→lt, ◌==◌, Bytes, length, ok, Bool-cases, inl, inr, arith,
}
use gnyproxy.HttpMessage.{
  MessageState, entity, footer, rank, HttpMessage, append_entity, end_entity,
}
use gnyproxy.Socket.{Received, failed, Received-cases}
use gnyproxy.TestHttpServer.{FileSystem, MyHttpServer, fill}

-- The loop's condition.
abbrev pub wants_more : HttpMessage → Bool
wants_more m = rank m.state == rank entity && ltb (length m.body) 1024

both_hold : (a b : Bool) → (a && b) ≡ true → (a ≡ true) × (b ≡ true)
both_hold true b h = (refl, h)
both_hold false b h = (h, absurd (cc))

appended :
    (m : HttpMessage) (bytes : Bytes)
    → (rank m.state == rank entity) ≡ true
    → append_entity m bytes ≡ ok (record m { body = m.body ++ bytes })
unfolding append_entity
appended m bytes h = ap (λ b. assert b >> ok (record m { body = m.body ++ bytes })) h

-- The entity is still open.
is_open : (s : MessageState) → (rank s == rank entity) ≡ true → leb (rank s) (rank entity) ≡ true
is_open MessageState.header h = refl
is_open MessageState.entity h = refl
is_open MessageState.footer h = absurd (cc)
is_open MessageState.done h = absurd (cc)

ended :
    (m : HttpMessage)
    → (rank m.state == rank entity) ≡ true
    → end_entity m ≡ ok (record m { state = footer })
unfolding end_entity
ended m h = ap (λ b. assert b >> ok (record m { state = footer })) (is_open m.state h)

module _ (fs : FileSystem) where
  abbrev pub Filled : ℕ → MyHttpServer → HttpMessage → Type 0
  Filled fuel g m =
      (g' : MyHttpServer) × (m' : HttpMessage) × (fill fs fuel g m ≡ ok (g', m'))
      × (wants_more m' ≡ false)

  -- What the next call of `read` gives.
  abbrev next : MyHttpServer → Received
  next g = elim g.fd as (λ _. Received) [ none ↦ failed | some fd ↦ fs.read_file fd g.reads ]

  -- With fuel above 1024 less the length of the entity (process gives 1025, which is always
  -- enough), the loop that reads the file stops without a fault, when the entity is closed or
  -- holds 1024 bytes.
  pub fill-Filled :
      (fuel : ℕ) (g : MyHttpServer) (m : HttpMessage)
      → 1024 - length m.body < fuel
      → Filled fuel g m
  unfolding fill
  fill-Filled zero g m h = absurd (omega arith)
  fill-Filled (suc fuel) g m h = elim (Bool-cases (wants_more m)) [
    | inr full ↦ (g, m, rw (fill, full) refl, full)
    | inl more ↦
        let (open_one, small) =
          both_hold (rank m.state == rank entity) (ltb (length m.body) 1024) more in
        elim (Received-cases (next g)) [
          | inl e ↦ (
            record g { reads = suc g.reads; fd = none },
            record m { state = footer },
            rw (fill, more, e, ended m open_one) refl,
            refl,
          )
          | inr (inl e) ↦ (
            record g { reads = suc g.reads; fd = none },
            record m { state = footer },
            rw (fill, more, e, ended m open_one) refl,
            refl,
          )
          | inr (inr (b, buf, e)) ↦
              let m1 : HttpMessage = record m { body = m.body ++ b ∷ buf } in
              let (g', m', run, stops) =
                fill-Filled fuel (record g { reads = suc g.reads }) m1
                  (omega (arith, h, ltb→lt _ _ small, length-append m.body (b ∷ buf))) in
              (g', m', rw (fill, more, e, appended m (b ∷ buf) open_one) run, stops)
        ]
  ]
