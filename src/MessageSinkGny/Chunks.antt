-- ===== src/MessageSinkGny/Chunks.antt =====
-- The chunks that the loop of `check_for_update` writes.
use mathlib.Core.Path.{subst}
use gnyproxy.Prelude.{
  ℕ, zero, suc, ◌/◌, ◌%◌, ◌≤◌, ◌<◌, min, ◌≡◌, sym, ap, ◌∙◌, [], ◌∷◌, ◌++◌, Bytes, ok, take, drop,
  length, take-append-drop, length-take, length-drop, append_assoc, append-nil, arith,
}
use gnyproxy.Common.{write_short}
use gnyproxy.GnyWire.{EntityWire, stop, chunk}
use gnyproxy.MessageSinkGny.{write_chunks}

pub record Chunked (fuel : ℕ) (body : Bytes) : Type 0 where
  pub bytes : Bytes
  pub written : (d : Bytes) → write_chunks fuel d body ≡ ok (d ++ bytes)
  pub reads : EntityWire (bytes ++ 0 ∷ 0 ∷ []) body

-- One chunk in front of others, by the length that it states.
chunk_in_front :
    (b : ℕ) (taken : Bytes) (w body : Bytes) (n : ℕ)
    → length (b ∷ taken) ≡ n
    → n < 65536
    → EntityWire w body
    → EntityWire (n / 256 % 256 ∷ n % 256 ∷ (b ∷ taken ++ w)) (b ∷ taken ++ body)
chunk_in_front b taken w body n e small h =
    let high : n / 256 % 256 ≡ n / 256 = omega arith in
    rw (high, ← e) (chunk b taken (omega arith) h)

pub write_short_lem : (d : Bytes) (n : ℕ) → write_short d n ≡ d ++ (n / 256 % 256) ∷ (n % 256) ∷ []
unfolding write_short
write_short_lem d n = append_assoc d ((n / 256 % 256) ∷ []) ((n % 256) ∷ [])

-- One round of the loop, before a rest that is written well.
chunk_round :
    (fuel c : ℕ) (cs : Bytes) (sz : ℕ)
    → 0 < sz
    → sz ≤ length (c ∷ cs)
    → sz < 65536
    → Chunked fuel (drop sz (c ∷ cs))
    → (bytes : Bytes) × ((d : Bytes)
        → write_chunks fuel (write_short d sz ++ take sz (c ∷ cs)) (drop sz (c ∷ cs))
          ≡ ok (d ++ bytes))
      × EntityWire (bytes ++ 0 ∷ 0 ∷ []) (c ∷ cs)
chunk_round fuel c cs zero p l u more = absurd (omega arith)
chunk_round fuel c cs (suc k) p l u more = (
  (suc k / 256 % 256) ∷ (suc k % 256) ∷ (c ∷ (take k cs ++ more.bytes)),
  λ d. more.written _ ∙ rw (write_short_lem d (suc k)) (simp append_assoc),
  subst (EntityWire _) (ap (◌∷◌ c) (take-append-drop k cs)) (
      subst
        (λ w.
          EntityWire ((suc k / 256 % 256) ∷ (suc k % 256) ∷ c ∷ w) (c ∷ (take k cs ++ drop k cs)))
        (sym (append_assoc (take k cs) more.bytes (0 ∷ 0 ∷ [])))
        (chunk_in_front c (take k cs) _ _ (suc k) (omega (arith, length-take k cs)) u more.reads)),
)

-- As much fuel as there are bytes is enough, and what is written is an entity of the format.
pub write_chunks-EntityWire : (fuel : ℕ) (body : Bytes) → length body ≤ fuel → Chunked fuel body
unfolding write_chunks
write_chunks-EntityWire fuel [] h = record {
  bytes = [];
  written = λ d. ap ok (sym (append-nil d));
  reads = stop;
}
write_chunks-EntityWire zero (c ∷ cs) h = absurd (omega arith)
write_chunks-EntityWire (suc fuel) (c ∷ cs) h =
    let sz = min (length (c ∷ cs)) 65535 in
    let (bytes, written, reads) =
      chunk_round fuel c cs sz (omega arith) (omega arith) (omega arith) (
        write_chunks-EntityWire fuel (drop sz (c ∷ cs)) (omega (arith, length-drop sz (c ∷ cs)))) in
    record { bytes = bytes; written = written; reads = reads }
