-- ===== src/Multiconn/Frame.antt =====
-- The size in the head of a frame.
use gnyproxy.Prelude.{
  ℕ, ◌+◌, ◌*◌, ◌/◌, ◌%◌, ◌^◌, ◌≤◌, ◌<◌, ◌≡◌, refl, sym, ◌∙◌, false, arith, ◌==◌, ==_iff, Bool-cases,
  inl, inr, take, drop,
}
use gnyproxy.Multiconn.{Virtual, size_bytes, store, full_size}

module _ (V : Virtual) where
  full_size-most : full_size V (0 + 0 * 256 ^ 0 + 0 * 256 ^ 1) ≡ 65536
  unfolding full_size
  full_size-most = refl

  full_size-short :
      (w : ℕ)
      → 0 < w
      → w < 65536
      → full_size V (0 + w / 256 % 256 * 256 ^ 0 + w % 256 * 256 ^ 1) ≡ w
  unfolding full_size
  full_size-short w p h =
      let stored : 0 + w / 256 % 256 * 256 ^ 0 + w % 256 * 256 ^ 1 ≡ w / 256 + w % 256 * 256 =
        omega arith in
      let some_set : (w / 256 + w % 256 * 256 == 0) ≡ false = ground arith in
      rw (stored, some_set) (omega arith)

  -- The size of a frame, from 1 to 65536 bytes, that `write` puts into two bytes, `read` takes
  -- from them, whether the two bytes come at once or one by one.
  pub full_size-size_bytes :
      (w : ℕ)
      → 0 < w
      → w ≤ 65536
      → (full_size V (store V 0 0 (size_bytes V w)) ≡ w)
        × (full_size V (store V (store V 0 0 (take 1 (size_bytes V w))) 1 (drop 1 (size_bytes V w)))
            ≡ w)
  unfolding store size_bytes
  full_size-size_bytes w p h = elim (Bool-cases (w == 65536)) [
    | inl e ↦ let most = full_size-most ∙ sym ((==_iff w 65536).0 e) in rw e (most, most)
    | inr e ↦
        let small : w < 65536 = ground arith in
        rw e (full_size-short w p small, full_size-short w p small)
  ]
