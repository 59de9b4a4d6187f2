-- ===== src/Select/Watched.antt =====
-- What the loop before `select` prepares.
use gnyproxy.Prelude.{
  ℕ, ◌+◌, ◌<◌, ◌≡◌, refl, ap, max, true, List, [], ◌∷◌, ◌==◌, ==_iff, All, map, arith, Bool-cases,
  inl, inr,
}
use gnyproxy.Select.{Services, Conns, FdSet, fd_set, Watch, watch}

-- The sockets of the connections.
abbrev pub sockets : (S : Services) → Conns S → List ℕ
sockets S conns = map (λ p. p.0) conns

-- A set holds no socket from `nfds` on.
abbrev pub Below : ℕ → FdSet → Type 0
Below nfds fds = (s : ℕ) → fds s ≡ true → s < nfds

Below-fd_set :
    (nfds : ℕ) (fds : FdSet) (s : ℕ) → Below nfds fds → Below (max nfds (s + 1)) (fd_set fds s)
Below-fd_set nfds fds s below j h = elim (Bool-cases (j == s)) [
  | inl e ↦ let same = (==_iff j s).0 e in omega arith
  | inr e ↦ let old : fds j ≡ true = (rw e at h) in let small = below j old in omega arith
]

Below-max : (nfds : ℕ) (fds : FdSet) (s : ℕ) → Below nfds fds → Below (max nfds (s + 1)) fds
Below-max nfds fds s below j h = let small = below j h in omega arith

fd_set-has : (fds : FdSet) (s : ℕ) → fd_set fds s s ≡ true
fd_set-has fds s = rw ((==_iff s s).1 refl) refl

fd_set-kept : (fds : FdSet) (s j : ℕ) → fds j ≡ true → fd_set fds s j ≡ true
fd_set-kept fds s j h = elim (Bool-cases (j == s)) [ inl e ↦ rw e refl | inr e ↦ rw e h ]

module _ (S : Services) where
  abbrev pub Bounded : Watch S → Type 0
  Bounded v = Below v.nfds v.read_fds × Below v.nfds v.write_fds

  -- Where nfds is above every socket of the two sets, it is so after the loop before select, too.
  pub watch-Bounded :
      (conns : Conns S) (w : S.World) (nfds : ℕ) (read_fds write_fds : FdSet)
      → Below nfds read_fds
      → Below nfds write_fds
      → Bounded (watch S conns w nfds read_fds write_fds)
  unfolding watch
  watch-Bounded [] w nfds r wr hr hw = (hr, hw)
  watch-Bounded ((s, c) ∷ conns) w nfds r wr hr hw =
      let (w1, c1) = S.update w c in
      let (size, w2, c2) = S.write_size w1 c1 in
      elim (Bool-cases (size == 0)) [
        | inl e ↦ rw e (
            watch-Bounded conns w2 (max nfds (s + 1)) (fd_set r s) wr (Below-fd_set nfds r s hr)
              (Below-max nfds wr s hw))
        | inr e ↦ rw e (
            watch-Bounded conns w2 (max nfds (s + 1)) (fd_set r s) (fd_set wr s)
              (Below-fd_set nfds r s hr) (Below-fd_set nfds wr s hw))
      ]

  -- What was in the set stays in it.
  watch-kept :
      (conns : Conns S) (w : S.World) (nfds : ℕ) (read_fds write_fds : FdSet) (j : ℕ)
      → read_fds j ≡ true
      → (watch S conns w nfds read_fds write_fds).read_fds j ≡ true
  unfolding watch
  watch-kept [] w nfds r wr j h = h
  watch-kept ((s, c) ∷ conns) w nfds r wr j h = watch-kept conns _ _ _ _ j (fd_set-kept r s j h)

  -- The loop before select leaves every connection in its place with its socket, and every such
  -- socket is watched for reading.
  pub watch-sockets :
      (conns : Conns S) (w : S.World) (nfds : ℕ) (read_fds write_fds : FdSet)
      → let v = watch S conns w nfds read_fds write_fds in
        (sockets S v.conns ≡ sockets S conns) × All (λ s. v.read_fds s ≡ true) (sockets S conns)
  unfolding watch
  watch-sockets [] w nfds r wr = (refl, tt)
  watch-sockets ((s, c) ∷ conns) w nfds r wr =
      let (same, each) = watch-sockets conns _ _ _ _ in
      (ap (◌∷◌ s) same, (watch-kept conns _ _ _ _ s (fd_set-has r s), each))
