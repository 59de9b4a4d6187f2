-- ===== src/Client.antt =====
-- client.h and client.cpp: connections to other hosts, and their select loop.
pub mod Loop
use gnyproxy.Prelude.{
  if◌then◌else◌, ℕ, suc, ◌-◌, Bool, true, false, ◌||◌, List, [], ◌∷◌, ◌++◌, Option, none, some,
  get_elem?, length, set, take, Result, ok, ◌>>=◌,
}
use gnyproxy.Prelude.Int.{ℤ, pos, negsuc}
use gnyproxy.Select.{Services, Conns, Selects, FdSet, fd_zero, watch, service, Watch}

-- `conns[i] = conns.back(); conns.resize(conns.size() - 1)`.
unfoldable pub replace_by_back {ℓ} : {A : Type ℓ} → List A → ℕ → List A
replace_by_back conns i = elim (get_elem? conns (length conns - 1)) [
  | none ↦ conns
  | some back ↦ take (length conns - 1) (set conns i back)
]

-- What the system says to `connect`: the new socket, unless it is -1; the addresses of the host, unless
-- they cannot be found; and for each of them, whether the connection is made.
pub record Dial : Type 0 where
  pub socket : Option ℕ
  pub addresses : Option (List Bool)

-- The loop over the addresses: whether one of them can be connected to.
unfoldable pub any_connects : List Bool → Bool
any_connects [] = false
any_connects (connects ∷ addresses) = connects || any_connects addresses

-- The socket, where the connection is made; it is closed where it is not.
unfoldable pub dial_socket : Dial → Option ℕ
dial_socket dial = elim dial.socket [
  | none ↦ none
  | some s ↦ elim dial.addresses [
    | none ↦ none
    | some addresses ↦ if any_connects addresses then some s else none
  ]
]

module _ (S : Services) where
  open S use {World, Conn}

  unfoldable pub add_socket : World → Conns S → ℕ → S.Init → Conn × World × Conns S
  add_socket w conns s init_data =
      let (w', ret) = S.creator w init_data in (ret, w', conns ++ (s, ret) ∷ [])

  -- `none` is NULL.
  unfoldable pub connect : Dial → World → Conns S → S.Init → Option Conn × World × Conns S
  connect dial w conns init_data = elim (dial_socket dial) [
    | none ↦ (none, w, conns)
    | some s ↦ let (ret, w', conns') = add_socket w conns s init_data in (some ret, w', conns')
  ]

  -- `iterate` from the call of `select` on, which gives what is ready.
  unfoldable pub after_select : Watch S → Option (FdSet × FdSet) → Result (ℤ × World × Conns S)
  after_select v none = ok (negsuc 0, v.world, v.conns)
  after_select v (some (read_fds, write_fds)) = do
    (w', conns') ←
        service S replace_by_back read_fds write_fds (suc (length v.conns)) 0 v.world v.conns
    ok (pos 0, w', conns')

  -- The result is 0, or -1 where `select` fails.
  unfoldable pub iterate : Selects → World → Conns S → Result (ℤ × World × Conns S)
  iterate select w conns =
      let v = watch S conns w 0 fd_zero fd_zero in
      after_select v (select v.nfds v.read_fds v.write_fds)
