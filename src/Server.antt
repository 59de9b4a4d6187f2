-- ===== src/Server.antt =====
-- server.h and server.cpp: a listening socket, the connections that it accepts, and their select
-- loop. The sockets are numbers; `s` is `none` where it is -1.
pub mod Loop
use gnyproxy.Prelude.{
  ℕ, suc, ◌+◌, ◌-◌, Bool, true, false, List, [], ◌∷◌, ◌++◌, Option, none, some, get_elem?, length,
  set, take, Result, ok, ◌>>=◌, in_range, if◌then◌else◌,
}
use gnyproxy.Prelude.Int.{ℤ, pos, negsuc}
use gnyproxy.Select.{Services, Conns, Selects, FdSet, fd_zero, fd_set, watch, service, Watch}

-- `swap(conns[i], conns.back()); conns.resize(conns.size() - 1)`.
unfoldable pub swap_with_back {ℓ} : {A : Type ℓ} → List A → ℕ → List A
swap_with_back conns i = elim (get_elem? conns (length conns - 1)) [
  | none ↦ conns
  | some back ↦ elim (get_elem? conns i) [
    | none ↦ conns
    | some gone ↦ take (length conns - 1) (set (set conns i back) (length conns - 1) gone)
  ]
]

module _ (S : Services) where
  open S use {World, Conn}

  pub record Server : Type 0 where
    pub s : Option ℕ
    pub init_data : S.Init
    pub conns : Conns S

  -- The constructor.
  unfoldable pub create : S.Init → Server
  create init_data = record { s = none; init_data = init_data; conns = [] }

  unfoldable pub set_socket : Server → ℕ → Server
  set_socket svr s = record svr { s = some s }

  -- What `socket` gives, and whether `setsockopt`, `bind` and `listen` all succeed.
  unfoldable pub bind_port : Server → Option ℕ → Bool → ℤ × Server
  bind_port svr s succeeds = elim s [
    | none ↦ (negsuc 0, record svr { s = none })
    | some fd ↦ (if_all succeeds, record svr { s = some fd })
  ]
    where
      if_all : Bool → ℤ
      if_all true = pos 0
      if_all false = negsuc 0

  -- What `accept` gives.
  unfoldable pub accept_connection : Option ℕ → World → Server → World × Server
  accept_connection accepted w svr = elim accepted [
    | none ↦ (w, svr)
    | some s_acp ↦
        let (w', c) = S.creator w svr.init_data in
        (w', record svr { conns = svr.conns ++ (s_acp, c) ∷ [] })
  ]

  -- `iterate` from the call of `select` on, which gives what is ready.
  unfoldable pub after_select :
      ℕ → Option ℕ → Watch S → Server → Option (FdSet × FdSet) → Result (ℤ × World × Server)
  after_select s accepted v svr none = ok (negsuc 0, v.world, record svr { conns = v.conns })
  after_select s accepted v svr (some (read_fds, write_fds)) = do
    let watched = record svr { conns = v.conns }
    let (w1, svr1) =
        if read_fds s then accept_connection accepted v.world watched else (v.world, watched)
    (w2, conns) ←
        service S swap_with_back read_fds write_fds (suc (length svr1.conns)) 0 w1 svr1.conns
    ok (pos 0, w2, record svr1 { conns = conns })

  -- With no socket to listen on, FD_SET is out of range. The result is 0, or -1 where `select` fails.
  unfoldable pub iterate : Selects → Option ℕ → World → Server → Result (ℤ × World × Server)
  iterate select accepted w svr = do
    s ← in_range svr.s
    let v = watch S svr.conns w (s + 1) (fd_set fd_zero s) fd_zero
    after_select s accepted v svr (select v.nfds v.read_fds v.write_fds)
