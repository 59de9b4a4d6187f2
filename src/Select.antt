-- ===== src/Select.antt =====
-- What client.cpp and server.cpp have in common: the sets of sockets for `select`, the pass over the
-- connections before it, and the pass behind it that serves those that are ready. A connection is
-- an object of the class Connection of connection.h; its calls may change it and all that the
-- connections share, the world. Closing a socket is a part of the destructor here.
pub mod Drop
pub mod Serviced
pub mod Watched
use gnyproxy.Prelude.{
  ℕ, zero, suc, ◌+◌, ◌-◌, ◌^◌, max, Bool, true, false, List, [], ◌∷◌, Option, none, some, leb, ◌==◌,
  if◌then◌else◌, get_elem?, length, set, take, Result, ok, fault, out_of_fuel,
}
use gnyproxy.Prelude.Int.{ℤ, pos, negsuc}

-- The class Connection, by what its calls return: for `read` and `write` on any socket, with the
-- most bytes to take, and for the function that makes a connection from its `init_data`.
pub record Services : Type 1 where
  pub World : Type 0
  pub Conn : Type 0
  pub Init : Type 0
  pub creator : World → Init → World × Conn
  pub update : World → Conn → World × Conn
  pub write_size : World → Conn → ℕ × World × Conn
  pub read : World → Conn → ℕ → ℤ × World × Conn
  pub write : World → Conn → ℕ → ℤ × World × Conn
  pub destroy : World → Conn → World

-- `fd_set`, with FD_ZERO and FD_SET.
abbrev pub FdSet : Type 0
FdSet = ℕ → Bool

abbrev pub fd_zero : FdSet
fd_zero s = false

abbrev pub fd_set : FdSet → ℕ → FdSet
fd_set fds s j = if j == s then true else fds j

-- INFINITY.
abbrev pub infinity : ℕ
infinity = 2 ^ 31 - 1

-- The call of `select`, on `nfds` and the two sets: those that are ready, or `none` for -1.
abbrev pub Selects : Type 0
Selects = ℕ → FdSet → FdSet → Option (FdSet × FdSet)

abbrev pub is_le_zero : ℤ → Bool
is_le_zero (pos n) = n == 0
is_le_zero (negsuc n) = true

module _ (S : Services) where
  open S use {World, Conn}

  abbrev pub Conns : Type 0
  Conns = List (ℕ × Conn)

  -- What the first pass leaves for `select`.
  pub record Watch : Type 0 where
    pub nfds : ℕ
    pub read_fds : FdSet
    pub write_fds : FdSet
    pub world : World
    pub conns : Conns

  -- The loop before `select`: every socket is watched for reading, and those whose connection has
  -- something to write for writing.
  unfoldable pub watch : Conns → World → ℕ → FdSet → FdSet → Watch
  watch [] w nfds read_fds write_fds = record {
    nfds = nfds;
    read_fds = read_fds;
    write_fds = write_fds;
    world = w;
    conns = [];
  }
  watch ((s, c) ∷ conns) w nfds read_fds write_fds =
      let (w1, c1) = S.update w c in
      let (size, w2, c2) = S.write_size w1 c1 in
      let rest =
        watch conns w2 (max nfds (s + 1)) (fd_set read_fds s)
          (if size == 0 then write_fds else fd_set write_fds s) in
      record rest { conns = (s, c2) ∷ rest.conns }

  -- `FD_ISSET(…) && call(…) <= 0`: whether the connection is to be dropped.
  unfoldable pub attempt :
      Bool → (World → Conn → ℕ → ℤ × World × Conn) → World → Conn → Bool × World × Conn
  attempt false call w c = (false, w, c)
  attempt true call w c = let (amt, w', c') = call w c infinity in (is_le_zero amt, w', c')

  -- The condition of the loop behind `select`: `write` is not called where `read` has failed.
  unfoldable pub serve : FdSet → FdSet → World → ℕ × Conn → Bool × World × Conn
  unfolding attempt
  serve read_fds write_fds w (s, c) =
      let (failed, w1, c1) = attempt (read_fds s) S.read w c in
      if failed then (true, w1, c1) else attempt (write_fds s) S.write w1 c1

  -- The loop behind `select`, from `i` on, with the way in which `conns[i]` is taken out. Where one is taken
  -- out, `i` stays. An index that is not there is the end of the loop.
  unfoldable pub service :
      (Conns → ℕ → Conns) → FdSet → FdSet → ℕ → ℕ → World → Conns → Result (World × Conns)
  service remove read_fds write_fds zero i w conns = fault out_of_fuel
  service remove read_fds write_fds (suc fuel) i w conns = elim (get_elem? conns i) [
    | none ↦ ok (w, conns)
    | some (s, c) ↦
        let (failed, w', c') = serve read_fds write_fds w (s, c) in
        elim failed [
          | true ↦ service remove read_fds write_fds fuel i (S.destroy w' c') (remove conns i)
          | false ↦ service remove read_fds write_fds fuel (suc i) w' (set conns i (s, c'))
        ]
  ]
