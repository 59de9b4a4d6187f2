-- ===== src/Client/Loop.antt =====
-- A whole turn of the client's loop, on every outcome of `select`.
use gnyproxy.Prelude.{suc, ◌≡◌, refl, [], Option, none, some, length, Result, ok, arith}
use gnyproxy.Prelude.Int.{ℤ, pos, negsuc}
use gnyproxy.Select.{Services, Conns, FdSet, Selects, fd_zero, Watch, watch}
use gnyproxy.Select.Drop.{replace_by_back-Removes}
use gnyproxy.Select.Serviced.{Serviced, service-Serviced}
use gnyproxy.Client.{iterate, after_select, replace_by_back}

module _ (S : Services) where
  abbrev pub watched : S.World → Conns S → Watch S
  watched w conns = watch S conns w 0 fd_zero fd_zero

  -- By what `select` gives: a turn that fails leaves the connections as the first pass left them, and in any other
  -- one each of them is served once.
  abbrev pub Turn :
      Option (FdSet × FdSet) → S.World → Conns S → Result (ℤ × S.World × Conns S) → Type 0
  Turn none w conns result =
      result ≡ ok (negsuc 0, (watched w conns).world, (watched w conns).conns)
  Turn (some (read_fds, write_fds)) w conns result =
      (w' : S.World) × (out : Conns S) × (result ≡ ok (pos 0, w', out))
      × Serviced S read_fds write_fds (watched w conns).world (watched w conns).conns w' out

  after_select-Turn :
      (w : S.World) (conns : Conns S) (o : Option (FdSet × FdSet))
      → Turn o w conns (after_select S (watched w conns) o)
  unfolding after_select
  after_select-Turn w conns none = refl
  after_select-Turn w conns (some (r, wr)) =
      let v = watched w conns in
      let (w', out, run, served) =
        service-Serviced S replace_by_back r wr replace_by_back-Removes (suc (length v.conns))
          v.world [] v.conns (omega arith) in
      (w', out, rw (after_select, run) refl, served)

  -- A turn of the client's loop comes to an end: where select fails it returns -1 and leaves the
  -- connections as the first pass left them, and else it returns 0 and has served each connection
  -- exactly once, in some order, destroying just those whose read or write failed.
  pub iterate-Turn :
      (select : Selects) (w : S.World) (conns : Conns S)
      → let v = watched w conns in
        Turn (select v.nfds v.read_fds v.write_fds) w conns (iterate S select w conns)
  unfolding iterate
  iterate-Turn select w conns =
      let v = watched w conns in after_select-Turn w conns (select v.nfds v.read_fds v.write_fds)
