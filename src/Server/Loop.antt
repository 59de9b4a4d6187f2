-- ===== src/Server/Loop.antt =====
-- A whole turn of the server's loop, on every outcome of `select` and of `accept`.
use gnyproxy.Prelude.{
  ℕ, suc, ◌+◌, ◌≡◌, refl, sym, ap, in_range, [], Option, none, some, length, Result, ok, ◌>>=◌,
  arith, if◌then◌else◌,
}
use mathlib.Core.Path.{subst}
use gnyproxy.Prelude.Int.{ℤ, pos, negsuc}
use gnyproxy.Select.{Services, Conns, FdSet, Selects, fd_zero, fd_set, Watch, watch}
use gnyproxy.Select.Drop.{swap_with_back-Removes}
use gnyproxy.Select.Serviced.{Serviced, service-Serviced}
use gnyproxy.Server.{Server, iterate, after_select, accept_connection, swap_with_back}

module _ (S : Services) where
  abbrev pub watched : ℕ → S.World → Server S → Watch S
  watched s w svr = watch S svr.conns w (s + 1) (fd_set fd_zero s) fd_zero

  -- The server behind `select`, with the connection that has come, if any.
  abbrev pub joined : ℕ → FdSet → Option ℕ → S.World → Server S → S.World × Server S
  joined s read_fds accepted w svr =
      let v = watched s w svr in
      if read_fds s
      then accept_connection S accepted v.world (record svr { conns = v.conns })
      else (v.world, record svr { conns = v.conns })

  -- By what `select` gives: a turn that fails leaves the connections as the first pass left them, and in any other one
  -- each of them, and the one that was accepted, is served once.
  abbrev pub ServerTurn :
      Option (FdSet × FdSet)
      → ℕ
      → Option ℕ
      → S.World
      → Server S
      → Result (ℤ × S.World × Server S)
      → Type 0
  ServerTurn none s accepted w svr result =
      let v = watched s w svr in result ≡ ok (negsuc 0, v.world, record svr { conns = v.conns })
  ServerTurn (some (read_fds, write_fds)) s accepted w svr result =
      let (w1, svr1) = joined s read_fds accepted w svr in
      (w' : S.World) × (out : Conns S) × (result ≡ ok (pos 0, w', record svr1 { conns = out }))
      × Serviced S read_fds write_fds w1 svr1.conns w' out

  after_select-ServerTurn :
      (accepted : Option ℕ) (w : S.World) (svr : Server S) (s : ℕ) (o : Option (FdSet × FdSet))
      → ServerTurn o s accepted w svr (after_select S s accepted (watched s w svr) svr o)
  unfolding after_select
  after_select-ServerTurn accepted w svr s none = refl
  after_select-ServerTurn accepted w svr s (some (r, wr)) =
      let (w1, svr1) = joined s r accepted w svr in
      let (w', out, run, served) =
        service-Serviced S swap_with_back r wr swap_with_back-Removes (suc (length svr1.conns)) w1
          [] svr1.conns (omega arith) in
      (w', out, rw (after_select, run) refl, served)

  -- A turn of a listening server's loop comes to an end: where select fails it returns -1 and
  -- leaves the connections as the first pass left them, and else it returns 0 and has served each
  -- connection, that which it accepted included, exactly once, in some order, destroying just
  -- those whose read or write failed.
  pub iterate-ServerTurn :
      (select : Selects) (accepted : Option ℕ) (w : S.World) (svr : Server S) (s : ℕ)
      → svr.s ≡ some s
      → let v = watched s w svr in
        ServerTurn
          (select v.nfds v.read_fds v.write_fds)
          s
          accepted
          w
          svr
          (iterate S select accepted w svr)
  unfolding iterate
  iterate-ServerTurn select accepted w svr s e =
      let v = watched s w svr in
      subst (ServerTurn (select v.nfds v.read_fds v.write_fds) s accepted w svr)
        (sym (
          ap
            (λ o. in_range o >>= λ s.
              let v = watched s w svr in
              after_select S s accepted v svr (select v.nfds v.read_fds v.write_fds))
            e))
        (after_select-ServerTurn accepted w svr s (select v.nfds v.read_fds v.write_fds))
