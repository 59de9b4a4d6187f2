-- ===== src/Tests/Loops.antt =====
-- The select loops, and the requester, on concrete connections.
use gnyproxy.Prelude.{◌==◌, if◌then◌else◌, ℕ, ◌+◌, ◌≡◌, refl, true, [], ◌∷◌, some, ok, All, arith}
use gnyproxy.Prelude.Int.{pos, negsuc}
use gnyproxy.Select.{Services, Conns, FdSet, Selects, fd_zero, fd_set, Watch, watch, service}
use gnyproxy.Select.Drop.{swap_with_back-replace_by_back}
use gnyproxy.Select.Watched.{Bounded, watch-Bounded, sockets, watch-sockets}
use gnyproxy.Client.{replace_by_back}
use gnyproxy.Client.Loop.{Turn, watched, iterate-Turn}
use gnyproxy.Server.{Server, swap_with_back}
use gnyproxy.Server.Loop.{ServerTurn, iterate-ServerTurn}

-- Connections that hold a number of bytes to write; one with 9 bytes fails when it reads. The world counts
-- what is read, and those that are destroyed in hundreds.
abbrev counters : Services
counters = record {
  World = ℕ;
  Conn = ℕ;
  Init = ℕ;
  creator = λ w c. (w, c);
  update = λ w c. (w, c);
  write_size = λ w c. (c, w, c);
  read = λ w c n. (if c == 9 then negsuc 0 else pos 1, w + 1, c);
  write = λ w c n. (pos 1, w, c);
  destroy = λ w c. w + 100;
}

abbrev three : Conns counters
three = (4, 9) ∷ (6, 0) ∷ (5, 2) ∷ []

abbrev all_ready : Selects
all_ready nfds read_fds write_fds = some (read_fds, write_fds)

abbrev listening : Server counters
listening = record { s = some 3; init_data = 1; conns = three }

iterate-Turn_example :
    Turn counters
      (all_ready
        (watched counters 0 three).nfds
        (watched counters 0 three).read_fds
        (watched counters 0 three).write_fds)
      0
      three
      (gnyproxy.Client.iterate counters all_ready 0 three)
iterate-Turn_example = iterate-Turn counters all_ready 0 three

iterate-ServerTurn_example :
    let v = gnyproxy.Server.Loop.watched counters 3 0 listening in
    ServerTurn counters
      (all_ready v.nfds v.read_fds v.write_fds)
      3
      (some 8)
      0
      listening
      (gnyproxy.Server.iterate counters all_ready (some 8) 0 listening)
iterate-ServerTurn_example = iterate-ServerTurn counters all_ready (some 8) 0 listening 3 refl

watch-Bounded_example : Bounded counters (watch counters three 0 0 fd_zero fd_zero)
watch-Bounded_example =
    watch-Bounded counters three 0 0 fd_zero fd_zero (λ s h. absurd (cc)) (λ s h. absurd (cc))

watch-sockets_example :
    let v = watch counters three 0 0 fd_zero fd_zero in
    (sockets counters v.conns ≡ sockets counters three)
    × All (λ s. v.read_fds s ≡ true) (sockets counters three)
watch-sockets_example = watch-sockets counters three 0 0 fd_zero fd_zero

swap_with_back-replace_by_back_example : swap_with_back three 0 ≡ replace_by_back three 0
swap_with_back-replace_by_back_example = swap_with_back-replace_by_back three 0 (omega arith)

-- The first connection fails and is destroyed, and the others are served.
client_run :
    gnyproxy.Client.iterate counters all_ready 0 three ≡ ok (pos 0, 103, (5, 2) ∷ (6, 0) ∷ [])
unfolding gnyproxy.Client.iterate gnyproxy.Client.after_select service watch gnyproxy.Select.serve
    replace_by_back
client_run = refl
