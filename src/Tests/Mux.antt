-- ===== src/Tests/Mux.antt =====
-- A multiplexed connection on concrete calls.
use gnyproxy.Prelude.{ℕ, ◌≡◌, true, [], arith, take, drop}
use gnyproxy.Prelude.Int.{pos}
use gnyproxy.Socket.{received}
use gnyproxy.Multiconn.{
  Virtual, Calls, Multiconn, create, get_write_size, write, add_virtual_connection, update,
  size_bytes, store, full_size,
}
use gnyproxy.Multiconn.Frame.{full_size-size_bytes}
use gnyproxy.Multiconn.Queue.{IsSound}
use gnyproxy.Multiconn.Steps.{creates, sizes, writes, adds, updates, Reached-IsSound}

-- Virtual connections that hold a number of bytes to write.
abbrev counters : Virtual
counters = record {
  Conn = ℕ;
  created = 0;
  write_size = λ c. (c, c);
  read = λ c n. (pos n, c);
  write = λ c n. (pos n, 0);
}

abbrev calls : Calls
calls = record {
  recv_id = received [];
  recv_sz = λ n. received [];
  send_id = λ id. pos 1;
  send_sz = λ bytes. pos 2;
  can_first = true;
  can_second = true;
}

abbrev two_added : Multiconn counters
two_added =
    (add_virtual_connection counters (add_virtual_connection counters (create counters) 3).1 5).1

abbrev first_written : Multiconn counters
first_written = (write counters calls (get_write_size counters two_added).1 100).1

Reached-IsSound_example : IsSound (update counters first_written)
Reached-IsSound_example = Reached-IsSound (update counters first_written) (
    updates first_written (
      writes calls (get_write_size counters two_added).1 100 (
        sizes two_added (
          adds (add_virtual_connection counters (create counters) 3).1 5
            (adds (create counters) 3 creates)))))

full_size-size_bytes_example :
    (full_size counters (store counters 0 0 (size_bytes counters 300)) ≡ 300)
    × (full_size counters (
          store counters
            (store counters 0 0 (take 1 (size_bytes counters 300)))
            1
            (drop 1 (size_bytes counters 300)))
        ≡ 300)
full_size-size_bytes_example = full_size-size_bytes counters 300 (omega arith) (omega arith)
