-- ===== src/Tests/Proxy.antt =====
-- The proxy on concrete calls: a CONNECT request, a tunnel, and a server.
use gnyproxy.HttpProxy.Linker.Order.{get_write_size-InOrder}
use gnyproxy.HttpProxy.Linker.Retires.{InOrder}
use gnyproxy.Prelude.{
  if◌then◌else◌, ℕ, ◌+◌, ◌≡◌, ◌↔◌, refl, true, false, [], ◌∷◌, ◌++◌, none, Bytes, ok, fault,
  out_of_range, length, arith,
}
use gnyproxy.Prelude.Int.{ℤ, pos}
use gnyproxy.Socket.{received, failed}
use gnyproxy.HttpMessage.{
  init, add_header, append_entity, end_header, end_entity, end_footer, set_status, is_sent,
}
use gnyproxy.Common.{parse_host, find_last_of}
use gnyproxy.Http.{c_str, strcasecmp, tolower}
use gnyproxy.MessageSink11.{same_name}
use gnyproxy.HttpProxy.{generate_message}
use gnyproxy.HttpProxy.Linker.{
  Proxy, Situation, create, read, write, get_write_size, queue_size, transaction_over, read_request,
  patch, patch_to, endpoint_of, patch_tunnel, patch_request, find_host, request_sent,
  refuse_unconnected, next_request, respond, finish_request,
}
use gnyproxy.HttpProxy.Linker.Reads.{
  Reached, creates, reads, stop, then_read, read_unchecked, write_unchecked, read-read_unchecked,
  write-write_unchecked,
}
use gnyproxy.HttpProxy.Tunnel.Ends.{Ends, opened, link_read, tunnel_write, tunnel_destroy, requests}
use gnyproxy.HttpProxy.Tunnel.Reached.{opens, link_reads, tunnel_writes, to_server-from_client}
use gnyproxy.HttpProxy.Tunnel.Reached
use gnyproxy.HttpProxy.Tunnel.{Pipe, recv_data, send_data}
use gnyproxy.HttpProxy.Tunnel
use gnyproxy.HttpProxy.Tunnel.Linked.{Reached-IsUsable}
use gnyproxy.Tests.Toys.{socket, value, toy_readers, toy_writers, draining_writers, request_readers}

-- A requester that takes every request.
abbrev proxy : Proxy
proxy = record {
  Req = ℕ;
  add_request = λ req heap endpoint copier. ok (true, req + 1, heap);
  add_connection = λ req heap endpoint connect_msg. ok (true, req + 1, heap);
  forward = none;
  a_reader_creator = toy_readers;
  a_writer_creator = toy_writers;
}

abbrev start : Situation proxy
start = create proxy 0 (λ _. none) 1

abbrev connected : ℤ × Situation proxy
connected = value (pos 0, start) (read proxy start (socket []) (λ n. failed) 100 2 3)

abbrev sized : ℕ × Situation proxy
sized = value (0, start) (get_write_size proxy connected.1)

abbrev read_again : ℤ × Situation proxy
read_again = value (pos 0, start) (read proxy sized.1 (socket []) (λ n. failed) 100 4 5)

connected_reached : Reached proxy connected.1
unfolding read create read_request patch patch_to endpoint_of parse_host find_last_of c_str
    patch_tunnel respond generate_message init add_header append_entity end_header end_entity
    end_footer set_status finish_request
connected_reached =
    reads start (socket []) (λ n. failed) 100 2 3 connected (creates 0 (λ _. none) 1) refl

read-read_unchecked_example :
    read proxy connected.1 (socket []) (λ n. failed) 100 4 5
    ≡ read_unchecked proxy connected.1 (socket []) (λ n. failed) 100 4 5
read-read_unchecked_example =
    read-read_unchecked proxy connected.1 connected_reached (socket []) (λ n. failed) 100 4 5

write-write_unchecked_example :
    write proxy read_again.1 (socket []) 3 ≡ write_unchecked proxy read_again.1 (socket []) 3
unfolding get_write_size queue_size transaction_over read create read_request patch patch_to
    endpoint_of parse_host find_last_of c_str patch_tunnel respond generate_message init add_header
    append_entity end_header end_entity end_footer set_status finish_request
write-write_unchecked_example =
    write-write_unchecked proxy connected.1 5 sized.1 read_again.1 connected_reached refl
      (omega arith)
      (then_read sized.1 sized.1 (socket []) (λ n. failed) 100 4 5 read_again (stop sized.1) refl)
      (socket []) 3

-- The client sends three bytes, and the server gets two of them.
abbrev client_sent : Ends
client_sent = value opened (link_read opened (λ n. received (1 ∷ 2 ∷ 3 ∷ [])) 100)

abbrev server_got : Ends
server_got = value opened (tunnel_write client_sent (socket []) 2)

server_got_reached : gnyproxy.HttpProxy.Tunnel.Reached.Reached server_got
unfolding recv_data send_data gnyproxy.HttpProxy.Tunnel.write
server_got_reached =
    tunnel_writes client_sent (socket []) 2 server_got
      (link_reads opened (λ n. received (1 ∷ 2 ∷ 3 ∷ [])) 100 client_sent opens refl refl) refl refl

to_server-from_client_example :
    (up : Bytes) × (down : Bytes) × (server_got.to_server ++ up ≡ server_got.from_client)
    × (server_got.to_client ++ down ≡ server_got.from_server)
to_server-from_client_example = to_server-from_client server_got server_got_reached

Reached-IsUsable_example :
    (gnyproxy.HttpProxy.Tunnel.get_write_size server_got.pipe
      ≡ ok (if server_got.link then length (requests server_got.pipe.strings) else 0))
    × ((p : ℤ × Pipe) × (gnyproxy.HttpProxy.Tunnel.read server_got.pipe (λ n. failed) 10 ≡ ok p))
    × ((e' : Ends) × (tunnel_destroy server_got ≡ ok e'))
unfolding recv_data send_data gnyproxy.HttpProxy.Tunnel.write
Reached-IsUsable_example = Reached-IsUsable server_got (λ n. failed) 10 server_got_reached refl

-- In a tunnel, the request is deleted with its response while it is still read.
abbrev hasty : Proxy
hasty = record proxy { a_writer_creator = draining_writers }

abbrev hasty_connected : ℤ × Situation hasty
hasty_connected =
    value (pos 0, create hasty 0 (λ _. none) 1)
      (read hasty (create hasty 0 (λ _. none) 1) (socket []) (λ n. failed) 100 2 3)

abbrev hasty_sized : ℕ × Situation hasty
hasty_sized = value (0, create hasty 0 (λ _. none) 1) (get_write_size hasty hasty_connected.1)

tunnel_reads_deleted :
    read hasty hasty_sized.1 (socket []) (λ n. failed) 100 4 5 ≡ fault out_of_range
unfolding get_write_size queue_size transaction_over request_sent is_sent read create read_request
    patch patch_to endpoint_of parse_host find_last_of c_str patch_tunnel respond generate_message
    init add_header append_entity end_header end_entity end_footer set_status finish_request
tunnel_reads_deleted = refl

-- A requester that can connect to nothing: the request that it refuses stays in the queue with its response.
abbrev refusing : Proxy
refusing = record proxy {
  add_request = λ req heap endpoint copier. ok (false, req + 1, heap);
  a_reader_creator = request_readers;
  a_writer_creator = draining_writers;
}

abbrev refused : ℤ × Situation refusing
refused =
    value (pos 0, create refusing 0 (λ _. none) 1)
      (read refusing (create refusing 0 (λ _. none) 1) (socket []) (λ n. failed) 100 2 3)

abbrev refused_sized : ℕ × Situation refusing
refused_sized = value (0, refused.1) (get_write_size refusing refused.1)

refused_stays : (refused_sized.0 ≡ 0) × ((refused_sized.1).link.response_queue ≡ (1, 2) ∷ [])
unfolding get_write_size queue_size transaction_over request_sent is_sent read create read_request
    patch patch_to endpoint_of find_host same_name strcasecmp tolower parse_host find_last_of c_str
    patch_request respond generate_message init add_header append_entity end_header end_entity
    end_footer set_status finish_request refuse_unconnected next_request
refused_stays = (refl, refl)

-- In a tunnel, the response that the writer has drained leaves, whatever becomes of the request.
hasty_sized_ok : get_write_size hasty hasty_connected.1 ≡ ok hasty_sized
unfolding get_write_size queue_size transaction_over request_sent is_sent read create read_request
    patch patch_to endpoint_of parse_host find_last_of c_str patch_tunnel respond generate_message
    init add_header append_entity end_header end_entity end_footer set_status finish_request
hasty_sized_ok = refl

get_write_size-InOrder_example :
    (get_write_size hasty hasty_connected.1 ≡ ok hasty_sized)
    ↔ InOrder hasty hasty_connected.1 hasty_sized
get_write_size-InOrder_example =
    get_write_size-InOrder hasty hasty_connected.1 hasty_sized.0 hasty_sized.1
