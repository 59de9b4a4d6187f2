-- ===== src/Tests/Requests.antt =====
-- The requester with connections that carry one request at a time, and the server's side.
use gnyproxy.Prelude.{ℕ, ◌+◌, ◌≡◌, refl, Bool, true, false, [], ◌∷◌, some, ok, Holds}
use gnyproxy.Prelude.Int.{ℤ, pos}
use gnyproxy.HttpMessage.{MessageState, init, is_sent}
use gnyproxy.Client.{Dial, any_connects, dial_socket}
use gnyproxy.ReqLinker.{
  Exchange, Endpoint, same_bytes, same_endpoint, put_at, Links, check_work, finish, read,
  get_write_size,
}
use gnyproxy.ReqLinker
use gnyproxy.ReqLinker.Idle.{IsIdle}
use gnyproxy.PointerSet.{insert}
use gnyproxy.Requester.{
  Wrapping, identity, Requester, create, limit, add_request, add_connection, offer, connect_new,
  req_linker_creator, reuse,
}
use gnyproxy.Requester.Direct.{add_request-identity}
use gnyproxy.Requester.Given.{identity-IsWrapping, Handed, reuse-Handed}
use gnyproxy.Requester.Handing.{add_request-Handed}
use gnyproxy.Requester.Bounds.{IsBounded, Reached-IsBounded}
use gnyproxy.Requester.Bounds
use gnyproxy.Requester.Reached.{Reached, creates, requests, sizes, reads, Reached-IsIdle}
use gnyproxy.HttpServer.{Generation, EntityLinker}
use gnyproxy.HttpServer
use gnyproxy.HttpServer.Calls.{HasWriter, Reached-HasWriter}
use gnyproxy.HttpServer.Calls
use gnyproxy.Tests.Toys.{socket, value, toy_writers, quick_readers, quiet_writers}

-- Generators that are numbers, and make complete requests.
abbrev numbers : Exchange
numbers = record {
  World = ℕ;
  Gen = ℕ;
  generate_request = λ w gen msg. ok (w, gen, record msg { state = MessageState.done });
  read_response = λ w gen msg. ok (w, gen, msg);
  destroy = λ w gen. w + 1;
  reader_creator = quick_readers;
  writer_creator = quiet_writers;
}

abbrev wrapping : Wrapping numbers
wrapping = identity numbers

abbrev dial : Dial
dial = record { socket = some 4; addresses = some (false ∷ true ∷ []) }

abbrev endpoint : Endpoint
endpoint = (b'h' ∷ [], b'8' ∷ [])

abbrev empty : Requester numbers wrapping
empty = create numbers wrapping 0 (pos 1)

abbrev one_asked : Bool × Requester numbers wrapping
one_asked = value (false, empty) (add_request numbers wrapping empty endpoint 7 dial 10 20)

asked : add_request numbers wrapping empty endpoint 7 dial 10 20 ≡ ok one_asked
unfolding create add_request add_connection offer connect_new dial_socket any_connects
    req_linker_creator limit gnyproxy.ReqLinker.create gnyproxy.ReqLinker.add_request
asked = refl

add_request-Handed_example :
    Holds
      (Handed numbers wrapping empty.links)
      (add_request numbers wrapping empty endpoint 7 dial 10 20)
unfolding create
add_request-Handed_example =
    add_request-Handed numbers wrapping (identity-IsWrapping numbers) endpoint 7 10 empty dial 20
      (Reached-IsIdle numbers wrapping (identity-IsWrapping numbers) empty (creates 0 (pos 1))) refl

Reached-IsBounded_example : IsBounded numbers wrapping one_asked.1
Reached-IsBounded_example = Reached-IsBounded numbers wrapping one_asked.1 (
    gnyproxy.Requester.Bounds.requests empty endpoint 7 dial 10 20 one_asked
      (gnyproxy.Requester.Bounds.creates 0 (pos 1)) asked)

asked_reached : Reached numbers wrapping one_asked.1
unfolding create
asked_reached = requests empty endpoint 7 dial 10 20 one_asked (creates 0 (pos 1)) refl asked

-- The request is made, and the response comes: the linker becomes idle.
abbrev written : ℕ × Links numbers
written = value (0, empty.links) (get_write_size numbers (one_asked.1).links 10)

abbrev answered : ℤ × Links numbers
answered = value (pos 0, empty.links) (read numbers written.1 10 (socket []) 100)

abbrev idle_one : Requester numbers wrapping
idle_one = record (one_asked.1) { links = answered.1 }

idle_reached : Reached numbers wrapping idle_one
unfolding get_write_size read check_work finish is_sent create add_request add_connection offer
    connect_new dial_socket any_connects req_linker_creator limit gnyproxy.ReqLinker.create
    gnyproxy.ReqLinker.add_request init
idle_reached =
    reads (record (one_asked.1) { links = written.1 }) 10 (socket []) 100 answered
      (sizes one_asked.1 10 written asked_reached refl) refl

Reached-IsIdle_example : IsIdle numbers idle_one.links
Reached-IsIdle_example =
    Reached-IsIdle numbers wrapping (identity-IsWrapping numbers) idle_one idle_reached

reuse-Handed_example :
    (r' : Requester numbers wrapping) × (reuse numbers wrapping idle_one endpoint 8 10 []
      ≡ ok (true, r'))
    × Handed numbers wrapping idle_one.links (true, r')
unfolding get_write_size read check_work finish is_sent create add_request add_connection offer
    connect_new dial_socket any_connects req_linker_creator limit gnyproxy.ReqLinker.create
    gnyproxy.ReqLinker.add_request init put_at same_endpoint same_bytes insert
reuse-Handed_example =
    reuse-Handed numbers wrapping idle_one endpoint 8 10 []
      (Reached-IsIdle numbers wrapping (identity-IsWrapping numbers) idle_one idle_reached) refl

-- Generators that count the calls of `process`.
abbrev counting : Generation
counting = record {
  Gen = ℕ;
  created = 0;
  process = λ gen in_msg out_msg. ok (gen + 1, in_msg, out_msg);
  reader_creator = quick_readers;
  writer_creator = toy_writers;
}

abbrev served : EntityLinker counting
served = gnyproxy.HttpServer.create counting

abbrev served_size : ℕ × EntityLinker counting
served_size = value (0, served) (gnyproxy.HttpServer.get_write_size counting served)

abbrev served_read : ℤ × EntityLinker counting
served_read =
    value (pos 0, served) (gnyproxy.HttpServer.read counting served_size.1 (socket []) 100)

Reached-HasWriter_example : HasWriter counting served_read.1
unfolding gnyproxy.HttpServer.create gnyproxy.HttpServer.get_write_size gnyproxy.HttpServer.read
    gnyproxy.HttpServer.retire gnyproxy.HttpServer.renew gnyproxy.HttpServer.measure
    gnyproxy.HttpServer.process_front gnyproxy.HttpServer.writer_size
    gnyproxy.HttpServer.new_transaction gnyproxy.HttpServer.next_request gnyproxy.HttpServer.is_done
    is_sent init
Reached-HasWriter_example =
    Reached-HasWriter counting (λ gen in_msg out_msg. refl) served 5 served_size.1 served_read.1
      gnyproxy.HttpServer.Calls.creates refl
      (gnyproxy.HttpServer.Calls.then_read served_size.1 served_size.1 (socket []) 100 served_read
        (gnyproxy.HttpServer.Calls.stop served_size.1) refl)

add_request-identity_example :
    (p : Bool × Requester numbers wrapping) × (add_request numbers wrapping idle_one endpoint 8 dial
        11 21
      ≡ ok p)
    × Handed numbers wrapping idle_one.links p
unfolding get_write_size read check_work finish is_sent create add_request add_connection offer
    connect_new dial_socket any_connects req_linker_creator limit gnyproxy.ReqLinker.create
    gnyproxy.ReqLinker.add_request init put_at same_endpoint same_bytes insert
add_request-identity_example =
    add_request-identity numbers idle_one endpoint 8 dial 11 21
      (Reached-IsIdle numbers wrapping (identity-IsWrapping numbers) idle_one idle_reached) refl
      (refl, tt)
