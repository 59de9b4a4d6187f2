-- ===== src/HttpProxy/Linker.antt =====
-- The class ALinker of http_proxy.cpp: the client's side of the proxy. It reads requests, has them sent
-- on, and writes the responses in order, or becomes one end of a tunnel. Messages are found by
-- their addresses; those that `new` gives are arguments.
pub mod Sound
pub mod Reading
pub mod Reads
pub mod Retires
pub mod Order
use gnyproxy.Prelude.{
  ℕ, ◌-◌, Bool, true, false, not, ◌&&◌, ◌||◌, List, [], ◌∷◌, ◌++◌, Option, none, some, ◌==◌,
  if◌then◌else◌, Bytes, codes, length, Result, ok, ◌>>=◌, ◌>>◌, assert, in_range,
}
use gnyproxy.Prelude.Int.{ℤ, pos}
use gnyproxy.Common.{parse_host}
use gnyproxy.Http.{c_str, http_request_connect, http_request_verb_unknown}
use gnyproxy.HttpMessage.{MessageState, rank, KeyValue, HttpMessage, init, is_sent, is_empty}
use gnyproxy.MessageSink11.{same_name}
use gnyproxy.Socket.{Socket, Received}
use gnyproxy.Codec.{Readers, Writers}
use gnyproxy.Multiconn.{put}
use gnyproxy.ReqLinker.{Endpoint}
use gnyproxy.HttpProxy.{generate_message}
use gnyproxy.HttpProxy.Copier.{Heap, MessageCopier}
use gnyproxy.HttpProxy.Tunnel.{send_data, recv_data}

-- The class HttpProxy as a link uses it: the requester `req`, whose calls may change the messages, and
-- the host and the service to forward to.
pub record Proxy : Type 1 where
  pub Req : Type 0
  pub add_request : Req → Heap → Endpoint → MessageCopier → Result (Bool × Req × Heap)
  pub add_connection : Req → Heap → Endpoint → Option ℕ → Result (Bool × Req × Heap)
  pub forward : Option Endpoint
  pub a_reader_creator : Readers
  pub a_writer_creator : Writers

-- The first header with the name "host".
unfoldable pub find_host : List KeyValue → Endpoint
find_host [] = ([], [])
find_host ((name, value) ∷ headers) =
    let rest = find_host headers in if same_name name (codes "host") then parse_host value else rest

module _ (P : Proxy) where
  open P use {a_reader_creator, a_writer_creator}

  -- `reader_msg` counts while there is a reader.
  pub record ALinker : Type 0 where
    pub reader : Option a_reader_creator.Reader
    pub writer : Option a_writer_creator.Writer
    pub reader_msg : ℕ
    pub connected : Bool
    pub tunneler : Bool
    pub data_req : Bytes
    pub data_res : Bytes
    pub linked_count : Option ℕ
    pub response_queue : List (ℕ × ℕ)

  -- A link, the messages, and the requester.
  pub record Situation : Type 0 where
    pub link : ALinker
    pub heap : Heap
    pub req : P.Req

  -- The constructor, with the address of `reader_msg`.
  unfoldable pub create : P.Req → Heap → ℕ → Situation
  create req heap at = record {
    link = record {
      reader = some (a_reader_creator.create (init true));
      writer = none;
      reader_msg = at;
      connected = false;
      tunneler = false;
      data_req = [];
      data_res = [];
      linked_count = none;
      response_queue = [];
    };
    heap = put heap at (some (init true));
    req = req;
  }

  -- The writer of the front response.
  abbrev pub writer_of : Option a_writer_creator.Writer → HttpMessage → a_writer_creator.Writer
  writer_of none msg_res = a_writer_creator.create msg_res
  writer_of (some w) msg_res = a_writer_creator.point w msg_res

  -- `tunneler || msg_req->is_sent()`: the request is looked at where there is no tunnel.
  unfoldable pub request_sent : Bool → Heap → ℕ → Result Bool
  request_sent true heap msg_req = ok true
  request_sent false heap msg_req = do m ← in_range (heap msg_req); ok (is_sent m)

  -- Whether the front transaction is over, when its writer has `ret` bytes.
  unfoldable pub transaction_over : ℕ → Bool → Heap → ℕ → HttpMessage → Result Bool
  transaction_over ret tunneler heap msg_req res = elim (ret == 0) [
    | false ↦ ok false
    | true ↦ do sent ← request_sent tunneler heap msg_req; ok (sent && is_sent res)
  ]

  -- `get_write_size` with the queue that is left: the bytes, the messages, the writer and the queue.
  unfoldable pub queue_size :
      ALinker
      → Heap
      → Option a_writer_creator.Writer
      → List (ℕ × ℕ)
      → Result (ℕ × Heap × Option a_writer_creator.Writer × List (ℕ × ℕ))
  queue_size a heap writer [] = ok (if a.tunneler then length a.data_res else 0, heap, writer, [])
  queue_size a heap writer ((msg_req, msg_res) ∷ queue) = do
    m ← in_range (heap msg_res)
    (ret, w) ← a_writer_creator.get_write_size (writer_of writer m)
    let res = a_writer_creator.drained w
    let heap' = put heap msg_res (some res)
    over ← transaction_over ret a.tunneler heap' msg_req res
    elim over [
      | false ↦ ok (ret, heap', some w, (msg_req, msg_res) ∷ queue)
      | true ↦ queue_size a (put (put heap' msg_req none) msg_res none) none queue
    ]

  unfoldable pub get_write_size : Situation → Result (ℕ × Situation)
  get_write_size s = do
    (ret, heap, writer, queue) ← queue_size s.link s.heap s.link.writer s.link.response_queue
    ok (
      ret,
      record s { link = record (s.link) { writer = writer; response_queue = queue }; heap = heap },
    )

  -- The writer's message is the front response.
  unfoldable pub write_front :
      Situation → a_writer_creator.Writer → Socket → ℕ → Result (ℤ × Situation)
  write_front s writer sock max_write = elim s.link.response_queue [
    | [] ↦ do
      (amt, w) ← a_writer_creator.write writer sock max_write
      ok (amt, record s { link = record (s.link) { writer = some w } })
    | (msg_req, msg_res) ∷ queue ↦ do
      m ← in_range (s.heap msg_res)
      (amt, w) ← a_writer_creator.write (a_writer_creator.point writer m) sock max_write
      ok (
        amt,
        record s {
          link = record (s.link) { writer = some w };
          heap = put s.heap msg_res (some (a_writer_creator.drained w));
        },
      )
  ]

  unfoldable pub write : Situation → Socket → ℕ → Result (ℤ × Situation)
  write s sock max_write = elim s.link.writer [
    | some writer ↦ write_front s writer sock max_write
    | none ↦ do
      assert s.link.tunneler
      (amt, left) ← send_data s.link.data_res sock max_write
      ok (amt, record s { link = record (s.link) { data_res = left } })
  ]

  -- Where the request is to be sent.
  unfoldable pub endpoint_of : HttpMessage → Endpoint
  endpoint_of m = elim P.forward [
    | some endpoint ↦ endpoint
    | none ↦ if m.verb == http_request_connect then parse_host m.url else find_host m.headers
  ]

  -- `new http_message(false)`.
  abbrev pub new_response : Situation → ℕ → Situation
  new_response s at = record s { heap = put s.heap at (some (init false)) }

  -- `generate_message(msg_res, …)` and `append_response(reader_msg, msg_res)`, with the response at `at`.
  unfoldable pub respond : Situation → ℕ → ℤ → Bytes → Result Situation
  respond s at status info = do
    msg_res ← in_range (s.heap at)
    m ← generate_message msg_res status info
    ok (record s {
      link = record (s.link) {
        response_queue = s.link.response_queue ++ (s.link.reader_msg, at) ∷ [];
      };
      heap = put s.heap at (some m);
    })

  abbrev pub mark_connected : Situation → Situation
  mark_connected s = record s { link = record (s.link) { connected = true } }

  -- A normal request: it is sent on, or 504 is the response.
  unfoldable pub patch_request : Situation → Endpoint → ℕ → Result Situation
  patch_request s endpoint at = do
    (added, req, heap') ←
        P.add_request s.req (new_response s at).heap endpoint
          (record { msg_req = s.link.reader_msg; msg_res = at })
    let asked = record s { heap = heap'; req = req }
    elim added [
      | true ↦ ok (
          mark_connected (record asked {
            link = record (s.link) {
              response_queue = s.link.response_queue ++ (s.link.reader_msg, at) ∷ [];
            };
          }))
      | false ↦ do
        failed ← respond asked at (pos 504) (codes "Failed to connect to upstream server")
        ok (mark_connected failed)
    ]

  abbrev pub set_tunnel : Situation → Bool → Option ℕ → Situation
  set_tunnel s tunneler linked_count = record s {
    link = record (s.link) { tunneler = tunneler; linked_count = linked_count };
  }

  -- CONNECT: a tunnel, the response 200 unless the request goes on to an upstream proxy, or 504.
  unfoldable pub patch_tunnel : Situation → Endpoint → ℕ → Result Situation
  patch_tunnel s endpoint at = do
    let connect_msg = elim P.forward as (λ _. Option ℕ) [
      | none ↦ none
      | some e ↦ some s.link.reader_msg
    ]
    (added, req, heap) ← P.add_connection s.req s.heap endpoint connect_msg
    let asked = record s { heap = heap; req = req }
    elim added [
      | false ↦ do
        failed ←
            respond (new_response (set_tunnel asked false none) at) at (pos 504)
              (codes "Failed to connect to upstream server")
        ok (mark_connected failed)
      | true ↦ elim P.forward [
        | some e ↦ ok (mark_connected (set_tunnel asked true (some 2)))
        | none ↦ do
          tunnelled ← respond (new_response (set_tunnel asked true (some 2)) at) at (pos 200) []
          ok (mark_connected tunnelled)
      ]
    ]

  -- `if(!endpoint.first.empty())`.
  unfoldable pub patch_to : Situation → HttpMessage → ℕ → Endpoint → Result Situation
  patch_to s m at ([], service) = ok s
  patch_to s m at (b ∷ host, service) =
      let endpoint : Endpoint = (c_str (b ∷ host), c_str service) in
      if m.verb == http_request_connect
      then patch_tunnel s endpoint at
      else patch_request s endpoint at

  -- The request is patched through once its verb and URL are known, if its endpoint is found.
  unfoldable pub patch : Situation → HttpMessage → ℕ → Result Situation
  patch s m at =
      if not s.link.connected && (not (m.verb == http_request_verb_unknown) && not (is_empty m.url))
      then patch_to s m at (endpoint_of m)
      else ok s

  -- 400 where no endpoint was found.
  unfoldable pub refuse_unconnected : Situation → ℕ → Result Situation
  refuse_unconnected s at = elim s.link.connected [
    | true ↦ ok s
    | false ↦ respond (new_response s at) at (pos 400) (codes "no host header found")
  ]

  -- The next request, unless there is a tunnel; its message will be at `next`.
  unfoldable pub next_request : Situation → ℕ → Situation
  next_request s next = elim s.link.tunneler [
    | false ↦ record s {
      link = record (s.link) {
        reader = some (a_reader_creator.create (init true));
        reader_msg = next;
        connected = false;
      };
      heap = put s.heap next (some (init true));
    }
    | true ↦ record s { link = record (s.link) { reader = none; connected = false } }
  ]

  unfoldable pub finish_request : Situation → HttpMessage → ℕ → ℕ → Result Situation
  finish_request s m at next = elim (rank m.state == rank MessageState.done) [
    | false ↦ ok s
    | true ↦ do t ← refuse_unconnected s at; ok (next_request t next)
  ]

  -- `read` with a reader; the message is looked at again behind each part.
  unfoldable pub read_request :
      Situation → a_reader_creator.Reader → Socket → ℕ → ℕ → ℕ → Result (ℤ × Situation)
  read_request s reader sock max_read at next = do
    m ← in_range (s.heap s.link.reader_msg)
    (ret, r) ← a_reader_creator.read (a_reader_creator.point reader m) sock max_read
    let filled = a_reader_creator.filled r
    let came = record s {
      link = record (s.link) { reader = some r };
      heap = put s.heap s.link.reader_msg (some filled);
    }
    patched ← patch came filled at
    m' ← in_range (patched.heap s.link.reader_msg)
    done ← finish_request patched m' at next
    ok (ret, done)

  -- With what `recv` gives in a tunnel, and the addresses of a new response and of a new request.
  unfoldable pub read : Situation → Socket → (ℕ → Received) → ℕ → ℕ → ℕ → Result (ℤ × Situation)
  read s sock recv max_read at next = elim s.link.reader [
    | some reader ↦ read_request s reader sock max_read at next
    | none ↦ do
      assert s.link.tunneler
      let (amt, more) = recv_data s.link.data_req recv max_read
      ok (amt, record s { link = record (s.link) { data_req = more } })
  ]
