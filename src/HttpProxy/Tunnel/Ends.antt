-- ===== src/HttpProxy/Tunnel/Ends.antt =====
-- A tunnel and the link that it belongs to, with the bytes that came and went.

use gnyproxy.Prelude.{
  ℕ, min, Bool, true, false, [], ◌++◌, Option, none, some, ◌==◌, if◌then◌else◌, Bytes, take, Result,
  ok, ◌>>=◌, in_range,
}
use gnyproxy.Prelude.Int.{ℤ, pos, negsuc}
use gnyproxy.Socket.{Socket, Received, received, failed}
use gnyproxy.HttpProxy.Tunnel.{Pipe, send_data, recv_data, release, destroy, write, read}

-- A tunnel between a link and a virtual connection: which of the two are there, and what came from and went to the
-- client and the server so far.
pub record Ends : Type 0 where
  pub pipe : Pipe
  pub link : Bool
  pub tunnel : Bool
  pub from_client : Bytes
  pub to_server : Bytes
  pub from_server : Bytes
  pub to_client : Bytes

abbrev pub opened : Ends
opened = record {
  pipe = record { strings = some ([], []); linked_count = some 2 };
  link = true;
  tunnel = true;
  from_client = [];
  to_server = [];
  from_server = [];
  to_client = [];
}

-- What `send` has taken, and what `recv` has given.
abbrev pub taken : ℤ → Bytes → Bytes
taken (pos amt) bytes = take amt bytes
taken (negsuc e) bytes = []

abbrev pub given : Received → Bytes
given failed = []
given (received buf) = buf

abbrev pub requests : Option (Bytes × Bytes) → Bytes
requests none = []
requests (some (data_req, data_res)) = data_req

-- The calls with what they move: those of the tunnel, which does nothing where the link is gone, and
-- those of the link, which are only made while there is one.
abbrev pub tunnel_write : Ends → Socket → ℕ → Result Ends
tunnel_write e s max_write = do
  (amt, p) ← write e.pipe s max_write
  ok (record e { pipe = p; to_server = e.to_server ++ taken amt (requests e.pipe.strings) })

abbrev pub both_there : Option ℕ → Bool
both_there none = false
both_there (some n) = n == 2

abbrev pub tunnel_read : Ends → (ℕ → Received) → ℕ → Result Ends
tunnel_read e recv max_read = do
  (amt, p) ← read e.pipe recv max_read
  let came = if both_there e.pipe.linked_count then given (recv (min 1024 max_read)) else []
  ok (record e { pipe = p; from_server = e.from_server ++ came })

abbrev pub link_write : Ends → Socket → ℕ → Result Ends
link_write e s max_write = do
  (data_req, data_res) ← in_range e.pipe.strings
  (amt, left) ← send_data data_res s max_write
  ok (record e {
    pipe = record (e.pipe) { strings = some (data_req, left) };
    to_client = e.to_client ++ taken amt data_res;
  })

abbrev pub link_read : Ends → (ℕ → Received) → ℕ → Result Ends
link_read e recv max_read = do
  (data_req, data_res) ← in_range e.pipe.strings
  let (amt, more) = recv_data data_req recv max_read
  ok (record e {
    pipe = record (e.pipe) { strings = some (more, data_res) };
    from_client = e.from_client ++ given (recv (min 1024 max_read));
  })

abbrev pub tunnel_destroy : Ends → Result Ends
tunnel_destroy e = do p ← destroy e.pipe; ok (record e { pipe = p; tunnel = false })

-- The link's strings end with it.
abbrev pub link_destroy : Ends → Result Ends
link_destroy e = do
  p ← release e.pipe
  ok (record e { pipe = record p { strings = none }; link = false })
