-- ===== src/HttpProxy/Tunnel.antt =====
-- The class Tunnel of http_proxy.cpp: the bytes between a client and a server, through two strings that
-- belong to the client's link. The counter says whether both sides are there.
pub mod Ends
pub mod Order
pub mod Reached
pub mod Linked
use gnyproxy.Prelude.{
  ℕ, suc, ◌+◌, ◌-◌, min, Bool, true, false, List, [], ◌++◌, Option, none, some, leb, ◌==◌,
  if◌then◌else◌, Bytes, drop, length, Result, ok, fault, out_of_range, ◌>>=◌, in_range,
}
use gnyproxy.Prelude.Int.{ℤ, pos, negsuc}
use gnyproxy.Socket.{Socket, Received, received, failed}

-- `data_req` and `data_res`, unless the link is gone, and the counter, unless it is deleted.
pub record Pipe : Type 0 where
  pub strings : Option (Bytes × Bytes)
  pub linked_count : Option ℕ

-- `send(s, data.data(), min(max_write, data.size()), 0)`, and `substr` where something was sent.
unfoldable pub send_data : Bytes → Socket → ℕ → Result (ℤ × Bytes)
send_data bytes s max_write = elim (s.send (min max_write (length bytes))) [
  | pos amt ↦ if leb amt (length bytes) then ok (pos amt, drop amt bytes) else fault out_of_range
  | negsuc e ↦ ok (negsuc e, bytes)
]

-- `recv(s, buf, min(sizeof(buf), max_read), 0)`, with the function that says what `recv` gives.
unfoldable pub recv_data : Bytes → (ℕ → Received) → ℕ → ℤ × Bytes
recv_data bytes recv max_read = elim (recv (min 1024 max_read)) [
  | failed ↦ (negsuc 0, bytes)
  | received buf ↦ (pos (length buf), bytes ++ buf)
]

-- `--(*linked_count) == 0` and `delete linked_count`.
unfoldable pub release : Pipe → Result Pipe
release p = do
  n ← in_range p.linked_count
  ok (record p { linked_count = if n - 1 == 0 then none else some (n - 1) })

-- The destructor.
unfoldable pub destroy : Pipe → Result Pipe
destroy p = release p

unfoldable pub get_write_size : Pipe → Result ℕ
get_write_size p = do
  n ← in_range p.linked_count
  elim (n == 2) [
    | false ↦ ok 0
    | true ↦ do (data_req, data_res) ← in_range p.strings; ok (length data_req)
  ]

unfoldable pub write : Pipe → Socket → ℕ → Result (ℤ × Pipe)
write p s max_write = do
  n ← in_range p.linked_count
  elim (n == 2) [
    | false ↦ ok (pos 0, p)
    | true ↦ do
      (data_req, data_res) ← in_range p.strings
      (amt, left) ← send_data data_req s max_write
      ok (amt, record p { strings = some (left, data_res) })
  ]

unfoldable pub read : Pipe → (ℕ → Received) → ℕ → Result (ℤ × Pipe)
read p recv max_read = do
  n ← in_range p.linked_count
  elim (n == 2) [
    | false ↦ ok (pos 0, p)
    | true ↦ do
      (data_req, data_res) ← in_range p.strings
      let (amt, more) = recv_data data_res recv max_read
      ok (amt, record p { strings = some (data_req, more) })
  ]
