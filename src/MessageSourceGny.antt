-- ===== src/MessageSourceGny.antt =====
-- message_source_gny.h and message_source_gny.cpp: the GNY wire format is read byte by byte into a
-- message. `data_stream` holds the bytes from the start of the item that is being read, and `pos`,
-- `substate` and the loop's `i` are positions in it. The
-- field `start` is the source's `pos`. `http_msg_ptr` is the field `msg`.
pub mod Spec
pub mod Config
pub mod Refine
pub mod Rounds
pub mod Closing
pub mod Reads
pub mod Pieces
pub mod Decode
use gnyproxy.Prelude.{
  ℕ, zero, suc, ◌+◌, ◌-◌, ◌^◌, min, Bool, true, false, List, [], ◌∷◌, ◌++◌, leb, ◌==◌,
  if◌then◌else◌, Bytes, take, drop, length, Result, ok, fault, out_of_range, ◌>>=◌, ◌>>◌, assert,
}
use gnyproxy.Prelude.Int.{ℤ, pos, negsuc}
use gnyproxy.Common.{read_short}
use gnyproxy.Http.{c_str, header_unknown, header_end, headertoa}
use gnyproxy.HttpMessage.{
  MessageState, rank, HttpMessage, set_verb, set_url, set_status, end_header, end_entity,
  end_footer, add_header, add_footer, append_entity,
}
use gnyproxy.Socket.{Socket, Received, received, failed, is_amount}

-- The states of the reader.
pub data State : Type 0 where
  init_verb init_url init_status header_start header_key header_value : State
  entity_start entity done : State

pub record MessageSourceGny : Type 0 where
  pub msg : HttpMessage
  pub data_stream : Bytes
  pub start : ℕ
  pub state : State
  pub substate : ℕ
  pub key : ℕ

abbrev pub max_read_size : ℕ
max_read_size = 65536

-- The constructor.
unfoldable pub create : HttpMessage → MessageSourceGny
create http_msg_ptr = record {
  msg = http_msg_ptr;
  data_stream = [];
  start = 0;
  state = if http_msg_ptr.is_request then init_verb else init_status;
  substate = 0;
  key = header_unknown;
}

-- `data_stream.data() + p` as a string of C: beyond the end it is out of range.
unfoldable pub c_string_at : Bytes → ℕ → Result Bytes
c_string_at str p = if leb p (length str) then ok (c_str (drop p str)) else fault out_of_range

-- `add_header` in the header state of the message, and `add_footer` later.
unfoldable pub add_pair : HttpMessage → Bytes → Bytes → Result HttpMessage
unfolding add_header add_footer
add_pair msg k v =
    if rank msg.state == rank MessageState.header then add_header msg k v else add_footer msg k v

-- The flag of a header.
unfoldable pub start_header : MessageSourceGny → ℕ → ℕ → Result MessageSourceGny
start_header r i ch =
    let flagged = record r { key = ch; start = i + 1 } in
    if ch == header_end
    then (if rank r.msg.state == rank MessageState.header
        then (do m ← end_header r.msg; ok (record flagged { msg = m; state = entity_start }))
        else (do m ← end_footer r.msg; ok (record flagged { msg = m; state = done })))
    else ok (record flagged { state = if ch == header_unknown then header_key else header_value })

-- The name and the value of the header that ends at `i`.
unfoldable pub end_value : MessageSourceGny → ℕ → Result MessageSourceGny
end_value r i =
    let ended = record r { start = i + 1; state = header_start } in
    if r.key == header_unknown
    then (do
      name ← c_string_at r.data_stream r.start
      value ← c_string_at r.data_stream r.substate
      m ← add_pair r.msg name value
      ok (record ended { msg = m }))
    else (do
      name ← headertoa r.key
      value ← c_string_at r.data_stream r.start
      m ← add_pair r.msg name value
      ok (record ended { msg = m }))

-- The size of the next chunk, which ends at `i`; 0 ends the entity.
unfoldable pub start_chunk : MessageSourceGny → ℕ → Result MessageSourceGny
start_chunk r i = do
  size ← read_short r.data_stream r.start
  let sized = record r { substate = size; start = i + 1 }
  (if size == 0
      then (do m ← end_entity r.msg; ok (record sized { msg = m; state = header_start }))
      else ok (record sized { state = entity }))

-- The body of the loop, at the byte `ch` at `i`.
unfoldable pub step_in : State → MessageSourceGny → ℕ → ℕ → Result MessageSourceGny
unfolding start_header end_value start_chunk
step_in init_verb r i ch =
    ok (record r { msg = set_verb r.msg ch; state = init_url; start = i + 1 })
step_in init_url r i ch =
    if ch == 0
    then (do
      url ← c_string_at r.data_stream r.start
      ok (record r { msg = set_url r.msg url; state = header_start; start = i + 1 }))
    else ok r
step_in init_status r i ch =
    if r.start + 1 == i
    then (do
      status ← read_short r.data_stream r.start
      ok (record r { msg = set_status r.msg (pos status); state = header_start; start = i + 1 }))
    else ok r
step_in header_start r i ch = start_header r i ch
step_in header_key r i ch =
    ok (if ch == 0 then record r { state = header_value; substate = i + 1 } else r)
step_in header_value r i ch = if ch == 0 then end_value r i else ok r
step_in entity_start r i ch = if r.start + 1 == i then start_chunk r i else ok r
step_in entity r i ch =
    let counted = record r { substate = r.substate - 1 } in
    if r.substate - 1 == 0
    then (do
      m ← append_entity r.msg (take (i + 1 - r.start) (drop r.start r.data_stream))
      ok (record counted { msg = m; start = i + 1; state = entity_start }))
    else ok counted
step_in done r i ch = ok r

abbrev pub is_done : State → Bool
is_done done = true
is_done _ = false

-- The loop over the bytes from `i` on; it ends early when the message is complete.
unfoldable pub loop : Bytes → ℕ → MessageSourceGny → Result (ℕ × MessageSourceGny)
unfolding step_in
loop [] i r = ok (i, r)
loop (ch ∷ rest) i r = elim (is_done r.state) [
  | true ↦ ok (i, r)
  | false ↦ do r' ← step_in r.state r i ch; loop rest (i + 1) r'
]

-- The part of a chunk that has come so far is handed on.
unfoldable pub flush : MessageSourceGny → Result MessageSourceGny
flush r = elim r.state [
  | entity ↦ do
    m ← append_entity r.msg (drop r.start r.data_stream)
    ok (record r { msg = m; start = length r.data_stream })
  | _ ↦ ok r
]

-- `if(pos) { data_stream = data_stream.substr(pos); pos = 0; }`.
unfoldable pub trim_stream : MessageSourceGny → MessageSourceGny
trim_stream r =
    if r.start == 0 then r else record r { data_stream = drop r.start r.data_stream; start = 0 }

-- `read` behind its loop, which stopped at `i`.
unfoldable pub close_read : Socket → Bytes → ℕ × MessageSourceGny → Result (ℤ × MessageSourceGny)
close_read s rbuf (i, r) = do
  f ← flush r
  let recv_amt = length rbuf - (length f.data_stream - i)
  assert (is_amount (s.consume recv_amt) recv_amt)
  ok (pos recv_amt, trim_stream f)

-- `read`, on the bytes that `recv` has shown.
unfoldable pub read_bytes : MessageSourceGny → Socket → Bytes → Result (ℤ × MessageSourceGny)
read_bytes r s rbuf = do
  let full = record r { data_stream = r.data_stream ++ rbuf }
  end ← loop rbuf (length r.data_stream) full
  close_read s rbuf end

unfoldable pub read : MessageSourceGny → Socket → ℕ → Result (ℤ × MessageSourceGny)
unfolding read_bytes
read r s max_read = elim (s.peek (min max_read max_read_size)) [
  | failed ↦ ok (negsuc 0, r)
  | received [] ↦ ok (pos 0, r)
  | received (b ∷ rbuf) ↦ read_bytes r s (b ∷ rbuf)
]
