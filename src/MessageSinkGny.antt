-- ===== src/MessageSinkGny.antt =====
-- message_sink_gny.h and message_sink_gny.cpp: a message is written to `data_stream` as far as it is
-- known, in the GNY wire format. `http_msg_ptr` is the field `msg`, the message as it stands when a
-- method is called: its owner may change it between calls.
pub mod Pairs
pub mod Chunks
pub mod Encode
use gnyproxy.Prelude.{
  ℕ, zero, suc, ◌+◌, ◌-◌, ◌%◌, ◌^◌, min, Bool, true, false, ◌&&◌, ◌||◌, List, [], ◌∷◌, ◌++◌, Option,
  none, some, leb, ltb, ◌==◌, if◌then◌else◌, Bytes, take, drop, length, Result, ok, fault,
  out_of_fuel, ◌>>=◌, ◌>>◌, assert,
}
use gnyproxy.Prelude.Int.{ℤ, pos, negsuc}
use gnyproxy.Common.{write_string, write_short}
use gnyproxy.Http.{atoheader, c_str, header_unknown, header_end, http_request_verb_unknown}
use gnyproxy.HttpMessage.{
  MessageState, header, entity, footer, done, rank, KeyValue, HttpMessage, get_headers, get_entity,
  get_footers, is_empty,
}
use gnyproxy.Socket.{Socket}

pub record MessageSinkGny : Type 0 where
  pub msg : HttpMessage
  pub write_state : MessageState
  pub data_stream : Bytes
  pub init : Bool

-- The constructor.
unfoldable pub create : HttpMessage → MessageSinkGny
create message = record { msg = message; write_state = header; data_stream = []; init = false }

-- The bits of `(short)status`, as an unsigned number; 65535 is the `short` -1.
unfoldable pub short_bits : ℤ → ℕ
short_bits (pos n) = n % 65536
short_bits (negsuc n) = 65535 - n % 65536

unfoldable pub add_key_value_pair : Bytes → KeyValue → Result Bytes
add_key_value_pair data_stream (key, value) = do
  red_key ← atoheader (c_str key)
  let coded = data_stream ++ (red_key % 256) ∷ []
  let named = if red_key == header_unknown then write_string coded key else coded
  ok (write_string named value)

unfoldable pub add_pairs : Bytes → List KeyValue → Result Bytes
unfolding add_key_value_pair
add_pairs data_stream [] = ok data_stream
add_pairs data_stream (kv ∷ pairs) = do d ← add_key_value_pair data_stream kv; add_pairs d pairs

-- The request line or the status line; `none` is the early `return`, nothing being known yet.
unfoldable pub first_line : MessageSinkGny → Option Bytes
unfolding short_bits
first_line s =
    if s.msg.is_request
    then (if is_empty s.msg.url || s.msg.verb == http_request_verb_unknown
        then none
        else some (write_string (s.data_stream ++ (s.msg.verb % 256) ∷ []) s.msg.url))
    else (if short_bits s.msg.status == 65535
        then none
        else some (write_short s.data_stream (short_bits s.msg.status)))

-- `if(!init) { … init = true; }`.
unfoldable pub begin : MessageSinkGny → Option MessageSinkGny
unfolding first_line
begin s = elim s.init [
  | true ↦ some s
  | false ↦ elim (first_line s) [
    | none ↦ none
    | some d ↦ some (record s { data_stream = d; init = true })
  ]
]

-- `if(write_state == HTTP_MESSAGE_HEADER)`, from the headers on.
unfoldable pub header_part : MessageSinkGny → Result MessageSinkGny
unfolding add_pairs get_headers
header_part s = do
  let (header_vector, drained) = get_headers s.msg
  d ← add_pairs s.data_stream header_vector
  let left = record s { msg = drained; data_stream = d }
  let ended = record left { data_stream = d ++ header_end ∷ []; write_state = entity }
  ok (if rank drained.state == rank header then left else ended)

-- The loop over the chunks of at most 65535 bytes.
unfoldable pub write_chunks : ℕ → Bytes → Bytes → Result Bytes
write_chunks fuel data_stream [] = ok data_stream
write_chunks zero data_stream (c ∷ cs) = fault out_of_fuel
write_chunks (suc fuel) data_stream (c ∷ cs) =
    let sz = min (length (c ∷ cs)) 65535 in
    write_chunks fuel (write_short data_stream sz ++ take sz (c ∷ cs)) (drop sz (c ∷ cs))

-- `if(write_state == HTTP_MESSAGE_ENTITY)`.
unfoldable pub entity_part : MessageSinkGny → Result MessageSinkGny
unfolding write_chunks get_entity
entity_part s = do
  let (more_entity, drained) = get_entity s.msg
  d ← write_chunks (length more_entity) s.data_stream more_entity
  let left = record s { msg = drained; data_stream = d }
  let ended = record left { data_stream = write_short d 0; write_state = footer }
  ok (if rank drained.state == rank entity then left else ended)

-- `if(write_state == HTTP_MESSAGE_FOOTER)`.
unfoldable pub footer_part : MessageSinkGny → Result MessageSinkGny
unfolding add_pairs get_footers
footer_part s = do
  let (footer_vector, drained) = get_footers s.msg
  d ← add_pairs s.data_stream footer_vector
  let left = record s { msg = drained; data_stream = d }
  let ended = record left { data_stream = d ++ header_end ∷ []; write_state = done }
  ok (if rank drained.state == rank footer then left else ended)

-- A part of `check_for_update` that runs in one state only.
abbrev pub when :
    Bool → (MessageSinkGny → Result MessageSinkGny) → MessageSinkGny → Result MessageSinkGny
when true part s = part s
when false part s = ok s

unfoldable pub later_parts : MessageSinkGny → Result MessageSinkGny
unfolding entity_part footer_part
later_parts s = do
  e ← when (rank s.write_state == rank entity) entity_part s
  when (rank e.write_state == rank footer) footer_part e

unfoldable pub check_for_update : MessageSinkGny → Result MessageSinkGny
unfolding begin header_part later_parts
check_for_update s = do
  assert (leb (rank s.write_state) (rank s.msg.state))
  (if rank s.write_state == rank header
      then (elim (begin s) [ none ↦ ok s | some b ↦ do h ← header_part b; later_parts h ])
      else later_parts s)

unfoldable pub get_write_size : MessageSinkGny → Result (ℕ × MessageSinkGny)
unfolding check_for_update
get_write_size s = do u ← check_for_update s; ok (length u.data_stream, u)

-- What stays of `data_stream` after `send` returned an amount.
unfoldable pub after_send : ℤ → Bytes → Bytes
after_send (pos amount_sent) data_stream = drop amount_sent data_stream
after_send (negsuc n) data_stream = data_stream

unfoldable pub write : MessageSinkGny → Socket → ℕ → Result (ℤ × MessageSinkGny)
unfolding get_write_size after_send
write s sock max_write = do
  u ← get_write_size s
  let to_write = min u.0 max_write
  let amount_sent = sock.send to_write
  ok (amount_sent, record (u.1) { data_stream = after_send amount_sent (u.1).data_stream })
