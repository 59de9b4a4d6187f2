-- ===== src/MessageSink11.antt =====
-- message_sink_11.h and message_sink_11.cpp: a message is written to `packet_str` as far as it is
-- known, as HTTP/1.1. `http_msg_ptr` is the field `msg`. The warnings on the error stream are left out.
use gnyproxy.Prelude.{
  ℕ, ◌-◌, min, Bool, true, false, ◌&&◌, ◌||◌, List, [], ◌∷◌, ◌++◌, Option, none, some, ltb, ◌==◌,
  if◌then◌else◌, Bytes, codes, drop, length, Result, ok, ◌>>=◌, Ordering,
}
use gnyproxy.Prelude.Int.{ℤ, pos, negsuc}
use gnyproxy.CLibrary.{strtoll, print_d, print_x}
use gnyproxy.Common.{url_encode}
use gnyproxy.Http.{c_str, strcasecmp, verbtoa, http_request_verb_unknown}
use gnyproxy.HttpMessage.{
  MessageState, header, entity, footer, done, rank, KeyValue, HttpMessage, get_headers, get_entity,
  get_footers, is_empty,
}
use gnyproxy.Socket.{Socket}

-- `entity_mode`: a number of bytes still to come, or one of these.
abbrev pub entity_chunked : ℤ
entity_chunked = negsuc 1

abbrev pub entity_unknown : ℤ
entity_unknown = negsuc 0

abbrev pub is_mode : ℤ → ℤ → Bool
is_mode (pos a) (pos b) = a == b
is_mode (negsuc a) (negsuc b) = a == b
is_mode _ _ = false

pub record MessageSink11 : Type 0 where
  pub msg : HttpMessage
  pub packet_str : Bytes
  pub write_state : MessageState
  pub is_init : Bool
  pub entity_mode : ℤ

-- The constructor.
unfoldable pub create : HttpMessage → MessageSink11
create ptr = record {
  msg = ptr;
  packet_str = [];
  write_state = header;
  is_init = false;
  entity_mode = entity_unknown;
}

abbrev pub crlf : Bytes
crlf = 13 ∷ 10 ∷ []

-- `!strcasecmp(a.c_str(), b)`.
unfoldable pub same_name : Bytes → Bytes → Bool
same_name a b = elim (strcasecmp (c_str a) b) [ Ordering.eq ↦ true | _ ↦ false ]

-- The request line or the status line; `none` is the early `return`.
unfoldable pub first_line : MessageSink11 → Result (Option Bytes)
first_line s =
    if s.msg.is_request
    then (if is_empty s.msg.url || s.msg.verb == http_request_verb_unknown then ok none else (do
      verb ← verbtoa s.msg.verb
      ok (
          some (
            s.packet_str
            ++ verb
            ++ b' ' ∷ []
            ++ url_encode s.msg.url
            ++ codes " HTTP/1.1"
            ++ crlf))))
    else ok (
        if is_mode s.msg.status (negsuc 0)
        then none
        else some
            (s.packet_str ++ codes "HTTP/1.1 " ++ print_d s.msg.status ++ codes " FIXME" ++ crlf))

-- What a header says of the entity.
unfoldable pub mode_of : ℤ → KeyValue → ℤ
unfolding same_name
mode_of entity_mode (name, value) =
    if same_name name (codes "Transfer-Encoding")
    then (if same_name value (codes "chunked") then entity_chunked else entity_mode)
    else if is_mode entity_mode entity_unknown && same_name name (codes "Content-Length")
    then (let (length, range_error) = strtoll (c_str value) in
        if range_error then entity_unknown else length)
    else entity_mode

unfoldable pub add_line : Bytes → KeyValue → Bytes
add_line packet_str (name, value) = packet_str ++ name ++ codes ": " ++ value ++ crlf

-- The loop over the headers.
unfoldable pub add_headers : List KeyValue → MessageSink11 → MessageSink11
unfolding mode_of add_line
add_headers [] s = s
add_headers (kv ∷ headers) s =
    add_headers headers
      (record s { entity_mode = mode_of s.entity_mode kv; packet_str = add_line s.packet_str kv })

-- The loop over the footers.
unfoldable pub add_footers : List KeyValue → Bytes → Bytes
unfolding add_line
add_footers [] packet_str = packet_str
add_footers (kv ∷ footers) packet_str = add_footers footers (add_line packet_str kv)

-- `if(!is_init) { … is_init = true; }`.
unfoldable pub begin : MessageSink11 → Result (Option MessageSink11)
unfolding first_line
begin s = elim s.is_init [
  | true ↦ ok (some s)
  | false ↦ do
    line ← first_line s
    elim line [ none ↦ ok none | some d ↦ ok (some (record s { packet_str = d; is_init = true })) ]
]

-- `if(write_state == HTTP_MESSAGE_HEADER)`, from the headers on.
unfoldable pub header_part : MessageSink11 → MessageSink11
unfolding add_headers get_headers
header_part s =
    let (headers, drained) = get_headers s.msg in
    let left = add_headers headers (record s { msg = drained }) in
    let end = if is_mode left.entity_mode entity_unknown then [] else crlf in
    if rank drained.state == rank header
    then left
    else record left { packet_str = left.packet_str ++ end; write_state = entity }

-- The entity that has come, behind the header that a chunked one needs.
unfoldable pub add_entity : MessageSink11 → Bytes → MessageSink11
add_entity s [] = s
add_entity s (b ∷ bytes) =
    let more = b ∷ bytes in
    let chunk = print_x (length more) ++ crlf ++ more ++ crlf in
    elim (is_mode s.entity_mode entity_unknown) [
      | true ↦ record s {
        packet_str = s.packet_str ++ codes "Transfer-Encoding: chunked" ++ crlf ++ crlf ++ chunk;
        entity_mode = entity_chunked;
      }
      | false ↦ elim (is_mode s.entity_mode entity_chunked) [
        | true ↦ record s { packet_str = s.packet_str ++ chunk }
        | false ↦ sized s more s.entity_mode
      ]
    ]
  where
    sized : MessageSink11 → Bytes → ℤ → MessageSink11
    sized s more (pos left) = record s {
      packet_str = s.packet_str ++ more;
      entity_mode = if ltb left (length more) then pos 0 else pos (left - length more);
    }
    sized s more (negsuc n) = s

-- `if(write_state == HTTP_MESSAGE_ENTITY)`.
unfoldable pub entity_part : MessageSink11 → MessageSink11
unfolding add_entity get_entity
entity_part s =
    let (taken, drained) = get_entity s.msg in
    let left = add_entity (record s { msg = drained }) taken in
    let end =
      if is_mode left.entity_mode entity_unknown
      then crlf
      else if is_mode left.entity_mode entity_chunked
      then b'0' ∷ crlf
      else [] in
    if rank drained.state == rank entity
    then left
    else record left { packet_str = left.packet_str ++ end; write_state = footer }

-- `if(write_state == HTTP_MESSAGE_FOOTER)`. Footers need a chunked entity; without one they are lost.
unfoldable pub footer_part : MessageSink11 → MessageSink11
unfolding add_footers get_footers
footer_part s =
    let (footers, drained) = get_footers s.msg in
    let chunked = is_mode s.entity_mode entity_chunked in
    let left = record s {
      msg = drained;
      packet_str = if chunked then add_footers footers s.packet_str else s.packet_str;
    } in
    if rank drained.state == rank done
    then record left {
      packet_str = if chunked then left.packet_str ++ crlf else left.packet_str;
      write_state = done;
    }
    else left

-- A part of `check_for_update` that runs in one state only.
abbrev pub when : Bool → (MessageSink11 → MessageSink11) → MessageSink11 → MessageSink11
when true part s = part s
when false part s = s

unfoldable pub later_parts : MessageSink11 → MessageSink11
unfolding entity_part footer_part
later_parts s =
    let e = when (rank s.write_state == rank entity) entity_part s in
    when (rank e.write_state == rank footer) footer_part e

unfoldable pub check_for_update : MessageSink11 → Result MessageSink11
unfolding begin header_part later_parts
check_for_update s = elim (rank s.write_state == rank header) [
  | true ↦ do b ← begin s; elim b [ none ↦ ok s | some t ↦ ok (later_parts (header_part t)) ]
  | false ↦ ok (later_parts s)
]

unfoldable pub get_write_size : MessageSink11 → Result (ℕ × MessageSink11)
unfolding check_for_update
get_write_size s = do u ← check_for_update s; ok (length u.packet_str, u)

-- What stays of `packet_str` after `send` returned an amount.
unfoldable pub after_send : ℤ → Bytes → Bytes
after_send (pos amount_sent) packet_str = drop amount_sent packet_str
after_send (negsuc n) packet_str = packet_str

unfoldable pub write : MessageSink11 → Socket → ℕ → Result (ℤ × MessageSink11)
unfolding get_write_size after_send
write s sock max_write = do
  u ← get_write_size s
  let amount_sent = sock.send (min u.0 max_write)
  ok (amount_sent, record (u.1) { packet_str = after_send amount_sent (u.1).packet_str })
