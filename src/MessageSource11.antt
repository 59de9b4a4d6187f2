-- ===== src/MessageSource11.antt =====
-- message_source_11.h and message_source_11.cpp: an HTTP/1.1 message is read byte by byte. `buf`
-- holds the bytes from the start of the line that is being read; `pos` and the loop's `i` are
-- positions in it. The field `msg` is the object that `msg` points to.
mod Lines
pub use Lines.*
use gnyproxy.Prelude.{
  ℕ, zero, suc, ◌+◌, ◌-◌, ◌*◌, ◌%◌, ◌^◌, min, bit_or, Bool, true, false, ◌&&◌, ◌||◌, List, [], ◌∷◌,
  ◌++◌, Option, none, some, leb, ltb, ◌==◌, if◌then◌else◌, Bytes, codes, take, drop, length, Result,
  ok, ◌>>=◌, ◌>>◌, assert,
}
use gnyproxy.Prelude.Int.{ℤ, pos, negsuc}
use gnyproxy.CLibrary.{strtoll, to_int}
use gnyproxy.Common.{isspace, is_hex, hextoi, trim, url_decode}
use gnyproxy.Http.{c_str, atoverb}
use gnyproxy.HttpMessage.{
  HttpMessage, set_verb, set_url, set_status, end_header, end_entity, end_footer, add_header,
  add_footer, append_entity, is_empty,
}
use gnyproxy.MessageSink11.{same_name, entity_chunked, entity_unknown, is_mode}
use gnyproxy.Socket.{Socket, Received, received, failed, is_amount}

-- `read` inside its loop: the reader, `pos`, and the local `entity`.
pub record Cursor : Type 0 where
  pub source : MessageSource11
  pub start : ℕ
  pub entity_str : Bytes

-- `buf.substr(pos, i - pos - (last == '\r' ? 1 : 0))`, the rest of `buf` where the length is -1.
unfoldable pub line_at : MessageSource11 → ℕ → ℕ → Bytes
line_at r start i =
    if r.last == 13
    then (if i == start then drop start r.buf else take (i - start - 1) (drop start r.buf))
    else take (i - start) (drop start r.buf)

-- The first line that is not empty.
unfoldable pub end_first_line : MessageSource11 → Bytes → Result MessageSource11
unfolding parse_request_line parse_response_line
end_first_line r [] = ok r
end_first_line r (c ∷ cs) =
    if r.msg.is_request
    then (do m ← parse_request_line r.msg (c ∷ cs); ok (record r { msg = m; state = headers }))
    else ok (record r { msg = parse_response_line r.msg (c ∷ cs); state = headers })

-- A header, or the empty line behind the headers.
unfoldable pub end_header_line : MessageSource11 → Bytes → Result MessageSource11
unfolding parse_header
end_header_line r (c ∷ cs) = parse_header r (c ∷ cs)
end_header_line r [] = do
  m ← end_header r.msg
  (if is_mode r.entity_mode (pos 0) || is_mode r.entity_mode entity_unknown
      then (do e ← end_entity m; f ← end_footer e; ok (record r { msg = f; state = done }))
      else ok (record r { msg = m; state = entity; entity_state1 = in_size; entity_state2 = 0 }))

-- The cases FIRSTLINE and HEADERS.
unfoldable pub in_line : Cursor → ℕ → ℕ → Result Cursor
unfolding end_first_line end_header_line line_at
in_line c i ch = elim (ch == 10) [
  | false ↦ ok c
  | true ↦ do
    let line = line_at c.source c.start i
    r ← elim c.source.state [
      | firstline ↦ end_first_line c.source line
      | _ ↦ end_header_line c.source line
    ]
    ok (record c { source = r; start = i + 1 })
]

-- The body so far goes to the message, which then has all of it.
unfoldable pub close_entity : HttpMessage → Bytes → Result HttpMessage
close_entity msg entity_str = do m ← append_entity msg entity_str; end_entity m

-- A byte of an entity of known length, of which `left` bytes are to come.
unfoldable pub in_sized : Cursor → ℕ → ℕ → Result Cursor
unfolding close_entity
in_sized c left ch = elim (left - 1 == 0) [
  | false ↦ ok (record c {
    source = record (c.source) { entity_mode = pos (left - 1) };
    entity_str = c.entity_str ++ ch ∷ [];
  })
  | true ↦ do
    m ← close_entity c.source.msg (c.entity_str ++ ch ∷ [])
    f ← end_footer m
    ok (record c {
      source = record (c.source) { msg = f; state = done; entity_mode = pos 0 };
      entity_str = [];
    })
]

-- `entity_state2 << 4 | hextoi(ch)`, in 64 bits.
unfoldable pub push_hex : ℕ → ℕ → ℕ
push_hex size ch = bit_or (size * 16 % 2 ^ 64) (hextoi ch)

-- The end of the line that holds the size of a chunk; the size 0 ends the entity.
unfoldable pub end_size : Cursor → Result Cursor
unfolding close_entity
end_size c = elim (c.source.entity_state2 == 0) [
  | false ↦ ok (record c { source = record (c.source) { entity_state1 = in_chunk } })
  | true ↦ do
    m ← close_entity c.source.msg c.entity_str
    ok (record c {
      source = record (c.source) { msg = m; entity_state1 = in_footers };
      entity_str = [];
    })
]

-- The byte behind a footer's line.
unfoldable pub end_footer_line : MessageSource11 → Bytes → Result MessageSource11
unfolding parse_footer
end_footer_line r [] = do m ← end_footer r.msg; ok (record r { msg = m; state = done })
end_footer_line r (c ∷ cs) = parse_footer r (c ∷ cs)

-- A byte of a chunked entity.
unfoldable pub in_chunked : Cursor → ℕ → ℕ → Result Cursor
unfolding push_hex end_size end_footer_line line_at
in_chunked c i ch = elim c.source.entity_state1 [
  | in_size ↦
      if is_hex ch
      then ok (record c {
        source = record (c.source) { entity_state2 = push_hex c.source.entity_state2 ch };
      })
      else if ch == b';'
      then ok (record c { source = record (c.source) { entity_state1 = in_extension } })
      else if ch == 10
      then end_size c
      else ok c
  | in_extension ↦ if ch == 10 then end_size c else ok c
  | in_chunk ↦
      if c.source.entity_state2 == 0
      then ok (
          if ch == 10
          then record c { source = record (c.source) { entity_state1 = in_size } }
          else c)
      else ok (record c {
        source = record (c.source) { entity_state2 = c.source.entity_state2 - 1 };
        entity_str = c.entity_str ++ ch ∷ [];
      })
  | in_footers ↦
      if ch == 10
      then (do
        r ← end_footer_line c.source (line_at c.source c.start i)
        ok (record c { source = r }))
      else ok c
]

-- `move_pos` is false for a byte inside a footer's line.
unfoldable pub move_pos : MessageSource11 → ℕ → Bool
move_pos r ch = elim r.entity_mode [
  | pos (suc n) ↦ true
  | _ ↦ elim r.entity_state1 [ in_footers ↦ ch == 10 | _ ↦ true ]
]

-- The case ENTITY.
unfoldable pub in_entity : Cursor → ℕ → ℕ → Result Cursor
unfolding in_sized in_chunked move_pos
in_entity c i ch = do
  d ← elim c.source.entity_mode [ pos (suc n) ↦ in_sized c (suc n) ch | _ ↦ in_chunked c i ch ]
  ok (if move_pos c.source ch then record d { start = i + 1 } else d)

-- The body of the loop.
unfoldable pub step : Cursor → ℕ → ℕ → Result Cursor
unfolding in_line in_entity
step c i ch = do
  d ← elim c.source.state [ entity ↦ in_entity c i ch | _ ↦ in_line c i ch ]
  ok (record d { source = record (d.source) { last = ch } })

-- The loop over the bytes from `i` on; it ends early when the message is complete.
unfoldable pub loop : Bytes → ℕ → Cursor → Result (ℕ × Cursor)
unfolding step
loop [] i c = ok (i, c)
loop (ch ∷ rest) i c = elim c.source.state [
  | done ↦ ok (i, c)
  | _ ↦ do d ← step c i ch; loop rest (i + 1) d
]

-- `read` behind its loop, which stopped at `i`.
unfoldable pub close_read : Socket → Bytes → ℕ × Cursor → Result (ℤ × MessageSource11)
close_read s rbuf (i, c) = do
  let r = c.source
  m ← if is_empty c.entity_str then ok r.msg else append_entity r.msg c.entity_str
  let amt = length rbuf - (length r.buf - i)
  assert (is_amount (s.consume amt) amt)
  ok (pos amt, record r { msg = m; buf = drop c.start r.buf })

-- `read`, on the bytes that `recv` has shown.
unfoldable pub read_bytes : MessageSource11 → Socket → Bytes → Result (ℤ × MessageSource11)
unfolding loop close_read
read_bytes r s rbuf = do
  let full = record r { buf = r.buf ++ rbuf }
  end ← loop rbuf (length r.buf) (record { source = full; start = 0; entity_str = [] })
  close_read s rbuf end

unfoldable pub read : MessageSource11 → Socket → ℕ → Result (ℤ × MessageSource11)
unfolding read_bytes
read r s max_read = elim (s.peek (min 1024 max_read)) [
  | failed ↦ ok (negsuc 0, r)
  | received [] ↦ ok (pos 0, r)
  | received (b ∷ rbuf) ↦ read_bytes r s (b ∷ rbuf)
]
