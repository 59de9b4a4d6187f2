-- ===== src/MessageSource11/Lines.antt =====
-- message_source_11.h and message_source_11.cpp: the reader's state, and its functions for one
-- line. What FAIL_MESSAGE prints is left out, and `non_entity_bytes`, which nothing reads.
use gnyproxy.Prelude.{
  ℕ, Bool, true, false, ◌&&◌, ◌||◌, [], ◌∷◌, Option, none, some, ◌==◌, if◌then◌else◌, Bytes, codes,
  length, Result, ok, ◌>>=◌,
}
use gnyproxy.Prelude.Int.{ℤ}
use gnyproxy.CLibrary.{strtoll, to_int}
use gnyproxy.Common.{isspace, trim, url_decode}
use gnyproxy.Http.{c_str, atoverb}
use gnyproxy.HttpMessage.{HttpMessage, set_verb, set_url, set_status, add_header, add_footer}
use gnyproxy.MessageSink11.{same_name, entity_chunked, entity_unknown, is_mode}

-- The states of the reader.
pub data State : Type 0 where
  firstline headers entity done : State

-- `entity_state1`: in the size of a chunk, in what follows the size, in the chunk, and behind all.
pub data ChunkState : Type 0 where
  in_size in_extension in_chunk in_footers : ChunkState

pub record MessageSource11 : Type 0 where
  pub msg : HttpMessage
  pub state : State
  pub last : ℕ
  pub buf : Bytes
  pub entity_mode : ℤ
  pub entity_state1 : ChunkState
  pub entity_state2 : ℕ

-- The constructor; `entity_state1` and `entity_state2` are set before they are read.
unfoldable pub create : HttpMessage → MessageSource11
create msg = record {
  msg = msg;
  state = firstline;
  last = 0;
  buf = [];
  entity_mode = entity_unknown;
  entity_state1 = in_size;
  entity_state2 = 0;
}

-- The two loops of `get_token`: white space, and then the token with what follows it.
unfoldable pub skip_space : Bytes → Bytes
skip_space [] = []
skip_space (c ∷ cs) = if isspace c then skip_space cs else c ∷ cs

unfoldable pub split_token : Bytes → Bytes × Bytes
split_token [] = ([], [])
split_token (c ∷ cs) =
    let (token, rest) = split_token cs in if isspace c then ([], c ∷ cs) else (c ∷ token, rest)

-- `get_token(line, pos)`, of what follows `pos`.
unfoldable pub get_token : Bytes → Bytes × Bytes
unfolding skip_space split_token
get_token line = split_token (skip_space line)

-- The check of the protocol only prints.
unfoldable pub parse_request_line : HttpMessage → Bytes → Result HttpMessage
unfolding get_token
parse_request_line msg line = do
  let (verb_token, after_verb) = get_token line
  verb ← atoverb (c_str verb_token)
  let (url, rest) = get_token after_verb
  ok (set_url (set_verb msg verb) (url_decode url))

unfoldable pub parse_response_line : HttpMessage → Bytes → HttpMessage
unfolding get_token
parse_response_line msg line =
    let (protocol, after_protocol) = get_token line in
    let (response_code, rest) = get_token after_protocol in
    let (code, range_error) = strtoll (c_str response_code) in set_status msg (to_int code)

-- The name and the value around the first colon, both trimmed; `none` where there is no colon.
unfoldable pub split_colon : Bytes → Option (Bytes × Bytes)
split_colon [] = none
split_colon (c ∷ cs) = elim (c == b':') [
  | true ↦ some ([], cs)
  | false ↦ elim (split_colon cs) [ none ↦ none | some (k, v) ↦ some (c ∷ k, v) ]
]

-- The headers that concern one connection only.
unfoldable pub is_hop_header : Bytes → Bool
is_hop_header key =
    same_name key (codes "Connection")
    || same_name key (codes "Proxy-Connection")
    || same_name key (codes "Keep-Alive")
    || same_name key (codes "TE")
    || same_name key (codes "Trailer")

unfoldable pub parse_header : MessageSource11 → Bytes → Result MessageSource11
unfolding split_colon is_hop_header
parse_header r line = elim (split_colon line) [
  | none ↦ ok r
  | some (before, after) ↦
      let key = trim before in
      let value = trim after in
      let added = (do m ← add_header r.msg key value; ok (record r { msg = m })) in
      if same_name key (codes "Transfer-Encoding")
      then ok (record r {
        entity_mode = if same_name value (codes "chunked") then entity_chunked else r.entity_mode;
      })
      else if is_mode r.entity_mode entity_unknown && same_name key (codes "Content-Length")
      then (let (length, range_error) = strtoll (c_str value) in
          do m ← add_header r.msg key value; ok (record r { msg = m; entity_mode = length }))
      else if is_hop_header key
      then ok r
      else added
]

unfoldable pub parse_footer : MessageSource11 → Bytes → Result MessageSource11
unfolding split_colon
parse_footer r line = elim (split_colon line) [
  | none ↦ ok r
  | some (before, after) ↦ do
    m ← add_footer r.msg (trim before) (trim after)
    ok (record r { msg = m })
]
