-- ===== src/HttpProxy.antt =====
-- http_proxy.cpp: the messages that the proxy makes itself (`generate_message`), and
-- `MessageCopier::dump_message`, which hands on what one message holds to another one. The two
-- messages are distinct objects: `src` and `dst` are both returned.
pub mod Kept
pub mod Handed
pub mod Relay
pub mod Generated
pub mod Copier
pub mod Tunnel
pub mod Linker
use gnyproxy.Prelude.{
  ℕ, List, [], ◌∷◌, ltb, ◌==◌, if◌then◌else◌, Bool, true, false, Bytes, codes, Result, ok, ◌>>=◌,
}
use gnyproxy.Prelude.Int.{ℤ}
use gnyproxy.HttpMessage.{
  MessageState, header, entity, footer, rank, KeyValue, HttpMessage, set_url, set_verb, set_status,
  add_header, append_entity, add_footer, end_header, end_entity, end_footer, get_headers,
  get_entity, get_footers, is_empty,
}

unfoldable pub generate_message : HttpMessage → ℤ → Bytes → Result HttpMessage
unfolding set_status
generate_message msg status info = do
  a ← add_header (set_status msg status) (codes "Proxy-Agent") (codes "gny-proxy")
  b ← end_header a
  c ← append_entity b info
  d ← end_entity c
  end_footer d

-- The loops over the pairs taken.
unfoldable pub add_headers : HttpMessage → List KeyValue → Result HttpMessage
add_headers dst [] = ok dst
add_headers dst ((key, value) ∷ headers) = do d ← add_header dst key value; add_headers d headers

unfoldable pub add_footers : HttpMessage → List KeyValue → Result HttpMessage
add_footers dst [] = ok dst
add_footers dst ((key, value) ∷ headers) = do d ← add_footer dst key value; add_footers d headers

-- The verb and the URL of a request, unless it has a URL, or the status of a response.
unfoldable pub dump_line : HttpMessage → HttpMessage → HttpMessage
unfolding set_verb set_url set_status
dump_line src dst =
    if dst.is_request
    then (if is_empty dst.url
        then set_url (set_verb dst src.verb) src.url
        else set_verb dst src.verb)
    else set_status dst src.status

-- `if(src->get_state() > …) dst->end_…()`.
abbrev pub end_if : Bool → (HttpMessage → Result HttpMessage) → HttpMessage → Result HttpMessage
end_if true end dst = end dst
end_if false end dst = ok dst

-- The three parts, each for its state of `dst`; the pair is `src` and `dst`.
unfoldable pub dump_headers : HttpMessage × HttpMessage → Result (HttpMessage × HttpMessage)
unfolding get_headers add_headers
dump_headers (src, dst) = elim dst.state [
  | header ↦ do
    let (headers, drained) = get_headers src
    d ← add_headers dst headers
    e ← end_if (ltb (rank header) (rank src.state)) end_header d
    ok (drained, e)
  | _ ↦ ok (src, dst)
]

unfoldable pub dump_entity : HttpMessage × HttpMessage → Result (HttpMessage × HttpMessage)
unfolding get_entity
dump_entity (src, dst) = elim dst.state [
  | entity ↦ do
    let (taken, drained) = get_entity src
    d ← append_entity dst taken
    e ← end_if (ltb (rank entity) (rank src.state)) end_entity d
    ok (drained, e)
  | _ ↦ ok (src, dst)
]

unfoldable pub dump_footers : HttpMessage × HttpMessage → Result (HttpMessage × HttpMessage)
unfolding get_footers add_footers
dump_footers (src, dst) = elim dst.state [
  | footer ↦ do
    let (headers, drained) = get_footers src
    d ← add_footers dst headers
    e ← end_if (ltb (rank footer) (rank src.state)) end_footer d
    ok (drained, e)
  | _ ↦ ok (src, dst)
]

unfoldable pub dump_message : HttpMessage → HttpMessage → Result (HttpMessage × HttpMessage)
unfolding dump_line dump_headers dump_entity dump_footers
dump_message src dst = do
  h ← dump_headers (src, dump_line src dst)
  e ← dump_entity h
  dump_footers e
