-- ===== src/RequestGen.antt =====
-- The class MyRequester of request_gen.cpp, which makes a GET request and throws the response away.
pub mod Once
use gnyproxy.Prelude.{
  ℕ, ◌+◌, ◌-◌, Bool, true, false, Bytes, codes, Result, ok, ◌>>=◌, if◌then◌else◌,
}
use gnyproxy.Http.{http_request_get}
use gnyproxy.HttpMessage.{
  HttpMessage, set_url, set_verb, add_header, end_header, end_entity, end_footer, get_headers,
  get_entity, get_footers, is_sent,
}

-- The numbers of requests that are made and not answered, and that are answered.
pub record Counts : Type 0 where
  pub active : ℕ
  pub processed : ℕ

-- The constructor, and the destructor, where `marked` is false, as it is always.
unfoldable pub create : Counts → Counts
create n = record n { active = n.active + 1 }

unfoldable pub destroy : Counts → Counts
destroy n = record { active = n.active - 1; processed = n.processed + 1 }

unfoldable pub generate_request : Bytes → HttpMessage → Result HttpMessage
generate_request url msg = if is_sent msg then ok msg else (do
  a ←
      add_header (set_verb (set_url msg url) http_request_get) (codes "User-Agent")
        (codes "My Agent!")
  b ← end_header a
  c ← end_entity b
  end_footer c)

unfoldable pub read_response : HttpMessage → HttpMessage
read_response msg =
    let (headers, a) = get_headers msg in
    let (footers, b) = get_footers a in let (entity, c) = get_entity b in c
