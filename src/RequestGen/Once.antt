-- ===== src/RequestGen/Once.antt =====
-- The request that is made, and the GNY writer.
use gnyproxy.Prelude.{ℕ, ◌≡◌, refl, true, [], ◌∷◌, Bytes, Free, codes, ok, ◌>>=◌, arith}
use gnyproxy.HttpMessage.{
  MessageState, HttpMessage, init, set_url, set_verb, add_header, end_header, end_entity,
  end_footer, is_sent,
}
use gnyproxy.MessageSinkGny.{MessageSinkGny, create, check_for_update}
use gnyproxy.MessageSinkGny.Encode.{IsWritable, encoded}
use gnyproxy.RequestGen.{generate_request}

-- The request for a URL.
abbrev pub request : Bytes → HttpMessage
request url = record (init true) {
  url = url;
  verb = 2;
  headers = (codes "User-Agent", codes "My Agent!") ∷ [];
  state = MessageState.done;
}

request-IsWritable : (c : ℕ) (url : Bytes) → Free 0 (c ∷ url) → IsWritable (request (c ∷ url))
unfolding init
request-IsWritable c url free = record {
  headers_clean = (
    (refl, (refl, (refl, (refl, (refl, (refl, (refl, (refl, (refl, (refl, tt)))))))))),
    (refl, (refl, (refl, (refl, (refl, (refl, (refl, (refl, (refl, tt))))))))),
    tt,
  );
  footers_clean = tt;
  url_clean = free;
  line_known = (refl, omega arith);
}

-- For a URL that is not empty and has no byte 0: the request that MyRequester makes is written by
-- a new GNY writer in one update, and behind it generate_request leaves the message as it is, so
-- that the next call fails no assertion.
pub generate_request-check_for_update :
    (c : ℕ) (url : Bytes)
    → Free 0 (c ∷ url)
    → (u : MessageSinkGny) × ((generate_request (c ∷ url) (init true) >>= λ m.
          check_for_update (create m))
        ≡ ok u)
      × (generate_request (c ∷ url) u.msg ≡ ok u.msg)
unfolding generate_request init add_header end_header end_entity end_footer set_url set_verb is_sent
generate_request-check_for_update c url free =
    let e = encoded (request (c ∷ url)) (request-IsWritable c url free) in (_, e.updates, refl)
