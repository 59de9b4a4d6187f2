-- ===== src/HttpProxy/Kept.antt =====
-- What two messages hold together, and how `dump_message` adds the parts of one to the other.

use gnyproxy.Prelude.{
  ◌≤◌, List, [], ◌∷◌, ◌++◌, ◌≡◌, refl, ap, ◌∙◌, Bytes, ok, ◌>>=◌, append_assoc, append-nil,
}
use gnyproxy.HttpMessage.{
  header, entity, footer, rank, KeyValue, HttpMessage, add_header, append_entity, add_footer,
}
use gnyproxy.HttpProxy.{add_headers, add_footers}

add_header_lem :
    (dst : HttpMessage) (k v : Bytes)
    → dst.state ≡ header
    → add_header dst k v ≡ ok (record dst { headers = dst.headers ++ (k, v) ∷ [] })
unfolding add_header
add_header_lem dst k v st = rw st refl

pub add_headers_lem :
    (dst : HttpMessage) (hs : List KeyValue)
    → dst.state ≡ header
    → add_headers dst hs ≡ ok (record dst { headers = dst.headers ++ hs })
unfolding add_headers
add_headers_lem dst [] st = rw append-nil refl
add_headers_lem dst ((k, v) ∷ hs) st =
    ap (λ r. r >>= λ d. add_headers d hs) (add_header_lem dst k v st)
    ∙ add_headers_lem (record dst { headers = dst.headers ++ (k, v) ∷ [] }) hs st
    ∙ ap (λ l. ok (record dst { headers = l })) (append_assoc dst.headers ((k, v) ∷ []) hs)

add_footer_lem :
    (dst : HttpMessage) (k v : Bytes)
    → dst.state ≡ footer
    → add_footer dst k v ≡ ok (record dst { footers = dst.footers ++ (k, v) ∷ [] })
unfolding add_footer
add_footer_lem dst k v st = rw st refl

pub add_footers_lem :
    (dst : HttpMessage) (hs : List KeyValue)
    → dst.state ≡ footer
    → add_footers dst hs ≡ ok (record dst { footers = dst.footers ++ hs })
unfolding add_footers
add_footers_lem dst [] st = rw append-nil refl
add_footers_lem dst ((k, v) ∷ hs) st =
    ap (λ r. r >>= λ d. add_footers d hs) (add_footer_lem dst k v st)
    ∙ add_footers_lem (record dst { footers = dst.footers ++ (k, v) ∷ [] }) hs st
    ∙ ap (λ l. ok (record dst { footers = l })) (append_assoc dst.footers ((k, v) ∷ []) hs)

-- What the two messages hold together, and how far each is.
pub record Kept (old new : HttpMessage × HttpMessage) : Type 0 where
  pub headers_kept : new.1.headers ++ new.0.headers ≡ old.1.headers ++ old.0.headers
  pub body_kept : new.1.body ++ new.0.body ≡ old.1.body ++ old.0.body
  pub footers_kept : new.1.footers ++ new.0.footers ≡ old.1.footers ++ old.0.footers
  pub source_state : new.0.state ≡ old.0.state
  pub not_ahead : rank new.1.state ≤ rank new.0.state
  pub not_back : rank old.1.state ≤ rank new.1.state

pub append_entity_lem :
    (dst : HttpMessage) (b : Bytes)
    → dst.state ≡ entity
    → append_entity dst b ≡ ok (record dst { body = dst.body ++ b })
unfolding append_entity
append_entity_lem dst b st = rw st refl
