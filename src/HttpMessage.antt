-- ===== src/HttpMessage.antt =====
-- http_message.h and http_message.cpp: the message that a source fills and a sink drains, in the
-- states header, entity, footer and done. A failed `assert` is a fault. The drains `get_headers`,
-- `get_entity` and `get_footers` return what they take with the emptied message.
pub mod Life
use gnyproxy.Prelude.{
  ℕ, Bool, true, false, ◌&&◌, List, [], ◌∷◌, ◌++◌, leb, ◌==◌, Bytes, Result, ok, ◌>>=◌, ◌>>◌,
  assert,
}
use gnyproxy.Prelude.Int.{ℤ, negsuc}
use gnyproxy.Http.{http_request_verb_unknown}

-- `http_message_state_e`, in order.
pub data MessageState : Type 0 where
  header entity footer done : MessageState

-- The number of the enumerator, by which states are compared.
abbrev pub rank : MessageState → ℕ
rank header = 0
rank entity = 1
rank footer = 2
rank done = 3

abbrev pub KeyValue : Type 0
KeyValue = Bytes × Bytes

pub record HttpMessage : Type 0 where
  pub is_request : Bool
  pub url : Bytes
  pub verb : ℕ
  pub status : ℤ
  pub headers : List KeyValue
  pub footers : List KeyValue
  pub body : Bytes
  pub state : MessageState

-- The constructor.
unfoldable pub init : Bool → HttpMessage
init is_request = record {
  is_request = is_request;
  url = [];
  verb = http_request_verb_unknown;
  status = negsuc 0;
  headers = [];
  footers = [];
  body = [];
  state = header;
}

unfoldable pub set_url : HttpMessage → Bytes → HttpMessage
set_url msg url_str = record msg { url = url_str }

unfoldable pub set_verb : HttpMessage → ℕ → HttpMessage
set_verb msg verb_ = record msg { verb = verb_ }

unfoldable pub set_status : HttpMessage → ℤ → HttpMessage
set_status msg status_ = record msg { status = status_ }

unfoldable pub add_header : HttpMessage → Bytes → Bytes → Result HttpMessage
add_header msg key value = do
  assert (rank msg.state == rank header)
  ok (record msg { headers = msg.headers ++ (key, value) ∷ [] })

unfoldable pub append_entity : HttpMessage → Bytes → Result HttpMessage
append_entity msg entity_ = do
  assert (rank msg.state == rank entity)
  ok (record msg { body = msg.body ++ entity_ })

unfoldable pub add_footer : HttpMessage → Bytes → Bytes → Result HttpMessage
add_footer msg key value = do
  assert (rank msg.state == rank footer)
  ok (record msg { footers = msg.footers ++ (key, value) ∷ [] })

unfoldable pub end_header : HttpMessage → Result HttpMessage
end_header msg = do assert (leb (rank msg.state) (rank header)); ok (record msg { state = entity })

unfoldable pub end_entity : HttpMessage → Result HttpMessage
end_entity msg = do assert (leb (rank msg.state) (rank entity)); ok (record msg { state = footer })

unfoldable pub end_footer : HttpMessage → Result HttpMessage
end_footer msg = do assert (leb (rank msg.state) (rank footer)); ok (record msg { state = done })

unfoldable pub get_headers : HttpMessage → List KeyValue × HttpMessage
get_headers msg = (msg.headers, record msg { headers = [] })

unfoldable pub get_entity : HttpMessage → Bytes × HttpMessage
get_entity msg = (msg.body, record msg { body = [] })

unfoldable pub get_footers : HttpMessage → List KeyValue × HttpMessage
get_footers msg = (msg.footers, record msg { footers = [] })

-- `empty()` of a container.
abbrev pub is_empty {ℓ} : {A : Type ℓ} → List A → Bool
is_empty [] = true
is_empty (x ∷ xs) = false

unfoldable pub is_sent : HttpMessage → Bool
is_sent msg =
    rank msg.state == rank done
    && (is_empty msg.headers && (is_empty msg.body && is_empty msg.footers))
