-- ===== src/GnyWire.antt =====
-- The GNY wire format of specs.txt, as a grammar: the pairs in front of and behind the entity, the
-- chunks of the entity, and whole messages. A number of two bytes stands high byte first. Where
-- specs.txt leaves the flags open, they are the codes of http.h.
use gnyproxy.Prelude.{
  ℕ, ◌/◌, ◌%◌, ◌<◌, ◌≡◌, true, false, List, [], ◌∷◌, ◌++◌, Bytes, Free, length, ok,
}
use gnyproxy.Prelude.Int.{pos, negsuc}
use gnyproxy.Http.{header_unknown, header_end, headertoa, http_request_verb_unknown}
use gnyproxy.HttpMessage.{MessageState, KeyValue, HttpMessage}

-- Pairs up to the closing flag: a code of the table with a value, or a name with a value.
pub data PairsWire : Bytes → List KeyValue → Type 0 where
  end : PairsWire (header_end ∷ []) []
  known :
      {w : Bytes} {hs : List KeyValue} (code : ℕ) (name value : Bytes)
      → headertoa code ≡ ok name
      → Free 0 value
      → PairsWire w hs
      → PairsWire (code ∷ (value ++ 0 ∷ w)) ((name, value) ∷ hs)
  user :
      {w : Bytes} {hs : List KeyValue} (name value : Bytes)
      → Free 0 name
      → Free 0 value
      → PairsWire w hs
      → PairsWire (header_unknown ∷ (name ++ 0 ∷ (value ++ 0 ∷ w))) ((name, value) ∷ hs)

-- Chunks of at least one byte, each behind its size, up to the size 0.
pub data EntityWire : Bytes → Bytes → Type 0 where
  stop : EntityWire (0 ∷ 0 ∷ []) []
  chunk :
      {w body : Bytes} (b : ℕ) (bytes : Bytes)
      → length (b ∷ bytes) < 65536
      → EntityWire w body
      → EntityWire
          (length (b ∷ bytes) / 256 ∷ length (b ∷ bytes) % 256 ∷ (b ∷ bytes ++ w))
          (b ∷ bytes ++ body)

pub data MessageWire : Bytes → HttpMessage → Type 0 where
  request :
      {hw ew fw body : Bytes} {hs fs : List KeyValue} (verb : ℕ) (url : Bytes)
      → Free 0 url
      → PairsWire hw hs
      → EntityWire ew body
      → PairsWire fw fs
      → MessageWire (verb ∷ (url ++ 0 ∷ (hw ++ (ew ++ fw)))) (record {
        is_request = true;
        url = url;
        verb = verb;
        status = negsuc 0;
        headers = hs;
        footers = fs;
        body = body;
        state = MessageState.done;
      })
  response :
      {hw ew fw body : Bytes} {hs fs : List KeyValue} (status : ℕ)
      → status < 65536
      → PairsWire hw hs
      → EntityWire ew body
      → PairsWire fw fs
      → MessageWire (status / 256 ∷ status % 256 ∷ (hw ++ (ew ++ fw))) (record {
        is_request = false;
        url = [];
        verb = http_request_verb_unknown;
        status = pos status;
        headers = hs;
        footers = fs;
        body = body;
        state = MessageState.done;
      })
