-- ===== src/MessageSourceGny/Config.antt =====
-- A reader between two bytes of the loop: what is behind `pos`, the bytes of the present item, and
-- the fields that are read in its state. `rest` is what the loop has still to read.
use gnyproxy.Prelude.{
  ℕ, ◌+◌, ◌-◌, ◌*◌, ◌≤◌, ◌<◌, true, [], ◌∷◌, ◌++◌, ◌==◌, ◌≡◌, refl, ap, ◌∙◌, if◌then◌else◌, Bytes,
  ok, drop, length, length-append, append_assoc, leb, get_elem?-append, get_elem?-append_next,
  drop-append, arith,
}
use gnyproxy.Common.{read_short}
use gnyproxy.Http.{c_str, header_unknown}
use gnyproxy.HttpMessage.{MessageState, HttpMessage}
use gnyproxy.MessageSourceGny.Spec.{
  Item, at_verb, at_flag, finished, in_url, in_status, in_name, in_known, in_user, in_size,
  in_chunk, Parse,
}
use gnyproxy.MessageSourceGny.{
  MessageSourceGny, State, init_verb, init_url, init_status, header_start, header_key, header_value,
  entity_start, entity, done, c_string_at,
}

pub record Config : Type 0 where
  pub msg : HttpMessage
  pub state : State
  pub substate : ℕ
  pub key : ℕ
  pub gone : Bytes
  pub token : Bytes

-- The reader itself, when `rest` follows.
abbrev pub reader : Config → Bytes → MessageSourceGny
reader c rest = record {
  msg = c.msg;
  data_stream = c.gone ++ (c.token ++ rest);
  start = length c.gone;
  state = c.state;
  substate = c.substate;
  key = c.key;
}

abbrev pub index : Config → ℕ
index c = length c.gone + length c.token

-- What the reader has taken in, as the machine of `Spec` sees it.
abbrev pub item_in : State → Config → Item
item_in init_verb c = at_verb
item_in init_url c = in_url c.token
item_in init_status c = in_status c.token
item_in header_start c = at_flag
item_in header_key c = in_name c.token
item_in header_value c =
    if c.key == header_unknown
    then in_user (c_str c.token) (drop (c.substate - length c.gone) c.token)
    else in_known c.key c.token
item_in entity_start c = in_size c.token
item_in entity c = in_chunk c.substate
item_in done c = finished

-- The bytes of a chunk count as handed on when they are read.
abbrev pub msg_in : State → Config → HttpMessage
msg_in entity c = record (c.msg) { body = c.msg.body ++ c.token }
msg_in _ c = c.msg

abbrev pub view : Config → Parse
view c = (item_in c.state c, msg_in c.state c)

-- What holds in each state.
abbrev pub GoodIn : State → Config → Type 0
GoodIn init_status c = length c.token ≤ 1
GoodIn header_key c = c.key ≡ header_unknown
GoodIn header_value c =
    c.key ≡ header_unknown
    → (name value : Bytes) × (c.token ≡ name ++ 0 ∷ value)
      × (c.substate ≡ length c.gone + length name + 1)
GoodIn entity_start c = (length c.token ≤ 1) × (c.msg.state ≡ MessageState.entity)
GoodIn entity c = (0 < c.substate) × (c.msg.state ≡ MessageState.entity)
GoodIn _ c = Unit {0}

abbrev pub Good : Config → Type 0
Good c = GoodIn c.state c

-- The item goes on with `ch`, or ends with it.
abbrev pub extended : Config → ℕ → Config
extended c ch = record c { token = c.token ++ ch ∷ [] }

abbrev pub ended : Config → ℕ → Config
ended c ch = record c { gone = c.gone ++ (c.token ++ ch ∷ []); token = [] }

pub reader-extended :
    (c : Config) (ch : ℕ) (rest : Bytes) → reader (extended c ch) rest ≡ reader c (ch ∷ rest)
reader-extended c ch rest =
    ap (λ b. record (reader c rest) { data_stream = c.gone ++ b })
      (append_assoc c.token (ch ∷ []) rest)

pub index-ended : (c : Config) (ch : ℕ) → length (c.gone ++ (c.token ++ ch ∷ [])) ≡ index c + 1
index-ended c ch =
    omega (arith, length-append c.gone (c.token ++ ch ∷ []), length-append c.token (ch ∷ []))

pub reader-ended :
    (c : Config) (ch : ℕ) (rest : Bytes)
    → reader (ended c ch) rest ≡ record (reader c (ch ∷ rest)) { start = index c + 1 }
reader-ended c ch rest =
    ap (λ n. record (reader (ended c ch) rest) { start = n }) (index-ended c ch)
    ∙ ap (λ b. record (reader c (ch ∷ rest)) { data_stream = b; start = index c + 1 })
        (append_assoc c.gone (c.token ++ ch ∷ []) rest
          ∙ ap (◌++◌ c.gone) (append_assoc c.token (ch ∷ []) rest))

pub c_string_at-append :
    (gone str : Bytes) → c_string_at (gone ++ str) (length gone) ≡ ok (c_str str)
unfolding c_string_at
c_string_at-append gone str = rw (leb_of (omega (arith, length-append gone str)), drop-append)
  where
    leb_of : length gone ≤ length (gone ++ str) → leb (length gone) (length (gone ++ str)) ≡ true
    leb_of h = ground arith

pub c_str-append_nul : (token rest : Bytes) → c_str (token ++ 0 ∷ rest) ≡ c_str token
unfolding c_str
c_str-append_nul [] rest = refl
c_str-append_nul (x ∷ token) rest = ground (arith, c_str-append_nul token rest)

pub read_short-append :
    (gone : Bytes) (high low : ℕ) (rest : Bytes)
    → read_short (gone ++ high ∷ low ∷ rest) (length gone) ≡ ok (high * 256 + low)
unfolding read_short
read_short-append gone high low rest =
    rw (get_elem?-append gone high (low ∷ rest), get_elem?-append_next gone high low rest)
