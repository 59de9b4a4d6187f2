-- ===== src/MessageSourceGny/Decode.antt =====
-- The machine of `Spec` reads every message of the wire format.

use gnyproxy.Prelude.{
  ℕ, suc, ◌+◌, ◌-◌, ◌*◌, ◌/◌, ◌%◌, ◌<◌, true, false, Bool, List, [], ◌∷◌, ◌++◌, ◌==◌, ◌≡◌, refl, ap,
  ◌∙◌, if◌then◌else◌, Bytes, Free, ok, length, append_assoc, append-nil, arith, ◌>>=◌,
}
use gnyproxy.Prelude.Int.{pos}
use gnyproxy.Http.{c_str, header_unknown, headertoa}
use gnyproxy.Http.Tables.{headertoa-lt}
use gnyproxy.HttpMessage.{
  MessageState, KeyValue, HttpMessage, init, set_verb, set_url, set_status, end_header, end_entity,
  end_footer,
}
use gnyproxy.GnyWire.{
  PairsWire, end, known, user, EntityWire, stop, chunk, MessageWire, request, response,
}
use gnyproxy.MessageSourceGny.Spec.{
  at_verb, at_flag, finished, in_url, in_status, in_name, in_known, in_user, in_size, in_chunk,
  Parse, parse_byte, parse, size_end, flag,
}
use gnyproxy.MessageSourceGny.Refine.{append_entity-entity}
use gnyproxy.MessageSourceGny.{add_pair}

c_str-Free : (s : Bytes) → Free 0 s → c_str s ≡ s
unfolding c_str
c_str-Free [] h = refl
c_str-Free (x ∷ s) h = rw h.0 (ap (◌∷◌ x) (c_str-Free s h.1))

-- A string with no NUL is taken into the item, whatever follows.
module _ (m : HttpMessage) (rest : Bytes) where
  read_url :
      (s t : Bytes) → Free 0 s → parse (s ++ rest) (in_url t, m) ≡ parse rest (in_url (t ++ s), m)
  unfolding parse parse_byte
  read_url [] t h = rw append-nil
  read_url (x ∷ s) t h = rw h.0 (read_url s (t ++ x ∷ []) h.1 ∙ rw append_assoc)

  read_name :
      (s t : Bytes) → Free 0 s → parse (s ++ rest) (in_name t, m) ≡ parse rest (in_name (t ++ s), m)
  unfolding parse parse_byte
  read_name [] t h = rw append-nil
  read_name (x ∷ s) t h = rw h.0 (read_name s (t ++ x ∷ []) h.1 ∙ rw append_assoc)

  read_known :
      (k : ℕ) (s t : Bytes)
      → Free 0 s
      → parse (s ++ rest) (in_known k t, m) ≡ parse rest (in_known k (t ++ s), m)
  unfolding parse parse_byte
  read_known k [] t h = rw append-nil
  read_known k (x ∷ s) t h = rw h.0 (read_known k s (t ++ x ∷ []) h.1 ∙ rw append_assoc)

  read_user :
      (n s t : Bytes)
      → Free 0 s
      → parse (s ++ rest) (in_user n t, m) ≡ parse rest (in_user n (t ++ s), m)
  unfolding parse parse_byte
  read_user n [] t h = rw append-nil
  read_user n (x ∷ s) t h = rw h.0 (read_user n s (t ++ x ∷ []) h.1 ∙ rw append_assoc)

flag_known :
    (m : HttpMessage) (code : ℕ) (name : Bytes)
    → headertoa code ≡ ok name
    → flag m code ≡ ok (in_known code [], m)
unfolding flag
flag_known m code name e = ground (arith, headertoa-lt code name e)

-- A pair is added by its name in full.
module _ (m m' : HttpMessage) (name value rest : Bytes)
    (added : add_pair m name value ≡ ok m') where
  read_known_pair :
      (code : ℕ)
      → headertoa code ≡ ok name
      → Free 0 value
      → parse (code ∷ (value ++ 0 ∷ rest)) (at_flag, m) ≡ parse rest (at_flag, m')
  unfolding parse parse_byte
  read_known_pair code e h =
      ap (λ r. r >>= parse (value ++ 0 ∷ rest)) (flag_known m code name e)
      ∙ read_known m (0 ∷ rest) code value [] h
      ∙ rw (e, c_str-Free value h, added)

  read_user_pair :
      Free 0 name
      → Free 0 value
      → parse (header_unknown ∷ (name ++ 0 ∷ (value ++ 0 ∷ rest))) (at_flag, m)
        ≡ parse rest (at_flag, m')
  unfolding parse parse_byte
  read_user_pair hn h =
      read_name m (0 ∷ (value ++ 0 ∷ rest)) name [] hn
      ∙ ap (λ n. parse (value ++ 0 ∷ rest) (in_user n [], m)) (c_str-Free name hn)
      ∙ read_user m (0 ∷ rest) name value [] h
      ∙ rw (c_str-Free value h, added)

module _ (m : HttpMessage) where
  abbrev with_headers : List KeyValue → HttpMessage
  with_headers hs = record m { headers = m.headers ++ hs; state = MessageState.entity }

  abbrev with_footers : List KeyValue → HttpMessage
  with_footers fs = record m { footers = m.footers ++ fs; state = MessageState.done }

user_assoc :
    (name value w rest : Bytes)
    → (name ++ 0 ∷ (value ++ 0 ∷ w)) ++ rest ≡ name ++ 0 ∷ (value ++ 0 ∷ (w ++ rest))
user_assoc name value w rest = simp append_assoc

-- The pairs in front of the entity become headers, and those behind it footers.
abbrev one_header : HttpMessage → Bytes → Bytes → HttpMessage
one_header m name value = record m { headers = m.headers ++ (name, value) ∷ [] }

add_pair-header :
    (m : HttpMessage) (name value : Bytes)
    → m.state ≡ MessageState.header
    → add_pair m name value ≡ ok (one_header m name value)
unfolding add_pair
add_pair-header m name value st = rw st

parse_headers :
    {w : Bytes} {hs : List KeyValue} (m : HttpMessage) (rest : Bytes)
    → PairsWire w hs
    → m.state ≡ MessageState.header
    → parse (w ++ rest) (at_flag, m) ≡ parse rest (in_size [], with_headers m hs)
parse_headers m rest end st = unfold parse parse_byte end_header in rw (st, append-nil)
parse_headers m rest (known {w} {hs} code name value e h p) st =
    ap (λ s. parse (code ∷ s) (at_flag, m)) (append_assoc value (0 ∷ w) rest)
    ∙ read_known_pair m (one_header m name value) name value (w ++ rest)
        (add_pair-header m name value st) code e h
    ∙ parse_headers (one_header m name value) rest p st
    ∙ ap (λ l. parse rest (in_size [], record m { headers = l; state = MessageState.entity }))
        (append_assoc m.headers ((name, value) ∷ []) hs)
parse_headers m rest (user {w} {hs} name value hn h p) st =
    ap (λ s. parse (header_unknown ∷ s) (at_flag, m)) (user_assoc name value w rest)
    ∙ read_user_pair m (one_header m name value) name value (w ++ rest)
        (add_pair-header m name value st) hn h
    ∙ parse_headers (one_header m name value) rest p st
    ∙ ap (λ l. parse rest (in_size [], record m { headers = l; state = MessageState.entity }))
        (append_assoc m.headers ((name, value) ∷ []) hs)

abbrev one_footer : HttpMessage → Bytes → Bytes → HttpMessage
one_footer m name value = record m { footers = m.footers ++ (name, value) ∷ [] }

add_pair-footer :
    (m : HttpMessage) (name value : Bytes)
    → m.state ≡ MessageState.footer
    → add_pair m name value ≡ ok (one_footer m name value)
unfolding add_pair
add_pair-footer m name value st = rw st

parse_footers :
    {w : Bytes} {hs : List KeyValue} (m : HttpMessage) (rest : Bytes)
    → PairsWire w hs
    → m.state ≡ MessageState.footer
    → parse (w ++ rest) (at_flag, m) ≡ parse rest (finished, with_footers m hs)
parse_footers m rest end st = unfold parse parse_byte end_footer in rw (st, append-nil)
parse_footers m rest (known {w} {hs} code name value e h p) st =
    ap (λ s. parse (code ∷ s) (at_flag, m)) (append_assoc value (0 ∷ w) rest)
    ∙ read_known_pair m (one_footer m name value) name value (w ++ rest)
        (add_pair-footer m name value st) code e h
    ∙ parse_footers (one_footer m name value) rest p st
    ∙ ap (λ l. parse rest (finished, record m { footers = l; state = MessageState.done }))
        (append_assoc m.footers ((name, value) ∷ []) hs)
parse_footers m rest (user {w} {hs} name value hn h p) st =
    ap (λ s. parse (header_unknown ∷ s) (at_flag, m)) (user_assoc name value w rest)
    ∙ read_user_pair m (one_footer m name value) name value (w ++ rest)
        (add_pair-footer m name value st) hn h
    ∙ parse_footers (one_footer m name value) rest p st
    ∙ ap (λ l. parse rest (finished, record m { footers = l; state = MessageState.done }))
        (append_assoc m.footers ((name, value) ∷ []) hs)

chunk_byte :
    (m : HttpMessage) (left b : ℕ)
    → m.state ≡ MessageState.entity
    → parse_byte (in_chunk left, m) b
      ≡ ok (
        if left - 1 == 0 then in_size [] else in_chunk (left - 1),
        record m { body = m.body ++ b ∷ [] },
      )
unfolding parse_byte
chunk_byte m left b st = rw (append_entity-entity m (b ∷ []) st)

next_left :
    (n : ℕ)
    → (if suc (suc n) - 1 == 0 then in_size [] else in_chunk (suc (suc n) - 1)) ≡ in_chunk (suc n)
next_left n = ground arith

-- The bytes of one chunk go to the body.
parse_chunk :
    (m : HttpMessage) (b : ℕ) (bytes rest : Bytes)
    → m.state ≡ MessageState.entity
    → parse (b ∷ (bytes ++ rest)) (in_chunk (length (b ∷ bytes)), m)
      ≡ parse rest (in_size [], record m { body = m.body ++ b ∷ bytes })
unfolding parse
parse_chunk m b [] rest st = ap (λ r. r >>= parse rest) (chunk_byte m 1 b st)
parse_chunk m b (c ∷ bytes) rest st =
    let m' = record m { body = m.body ++ b ∷ [] } in
    ap (λ r. r >>= parse (c ∷ (bytes ++ rest))) (chunk_byte m (suc (suc (length bytes))) b st)
    ∙ ap (λ j. parse (c ∷ (bytes ++ rest)) (j, m')) (next_left (length bytes))
    ∙ parse_chunk m' c bytes rest st
    ∙ ap (λ l. parse rest (in_size [], record m { body = l }))
        (append_assoc m.body (b ∷ []) (c ∷ bytes))

size_read :
    (m : HttpMessage) (n : ℕ) → 0 < n → size_end m (n / 256 * 256 + n % 256) ≡ ok (in_chunk n, m)
unfolding size_end
size_read m n h = let e : n / 256 * 256 + n % 256 ≡ n = omega arith in rw e (ground arith)

parse_size :
    (m : HttpMessage) (n : ℕ) (t : Bytes)
    → 0 < n
    → parse (n / 256 ∷ n % 256 ∷ t) (in_size [], m) ≡ parse t (in_chunk n, m)
unfolding parse parse_byte
parse_size m n t h = ap (λ r. r >>= parse t) (size_read m n h)

parse_entity :
    {w body : Bytes} (m : HttpMessage) (rest : Bytes)
    → EntityWire w body
    → m.state ≡ MessageState.entity
    → parse (w ++ rest) (in_size [], m)
      ≡ parse rest (at_flag, record m { body = m.body ++ body; state = MessageState.footer })
parse_entity m rest stop st = unfold parse parse_byte end_entity in rw (st, append-nil)
parse_entity m rest (chunk {w} {body} b bytes small e) st =
    let m' = record m { body = m.body ++ b ∷ bytes } in
    parse_size m (length (b ∷ bytes)) (b ∷ ((bytes ++ w) ++ rest)) (omega arith)
    ∙ ap (λ s. parse (b ∷ s) (in_chunk (length (b ∷ bytes)), m)) (append_assoc bytes w rest)
    ∙ parse_chunk m b bytes (w ++ rest) st
    ∙ parse_entity m' rest e st
    ∙ ap (λ l. parse rest (at_flag, record m { body = l; state = MessageState.footer }))
        (append_assoc m.body (b ∷ bytes) body)

-- Where the machine stands before a message.
abbrev pub before : Bool → Parse
before is_request = (if is_request then at_verb else in_status [], init is_request)

three_assoc : (a b c rest : Bytes) → (a ++ (b ++ c)) ++ rest ≡ a ++ (b ++ (c ++ rest))
three_assoc a b c rest = simp append_assoc

parse_parts :
    {hw ew fw body : Bytes} {hs fs : List KeyValue} (m : HttpMessage) (rest : Bytes)
    → PairsWire hw hs
    → EntityWire ew body
    → PairsWire fw fs
    → m.state ≡ MessageState.header
    → parse ((hw ++ (ew ++ fw)) ++ rest) (at_flag, m)
      ≡ parse rest (
        finished,
        record m {
          headers = m.headers ++ hs;
          body = m.body ++ body;
          footers = m.footers ++ fs;
          state = MessageState.done;
        },
      )
parse_parts {hw} {ew} {fw} {body} {hs} {fs} m rest h e f st =
    ap (λ s. parse s (at_flag, m)) (three_assoc hw ew fw rest)
    ∙ parse_headers m (ew ++ (fw ++ rest)) h st
    ∙ parse_entity (with_headers m hs) (fw ++ rest) e refl
    ∙ parse_footers
        (record (with_headers m hs) { body = m.body ++ body; state = MessageState.footer }) rest f
        refl

short_read : (n : ℕ) → n / 256 * 256 + n % 256 ≡ n
short_read n = omega arith

-- The machine takes every message of the wire format, and what follows it is left alone.
pub parse-MessageWire :
    {w : Bytes} {m : HttpMessage} (rest : Bytes)
    → MessageWire w m
    → parse (w ++ rest) (before m.is_request) ≡ parse rest (finished, m)
unfolding parse parse_byte init set_verb set_url set_status
parse-MessageWire rest (request {hw} {ew} {fw} verb url hu h e f) =
    let m = set_verb (init true) verb in
    let parts = hw ++ (ew ++ fw) in
    ap (λ s. parse s (in_url [], m)) (append_assoc url (0 ∷ parts) rest)
    ∙ read_url m (0 ∷ (parts ++ rest)) url [] hu
    ∙ ap (λ u. parse (parts ++ rest) (at_flag, set_url m u)) (c_str-Free url hu)
    ∙ parse_parts (set_url m url) rest h e f refl
parse-MessageWire rest (response {hw} {ew} {fw} status small h e f) =
    ap (λ n. parse ((hw ++ (ew ++ fw)) ++ rest) (at_flag, set_status (init false) (pos n)))
      (short_read status)
    ∙ parse_parts (set_status (init false) (pos status)) rest h e f refl
