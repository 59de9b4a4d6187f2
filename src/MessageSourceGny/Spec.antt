-- ===== src/MessageSourceGny/Spec.antt =====
-- The GNY wire format as a machine that takes one byte at a time, with no positions and no buffer
-- but the bytes of the item that is being read.
use mathlib.Core.Path.{fun_ext, sym}
use gnyproxy.Prelude.{
  ℕ, ◌+◌, ◌-◌, ◌*◌, [], ◌∷◌, ◌++◌, ◌==◌, ◌≡◌, refl, ap, ◌∙◌, if◌then◌else◌, Bytes, Result, ok,
  ◌>>=◌, >>=_assoc,
}
use gnyproxy.Prelude.Int.{pos}
use gnyproxy.Http.{c_str, header_unknown, header_end, headertoa}
use gnyproxy.HttpMessage.{
  MessageState, rank, HttpMessage, set_verb, set_url, set_status, end_header, end_entity,
  end_footer, append_entity,
}
use gnyproxy.MessageSourceGny.{add_pair}

-- What is being read, with the bytes of it that have come.
pub data Item : Type 0 where
  at_verb at_flag finished : Item
  in_url in_status in_name : Bytes → Item
  in_known : ℕ → Bytes → Item
  in_user : Bytes → Bytes → Item
  in_size : Bytes → Item
  in_chunk : ℕ → Item

abbrev pub Parse : Type 0
Parse = Item × HttpMessage

-- The two bytes of a number, the second being the one that comes.
abbrev pub short_of : Bytes → ℕ → ℕ
short_of [] low = low
short_of (high ∷ more) low = high * 256 + low

abbrev pub add : Bytes → Bytes → HttpMessage → Result Parse
add name value m = do m' ← add_pair m name value; ok (at_flag, m')

unfoldable pub flag : HttpMessage → ℕ → Result Parse
flag m ch =
    if ch == header_end
    then (if rank m.state == rank MessageState.header
        then (do m' ← end_header m; ok (in_size [], m'))
        else (do m' ← end_footer m; ok (finished, m')))
    else ok (if ch == header_unknown then in_name [] else in_known ch [], m)

unfoldable pub size_end : HttpMessage → ℕ → Result Parse
size_end m size =
    if size == 0 then (do m' ← end_entity m; ok (at_flag, m')) else ok (in_chunk size, m)

unfoldable pub parse_byte : Parse → ℕ → Result Parse
unfolding flag size_end
parse_byte (at_verb, m) ch = ok (in_url [], set_verb m ch)
parse_byte (in_url url, m) ch =
    ok (if ch == 0 then (at_flag, set_url m (c_str url)) else (in_url (url ++ ch ∷ []), m))
parse_byte (in_status [], m) ch = ok (in_status (ch ∷ []), m)
parse_byte (in_status (high ∷ more), m) ch = ok (at_flag, set_status m (pos (high * 256 + ch)))
parse_byte (at_flag, m) ch = flag m ch
parse_byte (in_name name, m) ch =
    ok (if ch == 0 then in_user (c_str name) [] else in_name (name ++ ch ∷ []), m)
parse_byte (in_user name value, m) ch =
    if ch == 0 then add name (c_str value) m else ok (in_user name (value ++ ch ∷ []), m)
parse_byte (in_known key value, m) ch =
    if ch == 0
    then (do name ← headertoa key; add name (c_str value) m)
    else ok (in_known key (value ++ ch ∷ []), m)
parse_byte (in_size [], m) ch = ok (in_size (ch ∷ []), m)
parse_byte (in_size (high ∷ more), m) ch = size_end m (high * 256 + ch)
parse_byte (in_chunk left, m) ch = do
  m' ← append_entity m (ch ∷ [])
  ok (if left - 1 == 0 then in_size [] else in_chunk (left - 1), m')
parse_byte (finished, m) ch = ok (finished, m)

-- The machine over a string; it takes nothing more once the message is finished.
unfoldable pub parse : Bytes → Parse → Result Parse
unfolding parse_byte
parse [] p = ok p
parse (ch ∷ rest) p = do q ← parse_byte p ch; parse rest q

pub parse-append : (xs ys : Bytes) (p : Parse) → parse (xs ++ ys) p ≡ (parse xs p >>= parse ys)
unfolding parse
parse-append [] ys p = refl
parse-append (ch ∷ xs) ys p =
    ap (λ f. parse_byte p ch >>= f) (fun_ext (λ q. parse-append xs ys q))
    ∙ sym (>>=_assoc (parse_byte p ch) (parse xs) (parse ys))
