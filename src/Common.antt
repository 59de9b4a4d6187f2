-- ===== src/Common.antt =====
-- common.cpp: character classes, hexadecimal digits, `trim`, the URL escapes, `parse_host`, and the
-- two encodings of the GNY wire format, `write_string` and `write_short`. `isspace` is that of the
-- C locale. A byte is its unsigned value; a `char` of 128 or more is in no class, as in the source.
pub mod Url
pub mod Host
pub mod Trim
use gnyproxy.Prelude.{
  ℕ, zero, suc, ◌+◌, ◌-◌, ◌*◌, ◌/◌, ◌%◌, Bool, true, false, ◌&&◌, ◌||◌, List, [], ◌∷◌, ◌++◌, Option,
  none, some, bit_or, leb, ltb, ◌==◌, if◌then◌else◌, Bytes, take, drop, get_elem?, Result, in_range,
  ◌>>=◌, ok,
}

-- `isspace` of <ctype.h>.
unfoldable pub isspace : ℕ → Bool
isspace ch = ch == 32 || (leb 9 ch && leb ch 13)

unfoldable pub is_hex : ℕ → Bool
is_hex ch =
    (leb b'0' ch && leb ch b'9') || (leb b'a' ch && leb ch b'f') || (leb b'A' ch && leb ch b'f')

unfoldable pub hextoi : ℕ → ℕ
hextoi ch =
    if leb b'0' ch && leb ch b'9'
    then ch - b'0'
    else if leb b'a' ch && leb ch b'f'
    then ch - b'a' + 10
    else ch - b'A' + 10

unfoldable pub itohex : ℕ → ℕ
itohex x = if ltb x 10 then b'0' + x else b'a' + x - 10

-- The two loops of `trim`: `a` skips the white space in front, `b` that at the end.
unfoldable pub trim_front : Bytes → Bytes
trim_front [] = []
trim_front (c ∷ cs) = if isspace c then trim_front cs else c ∷ cs

trim_back_onto : ℕ → Bytes → Bytes
trim_back_onto c [] = if isspace c then [] else c ∷ []
trim_back_onto c (d ∷ ds) = c ∷ d ∷ ds

unfoldable pub trim_back : Bytes → Bytes
unfolding trim_back_onto
trim_back [] = []
trim_back (c ∷ cs) = trim_back_onto c (trim_back cs)

unfoldable pub trim : Bytes → Bytes
unfolding trim_front trim_back
trim str = trim_back (trim_front str)

-- What `url_encode` appends for one character.
url_encode_char : ℕ → Bytes
url_encode_char c =
    if c == b'%'
    then b'%' ∷ b'2' ∷ b'5' ∷ []
    else if isspace c
    then b'%' ∷ itohex (c / 16) ∷ itohex (c % 16) ∷ []
    else c ∷ []

unfoldable pub url_encode : Bytes → Bytes
unfolding url_encode_char isspace itohex
url_encode [] = []
url_encode (c ∷ url) = url_encode_char c ++ url_encode url

-- `(char)(hextoi(a) << 4 | hextoi(b))`.
hex_pair : ℕ → ℕ → ℕ
hex_pair a b = bit_or (hextoi a * 16) (hextoi b) % 256

unfoldable pub url_decode : Bytes → Bytes
unfolding hex_pair is_hex hextoi
url_decode [] = []
url_decode (c ∷ []) = c ∷ []
url_decode (c ∷ a ∷ []) = c ∷ url_decode (a ∷ [])
url_decode (c ∷ a ∷ b ∷ url) =
    let decoded = hex_pair a b ∷ url_decode url in
    let plain = c ∷ url_decode (a ∷ b ∷ url) in
    if c == b'%' && (is_hex a && is_hex b) then decoded else plain

-- `std::string::find_last_of` for one character; `none` is `npos`.
unfoldable pub find_last_of : ℕ → Bytes → Option ℕ
find_last_of c [] = none
find_last_of c (x ∷ xs) = elim (find_last_of c xs) [
  | some i ↦ some (suc i)
  | none ↦ if x == c then some 0 else none
]

-- Host and port, the port 80 where none is given.
unfoldable pub parse_host : Bytes → Bytes × Bytes
unfolding find_last_of
parse_host host = elim (find_last_of b':' host) [
  | none ↦ (host, b'8' ∷ b'0' ∷ [])
  | some pos ↦ (take pos host, drop (pos + 1) host)
]

unfoldable pub write_string : Bytes → Bytes → Bytes
write_string out str = (out ++ str) ++ 0 ∷ []

-- `x` is an `unsigned short`, written high byte first.
unfoldable pub write_short : Bytes → ℕ → Bytes
write_short out x = (out ++ (x / 256 % 256) ∷ []) ++ (x % 256) ∷ []

-- Two bytes at `pos`, high byte first.
unfoldable pub read_short : Bytes → ℕ → Result ℕ
read_short str pos = do
  high ← in_range (get_elem? str pos)
  low ← in_range (get_elem? str (pos + 1))
  ok (high * 256 + low)
