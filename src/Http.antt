-- ===== src/Http.antt =====
-- http.h and http.cpp: the verbs, the header names, and the binary search between names and codes.
-- An enumerator is its number, since the GNY reader casts any byte to either enumeration.
pub mod Compare
pub mod Search
pub mod Tables
pub mod Verbs
use gnyproxy.Prelude.{
  ℕ, zero, suc, ◌+◌, ◌/◌, ◌&&◌, List, [], ◌∷◌, Option, none, some, compare, Ordering, leb, true,
  false, ltb, ◌==◌, if◌then◌else◌, Bytes, codes, map, get_elem?, Result, ok, fault, out_of_fuel,
  in_range, ◌>>=◌,
}

-- `tolower` of <ctype.h> in the C locale.
unfoldable pub tolower : ℕ → ℕ
tolower c = if leb b'A' c && leb c b'Z' then c + 32 else c

-- The characters in front of the first NUL: what `c_str()` shows to the functions of C.
unfoldable pub c_str : Bytes → Bytes
c_str [] = []
c_str (c ∷ cs) = if c == 0 then [] else c ∷ c_str cs

-- The order of two strings by their first difference.
unfoldable pub lexicographic : Bytes → Bytes → Ordering
lexicographic [] [] = Ordering.eq
lexicographic [] (y ∷ ys) = Ordering.lt
lexicographic (x ∷ xs) [] = Ordering.gt
lexicographic (x ∷ xs) (y ∷ ys) = elim (compare x y) [
  | Ordering.lt ↦ Ordering.lt
  | Ordering.gt ↦ Ordering.gt
  | Ordering.eq ↦ lexicographic xs ys
]

unfoldable pub lower : Bytes → Bytes
unfolding tolower
lower = map tolower

-- The sign of `strcasecmp` of <strings.h>, on what `c_str()` gives.
unfoldable pub strcasecmp : Bytes → Bytes → Ordering
unfolding lexicographic lower
strcasecmp a b = lexicographic (lower a) (lower b)

-- `http_request_verb_e`: connect, delete, get, head, patch, post, put, options, trace, unknown.
abbrev pub http_request_connect : ℕ
http_request_connect = 0

abbrev pub http_request_get : ℕ
http_request_get = 2

abbrev pub http_request_verb_unknown : ℕ
http_request_verb_unknown = 9

abbrev pub http_request_verb_strings : List Bytes
http_request_verb_strings =
    codes "CONNECT"
    ∷ codes "DELETE"
    ∷ codes "GET"
    ∷ codes "HEAD"
    ∷ codes "PATCH"
    ∷ codes "POST"
    ∷ codes "PUT"
    ∷ codes "OPTIONS"
    ∷ codes "TRACE"
    ∷ []

-- `http_headers_e` numbers the names of the table below, in order, and then these two.
abbrev pub header_unknown : ℕ
header_unknown = 53

abbrev pub header_end : ℕ
header_end = 54

unfoldable pub http_header_strings : List Bytes
http_header_strings =
    codes "accept"
    ∷ codes "accept-charset"
    ∷ codes "accept-encoding"
    ∷ codes "accept-language"
    ∷ codes "accept-ranges"
    ∷ codes "age"
    ∷ codes "allow"
    ∷ codes "authorization"
    ∷ codes "cache-control"
    ∷ codes "connection"
    ∷ codes "content-disposition"
    ∷ codes "content-encoding"
    ∷ codes "content-language"
    ∷ codes "content-length"
    ∷ codes "content-location"
    ∷ codes "content-md5"
    ∷ codes "content-range"
    ∷ codes "content-type"
    ∷ codes "cookie"
    ∷ codes "date"
    ∷ codes "etag"
    ∷ codes "expect"
    ∷ codes "expires"
    ∷ codes "from"
    ∷ codes "host"
    ∷ codes "if-match"
    ∷ codes "if-modified-since"
    ∷ codes "if-none-match"
    ∷ codes "if-range"
    ∷ codes "if-unmodified-since"
    ∷ codes "keep-alive"
    ∷ codes "last-modified"
    ∷ codes "location"
    ∷ codes "max-forwards"
    ∷ codes "pragma"
    ∷ codes "proxy-authenticate"
    ∷ codes "proxy-authorization"
    ∷ codes "range"
    ∷ codes "referer"
    ∷ codes "refresh"
    ∷ codes "retry-after"
    ∷ codes "server"
    ∷ codes "set-cookie"
    ∷ codes "te"
    ∷ codes "trailer"
    ∷ codes "transfer-encoding"
    ∷ codes "upgrade"
    ∷ codes "user-agent"
    ∷ codes "vary"
    ∷ codes "via"
    ∷ codes "warn"
    ∷ codes "warning"
    ∷ codes "www-authenticate"
    ∷ []

-- The loop of `string_bin_search`; `none` is -1.
unfoldable pub bin_search : ℕ → Bytes → List Bytes → ℕ → ℕ → Result (Option ℕ)
bin_search zero key strings low high = fault out_of_fuel
bin_search (suc fuel) key strings low high = elim (ltb low high) [
  | false ↦ ok none
  | true ↦ do
    let mid = (high + low) / 2
    string ← in_range (get_elem? strings mid)
    elim (strcasecmp key string) [
      | Ordering.lt ↦ bin_search fuel key strings low mid
      | Ordering.gt ↦ bin_search fuel key strings (mid + 1) high
      | Ordering.eq ↦ ok (some mid)
    ]
]

unfoldable pub string_bin_search : Bytes → List Bytes → ℕ → Result (Option ℕ)
unfolding bin_search
string_bin_search key strings size = bin_search (suc size) key strings 0 size

-- The conversions from a name: the code found, or the one for unknown names.
code_or : ℕ → Option ℕ → ℕ
code_or unknown none = unknown
code_or unknown (some result) = result

unfoldable pub atoverb : Bytes → Result ℕ
unfolding code_or
atoverb key = do
  result ← string_bin_search key http_request_verb_strings http_request_verb_unknown
  ok (code_or http_request_verb_unknown result)

unfoldable pub atoheader : Bytes → Result ℕ
unfolding code_or
atoheader key = do
  result ← string_bin_search key http_header_strings header_unknown
  ok (code_or header_unknown result)

-- The array elements; beyond the array the read is out of range.
unfoldable pub verbtoa : ℕ → Result Bytes
verbtoa key = in_range (get_elem? http_request_verb_strings key)

unfoldable pub headertoa : ℕ → Result Bytes
headertoa key = in_range (get_elem? http_header_strings key)
