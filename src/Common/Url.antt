-- ===== src/Common/Url.antt =====
-- The URL escapes of common.cpp: what `url_encode` writes, `url_decode` reads back.
use gnyproxy.Prelude.{
  every, every-lt, ℕ, ◌/◌, ◌%◌, ◌<◌, ◌≡◌, refl, ap, ◌∙◌, Bool, true, false, ◌&&◌, [], ◌∷◌, ◌++◌,
  inl, inr, ◌==◌, ==_iff, Bool-cases, Bytes, arith,
}
use gnyproxy.Common.{
  isspace, is_hex, hextoi, itohex, hex_pair, url_encode_char, url_encode, url_decode,
}

-- The two digits that `url_encode` writes for a byte.
abbrev escape_reads : ℕ → Bool
escape_reads c =
    is_hex (itohex (c / 16))
    && is_hex (itohex (c % 16))
    && hex_pair (itohex (c / 16)) (itohex (c % 16)) == c

escape_table : every escape_reads 256 ≡ true
unfolding every is_hex itohex hex_pair hextoi
escape_table = refl

isspace-lt : (c : ℕ) → isspace c ≡ true → c < 256
unfolding isspace
isspace-lt c h = ground arith

isspace_escape : (c : ℕ) → isspace c ≡ true → escape_reads c ≡ true
isspace_escape c h = every-lt escape_reads 256 c escape_table (isspace-lt c h)

url_decode_plain :
    (c : ℕ) (rest : Bytes) → (c == b'%') ≡ false → url_decode (c ∷ rest) ≡ c ∷ url_decode rest
unfolding url_decode
url_decode_plain c [] h = refl
url_decode_plain c (a ∷ []) h = refl
url_decode_plain c (a ∷ b ∷ rest) h = rw h

split_and : (a b c : Bool) → (a && b && c) ≡ true → ((a && b) ≡ true) × (c ≡ true)
split_and a b c h = ground arith

url_decode_escape :
    (c : ℕ) (rest : Bytes)
    → escape_reads c ≡ true
    → url_decode (b'%' ∷ itohex (c / 16) ∷ itohex (c % 16) ∷ rest) ≡ c ∷ url_decode rest
unfolding url_decode
url_decode_escape c rest h =
    let (digits, value) = split_and (is_hex (itohex (c / 16))) (is_hex (itohex (c % 16))) _ h in
    rw (digits, (==_iff _ c).0 value)

url_decode-url_encode_char :
    (c : ℕ) (rest : Bytes) → url_decode (url_encode_char c ++ rest) ≡ c ∷ url_decode rest
unfolding url_encode_char url_decode
url_decode-url_encode_char c rest = elim (Bool-cases (c == b'%')) [
  | inl percent ↦ rw ((==_iff c b'%').0 percent) refl
  | inr other ↦ elim (Bool-cases (isspace c)) [
    | inl space ↦
        rw (other, space, url_encode_char) (url_decode_escape c rest (isspace_escape c space))
    | inr plain ↦ rw (other, plain, url_encode_char) (url_decode_plain c rest other)
  ]
]

-- Every byte string comes back, also one that holds percent signs and white space.
pub url_decode-url_encode : (url : Bytes) → url_decode (url_encode url) ≡ url
unfolding url_encode url_encode_char
url_decode-url_encode [] = unfold url_decode in refl
url_decode-url_encode (c ∷ url) =
    url_decode-url_encode_char c (url_encode url) ∙ ap (◌∷◌ c) (url_decode-url_encode url)
