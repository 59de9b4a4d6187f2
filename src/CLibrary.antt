-- ===== src/CLibrary.antt =====
-- Functions of the C standard library that the HTTP/1.1 classes call, on what `c_str()` gives:
-- `strtol` and `strtoll` in base 10, where `long` has 64 bits, and the conversions %d and %x.
use gnyproxy.Prelude.{
  ℕ, zero, suc, ◌+◌, ◌-◌, ◌*◌, ◌/◌, ◌%◌, ◌^◌, Bool, true, false, ◌&&◌, [], ◌∷◌, ◌++◌, leb, ltb,
  ◌==◌, if◌then◌else◌, Bytes,
}
use gnyproxy.Prelude.Int.{ℤ, pos, negsuc}
use gnyproxy.Common.{trim_front, itohex}

abbrev pub long_max : ℕ
long_max = 2 ^ 63 - 1

abbrev pub is_digit : ℕ → Bool
is_digit c = leb b'0' c && leb c b'9'

-- The value of the digits in front.
unfoldable pub digits : ℕ → Bytes → ℕ
digits n [] = n
digits n (c ∷ cs) = let rest = digits (n * 10 + (c - b'0')) cs in if is_digit c then rest else n

-- The value, and whether `errno` is set to ERANGE.
unfoldable pub signed : Bool → ℕ → ℤ × Bool
signed false n = if leb n long_max then (pos n, false) else (pos long_max, true)
signed true zero = (pos 0, false)
signed true (suc n) = if leb n long_max then (negsuc n, false) else (negsuc long_max, true)

unfoldable pub strtoll : Bytes → ℤ × Bool
unfolding digits signed
strtoll str = from_sign (trim_front str)
  where
    from_sign : Bytes → ℤ × Bool
    from_sign [] = (pos 0, false)
    from_sign (c ∷ cs) =
        if c == b'-'
        then signed true (digits 0 cs)
        else if c == b'+'
        then signed false (digits 0 cs)
        else signed false (digits 0 (c ∷ cs))

-- The conversion of a `long` to an `int`.
unfoldable pub to_int : ℤ → ℤ
to_int (pos n) =
    let bits = n % 2 ^ 32 in if ltb bits (2 ^ 31) then pos bits else negsuc (2 ^ 32 - 1 - bits)
to_int (negsuc n) =
    let bits = n % 2 ^ 32 in if ltb bits (2 ^ 31) then negsuc bits else pos (2 ^ 32 - 1 - bits)

-- The digits in the base 10 or 16 of a number of at most as many digits as the fuel.
unfoldable pub print_base : ℕ → ℕ → ℕ → Bytes
unfolding itohex
print_base zero base n = []
print_base (suc fuel) base n =
    let front = print_base fuel base (n / base) in
    (if n / base == 0 then [] else front) ++ itohex (n % base) ∷ []

-- An `int`, which has at most ten digits.
unfoldable pub print_d : ℤ → Bytes
unfolding print_base
print_d (pos n) = print_base 10 10 n
print_d (negsuc n) = b'-' ∷ print_base 10 10 (suc n)

-- %x takes an `unsigned int`: of a size it prints the low 32 bits.
unfoldable pub print_x : ℕ → Bytes
unfolding print_base
print_x n = print_base 8 16 (n % 2 ^ 32)
