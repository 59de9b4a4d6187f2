-- ===== src/Http11/Hex.antt =====
-- The sizes of chunks: what %x prints, the reader's shifts put together again.
use Prim.Native.Nat.{max, digits, bit_or-bitwise}
use gnyproxy.Prelude.{
  every, every-lt, ℕ, zero, suc, ◌+◌, ◌*◌, ◌/◌, ◌%◌, ◌^◌, ◌≤◌, ◌<◌, bit_or, ◌≡◌, refl, ◌∙◌, Bool,
  true, ◌&&◌, arith, ◌==◌,
}
use gnyproxy.Common.{is_hex, hextoi, itohex}
use gnyproxy.MessageSource11.{push_hex}

-- `|` on the digits of the two numbers, with as many steps as the first one needs.
abbrev either : ℕ → ℕ → ℕ → ℕ
either = digits (λ b. b) max

either_zero : (n a : ℕ) → a ≤ n → either n a 0 ≡ a
either_zero zero zero h = refl
either_zero zero (suc a) h = absurd (omega arith)
either_zero (suc n) zero h = refl
either_zero (suc n) (suc a) h = omega (arith, either_zero n (suc a / 2) (omega arith))

-- An even number and any number, by their halves.
either_even :
    (n a r v : ℕ)
    → a ≤ n
    → a / 2 * 2 ≡ a
    → ((m : ℕ) → a / 2 ≤ m → either m (a / 2) (r / 2) ≡ v)
    → either n a r ≡ v * 2 + r % 2
either_even zero zero r v h e f = omega (arith, f 0 (omega arith))
either_even zero (suc a) r v h e f = absurd (omega arith)
either_even (suc n) zero r v h e f = omega (arith, f 0 (omega arith))
either_even (suc n) (suc a) r v h e f = omega (arith, f n (omega arith))

either_double :
    (n h r v : ℕ)
    → h * 2 ≤ n
    → ((m : ℕ) → h ≤ m → either m h (r / 2) ≡ v)
    → either n (h * 2) r ≡ v * 2 + r % 2
either_double n h r v le f =
    let half : h * 2 / 2 ≡ h = omega arith in
    either_even n (h * 2) r v le (omega arith) (λ m l. rw half (f m (omega arith)))

either_shift : (q d : ℕ) → d < 16 → bit_or (q * 16) d ≡ q * 16 + d
either_shift q d small =
    let low : d / 2 / 2 / 2 / 2 ≡ 0 = omega arith in
    let one = λ (n : ℕ) (l : q * 2 ≤ n).
      either_double n q (d / 2 / 2 / 2) q l (λ m k. rw low (either_zero m q k)) in
    let two = λ (n : ℕ) (l : q * 2 * 2 ≤ n). either_double n (q * 2) (d / 2 / 2) _ l one in
    let three = λ (n : ℕ) (l : q * 2 * 2 * 2 ≤ n). either_double n (q * 2 * 2) (d / 2) _ l two in
    let four = either_double (q * 2 * 2 * 2 * 2) (q * 2 * 2 * 2) d _ (omega arith) three in
    let same : q * 16 ≡ q * 2 * 2 * 2 * 2 = omega arith in
    rw same (simp bit_or-bitwise (four ∙ omega arith))

abbrev digit_reads : ℕ → Bool
digit_reads d = is_hex (itohex d) && hextoi (itohex d) == d

digit_table : every digit_reads 16 ≡ true
unfolding every is_hex itohex hextoi
digit_table = refl

pub digit_lem : (d : ℕ) → d < 16 → (is_hex (itohex d) ≡ true) × (hextoi (itohex d) ≡ d)
digit_lem d small =
    let h = every-lt digit_reads 16 d digit_table small in (ground arith, ground arith)

-- A digit that is read behind the ones before it.
pub push_hex-itohex :
    (size d : ℕ) → d < 16 → size < 2 ^ 60 → push_hex size (itohex d) ≡ size * 16 + d
unfolding push_hex
push_hex-itohex size d small fits =
    let none_lost : size * 16 % 2 ^ 64 ≡ size * 16 = omega arith in
    rw (none_lost, (digit_lem d small).1) (either_shift size d small)
