-- ===== src/Common/Trim.antt =====
-- `trim` of common.cpp.
use gnyproxy.Prelude.{
  ℕ, ◌≡◌, refl, ap, ◌∙◌, sym, true, false, [], ◌∷◌, ◌++◌, Bytes, All, append-nil, append_assoc,
}
use gnyproxy.Common.{isspace, trim_front, trim_back_onto, trim_back, trim}

abbrev pub Blank : Bytes → Type 0
Blank = All λ c. isspace c ≡ true

-- The string has a first and a last character, and neither is white space.
pub record IsTrimmed (s : Bytes) : Type 0 where
  pub first : ℕ
  pub behind : Bytes
  pub starts : s ≡ first ∷ behind
  pub first_solid : isspace first ≡ false
  pub before : Bytes
  pub last : ℕ
  pub ends : s ≡ before ++ last ∷ []
  pub last_solid : isspace last ≡ false

trim_front-Blank : (a s : Bytes) → Blank a → trim_front (a ++ s) ≡ trim_front s
unfolding trim_front
trim_front-Blank [] s h = refl
trim_front-Blank (c ∷ a) s h = rw h.0 (trim_front-Blank a s h.1)

trim_back-Blank : (b : Bytes) → Blank b → trim_back b ≡ []
unfolding trim_back
trim_back-Blank [] h = refl
trim_back-Blank (c ∷ b) h = rw (trim_back-Blank b h.1, trim_back_onto, h.0)

trim_back_onto-append : (c d : ℕ) (s : Bytes) → trim_back_onto c (s ++ d ∷ []) ≡ c ∷ (s ++ d ∷ [])
unfolding trim_back_onto
trim_back_onto-append c d [] = refl
trim_back_onto-append c d (x ∷ s) = refl

trim_back_solid :
    (s : Bytes) (d : ℕ) (b : Bytes)
    → isspace d ≡ false
    → Blank b
    → trim_back (s ++ d ∷ b) ≡ s ++ d ∷ []
unfolding trim_back
trim_back_solid [] d b h k = rw (trim_back-Blank b k, trim_back_onto, h)
trim_back_solid (c ∷ s) d b h k = rw (trim_back_solid s d b h k) (trim_back_onto-append c d s)

-- White space around a string that begins and ends with other characters is taken off, and
-- nothing else; of white space alone nothing is left.
pub trim_lem :
    (a s b : Bytes) → Blank a → IsTrimmed s → Blank b → (trim (a ++ (s ++ b)) ≡ s) × (trim a ≡ [])
unfolding trim
trim_lem a s b ha t hb = (pads, blank)
  where
    solid : trim_front (s ++ b) ≡ s ++ b
    solid = rw t.starts (unfold trim_front in rw t.first_solid)

    pads : trim (a ++ (s ++ b)) ≡ s
    pads =
        ap trim_back (
          trim_front-Blank a (s ++ b) ha
          ∙ solid
          ∙ ap (λ u. u ++ b) t.ends
          ∙ append_assoc t.before (t.last ∷ []) b)
        ∙ trim_back_solid t.before t.last b t.last_solid hb
        ∙ sym t.ends

    blank : trim a ≡ []
    blank = ap trim_back (ap trim_front (sym (append-nil a)) ∙ trim_front-Blank a [] ha)
