-- ===== src/Http/Compare.antt =====
-- `strcasecmp` is a strict order on names up to case.
use gnyproxy.Prelude.{◌≡◌, refl, [], ◌∷◌, Ordering, Bytes, arith}
use gnyproxy.Http.{lexicographic, lower, strcasecmp}

lexicographic_refl : (a : Bytes) → lexicographic a a ≡ Ordering.eq
unfolding lexicographic
lexicographic_refl [] = refl
lexicographic_refl (x ∷ a) = ground (arith, lexicographic_refl a)

eq_of_lexicographic : (a b : Bytes) → lexicographic a b ≡ Ordering.eq → a ≡ b
unfolding lexicographic
eq_of_lexicographic [] [] h = refl
eq_of_lexicographic [] (y ∷ b) h = cc
eq_of_lexicographic (x ∷ a) [] h = cc
eq_of_lexicographic (x ∷ a) (y ∷ b) h = ground (arith, eq_of_lexicographic a b)

lexicographic_trans :
    (a b c : Bytes)
    → lexicographic a b ≡ Ordering.lt
    → lexicographic b c ≡ Ordering.lt
    → lexicographic a c ≡ Ordering.lt
unfolding lexicographic
lexicographic_trans [] [] c h k = cc
lexicographic_trans [] (y ∷ b) [] h k = cc
lexicographic_trans [] (y ∷ b) (z ∷ c) h k = refl
lexicographic_trans (x ∷ a) [] c h k = cc
lexicographic_trans (x ∷ a) (y ∷ b) [] h k = cc
lexicographic_trans (x ∷ a) (y ∷ b) (z ∷ c) h k = ground (arith, lexicographic_trans a b c)

lexicographic_flip :
    (a b : Bytes) → lexicographic a b ≡ Ordering.lt → lexicographic b a ≡ Ordering.gt
unfolding lexicographic
lexicographic_flip [] [] h = cc
lexicographic_flip [] (y ∷ b) h = refl
lexicographic_flip (x ∷ a) [] h = cc
lexicographic_flip (x ∷ a) (y ∷ b) h = ground (arith, lexicographic_flip a b)

pub strcasecmp-eq_iff_left : (a b : Bytes) → strcasecmp a b ≡ Ordering.eq → lower a ≡ lower b
unfolding strcasecmp
strcasecmp-eq_iff_left a b = eq_of_lexicographic (lower a) (lower b)

pub strcasecmp-eq : (a b : Bytes) → lower a ≡ lower b → strcasecmp a b ≡ Ordering.eq
unfolding strcasecmp
strcasecmp-eq a b h = rw h (lexicographic_refl (lower b))

pub strcasecmp_trans :
    (a b c : Bytes)
    → strcasecmp a b ≡ Ordering.lt
    → strcasecmp b c ≡ Ordering.lt
    → strcasecmp a c ≡ Ordering.lt
unfolding strcasecmp
strcasecmp_trans a b c = lexicographic_trans (lower a) (lower b) (lower c)

pub strcasecmp_flip : (a b : Bytes) → strcasecmp a b ≡ Ordering.lt → strcasecmp b a ≡ Ordering.gt
unfolding strcasecmp
strcasecmp_flip a b = lexicographic_flip (lower a) (lower b)

-- Names that agree up to case compare alike with every other.
pub strcasecmp_left : (a b c : Bytes) → lower a ≡ lower b → strcasecmp a c ≡ strcasecmp b c
unfolding strcasecmp
strcasecmp_left a b c h = rw h
