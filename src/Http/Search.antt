-- ===== src/Http/Search.antt =====
-- `string_bin_search` on a sorted table is the search from the front.
use mathlib.Core.Option
use mathlib.Core.Option.{some-injective}
use mathlib.Core.Path.{subst}
use gnyproxy.Prelude.{
  ℕ, zero, suc, ◌+◌, ◌/◌, ◌≤◌, ◌<◌, ◌≡◌, ◌≢◌, refl, ◌∙◌, ◌⊎◌, inl, inr, List, [], ◌∷◌, Option, none,
  some, Ordering, Bytes, All, arith, length, get_elem?, ltb, Bool-cases, ok,
}
use gnyproxy.Http.Compare.{strcasecmp-eq_iff_left, strcasecmp-eq, strcasecmp_trans, strcasecmp_left}
use gnyproxy.Http.{lower, strcasecmp, bin_search, string_bin_search}

-- Every name comes before all that follow it.
abbrev pub IsSorted : List Bytes → Type 0
IsSorted [] = Unit {0}
IsSorted (s ∷ ss) = All (λ t. strcasecmp s t ≡ Ordering.lt) ss × IsSorted ss

-- The first entry that the key agrees with, up to case.
unfoldable pub index_of : Bytes → List Bytes → Option ℕ
index_of key [] = none
index_of key (s ∷ ss) = elim (strcasecmp key s) [
  | Ordering.eq ↦ some 0
  | Ordering.lt ↦ Option.map suc (index_of key ss)
  | Ordering.gt ↦ Option.map suc (index_of key ss)
]

-- How many entries stand in front of the place of the key.
rank : Bytes → List Bytes → ℕ
rank key [] = 0
rank key (s ∷ ss) = elim (strcasecmp key s) [
  | Ordering.gt ↦ suc (rank key ss)
  | Ordering.eq ↦ 0
  | Ordering.lt ↦ 0
]

-- What a comparison with the entry `j` says of the place `r` and the answer `a`.
abbrev Tells : ℕ → Option ℕ → ℕ → Ordering → Type 0
Tells r a j Ordering.lt = (r ≤ j) × ((r < j) ⊎ (a ≡ none))
Tells r a j Ordering.gt = j < r
Tells r a j Ordering.eq = (r ≡ j) × (a ≡ some j)

All-below-lt :
    (key s : Bytes) (ss : List Bytes)
    → strcasecmp key s ≡ Ordering.lt
    → All (λ t. strcasecmp s t ≡ Ordering.lt) ss
    → All (λ t. strcasecmp key t ≡ Ordering.lt) ss
All-below-lt key s [] h k = tt
All-below-lt key s (t ∷ ss) h k = (strcasecmp_trans key s t h k.0, All-below-lt key s ss h k.1)

All-below-eq :
    (key s : Bytes) (ss : List Bytes)
    → strcasecmp key s ≡ Ordering.eq
    → All (λ t. strcasecmp s t ≡ Ordering.lt) ss
    → All (λ t. strcasecmp key t ≡ Ordering.lt) ss
All-below-eq key s [] h k = tt
All-below-eq key s (t ∷ ss) h k =
    (strcasecmp_left key s t (strcasecmp-eq_iff_left key s h) ∙ k.0, All-below-eq key s ss h k.1)

index_of-lt :
    (key : Bytes) (ss : List Bytes)
    → All (λ t. strcasecmp key t ≡ Ordering.lt) ss
    → index_of key ss ≡ none
unfolding index_of
index_of-lt key [] h = refl
index_of-lt key (s ∷ ss) h = rw (h.0, index_of, index_of-lt key ss h.1)

get_elem?-All {ℓ κ} :
    {A : Type ℓ} (P : A → Type κ) (xs : List A) (i : ℕ) (x : A)
    → All P xs
    → get_elem? xs i ≡ some x
    → P x
get_elem?-All P [] i x h e = absurd (cc)
get_elem?-All P (y ∷ xs) zero x h e = subst P (some-injective _ _ e) h.0
get_elem?-All P (y ∷ xs) (suc i) x h e = get_elem?-All P xs i x h.1 e

All-below :
    (key s : Bytes) (ss : List Bytes)
    → strcasecmp key s ≢ Ordering.gt
    → All (λ t. strcasecmp s t ≡ Ordering.lt) ss
    → All (λ t. strcasecmp key t ≡ Ordering.lt) ss
All-below key s ss h k = go (strcasecmp key s) refl
  where
    go : (o : Ordering) → strcasecmp key s ≡ o → All (λ t. strcasecmp key t ≡ Ordering.lt) ss
    go Ordering.lt e = All-below-lt key s ss e k
    go Ordering.eq e = All-below-eq key s ss e k
    go Ordering.gt e = absurd (h e)

Tells-first :
    (key s : Bytes) (ss : List Bytes)
    → IsSorted (s ∷ ss)
    → Tells (rank key (s ∷ ss)) (index_of key (s ∷ ss)) 0 (strcasecmp key s)
unfolding index_of rank
Tells-first key s ss h =
    let behind =
      λ (n : strcasecmp key s ≢ Ordering.gt). index_of-lt key ss (All-below key s ss n h.0) in
    ground (arith, behind)

Tells-later :
    (key t : Bytes) (ss : List Bytes) (j : ℕ) (o : Ordering)
    → (strcasecmp key t ≢ Ordering.gt → o ≡ Ordering.lt)
    → Tells (rank key ss) (index_of key ss) j o
    → Tells (rank key (t ∷ ss)) (index_of key (t ∷ ss)) (suc j) o
unfolding index_of rank
Tells-later key t ss j Ordering.lt h k = ground arith
Tells-later key t ss j Ordering.gt h k = ground arith
Tells-later key t ss j Ordering.eq h k = ground arith

-- Each comparison tells the loop on which side to go on.
Tells-strcasecmp :
    (key : Bytes) (ss : List Bytes) (j : ℕ) (s : Bytes)
    → IsSorted ss
    → get_elem? ss j ≡ some s
    → Tells (rank key ss) (index_of key ss) j (strcasecmp key s)
Tells-strcasecmp key [] j s h e = absurd (cc)
Tells-strcasecmp key (t ∷ ss) zero s h e =
    subst (λ u. Tells (rank key (t ∷ ss)) (index_of key (t ∷ ss)) 0 (strcasecmp key u))
      (some-injective _ _ e) (Tells-first key t ss h)
Tells-strcasecmp key (t ∷ ss) (suc j) s h e =
    Tells-later key t ss j (strcasecmp key s)
      (λ n. get_elem?-All (λ u. strcasecmp key u ≡ Ordering.lt) ss j s (All-below key t ss n h.0) e)
      (Tells-strcasecmp key ss j s h.1 e)

pub get_elem?_total {ℓ} :
    {A : Type ℓ} (xs : List A) (i : ℕ) → i < length xs → (x : A) × (get_elem? xs i ≡ some x)
get_elem?_total [] i h = absurd (omega arith)
get_elem?_total (x ∷ xs) zero h = (x, refl)
get_elem?_total (x ∷ xs) (suc i) h = get_elem?_total xs i (omega arith)

-- With the place of the key between `low` and `high` and enough fuel the loop finds the answer.
bin_search-index_of :
    (fuel : ℕ) (key : Bytes) (ss : List Bytes) (low high : ℕ)
    → IsSorted ss
    → high ≤ length ss
    → low ≤ rank key ss
    → (rank key ss < high) ⊎ ((rank key ss ≤ high) × (index_of key ss ≡ none))
    → high < low + fuel
    → bin_search fuel key ss low high ≡ ok (index_of key ss)
unfolding bin_search
bin_search-index_of zero key ss low high h l r p f = ground arith
bin_search-index_of (suc fuel) key ss low high h l r p f = elim (Bool-cases (ltb low high)) [
  | inl more ↦
      let mid = (high + low) / 2 in
      let (s, e) = get_elem?_total ss mid (ground arith) in
      ground (
        arith,
        e,
        Tells-strcasecmp key ss mid s h e,
        bin_search-index_of fuel key ss low mid h,
        bin_search-index_of fuel key ss (mid + 1) high h,
      )
  | inr over ↦ ground arith
]

rank_in_table :
    (key : Bytes) (ss : List Bytes)
    → (rank key ss < length ss) ⊎ ((rank key ss ≤ length ss) × (index_of key ss ≡ none))
unfolding rank index_of
rank_in_table key [] = inr (omega arith, refl)
rank_in_table key (s ∷ ss) = ground (arith, rank_in_table key ss)

-- On a sorted table the binary search finds what a search from the front finds, and it stops.
pub string_bin_search-index_of :
    (key : Bytes) (ss : List Bytes)
    → IsSorted ss
    → string_bin_search key ss (length ss) ≡ ok (index_of key ss)
unfolding string_bin_search
string_bin_search-index_of key ss h =
    bin_search-index_of (suc (length ss)) key ss 0 (length ss) h (omega arith) (omega arith)
      (rank_in_table key ss) (omega arith)

-- The place of an entry is the answer for every key that agrees with it up to case.
pub index_of-get_elem? :
    (key : Bytes) (ss : List Bytes) (i : ℕ) (s : Bytes)
    → IsSorted ss
    → get_elem? ss i ≡ some s
    → lower key ≡ lower s
    → index_of key ss ≡ some i
index_of-get_elem? key ss i s h e l =
    (rw (strcasecmp-eq key s l) at (Tells-strcasecmp key ss i s h e)).1
