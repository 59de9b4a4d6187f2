-- ===== src/Http/Tables.antt =====
-- `atoheader` and `atoverb` on the two tables of http.cpp. The header names are in order, so each
-- is found. The verbs are not: OPTIONS stands behind POST and PUT.
use mathlib.Core.Option
use mathlib.Core.Path.{subst}
use gnyproxy.Prelude.{
  ℕ, zero, suc, ◌+◌, ◌/◌, ◌≡◌, ◌<◌, ◌≢◌, refl, ap, ◌∙◌, ◌⊎◌, inl, inr, Bool, true, false, ◌&&◌,
  ◌||◌, List, [], ◌∷◌, Option, none, some, Ordering, Bytes, All, arith, length, get_elem?, ltb,
  ◌==◌, if◌then◌else◌, Option-cases, ok, in_range-eq-ok, ok_injective,
}
use gnyproxy.Http.Compare.{strcasecmp-eq_iff_left, strcasecmp-eq, strcasecmp_trans, strcasecmp_left}
use gnyproxy.Http.Search.{IsSorted, index_of, string_bin_search-index_of, index_of-get_elem?}
use gnyproxy.Http.{
  lower, strcasecmp, bin_search, string_bin_search, http_header_strings, http_request_verb_strings,
  header_unknown, http_request_verb_unknown, code_or, atoheader, atoverb, headertoa, verbtoa,
}

-- Neighbours are in order.
ascending : List Bytes → Bool
ascending [] = true
ascending (s ∷ []) = true
ascending (s ∷ t ∷ ss) =
    (elim (strcasecmp s t) [ Ordering.lt ↦ true | _ ↦ false ]) && ascending (t ∷ ss)

All-after :
    (s t : Bytes) (ss : List Bytes)
    → strcasecmp s t ≡ Ordering.lt
    → All (λ u. strcasecmp t u ≡ Ordering.lt) ss
    → All (λ u. strcasecmp s u ≡ Ordering.lt) ss
All-after s t [] h k = tt
All-after s t (u ∷ ss) h k = (strcasecmp_trans s t u h k.0, All-after s t ss h k.1)

ascending_step :
    (s t : Bytes) (rest : Bool)
    → ((elim (strcasecmp s t) [ Ordering.lt ↦ true | _ ↦ false ]) && rest) ≡ true
    → (strcasecmp s t ≡ Ordering.lt) × (rest ≡ true)
ascending_step s t rest h = ground arith

ascending-IsSorted : (ss : List Bytes) → ascending ss ≡ true → IsSorted ss
unfolding ascending
ascending-IsSorted [] h = tt
ascending-IsSorted (s ∷ []) h = (tt, tt)
ascending-IsSorted (s ∷ t ∷ ss) h =
    let (first, rest) = ascending_step s t (ascending (t ∷ ss)) h in
    let sorted = ascending-IsSorted (t ∷ ss) rest in
    ((first, All-after s t ss first sorted.0), sorted)

pub header_strings-IsSorted : IsSorted http_header_strings
unfolding ascending strcasecmp http_header_strings
header_strings-IsSorted = ascending-IsSorted http_header_strings refl

-- What the search from the front answers.
abbrev Answers : Bytes → List Bytes → Option ℕ → Type 0
Answers key ss none = All (λ s. lower key ≢ lower s) ss
Answers key ss (some i) = (s : Bytes) × (get_elem? ss i ≡ some s) × (lower key ≡ lower s)

Answers-cons :
    (key s : Bytes) (ss : List Bytes) (o : Ordering) (r : Option ℕ)
    → strcasecmp key s ≡ o
    → Answers key ss r
    → Answers key (s ∷ ss) (elim o [
      | Ordering.eq ↦ some 0
      | Ordering.lt ↦ Option.map suc r
      | Ordering.gt ↦ Option.map suc r
    ])
Answers-cons key s ss Ordering.eq r e h = (s, refl, strcasecmp-eq_iff_left key s e)
Answers-cons key s ss Ordering.lt none e h = ((λ l. cc (strcasecmp-eq key s l)), h)
Answers-cons key s ss Ordering.lt (some i) e h = h
Answers-cons key s ss Ordering.gt none e h = ((λ l. cc (strcasecmp-eq key s l)), h)
Answers-cons key s ss Ordering.gt (some i) e h = h

index_of-Answers : (key : Bytes) (ss : List Bytes) → Answers key ss (index_of key ss)
unfolding index_of
index_of-Answers key [] = tt
index_of-Answers key (s ∷ ss) =
    Answers-cons key s ss (strcasecmp key s) (index_of key ss) refl (index_of-Answers key ss)

length-header_strings : length http_header_strings ≡ header_unknown
unfolding http_header_strings
length-header_strings = refl

atoheader-index_of :
    (key : Bytes) → atoheader key ≡ ok (code_or header_unknown (index_of key http_header_strings))
unfolding atoheader
atoheader-index_of key = rw (← length-header_strings) (
    rw (string_bin_search-index_of key http_header_strings header_strings-IsSorted)
      (rw length-header_strings))

-- The code of an entry that the name agrees with, or that of an unknown name.
abbrev pub HeaderCode : Bytes → ℕ → Type 0
HeaderCode key code =
    ((name : Bytes) × (headertoa code ≡ ok name) × (lower key ≡ lower name))
    ⊎ ((code ≡ header_unknown) × All (λ name. lower key ≢ lower name) http_header_strings)

HeaderCode-code_or :
    (key : Bytes) (r : Option ℕ)
    → Answers key http_header_strings r
    → HeaderCode key (code_or header_unknown r)
unfolding code_or headertoa
HeaderCode-code_or key none h = inr (refl, h)
HeaderCode-code_or key (some i) (s, e, l) = inl (s, rw e, l)

-- `atoheader` gives the code of the entry that the name agrees with up to case, and the code for
-- unknown names only where it agrees with no entry; it never reads outside the table.
pub atoheader-HeaderCode :
    (key : Bytes) → (code : ℕ) × (atoheader key ≡ ok code) × HeaderCode key code
atoheader-HeaderCode key =
    (_, atoheader-index_of key, HeaderCode-code_or key _ (index_of-Answers key http_header_strings))

bin_search-lower :
    (fuel : ℕ) (a b : Bytes) (ss : List Bytes) (low high : ℕ)
    → lower a ≡ lower b
    → bin_search fuel a ss low high ≡ bin_search fuel b ss low high
unfolding bin_search
bin_search-lower zero a b ss low high h = refl
bin_search-lower (suc fuel) a b ss low high h =
    let mid = (high + low) / 2 in
    elim (Option-cases (get_elem? ss mid)) [
      | inl e ↦ ground (arith, e)
      | inr (s, e) ↦ ground (
        arith,
        e,
        strcasecmp_left a b s h,
        bin_search-lower fuel a b ss low mid h,
        bin_search-lower fuel a b ss (mid + 1) high h,
      )
    ]

string_bin_search-lower :
    (a b : Bytes) (ss : List Bytes) (size : ℕ)
    → lower a ≡ lower b
    → string_bin_search a ss size ≡ string_bin_search b ss size
unfolding string_bin_search
string_bin_search-lower a b ss size h = bin_search-lower (suc size) a b ss 0 size h

-- The name of a code, in any case, is found again as that code.
pub atoheader-headertoa :
    (code : ℕ) (key name : Bytes)
    → headertoa code ≡ ok name
    → lower key ≡ lower name
    → atoheader key ≡ ok code
unfolding headertoa code_or
atoheader-headertoa code key name e l =
    atoheader-index_of key
    ∙ ap (λ r. ok (code_or header_unknown r))
        (index_of-get_elem? key http_header_strings code name header_strings-IsSorted
          (in_range-eq-ok _ e) l)

-- The verbs that the search finds: all but POST, PUT and OPTIONS.
abbrev pub is_found : ℕ → Bool
is_found verb = ltb verb 5 || verb == 8

verb_table :
    (verb : ℕ) (name : Bytes)
    → verbtoa verb ≡ ok name
    → atoverb name ≡ ok (if is_found verb then verb else http_request_verb_unknown)
unfolding verbtoa atoverb string_bin_search strcasecmp
verb_table zero name e = subst (λ n. atoverb n ≡ ok 0) (ok_injective e) refl
verb_table (suc zero) name e = subst (λ n. atoverb n ≡ ok 1) (ok_injective e) refl
verb_table (suc (suc zero)) name e = subst (λ n. atoverb n ≡ ok 2) (ok_injective e) refl
verb_table (suc (suc (suc zero))) name e = subst (λ n. atoverb n ≡ ok 3) (ok_injective e) refl
verb_table (suc (suc (suc (suc zero)))) name e = subst (λ n. atoverb n ≡ ok 4) (ok_injective e) refl
verb_table (suc (suc (suc (suc (suc zero))))) name e =
    subst (λ n. atoverb n ≡ ok 9) (ok_injective e) refl
verb_table (suc (suc (suc (suc (suc (suc zero)))))) name e =
    subst (λ n. atoverb n ≡ ok 9) (ok_injective e) refl
verb_table (suc (suc (suc (suc (suc (suc (suc zero))))))) name e =
    subst (λ n. atoverb n ≡ ok 9) (ok_injective e) refl
verb_table (suc (suc (suc (suc (suc (suc (suc (suc zero)))))))) name e =
    subst (λ n. atoverb n ≡ ok 8) (ok_injective e) refl
verb_table (suc (suc (suc (suc (suc (suc (suc (suc (suc verb))))))))) name e = absurd (cc)

-- A verb is found up to case, but POST, PUT and OPTIONS, which stand in no order in the table, are
-- taken for unknown verbs.
pub atoverb-verbtoa :
    (verb : ℕ) (key name : Bytes)
    → verbtoa verb ≡ ok name
    → lower key ≡ lower name
    → atoverb key ≡ ok (if is_found verb then verb else http_request_verb_unknown)
unfolding atoverb
atoverb-verbtoa verb key name e l =
    rw (string_bin_search-lower key name http_request_verb_strings http_request_verb_unknown l)
      (verb_table verb name e)

get_elem?-lt {ℓ} :
    {A : Type ℓ} (xs : List A) (i : ℕ) (x : A) → get_elem? xs i ≡ some x → i < length xs
get_elem?-lt [] i x e = absurd (cc)
get_elem?-lt (y ∷ xs) zero x e = omega arith
get_elem?-lt (y ∷ xs) (suc i) x e = omega (arith, get_elem?-lt xs i x e)

-- Only the codes of the table have names.
pub headertoa-lt : (code : ℕ) (name : Bytes) → headertoa code ≡ ok name → code < header_unknown
unfolding headertoa
headertoa-lt code name e =
    rw (← length-header_strings) (get_elem?-lt http_header_strings code name (in_range-eq-ok _ e))
