-- ===== src/Http/Verbs.antt =====
-- What `atoverb` answers for any name, on a table of verbs that is not in order.
use gnyproxy.Prelude.{
  ℕ, zero, suc, ◌+◌, ◌/◌, ◌≡◌, ◌<◌, ◌≤◌, ◌≢◌, refl, ap, sym, ◌∙◌, ◌⊎◌, inl, inr, true, false,
  if◌then◌else◌, List, [], ◌∷◌, Option, none, some, Ordering, Bytes, codes, All, arith, length,
  get_elem?, ltb, Bool-cases, ok, ◌>>=◌, ok_injective,
}
use gnyproxy.Http.Compare.{strcasecmp-eq_iff_left}
use gnyproxy.Http.Search.{get_elem?_total}
use gnyproxy.Http.Tables.{is_found, atoverb-verbtoa}
use gnyproxy.Http.{
  lower, strcasecmp, bin_search, string_bin_search, http_request_verb_strings,
  http_request_verb_unknown, code_or, atoverb, verbtoa,
}

-- An entry that is found agrees with the key.
abbrev Agrees : Bytes → List Bytes → Option ℕ → Type 0
Agrees key ss none = Unit
Agrees key ss (some i) = (s : Bytes) × (get_elem? ss i ≡ some s) × (lower key ≡ lower s)

-- In any table, the loop stops and reads no entry beyond it.
bin_search-Agrees :
    (fuel : ℕ) (key : Bytes) (ss : List Bytes) (low high : ℕ)
    → high ≤ length ss
    → low ≤ high
    → high < low + fuel
    → (o : Option ℕ) × (bin_search fuel key ss low high ≡ ok o) × Agrees key ss o
unfolding bin_search
bin_search-Agrees zero key ss low high l b f = absurd (omega arith)
bin_search-Agrees (suc fuel) key ss low high l b f = elim (Bool-cases (ltb low high)) [
  | inr over ↦ (none, rw (bin_search, over) refl, tt)
  | inl more ↦
      let mid = (high + low) / 2 in
      let (s, e) = get_elem?_total ss mid (ground arith) in
      by_order s more e (strcasecmp key s) refl
        (bin_search-Agrees fuel key ss low mid (ground arith) (ground arith) (ground arith))
        (bin_search-Agrees fuel key ss (mid + 1) high l (ground arith) (ground arith))
]
  where
    Answer : ℕ → ℕ → ℕ → Type 0
    Answer n a b = (o : Option ℕ) × (bin_search n key ss a b ≡ ok o) × Agrees key ss o

    by_order :
        (s : Bytes)
        → ltb low high ≡ true
        → get_elem? ss ((high + low) / 2) ≡ some s
        → (o : Ordering) → strcasecmp key s ≡ o
        → Answer fuel low ((high + low) / 2)
        → Answer fuel ((high + low) / 2 + 1) high
        → Answer (suc fuel) low high
    by_order s more e Ordering.lt c (o, below, a) _ = (o, ground (arith, more, e, c, below), a)
    by_order s more e Ordering.gt c _ (o, above, a) = (o, ground (arith, more, e, c, above), a)
    by_order s more e Ordering.eq c _ _ = (
      some ((high + low) / 2),
      ground (arith, more, e, c),
      (s, e, strcasecmp-eq_iff_left key s c),
    )

-- The names that the search finds.
abbrev pub found_verbs : List Bytes
found_verbs =
    codes "CONNECT"
    ∷ codes "DELETE"
    ∷ codes "GET"
    ∷ codes "HEAD"
    ∷ codes "PATCH"
    ∷ codes "TRACE"
    ∷ []

-- The code of a verb that the name agrees with, or that of an unknown verb.
abbrev pub VerbCode : Bytes → ℕ → Type 0
VerbCode key code =
    ((name : Bytes) × (verbtoa code ≡ ok name) × (lower key ≡ lower name) × (is_found code ≡ true))
    ⊎ ((code ≡ http_request_verb_unknown) × All (λ name. lower key ≢ lower name) found_verbs)

found_not_unknown :
    (verb : ℕ) (key name : Bytes)
    → verbtoa verb ≡ ok name
    → is_found verb ≡ true
    → atoverb key ≡ ok http_request_verb_unknown
    → lower key ≢ lower name
found_not_unknown verb key name e f u l =
    let same : verb ≡ http_request_verb_unknown = sym (
      ok_injective (
        sym u
        ∙ atoverb-verbtoa verb key name e l
        ∙ ap (λ b. ok (if b then verb else http_request_verb_unknown)) f)) in
    let wrong : false ≡ true = ap is_found (sym same) ∙ f in cc

VerbCode-code_or :
    (key : Bytes) (o : Option ℕ)
    → atoverb key ≡ ok (code_or http_request_verb_unknown o)
    → Agrees key http_request_verb_strings o
    → VerbCode key (code_or http_request_verb_unknown o)
unfolding code_or verbtoa
VerbCode-code_or key none u a =
    let missed = λ (i : ℕ) (name : Bytes) (e : verbtoa i ≡ ok name) (f : is_found i ≡ true).
      found_not_unknown i key name e f u in
    inr (
      refl,
      (
        missed 0 (codes "CONNECT") refl refl,
        (
          missed 1 (codes "DELETE") refl refl,
          (
            missed 2 (codes "GET") refl refl,
            (
              missed 3 (codes "HEAD") refl refl,
              (missed 4 (codes "PATCH") refl refl, (missed 8 (codes "TRACE") refl refl, tt)),
            ),
          ),
        ),
      ),
    )
VerbCode-code_or key (some i) u (s, e, l) =
    let name : verbtoa i ≡ ok s = rw e refl in
    inl (
      s,
      name,
      l,
      elim (Bool-cases (is_found i)) [
        | inl found ↦ found
        | inr lost ↦
            let same : i ≡ http_request_verb_unknown = ok_injective (
              sym u
              ∙ atoverb-verbtoa i key s name l
              ∙ ap (λ b. ok (if b then i else http_request_verb_unknown)) lost) in
            let wrong : none ≡ some s = ap (get_elem? http_request_verb_strings) (sym same) ∙ e in
            absurd (cc)
      ],
    )

atoverb-code_or :
    (key : Bytes) (o : Option ℕ)
    → bin_search 10 key http_request_verb_strings 0 9 ≡ ok o
    → atoverb key ≡ ok (code_or http_request_verb_unknown o)
unfolding atoverb string_bin_search
atoverb-code_or key o e = ap (λ r. r >>= λ result. ok (code_or http_request_verb_unknown result)) e

-- For every name, atoverb stops and reads nothing outside its table, although that is not sorted:
-- it gives the code of an entry that the name agrees with up to case, one of CONNECT, DELETE, GET,
-- HEAD, PATCH and TRACE, or the code of an unknown verb, and that only where the name agrees with
-- none of these.
pub atoverb-VerbCode : (key : Bytes) → (code : ℕ) × (atoverb key ≡ ok code) × VerbCode key code
atoverb-VerbCode key =
    let (o, e, a) =
      bin_search-Agrees 10 key http_request_verb_strings 0 9 (omega arith) (omega arith)
        (omega arith) in
    let answer = atoverb-code_or key o e in (_, answer, VerbCode-code_or key o answer a)
