-- ===== src/PointerSet.antt =====
-- A std::set of pointers, as the ascending list of the addresses; and endpoints, the keys of a std::map.
use gnyproxy.Prelude.{
  ℕ, ◌+◌, ◌<◌, ◌≤◌, ◌≡◌, refl, sym, ap, ◌∙◌, Bool, true, false, not, ◌&&◌, ◌||◌, List, [], ◌∷◌, ltb,
  ◌==◌, ==_iff, if◌then◌else◌, All, length, arith, tests, Bool-cases, inl, inr,
}

unfoldable pub insert : ℕ → List ℕ → List ℕ
insert a [] = a ∷ []
insert a (b ∷ addresses) =
    let rest = insert a addresses in
    if a == b then b ∷ addresses else if ltb a b then a ∷ b ∷ addresses else b ∷ rest

unfoldable pub erase : ℕ → List ℕ → List ℕ
erase a [] = []
erase a (b ∷ addresses) = let rest = erase a addresses in if b == a then rest else b ∷ rest

unfoldable pub contains : ℕ → List ℕ → Bool
contains a [] = false
contains a (b ∷ addresses) = b == a || contains a addresses

abbrev pub Ascending : List ℕ → Type 0
Ascending [] = Unit
Ascending (a ∷ addresses) = All (λ b. a < b) addresses × Ascending addresses

pub contains-insert : (a b : ℕ) (s : List ℕ) → contains b (insert a s) ≡ (a == b || contains b s)
unfolding contains insert
contains-insert a b [] = refl
contains-insert a b (c ∷ s) = ground (arith, contains-insert a b s)

pub contains-erase :
    (a b : ℕ) (s : List ℕ) → contains b (erase a s) ≡ (not (a == b) && contains b s)
unfolding contains erase
contains-erase a b [] = ground arith
contains-erase a b (c ∷ s) = ground (arith, contains-erase a b s)

pub length-insert : (a : ℕ) (s : List ℕ) → length (insert a s) ≤ length s + 1
unfolding insert
length-insert a [] = omega arith
length-insert a (b ∷ s) = ground (arith, length-insert a s)

pub length-erase : (a : ℕ) (s : List ℕ) → length (erase a s) ≤ length s
unfolding erase
length-erase a [] = omega arith
length-erase a (b ∷ s) = ground (arith, length-erase a s)

All-insert : (x a : ℕ) (s : List ℕ) → x < a → All (λ b. x < b) s → All (λ b. x < b) (insert a s)
unfolding insert
All-insert x a [] h all = (h, tt)
All-insert x a (b ∷ s) h (first, all) = elim (Bool-cases (a == b)) [
  | inl e ↦ rw e (first, all)
  | inr e ↦ elim (Bool-cases (ltb a b)) [
    | inl l ↦ rw (e, l) (h, (first, all))
    | inr l ↦ rw (e, l) (first, All-insert x a s h all)
  ]
]

above : (a b : ℕ) (s : List ℕ) → a < b → All (λ c. b < c) s → All (λ c. a < c) s
above a b [] h all = tt
above a b (c ∷ s) h (first, all) = (omega arith, above a b s h all)

pub insert-Ascending : (a : ℕ) (s : List ℕ) → Ascending s → Ascending (insert a s)
unfolding insert
insert-Ascending a [] up = (tt, tt)
insert-Ascending a (b ∷ s) (first, up) = elim (Bool-cases (a == b)) [
  | inl e ↦ rw e (first, up)
  | inr e ↦ elim (Bool-cases (ltb a b)) [
    | inl l ↦
        let less : a < b = omega (tests, l) in
        rw (e, l) ((less, above a b s less first), (first, up))
    | inr l ↦
        let less : b < a = ground (arith, e, l) in
        rw (e, l) (All-insert b a s less first, insert-Ascending a s up)
  ]
]

All-erase : (x a : ℕ) (s : List ℕ) → All (λ b. x < b) s → All (λ b. x < b) (erase a s)
unfolding erase
All-erase x a [] all = tt
All-erase x a (b ∷ s) (first, all) = elim (Bool-cases (b == a)) [
  | inl e ↦ rw e (All-erase x a s all)
  | inr e ↦ rw e (first, All-erase x a s all)
]

pub erase-Ascending : (a : ℕ) (s : List ℕ) → Ascending s → Ascending (erase a s)
unfolding erase
erase-Ascending a [] up = tt
erase-Ascending a (b ∷ s) (first, up) = elim (Bool-cases (b == a)) [
  | inl e ↦ rw e (erase-Ascending a s up)
  | inr e ↦ rw e (All-erase b a s first, erase-Ascending a s up)
]

contains-above : (a : ℕ) (s : List ℕ) → All (λ b. a < b) s → contains a s ≡ false
unfolding contains
contains-above a [] all = refl
contains-above a (b ∷ s) (first, all) = ground (arith, contains-above a s all)

-- `s.erase(s.begin())` takes out what `s.begin()` points to.
pub contains-tail :
    (a b : ℕ) (s : List ℕ) → Ascending (a ∷ s) → contains b s ≡ (not (a == b) && contains b (a ∷ s))
unfolding contains
contains-tail a b s (first, up) = elim (Bool-cases (a == b)) [
  | inl e ↦ rw e (ap (λ c. contains c s) (sym ((==_iff a b).0 e)) ∙ contains-above a s first)
  | inr e ↦ rw e refl
]

pub contains-first : (a : ℕ) (s : List ℕ) → contains a (a ∷ s) ≡ true
unfolding contains
contains-first a s = rw ((==_iff a a).1 refl) refl
