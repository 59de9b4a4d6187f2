-- ===== src/Select/Drop.antt =====
-- The two ways in which client.cpp and server.cpp take a connection out of the vector.
use gnyproxy.Prelude.{
  ℕ, zero, suc, ◌-◌, ◌<◌, ◌≡◌, refl, sym, ap, ◌∙◌, List, [], ◌∷◌, ◌++◌, none, some, get_elem?,
  length, set, take, arith, length-append, append_assoc, take-append, get_elem?-append,
}
use gnyproxy.Client.{replace_by_back}
use gnyproxy.Server.{swap_with_back}

module _ {ℓ} {A : Type ℓ} where
  -- A connection at the back goes, and any other one gives its place to that at the back.
  pub record Removes (remove : List A → ℕ → List A) : Type ℓ where
    pub at_back : (front : List A) (x : A) → remove (front ++ x ∷ []) (length front) ≡ front
    pub inside :
        (front : List A) (x y : A) (ys : List A)
        → remove (front ++ x ∷ (ys ++ y ∷ [])) (length front) ≡ front ++ y ∷ ys

  set-append :
      (front : List A) (x y : A) (ys : List A)
      → set (front ++ x ∷ ys) (length front) y ≡ front ++ y ∷ ys
  set-append [] x y ys = refl
  set-append (f ∷ front) x y ys = ap (◌∷◌ f) (set-append front x y ys)

  take-set : (n : ℕ) (xs : List A) (v : A) → take n (set xs n v) ≡ take n xs
  take-set zero xs v = refl
  take-set (suc n) [] v = refl
  take-set (suc n) (x ∷ xs) v = ap (◌∷◌ x) (take-set n xs v)

  last_index : (front : List A) (y : A) → length (front ++ y ∷ []) - 1 ≡ length front
  last_index front y = omega (arith, length-append front (y ∷ []))

  get_elem?-some : (xs : List A) (i : ℕ) → i < length xs → (x : A) × (get_elem? xs i ≡ some x)
  get_elem?-some [] i h = absurd (omega arith)
  get_elem?-some (x ∷ xs) zero h = (x, refl)
  get_elem?-some (x ∷ xs) (suc i) h = get_elem?-some xs i (omega arith)

  -- For an index of the vector, the server's way to take a connection out, an exchange with the
  -- back, leaves the same as the client's, a copy of the back.
  pub swap_with_back-replace_by_back :
      (conns : List A) (i : ℕ) → i < length conns → swap_with_back conns i ≡ replace_by_back conns i
  unfolding swap_with_back replace_by_back
  swap_with_back-replace_by_back conns i h =
      let (back, b) = get_elem?-some conns (length conns - 1) (omega arith) in
      let (gone, g) = get_elem?-some conns i h in
      rw (swap_with_back, replace_by_back, b, g)
        (take-set (length conns - 1) (set conns i back) gone)

  -- The vector in front of the back, behind a change.
  replace_last :
      (xs : List A) (y : A) (i : ℕ)
      → replace_by_back (xs ++ y ∷ []) i ≡ take (length xs) (set (xs ++ y ∷ []) i y)
  unfolding replace_by_back
  replace_last xs y i =
      ap
        (λ n. elim (get_elem? (xs ++ y ∷ []) n) as (λ _. List A) [
          | none ↦ xs ++ y ∷ []
          | some back ↦ take n (set (xs ++ y ∷ []) i back)
        ])
        (last_index xs y)
      ∙ rw (get_elem?-append xs y []) refl

  replace_by_back-inside :
      (front : List A) (x y : A) (ys : List A)
      → replace_by_back (front ++ x ∷ (ys ++ y ∷ [])) (length front) ≡ front ++ y ∷ ys
  replace_by_back-inside front x y ys =
      let whole = append_assoc front (x ∷ ys) (y ∷ []) in
      ap (λ l. replace_by_back l (length front)) (sym whole)
      ∙ replace_last (front ++ x ∷ ys) y (length front)
      ∙ ap (λ l. take (length (front ++ x ∷ ys)) (set l (length front) y)) whole
      ∙ ap (take (length (front ++ x ∷ ys)))
          (set-append front x y (ys ++ y ∷ []) ∙ sym (append_assoc front (y ∷ ys) (y ∷ [])))
      ∙ ap (λ n. take n ((front ++ y ∷ ys) ++ y ∷ []))
          (omega (arith, length-append front (x ∷ ys), length-append front (y ∷ ys)))
      ∙ take-append (front ++ y ∷ ys) (y ∷ [])

  pub replace_by_back-Removes : Removes replace_by_back
  replace_by_back-Removes = record {
    at_back = λ front x.
        replace_last front x (length front)
        ∙ ap (take (length front)) (set-append front x x [])
        ∙ take-append front (x ∷ []);
    inside = replace_by_back-inside;
  }

  index-lt : (front rest : List A) (x : A) → length front < length (front ++ x ∷ rest)
  index-lt front rest x = omega (arith, length-append front (x ∷ rest))

  pub swap_with_back-Removes : Removes swap_with_back
  swap_with_back-Removes = record {
    at_back = λ front x.
        swap_with_back-replace_by_back _ _ (index-lt front [] x)
        ∙ replace_by_back-Removes.at_back front x;
    inside = λ front x y ys.
        swap_with_back-replace_by_back _ _ (index-lt front (ys ++ y ∷ []) x)
        ∙ replace_by_back-inside front x y ys;
  }
