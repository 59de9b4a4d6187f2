-- ===== src/Select/Serviced.antt =====
-- What the loop behind `select` does, as an order in which the connections are served.
use mathlib.Core.List.{Perm, perm_append_singleton}
use mathlib.Core.List.Perm
use mathlib.Core.Path.{subst}
use gnyproxy.Prelude.{
  ℕ, zero, suc, ◌<◌, ◌≡◌, refl, sym, ap, ◌∙◌, Bool, true, false, List, [], ◌∷◌, ◌++◌, none,
  get_elem?, length, set, arith, length-append, append_assoc, append-nil, get_elem?-append, ok,
  Bool-cases, inl, inr,
}
use gnyproxy.Select.{Services, Conns, FdSet, serve, service}
use gnyproxy.Select.Drop.{Removes}

-- The world and the list before, and those afterwards. Of the connections that are left, one is
-- served; it stays with its changes, or it is destroyed, and the others may be exchanged then.
pub data Serviced (S : Services) (read_fds write_fds : FdSet)
    : S.World → Conns S → S.World → Conns S → Type 0 where
  all_served : (w : S.World) → Serviced S read_fds write_fds w [] w []
  stays :
      (w w' : S.World) (s : ℕ) (c : S.Conn) (conns out : Conns S)
      → (serve S read_fds write_fds w (s, c)).0 ≡ false
      → Serviced S read_fds write_fds (serve S read_fds write_fds w (s, c)).1 conns w' out
      → Serviced S read_fds write_fds w
          ((s, c) ∷ conns)
          w'
          ((s, (serve S read_fds write_fds w (s, c)).2) ∷ out)
  goes :
      (w w' : S.World) (s : ℕ) (c : S.Conn) (conns others out : Conns S)
      → (serve S read_fds write_fds w (s, c)).0 ≡ true
      → Perm others conns
      → Serviced S read_fds write_fds
          (S.destroy
            (serve S read_fds write_fds w (s, c)).1
            (serve S read_fds write_fds w (s, c)).2)
          others
          w'
          out
      → Serviced S read_fds write_fds w ((s, c) ∷ conns) w' out

get_elem?-length {ℓ} : {A : Type ℓ} (xs : List A) → get_elem? xs (length xs) ≡ none
get_elem?-length [] = refl
get_elem?-length (x ∷ xs) = get_elem?-length xs

set-append {ℓ} :
    {A : Type ℓ} (front : List A) (x y : A) (ys : List A)
    → set (front ++ x ∷ ys) (length front) y ≡ (front ++ y ∷ []) ++ ys
set-append [] x y ys = refl
set-append (f ∷ front) x y ys = ap (◌∷◌ f) (set-append front x y ys)

-- Split a list at its back.
data Backed {ℓ} {A : Type ℓ} (xs : List A) : Type ℓ where
  empty : xs ≡ [] → Backed xs
  backed : (ys : List A) (y : A) → xs ≡ ys ++ y ∷ [] → Backed xs

split_back {ℓ} : {A : Type ℓ} (xs : List A) → Backed xs
split_back [] = empty refl
split_back (x ∷ xs) = elim (split_back xs) [
  | empty e ↦ backed [] x (ap (◌∷◌ x) e)
  | backed ys y e ↦ backed (x ∷ ys) y (ap (◌∷◌ x) e)
]

module _ (S : Services) (remove : Conns S → ℕ → Conns S) (read_fds write_fds : FdSet) where
  -- The end of a run of the loop.
  abbrev Ends : ℕ → S.World → Conns S → Conns S → Type 0
  Ends fuel w front rest =
      (w' : S.World) × (out : Conns S) × (service S remove read_fds write_fds fuel (length front) w
          (front ++ rest)
        ≡ ok (w', front ++ out))
      × Serviced S read_fds write_fds w rest w' out

  module _ (fuel : ℕ) (w : S.World) (s : ℕ) (c : S.Conn) (front rest : Conns S) where
    abbrev served : Bool × S.World × S.Conn
    served = serve S read_fds write_fds w (s, c)

    service_stays :
        served.0 ≡ false
        → service S remove read_fds write_fds (suc fuel) (length front) w (front ++ (s, c) ∷ rest)
          ≡ service S remove read_fds write_fds fuel
              (length (front ++ (s, served.2) ∷ []))
              served.1
              ((front ++ (s, served.2) ∷ []) ++ rest)
    unfolding service
    service_stays e =
        rw
          (
            service,
            get_elem?-append front (s, c) rest,
            e,
            set-append front (s, c) (s, served.2) rest,
          )
          (ap
            (λ n.
              service S remove read_fds write_fds fuel n served.1
                ((front ++ (s, served.2) ∷ []) ++ rest))
            (omega (arith, length-append front ((s, served.2) ∷ []))))

    service_goes :
        served.0 ≡ true
        → service S remove read_fds write_fds (suc fuel) (length front) w (front ++ (s, c) ∷ rest)
          ≡ service S remove read_fds write_fds fuel
              (length front)
              (S.destroy served.1 served.2)
              (remove (front ++ (s, c) ∷ rest) (length front))
    unfolding service
    service_goes e = rw (service, get_elem?-append front (s, c) rest, e)

  at_end :
      (fuel : ℕ) (w : S.World) (front : Conns S)
      → service S remove read_fds write_fds (suc fuel) (length front) w front ≡ ok (w, front)
  unfolding service
  at_end fuel w front = rw (service, get_elem?-length front)

  -- Where the vector's front is served, fuel for one step more than there are others is enough.
  pub service-Serviced :
      Removes remove
      → (fuel : ℕ) (w : S.World) (front rest : Conns S) → length rest < fuel
      → Ends fuel w front rest
  service-Serviced removes zero w front rest h = absurd (omega arith)
  service-Serviced removes (suc fuel) w front [] h =
      (w, [], rw append-nil (at_end fuel w front), all_served w)
  service-Serviced removes (suc fuel) w front ((s, c) ∷ rest) h =
      let r = serve S read_fds write_fds w (s, c) in
      elim (Bool-cases r.0) [
        | inr kept ↦
            let (w', out, run, more) =
              service-Serviced removes fuel r.1 (front ++ (s, r.2) ∷ []) rest (omega arith) in
            (
              w',
              (s, r.2) ∷ out,
              service_stays fuel w s c front rest kept
                  ∙ run
                  ∙ ap (λ l. ok (w', l)) (append_assoc front ((s, r.2) ∷ []) out),
              stays w w' s c rest out kept more,
            )
        | inl lost ↦ elim (split_back rest) [
          | empty e ↦
              let (w', out, run, more) =
                service-Serviced removes fuel (S.destroy r.1 r.2) front [] (omega arith) in
              (
                w',
                out,
                service_goes fuel w s c front rest lost
                    ∙ ap
                        (λ l.
                          service S remove read_fds write_fds fuel (length front)
                            (S.destroy r.1 r.2) l)
                        (ap (λ t. remove (front ++ (s, c) ∷ t) (length front)) e
                          ∙ removes.at_back front (s, c)
                          ∙ sym (append-nil front))
                    ∙ run,
                goes w w' s c rest [] out lost (subst (λ l. Perm [] l) (sym e) Perm.rfl) more,
              )
          | backed ys y e ↦
              let (w', out, run, more) =
                service-Serviced removes fuel (S.destroy r.1 r.2) front (y ∷ ys)
                  (omega (arith, ap length e, length-append ys (y ∷ []))) in
              (
                w',
                out,
                service_goes fuel w s c front rest lost
                    ∙ ap
                        (λ l.
                          service S remove read_fds write_fds fuel (length front)
                            (S.destroy r.1 r.2) l)
                        (ap (λ t. remove (front ++ (s, c) ∷ t) (length front)) e
                          ∙ removes.inside front (s, c) y ys)
                    ∙ run,
                goes w w' s c rest (y ∷ ys) out lost
                    (subst (λ l. Perm (y ∷ ys) l) (sym e) (Perm.symm (perm_append_singleton y ys)))
                    more,
              )
        ]
      ]
