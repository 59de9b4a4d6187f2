-- ===== src/Requester/Given.antt =====
-- What becomes of a request: one linker gets it.
use mathlib.Core.Path.{subst}
use gnyproxy.Prelude.{
  ℕ, ◌≡◌, refl, sym, ap, ◌∙◌, Bool, true, false, not, ◌&&◌, List, ◌∷◌, Option, none, some, ◌==◌,
  ==_iff, ok, ◌>>=◌, Holds, Bool-cases, Option-cases, inl, inr, arith,
}
use gnyproxy.HttpMessage.{init}
use gnyproxy.PointerSet.{contains, Ascending, contains-tail, contains-first}
use gnyproxy.Multiconn.{put}
use gnyproxy.ReqLinker.{Exchange, Endpoint, same_endpoint, put_at, Work, ReqLinker, Links, store}
use gnyproxy.ReqLinker.Idle.{IsIdle, idle_at, idle_for, update-IsIdle, same_endpoint-eq}
use gnyproxy.Requester.{request, Wrapping, identity, req_linker_creator, Requester, reuse}

module _ (X : Exchange) where
  abbrev pub is_busy : Option (ReqLinker X) → Bool
  is_busy none = false
  is_busy (some l) = elim l.work [ none ↦ false | some k ↦ true ]

  -- The linker at `at` takes up work, and no other one is changed.
  pub record TakesUp (at : ℕ) (r r' : Links X) : Type 0 where
    pub before : is_busy (r.linkers at) ≡ false
    pub after : is_busy (r'.linkers at) ≡ true
    pub others : (b : ℕ) → (b == at) ≡ false → r'.linkers b ≡ r.linkers b

  -- One linker takes up work, or none is changed.
  abbrev pub Outcome : Bool → Links X → Links X → Type 0
  Outcome true r r' = (at : ℕ) × TakesUp at r r'
  Outcome false r r' = (b : ℕ) → r'.linkers b ≡ r.linkers b

  -- What the requester relies on: a wrapper's functions make one linker for a request, and none
  -- where they refuse it.
  pub record IsWrapping (W : Wrapping X) : Type 0 where
    pub maker :
        (r : Links X) (conn : W.Wrapped) (endpoint : Endpoint) (gen : X.Gen) (at : ℕ)
        → IsIdle X r
        → r.linkers at ≡ none
        → Holds
            (λ p. Outcome p.0 r p.2 × IsIdle X p.2)
            (W.connection_maker r conn endpoint (request gen) at)
    pub creator :
        (r : Links X) (endpoint : Endpoint) (gen : X.Gen) (at : ℕ)
        → IsIdle X r
        → r.linkers at ≡ none
        → Holds
            (λ p. Outcome true r p.2 × IsIdle X p.2)
            (W.wrapper_creator r endpoint (request gen) at >>= λ q.
              W.connection_maker q.1 q.0 endpoint (request gen) at)

  put_self {ℓ} : {A : Type ℓ} (f : ℕ → A) (at : ℕ) (v : A) → put f at v at ≡ v
  put_self f at v = rw ((==_iff at at).1 refl) refl

  put_other {ℓ} :
      {A : Type ℓ} (f : ℕ → A) (at : ℕ) (v : A) (b : ℕ) → (b == at) ≡ false → put f at v b ≡ f b
  put_other f at v b h = rw h refl

  -- The identity wrapper makes its linker at once, and never another one.
  pub identity-IsWrapping : IsWrapping (identity X)
  unfolding req_linker_creator gnyproxy.ReqLinker.create gnyproxy.ReqLinker.add_request
  identity-IsWrapping = record {
    maker = λ r conn endpoint gen at idle fresh. (λ b. refl, idle);
    creator = λ r endpoint gen at idle fresh. (
      (
        at,
        record {
          before = ap is_busy fresh;
          after = ap is_busy (put_self r.linkers at _);
          others = λ b h. put_other r.linkers at _ b h;
        },
      ),
      update-IsIdle X r at r.world _ r.req_mp idle idle.ascending
          (λ e. idle.kept e at ∙ ap (λ o. idle_at X o e) fresh) (λ e b h. refl),
    );
  }

  -- A linker in `req_mp` is there and idle.
  idle_at-true :
      (o : Option (ReqLinker X)) (e : Endpoint)
      → idle_at X o e ≡ true
      → (l : ReqLinker X) × (o ≡ some l) × (l.work ≡ none) × (same_endpoint e l.endpoint ≡ true)
  idle_at-true none e h = absurd (cc)
  idle_at-true (some l) e h = elim (Option-cases l.work) [
    | inl idle ↦ (l, refl, idle, sym (ap (λ w. idle_for X w l.endpoint e) idle) ∙ h)
    | inr (k, busy) ↦ absurd (different (sym (ap (λ w. idle_for X w l.endpoint e) busy) ∙ h))
  ]
    where
      different : false ≡ true → ⊥
      different h = cc

  module _ (W : Wrapping X) where
    -- How the linkers stand behind a call.
    abbrev pub Handed : Links X → Bool × Requester X W → Type 0
    Handed r p = Outcome p.0 r p.1.links × IsIdle X p.1.links

    -- Where the addresses in req_mp are those of the idle linkers, the first one found for an
    -- endpoint exists and takes the request: no assertion fails, that linker alone changes, and
    -- the addresses in req_mp are again those of the idle linkers.
    pub reuse-Handed :
        (r : Requester X W) (endpoint : Endpoint) (gen : X.Gen) (first : ℕ) (others : List ℕ)
        → IsIdle X r.links
        → r.links.req_mp endpoint ≡ first ∷ others
        → (r' : Requester X W) × (reuse X W r endpoint gen first others ≡ ok (true, r'))
          × Handed r.links (true, r')
    unfolding reuse gnyproxy.ReqLinker.add_request put_at
    reuse-Handed r endpoint gen first others idle found =
        let at_front : contains first (r.links.req_mp endpoint) ≡ true =
          ap (contains first) found ∙ contains-first first others in
        let (l, there, free, mine) =
          idle_at-true (r.links.linkers first) endpoint
            (sym (idle.kept endpoint first) ∙ at_front) in
        let busy : ReqLinker X = record l {
          work = some (record {
            gen = gen;
            reader = X.reader_creator.create (init false);
            writer = X.writer_creator.create (init true);
          });
        } in
        let up = subst Ascending found (idle.ascending endpoint) in
        (
          record r {
            links = record (r.links) {
              linkers = put r.links.linkers first (some busy);
              req_mp = put_at r.links.req_mp endpoint others;
            };
          },
          rw (reuse, there, gnyproxy.ReqLinker.add_request, free) refl,
          (
            (
              first,
              record {
                before = ap is_busy there ∙ free_idle l free;
                after = ap is_busy (put_self r.links.linkers first (some busy));
                others = λ b h. put_other r.links.linkers first (some busy) b h;
              },
            ),
            update-IsIdle X r.links first r.links.world (some busy)
                (put_at r.links.req_mp endpoint others) idle
                (λ e. elim (Bool-cases (same_endpoint e endpoint)) [
                  | inl same ↦ rw same (up.1)
                  | inr other ↦ rw other (idle.ascending e)
                ])
                (λ e. elim (Bool-cases (same_endpoint e endpoint)) [
                  | inl same ↦ rw same (
                      contains-tail first first others up
                      ∙ ap (λ t. not t && contains first (first ∷ others))
                          ((==_iff first first).1 refl))
                  | inr other ↦ rw other (
                      idle.kept e first
                      ∙ ap (λ o. idle_at X o e) there
                      ∙ ap (λ w. idle_for X w l.endpoint e) free
                      ∙ ap (same_endpoint e) (sym (same_endpoint-eq endpoint l.endpoint mine))
                      ∙ other)
                ])
                (λ e b other_b. elim (Bool-cases (same_endpoint e endpoint)) [
                  | inl same ↦ rw same (
                      contains-tail first b others up
                      ∙ ap (λ t. not t && contains b (first ∷ others)) (not_same first b other_b)
                      ∙ ap (contains b) (sym found)
                      ∙ ap (λ d. contains b (r.links.req_mp d))
                          (sym (same_endpoint-eq e endpoint same)))
                  | inr other ↦ rw other refl
                ]),
          ),
        )
      where
        not_same : (a b : ℕ) → (b == a) ≡ false → (a == b) ≡ false
        not_same a b h = ground arith

        free_idle : (l : ReqLinker X) → l.work ≡ none → is_busy (some l) ≡ false
        free_idle l h =
            ap (λ (w : Option (Work X)). elim w as (λ _. Bool) [ none ↦ false | some k ↦ true ]) h
