-- ===== src/Requester/Direct.antt =====
-- Requests over connections that carry one request at a time.

use gnyproxy.Prelude.{
  ℕ, ◌≡◌, refl, ap, ◌∙◌, Bool, true, false, List, [], ◌∷◌, Option, none, some, ltb, length, ◌==◌,
  All, ◌++◌, Result, ok, ◌>>=◌, in_range, Holds-ok, Bool-cases, List-cases, inl, inr,
}
use gnyproxy.Multiconn.{put}
use gnyproxy.Client.{Dial, dial_socket}
use gnyproxy.ReqLinker.{Exchange, Endpoint, put_at}
use gnyproxy.PointerSet.{insert}
use gnyproxy.ReqLinker.Idle.{IsIdle}
use gnyproxy.Requester.{
  LinkData, request, identity, req_linker_creator, WrapperWrapper, Requester, limit, offer,
  connect_new, add_connection, add_request,
}
use gnyproxy.Requester.Given.{Handed, identity-IsWrapping, reuse-Handed}
use gnyproxy.Requester.Handing.{add_request-Handed}

module _ (X : Exchange) where
  -- An address at which there is a wrapper.
  abbrev pub is_there : Option (WrapperWrapper X (identity X)) → Bool
  is_there none = false
  is_there (some w) = true

  there :
      (o : Option (WrapperWrapper X (identity X)))
      → is_there o ≡ true
      → (w : WrapperWrapper X (identity X)) × (o ≡ some w)
  there none h = absurd (cc)
  there (some w) h = (w, refl)

  put-there :
      (f : ℕ → Option (WrapperWrapper X (identity X))) (it : ℕ) (w : WrapperWrapper X (identity X))
      (cns : List ℕ)
      → All (λ a. is_there (f a) ≡ true) cns
      → All (λ a. is_there (put f it (some w) a) ≡ true) cns
  put-there f it w [] all = tt
  put-there f it w (a ∷ cns) (first, all) = elim (Bool-cases (a == it)) [
    | inl same ↦ rw same (refl, put-there f it w cns all)
    | inr other ↦ rw other (first, put-there f it w cns all)
  ]

  -- No connection takes one more request.
  offer-ok :
      (endpoint : Endpoint) (d : LinkData X) (at : ℕ) (cns : List ℕ) (r : Requester X (identity X))
      → All (λ a. is_there (r.wrappers a) ≡ true) cns
      → (r' : Requester X (identity X)) × (offer X (identity X) r endpoint d at cns
          ≡ ok (false, r'))
  unfolding offer
  offer-ok endpoint d at [] r all = (r, refl)
  offer-ok endpoint d at (it ∷ cns) r (first, all) =
      let (w, e) = there (r.wrappers it) first in
      let tried : Requester X (identity X) = record r { wrappers = put r.wrappers it (some w) } in
      let (r', run) = offer-ok endpoint d at cns tried (put-there r.wrappers it w cns all) in
      (
        r',
        ap
              (λ o. in_range o >>= λ (v : WrapperWrapper X (identity X)).
                offer X (identity X) (record r { wrappers = put r.wrappers it (some v) }) endpoint d
                  at cns)
              e
            ∙ run,
      )

  connect_new-ok :
      (r : Requester X (identity X)) (endpoint : Endpoint) (gen : X.Gen) (dial : Dial)
      (at at_wrapper : ℕ)
      → (p : Bool × Requester X (identity X)) × (connect_new X
            (identity X)
            r
            endpoint
            (request gen)
            dial
            at
            at_wrapper
          ≡ ok p)
  unfolding connect_new req_linker_creator gnyproxy.ReqLinker.create gnyproxy.ReqLinker.add_request
  connect_new-ok r endpoint gen dial at at_wrapper = by_socket (dial_socket dial)
    where
      by_socket :
          (o : Option ℕ)
          → (p : Bool × Requester X (identity X)) × (elim o
                as (λ _. Result (Bool × Requester X (identity X))) [
                  | none ↦ ok (false, r)
                  | some s ↦ do
                    (wrapped, made) ← req_linker_creator X r.links endpoint (request gen) at
                    ok (
                      true,
                      record r {
                        links = made;
                        wrappers =
                            put r.wrappers at_wrapper
                              (some (record { endpoint = endpoint; conn = wrapped }));
                        conn_mp =
                            put_at r.conn_mp endpoint (insert at_wrapper (r.conn_mp endpoint));
                        cli = r.cli ++ (s, at_wrapper) ∷ [];
                      },
                    )
                ]
              ≡ ok p)
      by_socket none = ((false, r), refl)
      by_socket (some s) = (_, refl)

  add_connection-ok :
      (r : Requester X (identity X)) (endpoint : Endpoint) (gen : X.Gen) (dial : Dial)
      (at at_wrapper : ℕ)
      → All (λ a. is_there (r.wrappers a) ≡ true) (r.conn_mp endpoint)
      → (p : Bool × Requester X (identity X)) × (add_connection X
            (identity X)
            r
            endpoint
            (request gen)
            dial
            at
            at_wrapper
          ≡ ok p)
  unfolding add_connection
  add_connection-ok r endpoint gen dial at at_wrapper all =
      let (tried, run) = offer-ok endpoint (request gen) at (r.conn_mp endpoint) r all in
      let (p, rest) =
        with_room tried
          (ltb (length (tried.conn_mp endpoint)) (limit X (identity X) tried.max_connections)) in
      (p, ap (λ m. m >>= behind) run ∙ rest)
    where
      room_or_not : Requester X (identity X) → Bool → Result (Bool × Requester X (identity X))
      room_or_not tried room = elim room [
        | true ↦ connect_new X (identity X) tried endpoint (request gen) dial at at_wrapper
        | false ↦ ok (false, tried)
      ]

      behind : Bool × Requester X (identity X) → Result (Bool × Requester X (identity X))
      behind (taken, tried) = elim taken [
        | true ↦ ok (true, tried)
        | false ↦
            room_or_not tried
              (ltb (length (tried.conn_mp endpoint)) (limit X (identity X) tried.max_connections))
      ]

      with_room :
          (tried : Requester X (identity X)) (room : Bool)
          → (p : Bool × Requester X (identity X)) × (room_or_not tried room ≡ ok p)
      with_room tried true = connect_new-ok tried endpoint gen dial at at_wrapper
      with_room tried false = ((false, tried), refl)

  -- With the identity wrapper, where the addresses in req_mp are those of the idle linkers, the
  -- new linker's address is not in use, and the connections to the endpoint are there: add_request
  -- of the requester comes to its end with no fault, and has given the request to exactly one
  -- linker, or to none where it answers false.
  pub add_request-identity :
      (r : Requester X (identity X)) (endpoint : Endpoint) (gen : X.Gen) (dial : Dial)
      (at at_wrapper : ℕ)
      → IsIdle X r.links
      → r.links.linkers at ≡ none
      → All (λ a. is_there (r.wrappers a) ≡ true) (r.conn_mp endpoint)
      → (p : Bool × Requester X (identity X)) × (add_request X
            (identity X)
            r
            endpoint
            gen
            dial
            at
            at_wrapper
          ≡ ok p)
        × Handed X (identity X) r.links p
  unfolding add_request
  add_request-identity r endpoint gen dial at at_wrapper idle fresh all =
      let (p, run) = ends in
      (
        p,
        run,
        Holds-ok (Handed X (identity X) r.links) _ p run (
            add_request-Handed X (identity X) (identity-IsWrapping X) endpoint gen at r dial
              at_wrapper idle fresh),
      )
    where
      ends :
          (p : Bool × Requester X (identity X)) × (add_request X
              (identity X)
              r
              endpoint
              gen
              dial
              at
              at_wrapper
            ≡ ok p)
      ends = elim (List-cases (r.links.req_mp endpoint)) [
        | inl e ↦
            let (p, run) = add_connection-ok r endpoint gen dial at at_wrapper all in
            (p, rw (add_request, e) run)
        | inr (first, others, e) ↦
            let (r', run, handed) =
              reuse-Handed X (identity X) r endpoint gen first others idle e in
            ((true, r'), rw (add_request, e) run)
      ]
