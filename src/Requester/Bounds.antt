-- ===== src/Requester/Bounds.antt =====
-- The number of connections to an endpoint.
use gnyproxy.Prelude.{
  ℕ, ◌≤◌, ◌<◌, ◌≡◌, refl, Bool, List, [], ◌∷◌, ltb, ltb→lt, length, ok, in_range, Holds, Holds-bind,
  Holds-ok, arith, Bool-cases, Option-cases, List-cases, Holds-assert, inl, inr,
}
use gnyproxy.Prelude.Int.{ℤ}
use gnyproxy.PointerSet.{insert, erase, length-insert, length-erase}
use gnyproxy.Client.{Dial, dial_socket}
use gnyproxy.ReqLinker.{Exchange, Links, Endpoint, same_endpoint, put_at}
use gnyproxy.Requester.{
  LinkData, request, create, Wrapping, Requester, limit, offer, connect_new, add_connection, reuse,
  add_request, destroy_wrapper,
}

module _ (X : Exchange) (W : Wrapping X) where
  -- No endpoint has more connections than `max_connections`, compared as `size_t`.
  abbrev pub IsBounded : Requester X W → Type 0
  IsBounded r = (e : Endpoint) → length (r.conn_mp e) ≤ limit X W r.max_connections

  abbrev pub Leaves : Bool × Requester X W → Type 0
  Leaves p = IsBounded p.1

  put_at-bounded :
      (r : Requester X W) (e : Endpoint) (cns : List ℕ)
      → IsBounded r
      → length cns ≤ limit X W r.max_connections
      → (e' : Endpoint) → length (put_at r.conn_mp e cns e') ≤ limit X W r.max_connections
  unfolding put_at
  put_at-bounded r e cns bounded small e' = elim (Bool-cases (same_endpoint e' e)) [
    | inl same ↦ rw same small
    | inr other ↦ rw other (bounded e')
  ]

  -- What a loop over the connections may change.
  abbrev SameMap : Requester X W → Bool × Requester X W → Type 0
  SameMap r p = (p.1.conn_mp ≡ r.conn_mp) × (p.1.max_connections ≡ r.max_connections)

  offer-SameMap :
      (endpoint : Endpoint) (d : LinkData X) (at : ℕ) (cns : List ℕ) (r : Requester X W)
      → Holds (SameMap r) (offer X W r endpoint d at cns)
  unfolding offer
  offer-SameMap endpoint d at [] r = (refl, refl)
  offer-SameMap endpoint d at (it ∷ cns) r =
      Holds-bind (SameMap r) (in_range (r.wrappers it)) _ (λ w eq.
        Holds-bind (SameMap r) (W.connection_maker r.links w.conn endpoint d at) _
          (λ (made, conn, links) eq'. elim (Bool-cases made) [
            | inl taken_up ↦ rw taken_up (refl, refl)
            | inr refused ↦ rw refused (offer-SameMap endpoint d at cns _)
          ]))

  connect_new-IsBounded :
      (r : Requester X W) (endpoint : Endpoint) (d : LinkData X) (dial : Dial) (at at_wrapper : ℕ)
      → IsBounded r
      → length (r.conn_mp endpoint) < limit X W r.max_connections
      → Holds Leaves (connect_new X W r endpoint d dial at at_wrapper)
  unfolding connect_new
  connect_new-IsBounded r endpoint d dial at at_wrapper bounded room =
      elim (Option-cases (dial_socket dial)) [
        | inl e ↦ rw (connect_new, e) bounded
        | inr (s, e) ↦
            rw (connect_new, e)
              (Holds-bind Leaves (W.wrapper_creator r.links endpoint d at) _ (λ (wrapped, made) eq.
                Holds-bind Leaves (W.connection_maker made wrapped endpoint d at) _ (λ p eq'.
                  put_at-bounded r endpoint (insert at_wrapper (r.conn_mp endpoint)) bounded
                    (omega (arith, length-insert at_wrapper (r.conn_mp endpoint))))))
      ]

  pub add_connection-IsBounded :
      (r : Requester X W) (endpoint : Endpoint) (d : LinkData X) (dial : Dial) (at at_wrapper : ℕ)
      → IsBounded r
      → Holds Leaves (add_connection X W r endpoint d dial at at_wrapper)
  unfolding add_connection
  add_connection-IsBounded r endpoint d dial at at_wrapper bounded =
      Holds-bind Leaves (offer X W r endpoint d at (r.conn_mp endpoint)) _ (λ (taken, tried) eq.
        let (same, same_max) =
          Holds-ok (SameMap r) _ (taken, tried) eq
            (offer-SameMap endpoint d at (r.conn_mp endpoint) r) in
        let still : IsBounded tried = (λ e. rw (same, same_max) (bounded e)) in
        elim (Bool-cases taken) [
          | inl taken_up ↦ rw taken_up still
          | inr refused ↦
              rw refused
                (elim (Bool-cases
                  (ltb (length (tried.conn_mp endpoint)) (limit X W tried.max_connections))) [
                    | inl room ↦ rw room (
                        connect_new-IsBounded tried endpoint d dial at at_wrapper still
                          (ltb→lt _ _ room))
                    | inr full ↦ rw full still
                  ])
        ])

  pub add_request-IsBounded :
      (r : Requester X W) (endpoint : Endpoint) (gen : X.Gen) (dial : Dial) (at at_wrapper : ℕ)
      → IsBounded r
      → Holds Leaves (add_request X W r endpoint gen dial at at_wrapper)
  unfolding add_request reuse
  add_request-IsBounded r endpoint gen dial at at_wrapper bounded =
      elim (List-cases (r.links.req_mp endpoint)) [
        | inl e ↦
            rw (add_request, e)
              (add_connection-IsBounded r endpoint (request gen) dial at at_wrapper bounded)
        | inr (first, others, e) ↦
            rw (add_request, e)
              (Holds-bind Leaves (in_range (r.links.linkers first)) _ (λ l eq.
                Holds-assert Leaves (gnyproxy.ReqLinker.add_request X l gen).0 _
                  (λ added. bounded)))
      ]

  pub destroy_wrapper-IsBounded :
      (r : Requester X W) (at : ℕ) → IsBounded r → Holds IsBounded (destroy_wrapper X W r at)
  unfolding destroy_wrapper
  destroy_wrapper-IsBounded r at bounded =
      Holds-bind IsBounded (in_range (r.wrappers at)) _ (λ w eq.
        put_at-bounded r w.endpoint (erase at (r.conn_mp w.endpoint)) bounded
          (omega (arith, length-erase at (r.conn_mp w.endpoint), bounded w.endpoint)))

  pub create-IsBounded :
      (world : X.World) (max_connections : ℤ) → IsBounded (create X W world max_connections)
  unfolding create
  create-IsBounded world max_connections e = omega arith

  -- What a requester may come to be: its own calls, those that destroy a connection, and any change of its linkers.
  pub data Reached : Requester X W → Type 0 where
    creates : (world : X.World) (max_connections : ℤ) → Reached (create X W world max_connections)
    requests :
        (r : Requester X W) (endpoint : Endpoint) (gen : X.Gen) (dial : Dial) (at at_wrapper : ℕ)
        (p : Bool × Requester X W)
        → Reached r
        → add_request X W r endpoint gen dial at at_wrapper ≡ ok p
        → Reached p.1
    connects :
        (r : Requester X W) (endpoint : Endpoint) (d : LinkData X) (dial : Dial) (at at_wrapper : ℕ)
        (p : Bool × Requester X W)
        → Reached r
        → add_connection X W r endpoint d dial at at_wrapper ≡ ok p
        → Reached p.1
    destroys :
        (r : Requester X W) (at : ℕ) (r' : Requester X W)
        → Reached r
        → destroy_wrapper X W r at ≡ ok r'
        → Reached r'
    works : (r : Requester X W) (links : Links X) → Reached r → Reached (record r { links = links })

  -- After any calls of a requester, and any change of its linkers, conn_mp has for no endpoint
  -- more connections than max_connections, as a number of 64 bits.
  pub Reached-IsBounded : (r : Requester X W) → Reached r → IsBounded r
  Reached-IsBounded r (creates world max_connections) = create-IsBounded world max_connections
  Reached-IsBounded r (requests r0 endpoint gen dial at at_wrapper p before eq) =
      Holds-ok Leaves _ p eq
        (add_request-IsBounded r0 endpoint gen dial at at_wrapper (Reached-IsBounded r0 before))
  Reached-IsBounded r (connects r0 endpoint d dial at at_wrapper p before eq) =
      Holds-ok Leaves _ p eq
        (add_connection-IsBounded r0 endpoint d dial at at_wrapper (Reached-IsBounded r0 before))
  Reached-IsBounded r (destroys r0 at r' before eq) =
      Holds-ok IsBounded _ r eq (destroy_wrapper-IsBounded r0 at (Reached-IsBounded r0 before))
  Reached-IsBounded r (works r0 links before) = Reached-IsBounded r0 before
