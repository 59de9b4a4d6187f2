-- ===== src/Requester/Handing.antt =====
-- What the calls of the requester make of a request, step by step.
use mathlib.Core.Path.{subst}
use gnyproxy.Prelude.{
  ℕ, ◌≡◌, refl, sym, ap, ◌∙◌, Bool, true, false, List, [], ◌∷◌, none, some, ltb, length, Result, ok,
  ◌>>=◌, in_range, Holds, Holds-bind, Holds-ok, Holds-map, Bool-cases, Option-cases, List-cases,
  inl, inr,
}
use gnyproxy.Multiconn.{put}
use gnyproxy.Client.{Dial, dial_socket}
use gnyproxy.ReqLinker.{Exchange, Endpoint, Links}
use gnyproxy.ReqLinker.Idle.{IsIdle}
use gnyproxy.Requester.{
  request, Wrapping, Requester, WrapperWrapper, limit, offer, connect_new, add_connection,
  add_request,
}
use gnyproxy.Requester.Given.{is_busy, Outcome, IsWrapping, Handed, reuse-Handed}

module _ (X : Exchange) where
  module _ (W : Wrapping X) (lawful : IsWrapping X W) (endpoint : Endpoint) (gen : X.Gen)
      (at : ℕ) where
    -- Behind a connection that refuses, the request stands where it stood.
    later :
        (made : Bool) (r0 r1 r2 : Links X)
        → ((b : ℕ) → r1.linkers b ≡ r0.linkers b)
        → Outcome X made r1 r2
        → Outcome X made r0 r2
    later true r0 r1 r2 same (a, up) = (
      a,
      record {
        before = ap (is_busy X) (sym (same a)) ∙ up.before;
        after = up.after;
        others = λ b h. up.others b h ∙ same b;
      },
    )
    later false r0 r1 r2 same none_new = λ b. none_new b ∙ same b

    -- One connection of the loop, with what is known of those behind it.
    offered :
        (r : Requester X W) (it : ℕ) (cns : List ℕ)
        → ((tried : Requester X W)
            → IsIdle X tried.links
            → tried.links.linkers at ≡ none
            → Holds (Handed X W tried.links) (offer X W tried endpoint (request gen) at cns))
        → (made : Bool) (conn : W.Wrapped) (links : Links X) (w : WrapperWrapper X W)
        → Outcome X made r.links links
        → IsIdle X links
        → r.links.linkers at ≡ none
        → let tried = record r {
          links = links;
          wrappers = put r.wrappers it (some (record w { conn = conn }));
        } in
          Holds (Handed X W r.links) (elim made as (λ _. Result (Bool × Requester X W)) [
            | true ↦ ok (true, tried)
            | false ↦ offer X W tried endpoint (request gen) at cns
          ])
    offered r it cns behind true conn links w outcome still fresh = (outcome, still)
    offered r it cns behind false conn links w outcome still fresh =
        let tried = record r {
          links = links;
          wrappers = put r.wrappers it (some (record w { conn = conn }));
        } in
        Holds-map (Handed X W links) (Handed X W r.links)
          (offer X W tried endpoint (request gen) at cns)
          (λ p (given, kept). (later p.0 r.links links p.1.links outcome given, kept))
          (behind tried still (outcome at ∙ fresh))

    offer-Handed :
        (cns : List ℕ) (r : Requester X W)
        → IsIdle X r.links
        → r.links.linkers at ≡ none
        → Holds (Handed X W r.links) (offer X W r endpoint (request gen) at cns)
    unfolding offer
    offer-Handed [] r idle fresh = (λ b. refl, idle)
    offer-Handed (it ∷ cns) r idle fresh =
        Holds-bind (Handed X W r.links) (in_range (r.wrappers it)) _ (λ w eq.
          Holds-bind (Handed X W r.links)
            (W.connection_maker r.links w.conn endpoint (request gen) at) _
            (λ (made, conn, links) eq'.
              let (outcome, still) =
                Holds-ok
                  (λ (p : Bool × W.Wrapped × Links X). Outcome X p.0 r.links p.2 × IsIdle X p.2) _
                  (made, conn, links) eq'
                  (lawful.maker r.links w.conn endpoint gen at idle fresh) in
              offered r it cns (offer-Handed cns) made conn links w outcome still fresh))

    connect_new-Handed :
        (r : Requester X W) (dial : Dial) (at_wrapper : ℕ)
        → IsIdle X r.links
        → r.links.linkers at ≡ none
        → Holds (Handed X W r.links) (connect_new X W r endpoint (request gen) dial at at_wrapper)
    unfolding connect_new
    connect_new-Handed r dial at_wrapper idle fresh = elim (Option-cases (dial_socket dial)) [
      | inl e ↦ rw (connect_new, e) (λ b. refl, idle)
      | inr (s, e) ↦
          rw (connect_new, e)
            (Holds-bind (Handed X W r.links) (W.wrapper_creator r.links endpoint (request gen) at) _
              (λ (wrapped, made) eq.
                Holds-bind (Handed X W r.links)
                  (W.connection_maker made wrapped endpoint (request gen) at) _
                  (λ (taken, conn, links) eq'.
                    Holds-ok
                      (λ (p : Bool × W.Wrapped × Links X).
                        Outcome X true r.links p.2 × IsIdle X p.2)
                      _ (taken, conn, links)
                      (ap
                          (λ m. m >>= λ (q : W.Wrapped × Links X).
                            W.connection_maker q.1 q.0 endpoint (request gen) at)
                          eq
                        ∙ eq')
                      (lawful.creator r.links endpoint gen at idle fresh))))
    ]

    add_connection-Handed :
        (r : Requester X W) (dial : Dial) (at_wrapper : ℕ)
        → IsIdle X r.links
        → r.links.linkers at ≡ none
        → Holds
            (Handed X W r.links)
            (add_connection X W r endpoint (request gen) dial at at_wrapper)
    unfolding add_connection
    add_connection-Handed r dial at_wrapper idle fresh =
        Holds-bind (Handed X W r.links) (offer X W r endpoint (request gen) at (r.conn_mp endpoint))
          _
          (λ (taken, tried) eq. behind taken tried (
            Holds-ok (Handed X W r.links) _ (taken, tried) eq
              (offer-Handed (r.conn_mp endpoint) r idle fresh)))
      where
        behind :
            (taken : Bool) (tried : Requester X W)
            → Handed X W r.links (taken, tried)
            → Holds (Handed X W r.links) (elim taken as (λ _. Result (Bool × Requester X W)) [
              | true ↦ ok (true, tried)
              | false ↦
                  elim (ltb (length (tried.conn_mp endpoint)) (limit X W tried.max_connections))
                    as (λ _. Result (Bool × Requester X W)) [
                      | true ↦ connect_new X W tried endpoint (request gen) dial at at_wrapper
                      | false ↦ ok (false, tried)
                    ]
            ])
        behind true tried handed = handed
        behind false tried (none_new, kept) =
            elim (Bool-cases
              (ltb (length (tried.conn_mp endpoint)) (limit X W tried.max_connections))) [
                | inl room ↦ rw room (
                    Holds-map (Handed X W tried.links) (Handed X W r.links)
                      (connect_new X W tried endpoint (request gen) dial at at_wrapper)
                      (λ p (given, still).
                        (later p.0 r.links tried.links p.1.links none_new given, still))
                      (connect_new-Handed tried dial at_wrapper kept (none_new at ∙ fresh)))
                | inr full ↦ rw full (none_new, kept)
              ]

    -- With wrapper functions that make one linker for a request that they take and none for one
    -- that they refuse: add_request of the requester, if it comes to its end with no fault,
    -- answers true where exactly one linker, which had no generator, has taken up work and no
    -- other linker has changed, and false where no linker has changed; and the addresses in req_mp
    -- are again those of the idle linkers.
    pub add_request-Handed :
        (r : Requester X W) (dial : Dial) (at_wrapper : ℕ)
        → IsIdle X r.links
        → r.links.linkers at ≡ none
        → Holds (Handed X W r.links) (add_request X W r endpoint gen dial at at_wrapper)
    unfolding add_request
    add_request-Handed r dial at_wrapper idle fresh = elim (List-cases (r.links.req_mp endpoint)) [
      | inl e ↦ rw (add_request, e) (add_connection-Handed r dial at_wrapper idle fresh)
      | inr (first, others, e) ↦
          let (r', run, handed) = reuse-Handed X W r endpoint gen first others idle e in
          rw (add_request, e) (subst (Holds (Handed X W r.links)) (sym run) handed)
    ]
