-- ===== src/HttpProxy/Linker/Reading.antt =====
-- What `read` does behind the reader: the link keeps its reader, and is ready to write where it was.
use mathlib.Core.Path.{subst}
use gnyproxy.Prelude.{
  ℕ, ◌≡◌, refl, sym, ap, ◌∙◌, Bool, true, false, not, ◌&&◌, ◌||◌, [], ◌∷◌, ◌++◌, Option, none, some,
  ◌==◌, Bytes, codes, Result, ok, ◌>>=◌, in_range, Holds, Holds-bind, Holds-ok, Bool-cases,
  Option-cases, inl, inr,
}
use gnyproxy.Prelude.Int.{ℤ, pos}
use gnyproxy.HttpMessage.{HttpMessage, is_empty}
use gnyproxy.Http.{c_str, http_request_connect, http_request_verb_unknown}
use gnyproxy.HttpProxy.{generate_message}
use gnyproxy.Multiconn.{put}
use gnyproxy.ReqLinker.{Endpoint}
use gnyproxy.HttpProxy.Copier.{Heap}
use gnyproxy.HttpProxy.Linker.{
  Proxy, ALinker, Situation, respond, new_response, mark_connected, patch_request, patch_tunnel,
  patch_to, patch, endpoint_of, refuse_unconnected,
}
use gnyproxy.HttpProxy.Linker.Sound.{is_some, and_false, is_empty-append, IsSound, Sound, is_ready}

module _ (P : Proxy) where
  -- While a request is read: the link has a reader, and is ready where it was.
  pub record Reading (s t : Situation P) : Type 0 where
    pub sound : Sound P t
    pub reading : is_some t.link.reader ≡ true
    pub still_ready : (not (is_ready P s.link) || is_ready P t.link) ≡ true

  pub or_trans : (a b c : Bool) → (not a || b) ≡ true → (not b || c) ≡ true → (not a || c) ≡ true
  or_trans false b c h h' = refl
  or_trans true true c h h' = h'
  or_trans true false c h h' = absurd (cc)

  pub Reading-trans : (s t u : Situation P) → Reading s t → Reading t u → Reading s u
  Reading-trans s t u one two = record {
    sound = two.sound;
    reading = two.reading;
    still_ready =
        or_trans (is_ready P s.link) (is_ready P t.link) (is_ready P u.link) one.still_ready
          two.still_ready;
  }

  -- A link that was not connected had no tunnel.
  no_tunnel :
      (a : ALinker P)
      → IsSound P a
      → is_some a.reader ≡ true
      → a.connected ≡ false
      → a.tunneler ≡ false
  no_tunnel a sound reading off =
      by_tests a.tunneler a.connected (is_some a.reader) sound.tunnel_connected reading off
    where
      by_tests : (t c r : Bool) → (t && (not c && r)) ≡ false → r ≡ true → c ≡ false → t ≡ false
      by_tests true false true h h' h'' = h
      by_tests true true r h h' h'' = h''
      by_tests true false false h h' h'' = sym h'
      by_tests false c r h h' h'' = refl

  -- A link becomes connected, with its reader and its writer as they were.
  connects :
      (s : Situation P) (a : ALinker P) (heap : Heap) (req : P.Req)
      → Sound P s
      → is_some s.link.reader ≡ true
      → s.link.connected ≡ false
      → (is_some s.link.writer && is_empty a.response_queue) ≡ false
      → Reading s (record {
        link = record a { reader = s.link.reader; writer = s.link.writer; connected = true };
        heap = heap;
        req = req;
      })
  connects s a heap req sound reading off front = record {
    sound = record {
      writer_in_front = front;
      reader_or_tunnel = ap (λ r. not r && not a.tunneler) reading;
      tunnel_connected = and_false a.tunneler;
    };
    reading = reading;
    still_ready =
        rw (no_tunnel s.link sound reading off) (by_writer (is_some s.link.writer) a.tunneler);
  }
    where
      by_writer : (w t : Bool) → (not (w || false) || (w || t)) ≡ true
      by_writer true t = refl
      by_writer false t = refl

  module _ (s : Situation P) (sound : Sound P s) (reading : is_some s.link.reader ≡ true) where
    unchanged : Reading s s
    unchanged = record {
      sound = sound;
      reading = reading;
      still_ready = by_test (is_ready P s.link);
    }
      where
        by_test : (b : Bool) → (not b || b) ≡ true
        by_test true = refl
        by_test false = refl

    answered :
        (at : ℕ)
        → (is_some s.link.writer
            && is_empty (s.link.response_queue ++ (s.link.reader_msg, at) ∷ []))
          ≡ false
    answered at =
        ap (λ e. is_some s.link.writer && e)
          (is_empty-append s.link.response_queue (s.link.reader_msg, at))
        ∙ and_false (is_some s.link.writer)

    -- The link with a response at the end of its queue.
    abbrev longer : ℕ → ALinker P
    longer at = record (s.link) {
      response_queue = s.link.response_queue ++ (s.link.reader_msg, at) ∷ [];
    }

    module _ (off : s.link.connected ≡ false) (endpoint : Endpoint) (at : ℕ) where
      -- A response that the proxy makes, in a situation with another requester, other messages and a tunnel or none.
      respond-Reading :
          (heap : Heap) (req : P.Req) (tunneler : Bool) (linked_count : Option ℕ) (status : ℤ)
          (info : Bytes)
          → Holds
              (λ (t : Situation P). Reading s (mark_connected P t))
              (respond P
                (record {
                  link = record (s.link) { tunneler = tunneler; linked_count = linked_count };
                  heap = heap;
                  req = req;
                })
                at
                status
                info)
      unfolding respond
      respond-Reading heap req tunneler linked_count status info =
          Holds-bind (λ (t : Situation P). Reading s (mark_connected P t)) (in_range (heap at)) _
            (λ msg eq.
              Holds-bind (λ (t : Situation P). Reading s (mark_connected P t))
                (generate_message msg status info) _
                (λ m eq'.
                  connects s
                    (record (longer at) { tunneler = tunneler; linked_count = linked_count })
                    (put heap at (some m)) req sound reading off (answered at)))

      patch_request-Reading : Holds (Reading s) (patch_request P s endpoint at)
      unfolding patch_request
      patch_request-Reading =
          Holds-bind (Reading s) (P.add_request s.req _ endpoint _) _ (λ (added, req, heap) eq.
            elim (Bool-cases added) [
              | inl sent ↦ rw sent (connects s (longer at) heap req sound reading off (answered at))
              | inr refused ↦ rw refused (
                  Holds-bind (Reading s)
                    (respond P (record { link = s.link; heap = heap; req = req }) at (pos 504) _) _
                    (λ t eq'.
                      Holds-ok (λ (u : Situation P). Reading s (mark_connected P u)) _ t eq'
                        (respond-Reading heap req s.link.tunneler s.link.linked_count (pos 504) _)))
            ])

      patch_tunnel-Reading : Holds (Reading s) (patch_tunnel P s endpoint at)
      unfolding patch_tunnel
      patch_tunnel-Reading =
          Holds-bind (Reading s) (P.add_connection s.req s.heap endpoint _) _
            (λ (added, req, heap) eq. elim (Bool-cases added) [
              | inr refused ↦ rw refused (answer req heap false none (pos 504) _)
              | inl linked ↦ elim (Option-cases P.forward) [
                | inr (e, upstream) ↦
                    rw (linked, upstream)
                      (connects s (record (s.link) { tunneler = true; linked_count = some 2 }) heap
                        req sound reading off sound.writer_in_front)
                | inl here ↦ rw (linked, here) (answer req heap true (some 2) (pos 200) [])
              ]
            ])
        where
          answer :
              (req : P.Req) (heap : Heap) (tunneler : Bool) (linked_count : Option ℕ) (status : ℤ)
              (info : Bytes)
              → Holds (Reading s) (
                  respond P
                    (new_response P
                      (record {
                        link = record (s.link) { tunneler = tunneler; linked_count = linked_count };
                        heap = heap;
                        req = req;
                      })
                      at)
                    at
                    status
                    info
                  >>= λ t. ok (mark_connected P t))
          answer req heap tunneler linked_count status info =
              Holds-bind (Reading s) (respond P _ at status info) _ (λ t eq.
                Holds-ok (λ (u : Situation P). Reading s (mark_connected P u)) _ t eq
                  (respond-Reading _ req tunneler linked_count status info))

    patch_to-Reading :
        s.link.connected ≡ false
        → (m : HttpMessage) (at : ℕ) (endpoint : Endpoint)
        → Holds (Reading s) (patch_to P s m at endpoint)
    unfolding patch_to
    patch_to-Reading off m at ([], service) = unchanged
    patch_to-Reading off m at (b ∷ host, service) =
        elim (Bool-cases (m.verb == http_request_connect)) [
          | inl tunnel ↦ rw tunnel (patch_tunnel-Reading off (c_str (b ∷ host), c_str service) at)
          | inr normal ↦ rw normal (patch_request-Reading off (c_str (b ∷ host), c_str service) at)
        ]

    pub patch-Reading : (m : HttpMessage) (at : ℕ) → Holds (Reading s) (patch P s m at)
    unfolding patch
    patch-Reading m at =
        elim (Bool-cases (
          not s.link.connected
          && (not (m.verb == http_request_verb_unknown) && not (is_empty m.url)))) [
            | inr no_need ↦ rw (patch, no_need) unchanged
            | inl wanted ↦
                rw (patch, wanted)
                  (patch_to-Reading (was_off s.link.connected _ wanted) m at (endpoint_of P m))
          ]
      where
        was_off : (c b : Bool) → (not c && b) ≡ true → c ≡ false
        was_off true b h = sym h
        was_off false b h = refl

    pub refuse_unconnected-Reading : (at : ℕ) → Holds (Reading s) (refuse_unconnected P s at)
    unfolding refuse_unconnected respond
    refuse_unconnected-Reading at = elim (Bool-cases s.link.connected) [
      | inl on ↦ subst (Holds (Reading s)) (sym (ap by_connected on)) unchanged
      | inr off ↦ subst (Holds (Reading s)) (sym (ap by_connected off)) (
          Holds-bind (Reading s) (in_range ((new_response P s at).heap at)) _ (λ msg eq.
            Holds-bind (Reading s) (generate_message msg (pos 400) _) _ (λ m eq'. record {
              sound = record {
                writer_in_front = answered at;
                reader_or_tunnel = sound.reader_or_tunnel;
                tunnel_connected = sound.tunnel_connected;
              };
              reading = reading;
              still_ready = unchanged.still_ready;
            })))
    ]
      where
        by_connected : Bool → Result (Situation P)
        by_connected c = elim c [
          | true ↦ ok s
          | false ↦ respond P (new_response P s at) at (pos 400) (codes "no host header found")
        ]
