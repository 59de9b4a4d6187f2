-- ===== src/HttpProxy/Linker/Sound.antt =====
-- What holds of a link between calls, so that no assertion of `read` or `write` fails.

use gnyproxy.Prelude.{
  ℕ, ◌≡◌, refl, sym, ap, ◌∙◌, Bool, true, false, not, ◌&&◌, ◌||◌, List, [], ◌∷◌, ◌++◌, Option, none,
  some, ◌==◌, if◌then◌else◌, length, in_range, Holds, Holds-bind, Holds-ok, Holds-assert,
  Bool-cases, Option-cases, inl, inr, arith,
}
use gnyproxy.HttpMessage.{is_empty}
use gnyproxy.Socket.{Socket}
use gnyproxy.HttpProxy.Copier.{Heap}
use gnyproxy.HttpProxy.Tunnel.{send_data}
use gnyproxy.HttpProxy.Linker.{
  Proxy, ALinker, Situation, create, queue_size, get_write_size, transaction_over, write_front,
  write, writer_of,
}

abbrev pub is_some {ℓ} : {A : Type ℓ} → Option A → Bool
is_some none = false
is_some (some a) = true

pub and_false : (b : Bool) → (b && false) ≡ false
and_false true = refl
and_false false = refl

pub is_empty-append : {A : Type 0} (xs : List A) (x : A) → is_empty (xs ++ x ∷ []) ≡ false
is_empty-append [] x = refl
is_empty-append (y ∷ xs) x = refl

module _ (P : Proxy) where
  -- A writer has a response in front; without a reader there is a tunnel; and while there is a
  -- reader, a tunnel is marked as connected.
  pub record IsSound (a : ALinker P) : Type 0 where
    pub writer_in_front : (is_some a.writer && is_empty a.response_queue) ≡ false
    pub reader_or_tunnel : (not (is_some a.reader) && not a.tunneler) ≡ false
    pub tunnel_connected : (a.tunneler && (not a.connected && is_some a.reader)) ≡ false

  abbrev pub Sound : Situation P → Type 0
  Sound s = IsSound s.link

  -- Something can be written: by the writer, or from the tunnel.
  abbrev pub is_ready : ALinker P → Bool
  is_ready a = is_some a.writer || a.tunneler

  pub create-Sound : (req : P.Req) (heap : Heap) (at : ℕ) → Sound (create P req heap at)
  unfolding create
  create-Sound req heap at = record {
    writer_in_front = refl;
    reader_or_tunnel = refl;
    tunnel_connected = refl;
  }

  -- What `queue_size` leaves.
  abbrev Fronted : Bool → ℕ × Heap × Option P.a_writer_creator.Writer × List (ℕ × ℕ) → Type 0
  Fronted tunneler (ret, heap, writer, queue) =
      ((is_some writer && is_empty queue) ≡ false)
      × ((ret == 0 || (is_some writer || tunneler)) ≡ true)

  queue_size-Fronted :
      (a : ALinker P) (queue : List (ℕ × ℕ)) (heap : Heap)
      (writer : Option P.a_writer_creator.Writer)
      → (is_some writer && is_empty queue) ≡ false
      → Holds (Fronted a.tunneler) (queue_size P a heap writer queue)
  unfolding queue_size
  queue_size-Fronted a [] heap writer front =
      (front, by_tunnel a.tunneler (length a.data_res) (is_some writer))
    where
      by_tunnel : (t : Bool) (n : ℕ) (w : Bool) → ((if t then n else 0) == 0 || (w || t)) ≡ true
      by_tunnel true n true = ground arith
      by_tunnel true n false = ground arith
      by_tunnel false n w = refl
  queue_size-Fronted a ((msg_req, msg_res) ∷ queue) heap writer front =
      Holds-bind (Fronted a.tunneler) (in_range (heap msg_res)) _ (λ m eq.
        Holds-bind (Fronted a.tunneler) (P.a_writer_creator.get_write_size (writer_of P writer m)) _
          (λ (ret, w) eq'.
            Holds-bind (Fronted a.tunneler)
              (transaction_over P ret a.tunneler _ msg_req (P.a_writer_creator.drained w)) _
              (λ over eq''. elim (Bool-cases over) [
                | inl gone ↦ rw gone (queue_size-Fronted a queue _ none refl)
                | inr stays ↦ rw stays (refl, or_true (ret == 0))
              ])))
    where
      or_true : (b : Bool) → (b || true) ≡ true
      or_true true = refl
      or_true false = refl

  -- Behind `get_write_size`.
  abbrev pub Sized : ℕ × Situation P → Type 0
  Sized (ret, s) = Sound s × ((ret == 0 || is_ready s.link) ≡ true)

  pub get_write_size-Sized : (s : Situation P) → Sound s → Holds Sized (get_write_size P s)
  unfolding get_write_size
  get_write_size-Sized s sound =
      Holds-bind Sized (queue_size P s.link s.heap s.link.writer s.link.response_queue) _
        (λ (ret, heap, writer, queue) eq.
          let (front, ready) =
            Holds-ok (Fronted s.link.tunneler) _ (ret, heap, writer, queue) eq
              (queue_size-Fronted s.link s.link.response_queue s.heap s.link.writer
                sound.writer_in_front) in
          (
            record {
              writer_in_front = front;
              reader_or_tunnel = sound.reader_or_tunnel;
              tunnel_connected = sound.tunnel_connected;
            },
            ready,
          ))

  abbrev pub Leaves : {A : Type 0} → A × Situation P → Type 0
  Leaves p = Sound p.1

  -- Where there is a writer, a response is in front.
  in_front :
      (a : ALinker P) (w : P.a_writer_creator.Writer)
      → IsSound a
      → a.writer ≡ some w
      → (first : ℕ × ℕ) × (queue : List (ℕ × ℕ)) × (a.response_queue ≡ first ∷ queue)
  in_front a w sound e =
      by_queue a.response_queue
        (ap (λ o. is_some o && is_empty a.response_queue) (sym e) ∙ sound.writer_in_front)
    where
      by_queue :
          (q : List (ℕ × ℕ))
          → (true && is_empty q) ≡ false
          → (first : ℕ × ℕ) × (queue : List (ℕ × ℕ)) × (q ≡ first ∷ queue)
      by_queue [] h = absurd (cc)
      by_queue (first ∷ queue) h = (first, queue, refl)

  write_front-Sound :
      (s : Situation P) (writer : P.a_writer_creator.Writer) (sock : Socket) (max_write : ℕ)
      → Sound s
      → s.link.writer ≡ some writer
      → Holds Leaves (write_front P s writer sock max_write)
  unfolding write_front
  write_front-Sound s writer sock max_write sound e =
      let ((msg_req, msg_res), queue, q) = in_front s.link writer sound e in
      rw (write_front, q)
        (Holds-bind Leaves (in_range (s.heap msg_res)) _ (λ m eq.
          Holds-bind Leaves
            (P.a_writer_creator.write (P.a_writer_creator.point writer m) sock max_write) _
            (λ (amt, w) eq'. record {
              writer_in_front = ap is_empty q;
              reader_or_tunnel = sound.reader_or_tunnel;
              tunnel_connected = sound.tunnel_connected;
            })))

  pub write-Sound :
      (s : Situation P) (sock : Socket) (max_write : ℕ)
      → Sound s
      → Holds Leaves (write P s sock max_write)
  unfolding write
  write-Sound s sock max_write sound = elim (Option-cases s.link.writer) [
    | inr (writer, e) ↦ rw (write, e) (write_front-Sound s writer sock max_write sound e)
    | inl e ↦
        rw (write, e)
          (Holds-assert Leaves s.link.tunneler _ (λ tunnel.
            Holds-bind Leaves (send_data s.link.data_res sock max_write) _ (λ (amt, left) eq.
              record {
                writer_in_front = sound.writer_in_front;
                reader_or_tunnel = sound.reader_or_tunnel;
                tunnel_connected = sound.tunnel_connected;
              })))
  ]
