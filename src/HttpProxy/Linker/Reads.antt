-- ===== src/HttpProxy/Linker/Reads.antt =====
-- Calls of a link in any order: no assertion of `read` and `write` fails.
use mathlib.Core.Path.{subst}
use gnyproxy.Prelude.{
  ℕ, ◌<◌, ◌≡◌, refl, sym, ap, ◌∙◌, Bool, true, false, not, ◌&&◌, ◌||◌, Option, none, some, ◌==◌,
  Bytes, Result, ok, ◌>>=◌, ◌>>◌, assert, in_range, Holds, Holds-bind, Holds-ok, Holds-assert,
  Bool-cases, Option-cases, inl, inr, arith,
}
use gnyproxy.Prelude.Int.{ℤ}
use gnyproxy.HttpMessage.{HttpMessage, rank, MessageState}
use gnyproxy.Socket.{Socket, Received}
use gnyproxy.Multiconn.{put}
use gnyproxy.HttpProxy.Copier.{Heap}
use gnyproxy.HttpProxy.Tunnel.{send_data, recv_data}
use gnyproxy.HttpProxy.Linker.{
  Proxy, Situation, create, get_write_size, write_front, write, patch, refuse_unconnected,
  next_request, finish_request, read_request, read,
}
use gnyproxy.HttpProxy.Linker.Sound.{is_some, and_false, Sound, is_ready, Leaves}
use gnyproxy.HttpProxy.Linker.Reading.{
  Reading, Reading-trans, or_trans, patch-Reading, refuse_unconnected-Reading,
}
use gnyproxy.HttpProxy.Linker.Sound.{create-Sound, Sized, get_write_size-Sized, write-Sound}

-- An assertion on the side where there is nothing.
no_assertion :
    {A C : Type 0} (o : Option A) (t : Bool) (call : A → Result C) (next : Result C)
    → (is_some o || t) ≡ true
    → elim o as (λ _. Result C) [ some a ↦ call a | none ↦ assert t >> next ]
      ≡ elim o as (λ _. Result C) [ some a ↦ call a | none ↦ next ]
no_assertion (some a) t call next h = refl
no_assertion none true call next h = refl
no_assertion none false call next h = absurd (cc)

implied : (a b : Bool) → (not a || b) ≡ true → a ≡ true → b ≡ true
implied true b h h' = h
implied false b h h' = absurd (cc)

one_of : (r t : Bool) → (not r && not t) ≡ false → (r || t) ≡ true
one_of true t h = refl
one_of false true h = refl
one_of false false h = absurd (cc)

module _ (P : Proxy) where
  -- Behind `read`: the link is sound, and ready to write where it was.
  pub record Stays (s t : Situation P) : Type 0 where
    pub sound : Sound P t
    pub still_ready : (not (is_ready P s.link) || is_ready P t.link) ≡ true

  next_request-Stays :
      (s t : Situation P) (next : ℕ) → Reading P s t → Stays s (next_request P t next)
  unfolding next_request
  next_request-Stays s t next r = elim (Bool-cases t.link.tunneler) [
    | inl tunnel ↦
        rw (next_request, tunnel)
          (record {
            sound = record {
              writer_in_front = r.sound.writer_in_front;
              reader_or_tunnel = ap not tunnel;
              tunnel_connected = and_false t.link.tunneler;
            };
            still_ready = r.still_ready;
          })
    | inr none_there ↦
        rw (next_request, none_there)
          (record {
            sound = record {
              writer_in_front = r.sound.writer_in_front;
              reader_or_tunnel = refl;
              tunnel_connected = ap (λ b. b && true) none_there;
            };
            still_ready = r.still_ready;
          })
  ]

  abbrev StaysAfter : Situation P → {A : Type 0} → A × Situation P → Type 0
  StaysAfter s p = Stays s p.1

  finish_request-Stays :
      (s t : Situation P) (m : HttpMessage) (at next : ℕ)
      → Reading P s t
      → Holds (Stays s) (finish_request P t m at next)
  unfolding finish_request
  finish_request-Stays s t m at next r =
      elim (Bool-cases (rank m.state == rank MessageState.done)) [
        | inr more ↦
            rw (finish_request, more) (record { sound = r.sound; still_ready = r.still_ready })
        | inl over ↦
            rw (finish_request, over)
              (Holds-bind (Stays s) (refuse_unconnected P t at) _ (λ u eq.
                next_request-Stays s u next (
                  Reading-trans P s t u r (
                    Holds-ok (Reading P t) _ u eq
                      (refuse_unconnected-Reading P t r.sound r.reading at)))))
      ]

  read_request-Stays :
      (s : Situation P) (reader : P.a_reader_creator.Reader) (sock : Socket) (max_read at next : ℕ)
      → Sound P s
      → s.link.reader ≡ some reader
      → Holds (StaysAfter s) (read_request P s reader sock max_read at next)
  unfolding read_request
  read_request-Stays s reader sock max_read at next sound e =
      Holds-bind (StaysAfter s) (in_range (s.heap s.link.reader_msg)) _ (λ m eq.
        Holds-bind (StaysAfter s)
          (P.a_reader_creator.read (P.a_reader_creator.point reader m) sock max_read) _
          (λ (ret, r) eq'.
            let came : Situation P = record s {
              link = record (s.link) { reader = some r };
              heap = put s.heap s.link.reader_msg (some (P.a_reader_creator.filled r));
            } in
            let came_sound : Sound P came = record {
              writer_in_front = sound.writer_in_front;
              reader_or_tunnel = refl;
              tunnel_connected =
                  ap (λ o. s.link.tunneler && (not s.link.connected && is_some o)) (sym e)
                  ∙ sound.tunnel_connected;
            } in
            Holds-bind (StaysAfter s) (patch P came (P.a_reader_creator.filled r) at) _
              (λ patched eq''.
                Holds-bind (StaysAfter s) (in_range (patched.heap s.link.reader_msg)) _ (λ m' e'.
                  Holds-bind (StaysAfter s) (finish_request P patched m' at next) _ (λ done e''.
                    let end = Holds-ok (Stays came) _ done e'' (
                      finish_request-Stays came patched m' at next (
                        Holds-ok (Reading P came) _ patched eq'' (
                          patch-Reading P came came_sound refl (P.a_reader_creator.filled r)
                            at))) in
                    record { sound = end.sound; still_ready = end.still_ready })))))

  -- One call of `read` with no fault leaves the link sound, and ready to write where it was.
  pub read-Stays :
      (s : Situation P) (sock : Socket) (recv : ℕ → Received) (max_read at next : ℕ)
      → Sound P s
      → Holds (StaysAfter s) (read P s sock recv max_read at next)
  unfolding read
  read-Stays s sock recv max_read at next sound = elim (Option-cases s.link.reader) [
    | inr (reader, e) ↦
        subst (Holds (StaysAfter s)) (sym (ap by_reader e))
          (read_request-Stays s reader sock max_read at next sound e)
    | inl e ↦ subst (Holds (StaysAfter s)) (sym (ap by_reader e)) (
        Holds-assert (StaysAfter s) s.link.tunneler _ (λ tunnel. record {
          sound = record {
            writer_in_front = sound.writer_in_front;
            reader_or_tunnel = sound.reader_or_tunnel;
            tunnel_connected = sound.tunnel_connected;
          };
          still_ready = as_before (is_ready P s.link);
        }))
  ]
    where
      by_reader : Option P.a_reader_creator.Reader → Result (ℤ × Situation P)
      by_reader o = elim o [
        | some reader ↦ read_request P s reader sock max_read at next
        | none ↦ do
          assert s.link.tunneler
          let (amt, more) = recv_data s.link.data_req recv max_read
          ok (amt, record s { link = record (s.link) { data_req = more } })
      ]

      as_before : (b : Bool) → (not b || b) ≡ true
      as_before true = refl
      as_before false = refl

  -- What a link may come to be.
  pub data Reached : Situation P → Type 0 where
    creates : (req : P.Req) (heap : Heap) (at : ℕ) → Reached (create P req heap at)
    sizes :
        (s : Situation P) (p : ℕ × Situation P)
        → Reached s
        → get_write_size P s ≡ ok p
        → Reached p.1
    writes :
        (s : Situation P) (sock : Socket) (max_write : ℕ) (p : ℤ × Situation P)
        → Reached s
        → write P s sock max_write ≡ ok p
        → Reached p.1
    reads :
        (s : Situation P) (sock : Socket) (recv : ℕ → Received) (max_read at next : ℕ)
        (p : ℤ × Situation P)
        → Reached s
        → read P s sock recv max_read at next ≡ ok p
        → Reached p.1
    others_act :
        (s : Situation P) (heap : Heap) (req : P.Req) (data_req data_res : Bytes)
        → Reached s
        → Reached (record {
          link = record (s.link) { data_req = data_req; data_res = data_res };
          heap = heap;
          req = req;
        })

  pub Reached-Sound : (s : Situation P) → Reached s → Sound P s
  Reached-Sound s (creates req heap at) = create-Sound P req heap at
  Reached-Sound s (sizes s0 p before eq) =
      (Holds-ok (Sized P) _ p eq (get_write_size-Sized P s0 (Reached-Sound s0 before))).0
  Reached-Sound s (writes s0 sock max_write p before eq) =
      Holds-ok (Leaves P) _ p eq (write-Sound P s0 sock max_write (Reached-Sound s0 before))
  Reached-Sound s (reads s0 sock recv max_read at next p before eq) =
      (Holds-ok (StaysAfter s0) _ p eq
        (read-Stays s0 sock recv max_read at next (Reached-Sound s0 before))).sound
  Reached-Sound s (others_act s0 heap req data_req data_res before) =
      let sound = Reached-Sound s0 before in
      record {
        writer_in_front = sound.writer_in_front;
        reader_or_tunnel = sound.reader_or_tunnel;
        tunnel_connected = sound.tunnel_connected;
      }

  -- The code with no assertion.
  abbrev pub read_unchecked :
      Situation P → Socket → (ℕ → Received) → ℕ → ℕ → ℕ → Result (ℤ × Situation P)
  read_unchecked s sock recv max_read at next = elim s.link.reader [
    | some reader ↦ read_request P s reader sock max_read at next
    | none ↦
        let (amt, more) = recv_data s.link.data_req recv max_read in
        ok (amt, record s { link = record (s.link) { data_req = more } })
  ]

  abbrev pub write_unchecked : Situation P → Socket → ℕ → Result (ℤ × Situation P)
  write_unchecked s sock max_write = elim s.link.writer [
    | some writer ↦ write_front P s writer sock max_write
    | none ↦ do
      (amt, left) ← send_data s.link.data_res sock max_write
      ok (amt, record s { link = record (s.link) { data_res = left } })
  ]

  -- After any calls of a client's link, the assertion of read does not fail: read does what it
  -- does without it.
  pub read-read_unchecked :
      (s : Situation P)
      → Reached s
      → (sock : Socket) (recv : ℕ → Received) (max_read at next : ℕ)
      → read P s sock recv max_read at next ≡ read_unchecked s sock recv max_read at next
  unfolding read
  read-read_unchecked s reached sock recv max_read at next =
      no_assertion s.link.reader s.link.tunneler _ _
        (one_of (is_some s.link.reader) s.link.tunneler (Reached-Sound s reached).reader_or_tunnel)

  -- Between `get_write_size` and `write`, the link reads.
  pub data ReadsOn : Situation P → Situation P → Type 0 where
    stop : (s : Situation P) → ReadsOn s s
    then_read :
        (s t : Situation P) (sock : Socket) (recv : ℕ → Received) (max_read at next : ℕ)
        (p : ℤ × Situation P)
        → ReadsOn s t
        → read P t sock recv max_read at next ≡ ok p
        → ReadsOn s p.1

  ReadsOn-Stays : (s t : Situation P) → Sound P s → ReadsOn s t → Stays s t
  ReadsOn-Stays s _ sound (stop _) = record {
    sound = sound;
    still_ready = as_before (is_ready P s.link);
  }
    where
      as_before : (b : Bool) → (not b || b) ≡ true
      as_before true = refl
      as_before false = refl
  ReadsOn-Stays s u sound (then_read _ t sock recv max_read at next p before eq) =
      let first = ReadsOn-Stays s t sound before in
      let last =
        Holds-ok (StaysAfter t) _ p eq (read-Stays t sock recv max_read at next first.sound) in
      record {
        sound = last.sound;
        still_ready =
            or_trans P (is_ready P s.link) (is_ready P t.link) (is_ready P u.link) first.still_ready
              last.still_ready;
      }

  -- After any calls of a client's link, where get_write_size has said that there is something to
  -- write, the assertion of write does not fail, whatever the link reads in between: write does
  -- what it does without the assertion.
  pub write-write_unchecked :
      (s : Situation P) (n : ℕ) (t u : Situation P)
      → Reached s
      → get_write_size P s ≡ ok (n, t)
      → 0 < n
      → ReadsOn t u
      → (sock : Socket) (max_write : ℕ)
      → write P u sock max_write ≡ write_unchecked u sock max_write
  unfolding write
  write-write_unchecked s n t u reached size positive between sock max_write =
      let (sound, ready) =
        Holds-ok (Sized P) _ (n, t) size (get_write_size-Sized P s (Reached-Sound s reached)) in
      let stays = ReadsOn-Stays t u sound between in
      no_assertion u.link.writer u.link.tunneler _ _ (
        implied (is_ready P t.link) (is_ready P u.link) stays.still_ready
          (not_zero n (is_ready P t.link) positive ready))
    where
      not_zero : (n : ℕ) (b : Bool) → 0 < n → (n == 0 || b) ≡ true → b ≡ true
      not_zero n b positive h = ground arith
