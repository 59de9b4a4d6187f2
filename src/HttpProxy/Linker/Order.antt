-- ===== src/HttpProxy/Linker/Order.antt =====
-- How transactions leave the queue of a link: `get_write_size` beside its description.
use gnyproxy.Prelude.{
  ℕ, ◌≡◌, ◌↔◌, sym, refl, ap, ◌∙◌, Bool, true, false, ◌&&◌, List, [], ◌∷◌, Option, none, some, ◌==◌,
  ==_iff, if◌then◌else◌, length, ok, in_range, in_range-eq-ok, Holds, Holds-bind, Holds-ok,
  Holds-map, Bool-cases, inl, inr,
}
use gnyproxy.HttpMessage.{HttpMessage, is_sent}
use gnyproxy.Multiconn.{put}
use gnyproxy.HttpProxy.Copier.{Heap}
use gnyproxy.HttpProxy.Linker.{
  Proxy, ALinker, Situation, queue_size, get_write_size, request_sent, transaction_over, writer_of,
}
use gnyproxy.HttpProxy.Linker.Retires.{
  IsReleased, tunnelled, gone_out, Waits, unwritten, unasked, unanswered, Asks, made, kept, Retires,
  is_idle, is_tunnel, stays, leaves, InOrder,
}

abbrev Asked : Bool → Heap → ℕ → Bool → Type 0
Asked tunneler heap msg_req true = IsReleased tunneler heap msg_req
Asked tunneler heap msg_req false =
    (ret : ℕ) (res : HttpMessage) → Waits ret tunneler heap msg_req res

abbrev Over : ℕ → Bool → Heap → ℕ → HttpMessage → Bool → Type 0
Over ret tunneler heap msg_req res false = Waits ret tunneler heap msg_req res
Over ret tunneler heap msg_req res true =
    (ret ≡ 0) × IsReleased tunneler heap msg_req × (is_sent res ≡ true)

module _ (P : Proxy) where
  request_sent-Asked :
      (tunneler : Bool) (heap : Heap) (msg_req : ℕ)
      → Holds (Asked tunneler heap msg_req) (request_sent P tunneler heap msg_req)
  unfolding request_sent
  request_sent-Asked true heap msg_req = tunnelled heap msg_req
  request_sent-Asked false heap msg_req =
      Holds-bind (Asked false heap msg_req) (in_range (heap msg_req)) _
        (λ m eq. by_sent m (in_range-eq-ok (heap msg_req) eq) (is_sent m) refl)
    where
      by_sent :
          (m : HttpMessage)
          → heap msg_req ≡ some m
          → (sent : Bool) → is_sent m ≡ sent
          → Asked false heap msg_req sent
      by_sent m at true eq = gone_out false heap msg_req m at eq
      by_sent m at false eq = λ ret res. unasked ret heap msg_req res m at eq

  transaction_over-Over :
      (ret : ℕ) (tunneler : Bool) (heap : Heap) (msg_req : ℕ) (res : HttpMessage)
      → Holds
          (Over ret tunneler heap msg_req res)
          (transaction_over P ret tunneler heap msg_req res)
  unfolding transaction_over
  transaction_over-Over ret tunneler heap msg_req res = elim (Bool-cases (ret == 0)) [
    | inr more ↦ rw (transaction_over, more) (unwritten ret tunneler heap msg_req res more)
    | inl empty ↦
        rw (transaction_over, empty)
          (Holds-bind (Over ret tunneler heap msg_req res) (request_sent P tunneler heap msg_req) _
            (λ sent eq.
              both sent (is_sent res)
                (Holds-ok (Asked tunneler heap msg_req) _ sent eq
                  (request_sent-Asked tunneler heap msg_req))
                refl ((==_iff ret 0).0 empty)))
  ]
    where
      both :
          (sent gone : Bool)
          → Asked tunneler heap msg_req sent
          → is_sent res ≡ gone
          → ret ≡ 0
          → Over ret tunneler heap msg_req res (sent && gone)
      both true true asked eq zero_left = (zero_left, asked, eq)
      both true false asked eq zero_left = unanswered ret tunneler heap msg_req res asked eq
      both false gone asked eq zero_left = asked ret res

  Asks-writer_of :
      (writer : Option P.a_writer_creator.Writer) (m : HttpMessage)
      → Asks P writer m (writer_of P writer m)
  Asks-writer_of none m = made m
  Asks-writer_of (some w) m = kept w m

  writer_of_asked :
      {writer : Option P.a_writer_creator.Writer} {m : HttpMessage} {v : P.a_writer_creator.Writer}
      → Asks P writer m v
      → writer_of P writer m ≡ v
  writer_of_asked (made m) = refl
  writer_of_asked (kept w m) = refl

  abbrev Retired :
      ALinker P
      → Heap
      → Option P.a_writer_creator.Writer
      → List (ℕ × ℕ)
      → ℕ × Heap × Option P.a_writer_creator.Writer × List (ℕ × ℕ)
      → Type 0
  Retired a heap writer queue (n, heap', writer', queue') =
      Retires P a heap writer queue n heap' writer' queue'

  queue_end-Retired :
      (a : ALinker P) (heap : Heap) (writer : Option P.a_writer_creator.Writer) (tunneler : Bool)
      → a.tunneler ≡ tunneler
      → Retires P a heap writer [] (if tunneler then length a.data_res else 0) heap writer []
  queue_end-Retired a heap writer true tunnel = is_tunnel heap writer tunnel
  queue_end-Retired a heap writer false plain = is_idle heap writer plain

  queue_size-Retired :
      (a : ALinker P) (queue : List (ℕ × ℕ)) (heap : Heap)
      (writer : Option P.a_writer_creator.Writer)
      → Holds (Retired a heap writer queue) (queue_size P a heap writer queue)
  unfolding queue_size
  queue_size-Retired a [] heap writer = queue_end-Retired a heap writer a.tunneler refl
  queue_size-Retired a ((msg_req, msg_res) ∷ queue) heap writer =
      let Q = Retired a heap writer ((msg_req, msg_res) ∷ queue) in
      Holds-bind Q (in_range (heap msg_res)) _ (λ m eq.
        Holds-bind Q (P.a_writer_creator.get_write_size (writer_of P writer m)) _ (λ (ret, w) eq'.
          let res = P.a_writer_creator.drained w in
          let heap1 : Heap = put heap msg_res (some res) in
          let at = in_range-eq-ok (heap msg_res) eq in
          Holds-bind Q (transaction_over P ret a.tunneler heap1 msg_req res) _ (λ over eq''.
            let why : (b : Bool) → over ≡ b → Over ret a.tunneler heap1 msg_req res b = λ b gone.
              Holds-ok (Over ret a.tunneler heap1 msg_req res) _ b (eq'' ∙ ap ok gone)
                (transaction_over-Over ret a.tunneler heap1 msg_req res) in
            elim (Bool-cases over) [
              | inr remains ↦ rw remains (
                  stays heap writer msg_req msg_res queue m ret (writer_of P writer m) w at
                    (Asks-writer_of writer m) eq' (why false remains))
              | inl gone ↦
                  let (nothing, released, done) = why true gone in
                  let eq0 = eq' ∙ ap (λ n. ok (n, w)) nothing in
                  let heap2 : Heap = put (put heap1 msg_req none) msg_res none in
                  rw gone (
                    Holds-map (Retired a heap2 none queue) Q (queue_size P a heap2 none queue)
                      (λ (n, heap', writer', queue') later.
                        leaves heap writer msg_req msg_res queue m (writer_of P writer m) w n heap'
                          writer' queue' at (Asks-writer_of writer m) eq0 released done later)
                      (queue_size-Retired a queue heap2 none))
            ])))

  request_sent-IsReleased :
      {tunneler : Bool} {heap : Heap} {msg_req : ℕ}
      → IsReleased tunneler heap msg_req
      → request_sent P tunneler heap msg_req ≡ ok true
  unfolding request_sent
  request_sent-IsReleased (tunnelled heap msg_req) = refl
  request_sent-IsReleased (gone_out true heap msg_req m at eq) = refl
  request_sent-IsReleased (gone_out false heap msg_req m at eq) = rw (request_sent, at, eq) refl

  transaction_over-Waits :
      {ret : ℕ} {tunneler : Bool} {heap : Heap} {msg_req : ℕ} {res : HttpMessage}
      → Waits ret tunneler heap msg_req res
      → transaction_over P ret tunneler heap msg_req res ≡ ok false
  unfolding transaction_over request_sent
  transaction_over-Waits (unwritten ret tunneler heap msg_req res more) =
      rw (transaction_over, more) refl
  transaction_over-Waits (unasked ret heap msg_req res m at eq) = elim (Bool-cases (ret == 0)) [
    | inr more ↦ rw (transaction_over, more) refl
    | inl empty ↦ rw (transaction_over, empty, request_sent, at, eq) refl
  ]
  transaction_over-Waits (unanswered ret tunneler heap msg_req res released eq) =
      elim (Bool-cases (ret == 0)) [
        | inr more ↦ rw (transaction_over, more) refl
        | inl empty ↦ rw (transaction_over, empty, request_sent-IsReleased released, eq) refl
      ]

  queue_size_complete :
      (a : ALinker P) {heap heap' : Heap} {writer writer' : Option P.a_writer_creator.Writer}
      {queue queue' : List (ℕ × ℕ)} {n : ℕ}
      → Retires P a heap writer queue n heap' writer' queue'
      → queue_size P a heap writer queue ≡ ok (n, heap', writer', queue')
  unfolding queue_size transaction_over
  queue_size_complete a (is_idle heap writer plain) =
      ap (λ b. ok (if b then length a.data_res else 0, heap, writer, [])) plain
  queue_size_complete a (is_tunnel heap writer tunnel) =
      ap (λ b. ok (if b then length a.data_res else 0, heap, writer, [])) tunnel
  queue_size_complete a (stays heap writer msg_req msg_res queue m ret v w at asks eq waits) =
      rw (queue_size, at, writer_of_asked asks, eq, transaction_over-Waits waits) refl
  queue_size_complete a
        (leaves heap writer msg_req msg_res queue m v w n heap' writer' queue' at asks eq released
          done later) =
      rw
        (
          queue_size,
          at,
          writer_of_asked asks,
          eq,
          transaction_over,
          request_sent-IsReleased released,
          done,
        )
        (queue_size_complete a later)

  sized : (s : Situation P) → Holds (InOrder P s) (get_write_size P s)
  unfolding get_write_size
  sized s =
      Holds-bind (InOrder P s) (queue_size P s.link s.heap s.link.writer s.link.response_queue) _
        (λ (ret, heap, writer, queue) eq. (
          Holds-ok (Retired s.link s.heap s.link.writer s.link.response_queue) _
              (ret, heap, writer, queue) eq
              (queue_size-Retired s.link s.link.response_queue s.heap s.link.writer),
          refl,
        ))

  size_complete :
      (s : Situation P) (n : ℕ) (t : Situation P)
      → InOrder P s (n, t)
      → get_write_size P s ≡ ok (n, t)
  unfolding get_write_size
  size_complete s n t (taken, same) =
      rw (queue_size_complete s.link taken) (ap (λ u. ok (n, u)) (sym same))

  -- A call of a client's link's get_write_size succeeds with a size and a situation if and only if
  -- these come from asking the writer about the responses from the front on: a transaction leaves
  -- when the writer has nothing left, the response as the writer has drained it is sent, and its
  -- request is sent or there is a tunnel, and then both messages are deleted and the next response
  -- gets a new writer; the first that does not leave stays in front with its writer, whose bytes
  -- are the size, and keeps all behind it; with none left, the size is that of the data for the
  -- tunnel, or 0 where there is none; and nothing else changes.
  pub get_write_size-InOrder :
      (s : Situation P) (n : ℕ) (t : Situation P)
      → (get_write_size P s ≡ ok (n, t)) ↔ InOrder P s (n, t)
  get_write_size-InOrder s n t =
      (λ eq. Holds-ok (InOrder P s) _ (n, t) eq (sized s), size_complete s n t)
