-- ===== src/Multiconn/Queue.antt =====
-- The queue of the virtual connections that wait to write.

use gnyproxy.Prelude.{
  ℕ, zero, suc, ◌≡◌, refl, ap, Bool, true, false, List, [], ◌∷◌, ◌++◌, arith, ◌==◌, ==_iff,
  Bool-cases, inl, inr, ◌⊎◌, All, All-append, Option, none, some,
}
use gnyproxy.Prelude.Int.{ℤ, pos, negsuc}
use gnyproxy.Multiconn.{
  Virtual, Multiconn, put, size_of, enqueue, enqueue_ready, next_frame, get_write_size, end_frame,
}

-- `id` stands nowhere in the queue.
abbrev pub Absent : ℕ → List ℕ → Type 0
Absent id = All λ x. (x == id) ≡ false

-- No number stands twice.
abbrev pub Distinct : List ℕ → Type 0
Distinct [] = Unit {0}
Distinct (id ∷ ids) = Absent id ids × Distinct ids

-- Whose turn it is, is not in the queue as well; and all of them are marked.
abbrev pub Marked : (ℕ → Bool) → List ℕ → Type 0
Marked is_queued = All λ x. is_queued x ≡ true

Distinct-append : (ids : List ℕ) (id : ℕ) → Distinct ids → Absent id ids → Distinct (ids ++ id ∷ [])
Distinct-append [] id d a = (tt, tt)
Distinct-append (x ∷ ids) id d a =
    (All-append _ ids (id ∷ []) d.0 (ground (arith, a.0), tt), Distinct-append ids id d.1 a.1)

-- A number that is not marked is not in the queue.
Absent-unmarked :
    (q : ℕ → Bool) (ids : List ℕ) (id : ℕ) → Marked q ids → q id ≡ false → Absent id ids
Absent-unmarked q [] id m u = tt
Absent-unmarked q (x ∷ ids) id m u = (
  elim (Bool-cases (x == id)) [
    | inl e ↦ absurd (let same = ap q ((==_iff x id).0 e) in cc)
    | inr n ↦ n
  ],
  Absent-unmarked q ids id m.1 u,
)

put_self : (q : ℕ → Bool) (id : ℕ) (b : Bool) → put q id b id ≡ b
put_self q id b = let e : (id == id) ≡ true = (==_iff id id).1 refl in rw e refl

put-true : (q : ℕ → Bool) (id x : ℕ) → q x ≡ true → put q id true x ≡ true
put-true q id x h = elim (Bool-cases (x == id)) [ inl e ↦ rw e refl | inr e ↦ rw e h ]

Marked-put : (q : ℕ → Bool) (ids : List ℕ) (id : ℕ) → Marked q ids → Marked (put q id true) ids
Marked-put q [] id m = tt
Marked-put q (x ∷ ids) id m = (put-true q id x m.0, Marked-put q ids id m.1)

Marked-unput :
    (q : ℕ → Bool) (ids : List ℕ) (id : ℕ)
    → Marked q ids
    → Absent id ids
    → Marked (put q id false) ids
Marked-unput q [] id m a = tt
Marked-unput q (x ∷ ids) id m a = (rw a.0 m.0, Marked-unput q ids id m.1 a.1)

abbrev pub HasConn {ℓ} : {A : Type ℓ} → Bool → Option A → Type 0
HasConn true none = ⊥
HasConn _ _ = Unit {0}

-- The connection whose frame is being written, if there is one.
abbrev pub Turn : ℕ → ℕ → (ℕ → Bool) → List ℕ → Type 0
Turn zero id q ids = Unit {0}
Turn (suc size) id q ids = (q id ≡ true) × Absent id ids

pub Turn-map :
    (size id : ℕ) (q q' : ℕ → Bool) (ids ids' : List ℕ)
    → (q id ≡ true → Absent id ids → (q' id ≡ true) × Absent id ids')
    → Turn size id q ids
    → Turn size id q' ids'
Turn-map zero id q q' ids ids' f t = tt
Turn-map (suc size) id q q' ids ids' f t = f t.0 t.1

HasConn-some {ℓ} : {A : Type ℓ} (b : Bool) (c : A) → HasConn b (some c)
HasConn-some true c = tt
HasConn-some false c = tt

HasConn-put {ℓ} :
    {A : Type ℓ} (q : ℕ → Bool) (v : ℕ → Option A) (id : ℕ) (c : A)
    → ((x : ℕ) → HasConn (q x) (v x))
    → (x : ℕ) → HasConn (q x) (put v id (some c) x)
HasConn-put q v id c h x = elim (Bool-cases (x == id)) [
  | inl e ↦ rw e (HasConn-some (q x) c)
  | inr e ↦ rw e (h x)
]

HasConn-put_both {ℓ} :
    {A : Type ℓ} (q : ℕ → Bool) (v : ℕ → Option A) (id : ℕ) (b : Bool) (c : A)
    → ((x : ℕ) → HasConn (q x) (v x))
    → (x : ℕ) → HasConn (put q id b x) (put v id (some c) x)
HasConn-put_both q v id b c h x = elim (Bool-cases (x == id)) [
  | inl e ↦ rw e (HasConn-some b c)
  | inr e ↦ rw e (h x)
]

pub Turn-of :
    (size id : ℕ) (q : ℕ → Bool) (ids : List ℕ) → q id ≡ true → Absent id ids → Turn size id q ids
Turn-of zero id q ids h a = tt
Turn-of (suc size) id q ids h a = (h, a)

pub ℤ-cases : (z : ℤ) → ((e : ℕ) × (z ≡ negsuc e)) ⊎ ((z ≡ pos 0) ⊎ ((n : ℕ) × (z ≡ pos (suc n))))
ℤ-cases (negsuc e) = inl (e, refl)
ℤ-cases (pos zero) = inr (inl refl)
ℤ-cases (pos (suc n)) = inr (inr (n, refl))

module _ {V : Virtual} where
  -- No connection waits twice, each one that waits is marked and is there, and the one whose frame is
  -- being written is marked and does not wait.
  pub record IsSound (m : Multiconn V) : Type 0 where
    pub distinct : Distinct m.w_queue
    pub marked : Marked m.is_queued m.w_queue
    pub turn : Turn m.w_sz m.w_id m.is_queued m.w_queue
    pub there : (id : ℕ) → HasConn (m.is_queued id) (m.vconn id)

  -- A connection may change.
  pub put-IsSound :
      (m : Multiconn V) (id : ℕ) (c : V.Conn)
      → IsSound m
      → IsSound (record m { vconn = put m.vconn id (some c) })
  put-IsSound m id c h = record {
    distinct = h.distinct;
    marked = h.marked;
    turn = h.turn;
    there = HasConn-put m.is_queued m.vconn id c h.there;
  }

  pub enqueue-IsSound :
      (m : Multiconn V) (id : ℕ) (c : V.Conn)
      → IsSound m
      → m.is_queued id ≡ false
      → IsSound (enqueue V (record m { vconn = put m.vconn id (some c) }) id)
  unfolding enqueue
  enqueue-IsSound m id c h u = record {
    distinct =
        Distinct-append m.w_queue id h.distinct
          (Absent-unmarked m.is_queued m.w_queue id h.marked u);
    marked =
        All-append _ m.w_queue (id ∷ []) (Marked-put m.is_queued m.w_queue id h.marked)
          (put_self m.is_queued id true, tt);
    turn =
        Turn-map m.w_sz m.w_id m.is_queued (put m.is_queued id true) m.w_queue _
          (λ q a.
            (put-true m.is_queued id m.w_id q, All-append _ m.w_queue (id ∷ []) a (other q, tt)))
          h.turn;
    there = HasConn-put_both m.is_queued m.vconn id true c h.there;
  }
    where
      other : m.is_queued m.w_id ≡ true → (id == m.w_id) ≡ false
      other q = elim (Bool-cases (id == m.w_id)) [
        | inl e ↦ absurd (let same = ap m.is_queued ((==_iff id m.w_id).0 e) in cc)
        | inr n ↦ n
      ]

  pub enqueue_ready-IsSound :
      (m : Multiconn V) (id : ℕ) → IsSound m → IsSound (enqueue_ready V m id)
  unfolding enqueue_ready size_of
  enqueue_ready-IsSound m id h = elim (Bool-cases (m.is_queued id)) [
    | inl q ↦ rw q h
    | inr q ↦ elim (Bool-cases ((size_of V m id).0 == 0)) [
      | inl z ↦ rw (q, z) (put-IsSound m id _ h)
      | inr z ↦ rw (q, z) (enqueue-IsSound m id _ h q)
    ]
  ]

  next_frame-IsSound : (m : Multiconn V) → IsSound m → IsSound (next_frame V m)
  unfolding next_frame size_of
  next_frame-IsSound m h = by_queue m.w_queue h
    where
      by_queue :
          (ids : List ℕ)
          → IsSound (record m { w_queue = ids })
          → IsSound (next_frame V (record m { w_queue = ids }))
      by_queue [] h = h
      by_queue (id ∷ ids) h = record {
        distinct = h.distinct.1;
        marked = h.marked.1;
        turn = Turn-of _ id m.is_queued ids h.marked.0 h.distinct.0;
        there = HasConn-put m.is_queued m.vconn id _ h.there;
      }

  pub get_write_size-IsSound : (m : Multiconn V) → IsSound m → IsSound (get_write_size V m).1
  unfolding get_write_size
  get_write_size-IsSound m h = elim (Bool-cases (m.w_sz == 0)) [
    | inl z ↦ rw z (next_frame-IsSound m h)
    | inr n ↦ rw n h
  ]

  pub end_frame-IsSound :
      (m : Multiconn V) (size : ℕ)
      → IsSound (record m { w_sz = suc size })
      → IsSound (end_frame V m)
  unfolding end_frame size_of
  end_frame-IsSound m size h = elim (Bool-cases ((size_of V m m.w_id).0 == 0)) [
    | inl z ↦ rw z (record {
      distinct = h.distinct;
      marked = Marked-unput m.is_queued m.w_queue m.w_id h.marked h.turn.1;
      turn = tt;
      there = HasConn-put_both m.is_queued m.vconn m.w_id false _ h.there;
    })
    | inr n ↦ rw n (record {
      distinct = Distinct-append m.w_queue m.w_id h.distinct h.turn.1;
      marked = All-append _ m.w_queue (m.w_id ∷ []) h.marked (h.turn.0, tt);
      turn = tt;
      there = HasConn-put m.is_queued m.vconn m.w_id _ h.there;
    })
  ]
