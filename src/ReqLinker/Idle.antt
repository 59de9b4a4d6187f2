-- ===== src/ReqLinker/Idle.antt =====
-- The idle linkers are those that the requester keeps in `req_mp`.
use mathlib.Core.Path.{subst}
use gnyproxy.Prelude.{
  ℕ, ◌≡◌, refl, sym, ap, ◌∙◌, Bool, true, false, not, ◌&&◌, ◌||◌, List, [], ◌∷◌, Option, none, some,
  ◌==◌, ==_iff, if◌then◌else◌, Bytes, Result, ok, ◌>>=◌, in_range, Holds, Holds-bind, Holds-ok,
  Bool-cases, Option-cases, in_range-eq-ok, inl, inr, arith,
}
use gnyproxy.Prelude.Int.{pos}
use gnyproxy.Socket.{Socket}
use gnyproxy.PointerSet.{
  insert, erase, contains, Ascending, contains-insert, contains-erase, insert-Ascending,
  erase-Ascending,
}
use gnyproxy.Multiconn.{put}
use gnyproxy.ReqLinker.{
  Exchange, Endpoint, same_bytes, same_endpoint, put_at, Work, ReqLinker, Links, store, finish,
  check_work, get_write_size, write, read, destroy,
}

and_true : (a b : Bool) → (a && b) ≡ true → (a ≡ true) × (b ≡ true)
and_true true b h = (refl, h)
and_true false b h = (h, absurd (cc))

same_bytes-eq : (x y : Bytes) → same_bytes x y ≡ true → x ≡ y
unfolding same_bytes
same_bytes-eq [] [] h = refl
same_bytes-eq (a ∷ x) (b ∷ y) h =
    let (same, rest) = and_true (a == b) (same_bytes x y) h in
    let e = (==_iff a b).0 same in let es = same_bytes-eq x y rest in cc
same_bytes-eq [] (b ∷ y) h = absurd (cc)
same_bytes-eq (a ∷ x) [] h = absurd (cc)

pub same_endpoint-eq : (e e' : Endpoint) → same_endpoint e e' ≡ true → e ≡ e'
unfolding same_endpoint
same_endpoint-eq (h, s) (h', s') same =
    let (one, two) = and_true (same_bytes h h') (same_bytes s s') same in
    let eh = same_bytes-eq h h' one in let es = same_bytes-eq s s' two in cc

pub same_bytes_refl : (x : Bytes) → same_bytes x x ≡ true
unfolding same_bytes
same_bytes_refl [] = refl
same_bytes_refl (a ∷ x) = rw ((==_iff a a).1 refl) (same_bytes_refl x)

not_same : (a b : ℕ) → (b == a) ≡ false → (a == b) ≡ false
not_same a b h = ground arith

module _ (X : Exchange) where
  abbrev pub idle_for : Option (Work X) → Endpoint → Endpoint → Bool
  idle_for none mine e = same_endpoint e mine
  idle_for (some k) mine e = false

  -- There is a linker, it is idle, and its endpoint is `e`.
  abbrev pub idle_at : Option (ReqLinker X) → Endpoint → Bool
  idle_at none e = false
  idle_at (some l) e = idle_for l.work l.endpoint e

  pub record IsIdle (r : Links X) : Type 0 where
    pub kept : (e : Endpoint) (a : ℕ) → contains a (r.req_mp e) ≡ idle_at (r.linkers a) e
    pub ascending : (e : Endpoint) → Ascending (r.req_mp e)

  -- What a method leaves, beside its result.
  abbrev pub Leaves : {A : Type 0} → A × Links X → Type 0
  Leaves p = IsIdle p.1

  -- A change of one object, with what becomes of its address in the sets.
  pub update-IsIdle :
      (r : Links X) (a : ℕ) (world : X.World) (o : Option (ReqLinker X))
      (req_mp : Endpoint → List ℕ)
      → IsIdle r
      → ((e : Endpoint) → Ascending (req_mp e))
      → ((e : Endpoint) → contains a (req_mp e) ≡ idle_at o e)
      → ((e : Endpoint) (b : ℕ)
          → (b == a) ≡ false
          → contains b (req_mp e) ≡ contains b (r.req_mp e))
      → IsIdle (record { world = world; linkers = put r.linkers a o; req_mp = req_mp })
  update-IsIdle r a world o req_mp idle up own others = record {
    kept = λ e b. elim (Bool-cases (b == a)) [
      | inl same ↦
          rw same
            (subst (λ c. contains c (req_mp e) ≡ idle_at o e) (sym ((==_iff b a).0 same)) (own e))
      | inr other ↦ rw other (others e b other ∙ idle.kept e b)
    ];
    ascending = up;
  }

  module _ (r : Links X) (a : ℕ) (l : ReqLinker X) (k : Work X) (here : r.linkers a ≡ some l)
      (busy : l.work ≡ some k) (idle : IsIdle r) where
    not_kept : (e : Endpoint) → contains a (r.req_mp e) ≡ false
    not_kept e = idle.kept e a ∙ ap (λ o. idle_at o e) here ∙ ap (λ w. idle_for w l.endpoint e) busy

    pub finish-IsIdle :
        (w : X.World) (gen : X.Gen) → IsIdle (finish X (record r { world = w }) a l gen)
    unfolding finish put_at
    finish-IsIdle w gen =
        update-IsIdle r a (X.destroy w gen) (some (record l { work = none }))
          (put_at r.req_mp l.endpoint (insert a (r.req_mp l.endpoint))) idle
          (λ e. elim (Bool-cases (same_endpoint e l.endpoint)) [
            | inl same ↦ rw same (insert-Ascending a _ (idle.ascending l.endpoint))
            | inr other ↦ rw other (idle.ascending e)
          ])
          (λ e. elim (Bool-cases (same_endpoint e l.endpoint)) [
            | inl same ↦ rw same (
                contains-insert a a (r.req_mp l.endpoint)
                ∙ ap (λ t. t || contains a (r.req_mp l.endpoint)) ((==_iff a a).1 refl))
            | inr other ↦ rw other (not_kept e)
          ])
          (λ e b other_b. elim (Bool-cases (same_endpoint e l.endpoint)) [
            | inl same ↦ rw same (
                contains-insert a b (r.req_mp l.endpoint)
                ∙ ap (λ t. t || contains b (r.req_mp l.endpoint)) (not_same a b other_b)
                ∙ ap (λ d. contains b (r.req_mp d)) (sym (same_endpoint-eq e l.endpoint same)))
            | inr other ↦ rw other refl
          ])

    pub store-IsIdle :
        (w : X.World) (k' : Work X)
        → IsIdle (store X (record r { world = w }) a (record l { work = some k' }))
    store-IsIdle w k' =
        update-IsIdle r a w (some (record l { work = some k' })) r.req_mp idle idle.ascending
          not_kept (λ e b other. refl)

    pub check_work-IsIdle :
        (w : X.World) (k' : Work X) → Holds IsIdle (check_work X (record r { world = w }) a l k')
    unfolding check_work
    check_work-IsIdle w k' =
        Holds-bind IsIdle (X.writer_creator.get_write_size k'.writer) _
          (λ p eq. either _ (finish-IsIdle w k'.gen) (store-IsIdle w (record k' { writer = p.1 })))
      where
        either : (t : Bool) → {x y : Links X} → IsIdle x → IsIdle y → IsIdle (if t then x else y)
        either true one other = one
        either false one other = other

    -- The same with what a method returns.
    pub check_work-after :
        (w : X.World) (k' : Work X) {A : Type 0} (ret : A)
        → Holds Leaves (check_work X (record r { world = w }) a l k' >>= λ r'. ok (ret, r'))
    check_work-after w k' ret =
        Holds-bind Leaves (check_work X (record r { world = w }) a l k') _
          (λ r' eq. Holds-ok IsIdle _ r' eq (check_work-IsIdle w k'))

  module _ (r : Links X) (a : ℕ) (idle : IsIdle r) where
    -- A method of the linker at `a`: nothing where it is idle, and else what is said.
    at_linker :
        {A : Type 0} (ret : A) (call : ReqLinker X → Work X → Result (A × Links X))
        → ((l : ReqLinker X) (k : Work X)
            → r.linkers a ≡ some l
            → l.work ≡ some k
            → Holds Leaves (call l k))
        → Holds Leaves (
            in_range (r.linkers a) >>= λ l. elim l.work as (λ _. Result (A × Links X)) [
              | none ↦ ok (ret, r)
              | some k ↦ call l k
            ])
    at_linker ret call each = Holds-bind Leaves (in_range (r.linkers a)) _ (λ l eq.
        elim (Option-cases l.work) [
          | inl e ↦ rw e idle
          | inr (k, e) ↦ rw e (each l k (in_range-eq-ok _ eq) e)
        ])

    pub get_write_size-IsIdle : Holds Leaves (get_write_size X r a)
    unfolding get_write_size
    get_write_size-IsIdle = at_linker 0 _ (λ l k here busy.
        Holds-bind Leaves (X.generate_request r.world k.gen (X.writer_creator.drained k.writer)) _
          (λ (world, gen, out_msg) eq.
            Holds-bind Leaves
              (X.writer_creator.get_write_size (X.writer_creator.point k.writer out_msg)) _
              (λ (ret, writer) eq'.
                check_work-after r a l k here busy idle world
                  (record k { gen = gen; writer = writer }) ret)))

    pub write-IsIdle : (s : Socket) (max_write : ℕ) → Holds Leaves (write X r a s max_write)
    unfolding write
    write-IsIdle s max_write = at_linker (pos 0) _ (λ l k here busy.
        Holds-bind Leaves (X.writer_creator.write k.writer s max_write) _ (λ (ret, writer) eq.
          check_work-after r a l k here busy idle r.world (record k { writer = writer }) ret))

    pub read-IsIdle : (s : Socket) (max_read : ℕ) → Holds Leaves (read X r a s max_read)
    unfolding read
    read-IsIdle s max_read = at_linker (pos 0) _ (λ l k here busy.
        Holds-bind Leaves (X.reader_creator.read k.reader s max_read) _ (λ (ret, reader) eq.
          Holds-bind Leaves (X.read_response r.world k.gen (X.reader_creator.filled reader)) _
            (λ (world, gen, in_msg) eq'.
              check_work-after r a l k here busy idle world
                (record k { gen = gen; reader = X.reader_creator.point reader in_msg }) ret)))

    pub destroy-IsIdle : Holds IsIdle (destroy X r a)
    unfolding destroy put_at
    destroy-IsIdle = Holds-bind IsIdle (in_range (r.linkers a)) _ (λ l eq.
        elim (Option-cases l.work) [
          | inr (k, e) ↦ rw e (
              update-IsIdle r a (X.destroy r.world k.gen) none r.req_mp idle idle.ascending
                (not_kept r a l k (in_range-eq-ok _ eq) e idle) (λ e b other. refl))
          | inl e ↦ rw e (
              update-IsIdle r a r.world none
                (put_at r.req_mp l.endpoint (erase a (r.req_mp l.endpoint))) idle
                (λ e. elim (Bool-cases (same_endpoint e l.endpoint)) [
                  | inl same ↦ rw same (erase-Ascending a _ (idle.ascending l.endpoint))
                  | inr other ↦ rw other (idle.ascending e)
                ])
                (λ e'. elim (Bool-cases (same_endpoint e' l.endpoint)) [
                  | inl same ↦ rw same (
                      contains-erase a a (r.req_mp l.endpoint)
                      ∙ ap (λ t. not t && contains a (r.req_mp l.endpoint)) ((==_iff a a).1 refl))
                  | inr other ↦ rw other (
                      idle.kept e' a
                      ∙ ap (λ o. idle_at o e') (in_range-eq-ok _ eq)
                      ∙ ap (λ w. idle_for w l.endpoint e') e
                      ∙ other)
                ])
                (λ e' b other_b. elim (Bool-cases (same_endpoint e' l.endpoint)) [
                  | inl same ↦ rw same (
                      contains-erase a b (r.req_mp l.endpoint)
                      ∙ ap (λ t. not t && contains b (r.req_mp l.endpoint)) (not_same a b other_b)
                      ∙ ap (λ d. contains b (r.req_mp d))
                          (sym (same_endpoint-eq e' l.endpoint same)))
                  | inr other ↦ rw other refl
                ]))
        ])
