-- ===== src/HttpProxy/Tunnel/Linked.antt =====
-- The counter that a tunnel and its link share: neither uses what is gone.
use mathlib.Core.Path.{subst}
use gnyproxy.Prelude.{
  ℕ, ◌≡◌, refl, sym, ap, ◌∙◌, Bool, true, false, Option, none, some, ◌==◌, if◌then◌else◌, Bytes,
  length, Result, ok, ◌>>=◌, in_range, Holds, Holds-bind, Holds-ok, in_range-eq-ok, ok_injective,
  Bool-cases, inl, inr,
}
use gnyproxy.Prelude.Int.{ℤ, pos}
use gnyproxy.Socket.{Socket, Received}
use gnyproxy.HttpProxy.Tunnel.{
  Pipe, recv_data, send_data, release, destroy, get_write_size, write, read,
}
use gnyproxy.HttpProxy.Tunnel.Ends.{
  Ends, requests, tunnel_write, tunnel_read, link_write, link_read, tunnel_destroy, link_destroy,
}
use gnyproxy.HttpProxy.Tunnel.Reached.{
  Reached, opens, tunnel_writes, tunnel_reads, link_writes, link_reads, tunnel_destroys,
  link_destroys,
}

-- The counter, by who is there.
abbrev pub count : Bool → Bool → Option ℕ
count true true = some 2
count true false = some 1
count false true = some 1
count false false = none

abbrev pub is_some {ℓ} : {A : Type ℓ} → Option A → Bool
is_some none = false
is_some (some a) = true

pub record IsLinked (e : Ends) : Type 0 where
  pub counted : e.pipe.linked_count ≡ count e.link e.tunnel
  pub owned : is_some e.pipe.strings ≡ e.link

-- A call that moves bytes keeps the counter, and the strings where they are.
abbrev Keeps : Pipe → ℤ × Pipe → Type 0
Keeps q (amt, p) = (p.linked_count ≡ q.linked_count) × (is_some p.strings ≡ is_some q.strings)

write-Keeps : (q : Pipe) (s : Socket) (max_write : ℕ) → Holds (Keeps q) (write q s max_write)
unfolding write
write-Keeps q s max_write = Holds-bind (Keeps q) (in_range q.linked_count) _ (λ n eq.
    elim (Bool-cases (n == 2)) [
      | inr alone ↦ rw alone (refl, refl)
      | inl both ↦ rw both (
          Holds-bind (Keeps q) (in_range q.strings) _ (λ (data_req, data_res) eq'.
            Holds-bind (Keeps q) (send_data data_req s max_write) _
              (λ p eq''. (refl, sym (ap is_some (in_range-eq-ok _ eq'))))))
    ])

read-Keeps :
    (q : Pipe) (recv : ℕ → Received) (max_read : ℕ) → Holds (Keeps q) (read q recv max_read)
unfolding read
read-Keeps q recv max_read = Holds-bind (Keeps q) (in_range q.linked_count) _ (λ n eq.
    elim (Bool-cases (n == 2)) [
      | inr alone ↦ rw alone (refl, refl)
      | inl both ↦ rw both (
          Holds-bind (Keeps q) (in_range q.strings) _
            (λ (data_req, data_res) eq'. (refl, sym (ap is_some (in_range-eq-ok _ eq')))))
    ])

-- One side goes.
release-counts :
    (p : Pipe) (other : Bool)
    → p.linked_count ≡ count true other
    → (q : Pipe) × (release p ≡ ok q)
      × (q.linked_count ≡ count false other)
      × (q.strings ≡ p.strings)
unfolding release
release-counts p true at = (record p { linked_count = some 1 }, rw (release, at) refl, refl, refl)
release-counts p false at = (record p { linked_count = none }, rw (release, at) refl, refl, refl)

count_comm : (a b : Bool) → count a b ≡ count b a
count_comm true true = refl
count_comm true false = refl
count_comm false true = refl
count_comm false false = refl

moved :
    (e : Ends) (p : Pipe) (amt : ℤ)
    → IsLinked e
    → Keeps e.pipe (amt, p)
    → (p.linked_count ≡ count e.link e.tunnel) × (is_some p.strings ≡ e.link)
moved e p amt linked (same, owner) = (same ∙ linked.counted, owner ∙ linked.owned)

tunnel_write-IsLinked :
    (e : Ends) (s : Socket) (max_write : ℕ)
    → IsLinked e
    → Holds IsLinked (tunnel_write e s max_write)
tunnel_write-IsLinked e s max_write linked =
    Holds-bind IsLinked (write e.pipe s max_write) _ (λ (amt, p) eq.
      let (counts, owns) =
        moved e p amt linked
          (Holds-ok (Keeps e.pipe) _ (amt, p) eq (write-Keeps e.pipe s max_write)) in
      record { counted = counts; owned = owns })

tunnel_read-IsLinked :
    (e : Ends) (recv : ℕ → Received) (max_read : ℕ)
    → IsLinked e
    → Holds IsLinked (tunnel_read e recv max_read)
tunnel_read-IsLinked e recv max_read linked =
    Holds-bind IsLinked (read e.pipe recv max_read) _ (λ (amt, p) eq.
      let (counts, owns) =
        moved e p amt linked
          (Holds-ok (Keeps e.pipe) _ (amt, p) eq (read-Keeps e.pipe recv max_read)) in
      record { counted = counts; owned = owns })

link_write-IsLinked :
    (e : Ends) (s : Socket) (max_write : ℕ) → IsLinked e → Holds IsLinked (link_write e s max_write)
link_write-IsLinked e s max_write linked =
    Holds-bind IsLinked (in_range e.pipe.strings) _ (λ (data_req, data_res) eq.
      Holds-bind IsLinked (send_data data_res s max_write) _ (λ (amt, left) eq'. record {
        counted = linked.counted;
        owned = sym (ap is_some (in_range-eq-ok _ eq)) ∙ linked.owned;
      }))

link_read-IsLinked :
    (e : Ends) (recv : ℕ → Received) (max_read : ℕ)
    → IsLinked e
    → Holds IsLinked (link_read e recv max_read)
link_read-IsLinked e recv max_read linked =
    Holds-bind IsLinked (in_range e.pipe.strings) _ (λ (data_req, data_res) eq. record {
      counted = linked.counted;
      owned = sym (ap is_some (in_range-eq-ok _ eq)) ∙ linked.owned;
    })

-- Each side can go while it is there.
tunnel_destroy-goes :
    (e : Ends)
    → IsLinked e
    → e.tunnel ≡ true
    → (e' : Ends) × (tunnel_destroy e ≡ ok e') × IsLinked e'
unfolding destroy
tunnel_destroy-goes e linked there =
    let (p, run, counts, same) =
      release-counts e.pipe e.link
        (linked.counted ∙ ap (count e.link) there ∙ count_comm e.link true) in
    (
      record e { pipe = p; tunnel = false },
      ap (λ r. r >>= λ p. ok (record e { pipe = p; tunnel = false })) run,
      record { counted = counts ∙ count_comm false e.link; owned = ap is_some same ∙ linked.owned },
    )

link_destroy-goes :
    (e : Ends) → IsLinked e → e.link ≡ true → (e' : Ends) × (link_destroy e ≡ ok e') × IsLinked e'
link_destroy-goes e linked there =
    let (p, run, counts, same) =
      release-counts e.pipe e.tunnel (linked.counted ∙ ap (λ l. count l e.tunnel) there) in
    (
      record e { pipe = record p { strings = none }; link = false },
      ap (λ r. r >>= λ p. ok (record e { pipe = record p { strings = none }; link = false })) run,
      record { counted = counts; owned = refl },
    )

same_end :
    (P : Ends → Type 0) (r : Result Ends) (e' : Ends)
    → r ≡ ok e'
    → (e : Ends) × (r ≡ ok e) × P e
    → P e'
same_end P r e' eq (e, run, holds) = subst P (ok_injective (sym run ∙ eq)) holds

pub Reached-IsLinked : (e : Ends) → Reached e → IsLinked e
Reached-IsLinked e opens = record { counted = refl; owned = refl }
Reached-IsLinked e (tunnel_writes e0 s max_write e' before there eq) =
    Holds-ok IsLinked _ e eq (tunnel_write-IsLinked e0 s max_write (Reached-IsLinked e0 before))
Reached-IsLinked e (tunnel_reads e0 recv max_read e' before there eq) =
    Holds-ok IsLinked _ e eq (tunnel_read-IsLinked e0 recv max_read (Reached-IsLinked e0 before))
Reached-IsLinked e (link_writes e0 s max_write e' before there eq) =
    Holds-ok IsLinked _ e eq (link_write-IsLinked e0 s max_write (Reached-IsLinked e0 before))
Reached-IsLinked e (link_reads e0 recv max_read e' before there eq) =
    Holds-ok IsLinked _ e eq (link_read-IsLinked e0 recv max_read (Reached-IsLinked e0 before))
Reached-IsLinked e (tunnel_destroys e0 e' before there eq) =
    same_end IsLinked _ e eq (tunnel_destroy-goes e0 (Reached-IsLinked e0 before) there)
Reached-IsLinked e (link_destroys e0 e' before there eq) =
    same_end IsLinked _ e eq (link_destroy-goes e0 (Reached-IsLinked e0 before) there)

-- The string for the server is there with the link.
strings_there :
    (o : Option (Bytes × Bytes)) → is_some o ≡ true → (both : Bytes × Bytes) × (o ≡ some both)
strings_there none h = absurd (cc)
strings_there (some both) h = (both, refl)

read-both :
    (q : Pipe) (data_req data_res : Bytes) (recv : ℕ → Received) (max_read : ℕ)
    → q.linked_count ≡ some 2
    → q.strings ≡ some (data_req, data_res)
    → (p : ℤ × Pipe) × (read q recv max_read ≡ ok p)
unfolding read
read-both q data_req data_res recv max_read two strings =
    let (amt, more) = recv_data data_res recv max_read in
    (
      (amt, record q { strings = some (data_req, more) }),
      ap (λ o. in_range o >>= behind) two ∙ ap (λ o. in_range o >>= moves) strings,
    )
  where
    moves : Bytes × Bytes → Result (ℤ × Pipe)
    moves (data_req, data_res) =
        let (amt, more) = recv_data data_res recv max_read in
        ok (amt, record q { strings = some (data_req, more) })

    behind : ℕ → Result (ℤ × Pipe)
    behind n = elim (n == 2) [ false ↦ ok (pos 0, q) | true ↦ in_range q.strings >>= moves ]

read-alone :
    (q : Pipe) (recv : ℕ → Received) (max_read : ℕ)
    → q.linked_count ≡ some 1
    → (p : ℤ × Pipe) × (read q recv max_read ≡ ok p)
unfolding read
read-alone q recv max_read one = (
  (pos 0, q),
  ap
      (λ o. in_range o >>= λ n. elim (n == 2) as (λ _. Result (ℤ × Pipe)) [
        | false ↦ ok (pos 0, q)
        | true ↦ in_range q.strings >>= λ (data_req, data_res).
            let (amt, more) = recv_data data_res recv max_read in
            ok (amt, record q { strings = some (data_req, more) })
      ])
      one,
)

-- After any calls of a tunnel and its link, each made while its side is there, the tunnel, while
-- it is there, finds its counter and strings: its get_write_size gives the bytes for the server,
-- or 0 where the link is gone, and its read and its destructor come to their end.
pub Reached-IsUsable :
    (e : Ends) (recv : ℕ → Received) (max_read : ℕ)
    → Reached e
    → e.tunnel ≡ true
    → (get_write_size e.pipe ≡ ok (if e.link then length (requests e.pipe.strings) else 0))
      × ((p : ℤ × Pipe) × (read e.pipe recv max_read ≡ ok p))
      × ((e' : Ends) × (tunnel_destroy e ≡ ok e'))
unfolding get_write_size read
Reached-IsUsable e recv max_read reached there =
    let linked = Reached-IsLinked e reached in
    let (e', run, still) = tunnel_destroy-goes e linked there in
    elim (Bool-cases e.link) [
      | inl on ↦
          let two : e.pipe.linked_count ≡ some 2 =
            linked.counted ∙ ap (count e.link) there ∙ ap (λ l. count l true) on in
          let ((data_req, data_res), strings) = strings_there e.pipe.strings (linked.owned ∙ on) in
          (
            rw (get_write_size, two, on, strings) refl,
            read-both e.pipe data_req data_res recv max_read two strings,
            (e', run),
          )
      | inr off ↦
          let one : e.pipe.linked_count ≡ some 1 =
            linked.counted ∙ ap (count e.link) there ∙ ap (λ l. count l true) off in
          (rw (get_write_size, one, off) refl, read-alone e.pipe recv max_read one, (e', run))
    ]
