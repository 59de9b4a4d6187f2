-- ===== src/HttpProxy/Tunnel/Order.antt =====
-- What each call of a tunnel and of its link does to the order of the bytes.
use mathlib.Core.Path.{subst}
use gnyproxy.Prelude.{
  ℕ, ◌≡◌, refl, sym, ap, ◌∙◌, min, ◌⊎◌, true, false, [], ◌++◌, append_assoc, append-nil, Option,
  none, some, leb, ◌==◌, if◌then◌else◌, Bytes, drop, take-append-drop, length, Result, ok, fault,
  out_of_range, in_range, Holds, Holds-bind, Holds-ok, in_range-eq-ok, Bool-cases, inl, inr,
}
use gnyproxy.Prelude.Int.{ℤ, pos, negsuc}
use gnyproxy.Socket.{Socket, Received, received, failed}
use gnyproxy.HttpProxy.Tunnel.{Pipe, send_data, recv_data, release, destroy, write, read}
use gnyproxy.HttpProxy.Tunnel.Ends.{
  Ends, taken, given, requests, both_there, tunnel_write, tunnel_read, link_write, link_read,
  tunnel_destroy, link_destroy,
}

-- What came, with what has gone: the strings have what lies between.
pub record Between (e : Ends) (up down : Bytes) : Type 0 where
  pub upwards : e.to_server ++ up ≡ e.from_client
  pub downwards : e.to_client ++ down ≡ e.from_server

abbrev pub Follows : Option (Bytes × Bytes) → Ends → Type 0
Follows none e = (up : Bytes) × (down : Bytes) × Between e up down
Follows (some (data_req, data_res)) e = Between e data_req data_res

abbrev pub InOrder : Ends → Type 0
InOrder e = Follows e.pipe.strings e

-- What is sent and what is left are the string.
abbrev Splits : Bytes → ℤ × Bytes → Type 0
Splits bytes p = taken p.0 bytes ++ p.1 ≡ bytes

send_data-Splits :
    (bytes : Bytes) (s : Socket) (max_write : ℕ)
    → Holds (Splits bytes) (send_data bytes s max_write)
unfolding send_data
send_data-Splits bytes s max_write = by_outcome (s.send (min max_write (length bytes)))
  where
    by_outcome :
        (o : ℤ)
        → Holds (Splits bytes) (elim o as (λ _. Result (ℤ × Bytes)) [
          | pos amt ↦
              if leb amt (length bytes) then ok (pos amt, drop amt bytes) else fault out_of_range
          | negsuc e ↦ ok (negsuc e, bytes)
        ])
    by_outcome (negsuc e) = refl
    by_outcome (pos amt) = elim (Bool-cases (leb amt (length bytes))) [
      | inl fits ↦ rw fits (take-append-drop amt bytes)
      | inr beyond ↦ rw beyond tt
    ]

given-more :
    (bytes : Bytes) (recv : ℕ → Received) (max_read : ℕ)
    → (recv_data bytes recv max_read).1 ≡ bytes ++ given (recv (min 1024 max_read))
unfolding recv_data
given-more bytes recv max_read = by_outcome (recv (min 1024 max_read))
  where
    by_outcome :
        (o : Received)
        → (elim o as (λ _. ℤ × Bytes) [
          | failed ↦ (negsuc 0, bytes)
          | received buf ↦ (pos (length buf), bytes ++ buf)
        ]).1
          ≡ bytes ++ given o
    by_outcome failed = sym (append-nil bytes)
    by_outcome (received buf) = refl

held :
    (e : Ends) (data_req data_res : Bytes)
    → e.pipe.strings ≡ some (data_req, data_res)
    → InOrder e
    → Between e data_req data_res
held e data_req data_res at follows = subst (λ o. Follows o e) at follows

-- What a call of `write` does to the strings.
abbrev Wrote : Pipe → ℤ × Pipe → Type 0
Wrote q (amt, p) =
    ((amt ≡ pos 0) × (p.strings ≡ q.strings))
    ⊎ ((data_req : Bytes) × (data_res : Bytes) × (left : Bytes) × (q.strings
          ≡ some (data_req, data_res))
        × (p.strings ≡ some (left, data_res))
        × (taken amt data_req ++ left ≡ data_req))

write-Wrote : (q : Pipe) (s : Socket) (max_write : ℕ) → Holds (Wrote q) (write q s max_write)
unfolding write
write-Wrote q s max_write = Holds-bind (Wrote q) (in_range q.linked_count) _ (λ n eq.
    elim (Bool-cases (n == 2)) [
      | inr alone ↦ rw alone (inl (refl, refl))
      | inl both ↦ rw both (
          Holds-bind (Wrote q) (in_range q.strings) _ (λ (data_req, data_res) eq'.
            Holds-bind (Wrote q) (send_data data_req s max_write) _ (λ (amt, left) eq''. inr (
              data_req,
              data_res,
              left,
              in_range-eq-ok _ eq',
              refl,
              Holds-ok (Splits data_req) _ (amt, left) eq'' (send_data-Splits data_req s max_write),
            ))))
    ])

-- Bytes are added on one side only.
nothing_sent :
    (e : Ends) (o : Option (Bytes × Bytes)) (p : Pipe)
    → Follows o e
    → Follows o (record e { pipe = p; to_server = e.to_server ++ [] })
nothing_sent e none p (up, down, b) = (
  up,
  down,
  record { upwards = ap (λ t. t ++ up) (append-nil _) ∙ b.upwards; downwards = b.downwards },
)
nothing_sent e (some (up, down)) p b = record {
  upwards = ap (λ t. t ++ up) (append-nil _) ∙ b.upwards;
  downwards = b.downwards;
}

nothing_came :
    (e : Ends) (o : Option (Bytes × Bytes)) (p : Pipe)
    → Follows o e
    → Follows o (record e { pipe = p; from_server = e.from_server ++ [] })
nothing_came e none p (up, down, b) =
    (up, down, record { upwards = b.upwards; downwards = b.downwards ∙ sym (append-nil _) })
nothing_came e (some (up, down)) p b = record {
  upwards = b.upwards;
  downwards = b.downwards ∙ sym (append-nil _);
}

pub tunnel_write-InOrder :
    (e : Ends) (s : Socket) (max_write : ℕ) → InOrder e → Holds InOrder (tunnel_write e s max_write)
tunnel_write-InOrder e s max_write follows =
    Holds-bind InOrder (write e.pipe s max_write) _ (λ (amt, p) eq.
      elim (Holds-ok (Wrote e.pipe) _ (amt, p) eq (write-Wrote e.pipe s max_write)) [
        | inl (zero_sent, same) ↦
            subst
              (λ (a : ℤ). InOrder (record e {
                pipe = p;
                to_server = e.to_server ++ taken a (requests e.pipe.strings);
              }))
              (sym zero_sent)
              (subst (λ o. Follows o (record e { pipe = p; to_server = e.to_server ++ [] }))
                (sym same) (nothing_sent e e.pipe.strings p follows))
        | inr (data_req, data_res, left, before, after, splits) ↦
            let b = held e data_req data_res before follows in
            subst
              (λ o. Follows o (record e {
                pipe = p;
                to_server = e.to_server ++ taken amt (requests e.pipe.strings);
              }))
              (sym after)
              (record {
                upwards =
                    ap (λ o. (e.to_server ++ taken amt (requests o)) ++ left) before
                    ∙ append_assoc e.to_server (taken amt data_req) left
                    ∙ ap (λ t. e.to_server ++ t) splits
                    ∙ b.upwards;
                downwards = b.downwards;
              })
      ])

-- What a call of `read` does to the strings.
abbrev Got : Pipe → (ℕ → Received) → ℕ → ℤ × Pipe → Type 0
Got q recv max_read (amt, p) =
    ((both_there q.linked_count ≡ false) × (p.strings ≡ q.strings))
    ⊎ ((both_there q.linked_count ≡ true)
        × (data_req : Bytes) × (data_res : Bytes) × (q.strings ≡ some (data_req, data_res))
        × (p.strings ≡ some (data_req, (recv_data data_res recv max_read).1)))

read-Got :
    (q : Pipe) (recv : ℕ → Received) (max_read : ℕ)
    → Holds (Got q recv max_read) (read q recv max_read)
unfolding read
read-Got q recv max_read = Holds-bind (Got q recv max_read) (in_range q.linked_count) _ (λ n eq.
    elim (Bool-cases (n == 2)) [
      | inr alone ↦ rw alone (inl (ap both_there (in_range-eq-ok _ eq) ∙ alone, refl))
      | inl both ↦ rw both (
          Holds-bind (Got q recv max_read) (in_range q.strings) _ (λ (data_req, data_res) eq'. inr (
            ap both_there (in_range-eq-ok _ eq) ∙ both,
            data_req,
            data_res,
            in_range-eq-ok _ eq',
            refl,
          )))
    ])

pub tunnel_read-InOrder :
    (e : Ends) (recv : ℕ → Received) (max_read : ℕ)
    → InOrder e
    → Holds InOrder (tunnel_read e recv max_read)
tunnel_read-InOrder e recv max_read follows =
    Holds-bind InOrder (read e.pipe recv max_read) _ (λ (amt, p) eq.
      elim (Holds-ok (Got e.pipe recv max_read) _ (amt, p) eq (read-Got e.pipe recv max_read)) [
        | inl (alone, same) ↦ rw alone (
            subst (λ o. Follows o (record e { pipe = p; from_server = e.from_server ++ [] }))
              (sym same) (nothing_came e e.pipe.strings p follows))
        | inr (both, data_req, data_res, before, after) ↦
            let b = held e data_req data_res before follows in
            rw both (
              subst
                (λ o. Follows o (record e {
                  pipe = p;
                  from_server = e.from_server ++ given (recv (min 1024 max_read));
                }))
                (sym after)
                (record {
                  upwards = b.upwards;
                  downwards =
                      ap (λ t. e.to_client ++ t) (given-more data_res recv max_read)
                      ∙ sym (append_assoc e.to_client data_res (given (recv (min 1024 max_read))))
                      ∙ ap (λ t. t ++ given (recv (min 1024 max_read))) b.downwards;
                }))
      ])

pub link_write-InOrder :
    (e : Ends) (s : Socket) (max_write : ℕ) → InOrder e → Holds InOrder (link_write e s max_write)
link_write-InOrder e s max_write follows =
    Holds-bind InOrder (in_range e.pipe.strings) _ (λ (data_req, data_res) eq.
      Holds-bind InOrder (send_data data_res s max_write) _ (λ (amt, left) eq'.
        let b = held e data_req data_res (in_range-eq-ok _ eq) follows in
        let splits =
          Holds-ok (Splits data_res) _ (amt, left) eq' (send_data-Splits data_res s max_write) in
        record {
          upwards = b.upwards;
          downwards =
              append_assoc e.to_client (taken amt data_res) left
              ∙ ap (λ t. e.to_client ++ t) splits
              ∙ b.downwards;
        }))

pub link_read-InOrder :
    (e : Ends) (recv : ℕ → Received) (max_read : ℕ)
    → InOrder e
    → Holds InOrder (link_read e recv max_read)
link_read-InOrder e recv max_read follows =
    Holds-bind InOrder (in_range e.pipe.strings) _ (λ (data_req, data_res) eq.
      let b = held e data_req data_res (in_range-eq-ok _ eq) follows in
      record {
        upwards =
            ap (λ t. e.to_server ++ t) (given-more data_req recv max_read)
            ∙ sym (append_assoc e.to_server data_req (given (recv (min 1024 max_read))))
            ∙ ap (λ t. t ++ given (recv (min 1024 max_read))) b.upwards;
        downwards = b.downwards;
      })

release-strings : (p : Pipe) → Holds (λ (q : Pipe). q.strings ≡ p.strings) (release p)
unfolding release
release-strings p =
    Holds-bind (λ (q : Pipe). q.strings ≡ p.strings) (in_range p.linked_count) _ (λ n eq. refl)

pub tunnel_destroy-InOrder : (e : Ends) → InOrder e → Holds InOrder (tunnel_destroy e)
unfolding destroy
tunnel_destroy-InOrder e follows = Holds-bind InOrder (release e.pipe) _ (λ p eq.
    let same =
      Holds-ok (λ (q : Pipe). q.strings ≡ e.pipe.strings) _ p eq (release-strings e.pipe) in
    moved e p.strings (subst (λ o. Follows o e) (sym same) follows) p)
  where
    moved :
        (e : Ends) (o : Option (Bytes × Bytes))
        → Follows o e
        → (p : Pipe) → Follows o (record e { pipe = p; tunnel = false })
    moved e none (up, down, b) p =
        (up, down, record { upwards = b.upwards; downwards = b.downwards })
    moved e (some (up, down)) b p = record { upwards = b.upwards; downwards = b.downwards }

pub link_destroy-InOrder : (e : Ends) → InOrder e → Holds InOrder (link_destroy e)
link_destroy-InOrder e follows =
    Holds-bind InOrder (release e.pipe) _ (λ p eq. lost e.pipe.strings follows _)
  where
    lost :
        (o : Option (Bytes × Bytes))
        → Follows o e
        → (p : Pipe) → Follows none (record e { pipe = p; link = false })
    lost none (up, down, b) p = (up, down, record { upwards = b.upwards; downwards = b.downwards })
    lost (some (up, down)) b p = (up, down, record { upwards = b.upwards; downwards = b.downwards })
