-- ===== src/MessageSourceGny/Reads.antt =====
-- `read` as a whole: whatever bytes the socket delivers, the reader is then where the machine of
-- `Spec` is, but for a value of a user header that another read is to finish.

use native.Mathlib.Nat.{zero-add}
use gnyproxy.Prelude.{
  Holds, Holds-ok, ℕ, ◌+◌, ◌-◌, ◌≤◌, true, [], ◌∷◌, ==_iff, ◌≡◌, refl, sym, ap, ◌∙◌, ◌⊎◌, inl, inr,
  Bytes, Result, ok, fault, Fault, length, arith, Bool-cases,
}
use gnyproxy.Prelude.Int.{ℤ, pos}
use gnyproxy.HttpMessage.{HttpMessage}
use gnyproxy.Socket.{Socket}
use gnyproxy.MessageSourceGny.Spec.{finished, Parse, parse_byte, parse}
use gnyproxy.MessageSourceGny.Config.{Config, reader, index, view, Good, item_in, msg_in}
use gnyproxy.MessageSourceGny.Refine.{moves, stops}
use gnyproxy.MessageSourceGny.Rounds.{steps}
use gnyproxy.MessageSourceGny.Closing.{base, idle, IsSettled, kept_in, kept, finish, kept_lem}
use gnyproxy.MessageSourceGny.{
  MessageSourceGny, State, entity, done, is_done, loop, flush, trim_stream, close_read, read_bytes,
}

-- The loop stops at the end of the bytes, or where the message is complete.
data Loops (c : Config) (bytes : Bytes) (x : Result (ℕ × MessageSourceGny)) (y : Result Parse)
    : Type 0 where
  stays :
      (c' : Config) (left : Bytes)
      → x ≡ ok (index c', reader c' left)
      → y ≡ ok (view c')
      → Good c'
      → index c' + length left ≡ index c + length bytes
      → (left ≡ []) ⊎ (c'.state ≡ done)
      → Loops c bytes x y
  fails : (e : Fault) → x ≡ fault e → y ≡ fault e → Loops c bytes x y

parse-finished : (bytes : Bytes) (m : HttpMessage) → parse bytes (finished, m) ≡ ok (finished, m)
unfolding parse parse_byte
parse-finished [] m = refl
parse-finished (b ∷ bytes) m = parse-finished bytes m

done_of : (s : State) → is_done s ≡ true → s ≡ done
done_of done h = refl
done_of _ h = cc

pub view-done : (c : Config) → c.state ≡ done → view c ≡ (finished, c.msg)
view-done c e = ap (λ s. (item_in s c, msg_in s c)) e

shift :
    (c c' : Config) (ch : ℕ) (bytes : Bytes) (x : Result (ℕ × MessageSourceGny)) (y : Result Parse)
    → index c' ≡ index c + 1
    → Loops c' bytes x y
    → Loops c (ch ∷ bytes) x y
shift c c' ch bytes x y i (stays d left e f g n z) = stays d left e f g (omega arith) z
shift c c' ch bytes x y i (fails f e h) = fails f e h

loop-parse :
    (bytes : Bytes) (c : Config)
    → Good c
    → Loops c bytes (loop bytes (index c) (reader c bytes)) (parse bytes (view c))
unfolding loop parse
loop-parse [] c g = stays c [] refl refl g refl (inl refl)
loop-parse (ch ∷ bytes) c g = elim (Bool-cases (is_done c.state)) [
  | inl over ↦
      let d = view-done c (done_of c.state over) in
      stays c (ch ∷ bytes) (rw (over, loop))
        (ap (parse (ch ∷ bytes)) d ∙ parse-finished (ch ∷ bytes) c.msg ∙ ap ok (sym d)) g refl
        (inr (done_of c.state over))
  | inr more ↦ elim (steps c ch bytes g more) [
    | moves c' e f g' i ↦
        rw (more, loop, e, f, ← i) (shift c c' ch bytes _ _ i (loop-parse bytes c' g'))
    | stops f e h ↦ fails f (rw (more, loop, e)) (rw h)
  ]
]

-- One call of `read`: the bytes taken and the reader left behind, or a fault.
pub data Reads (rbuf : Bytes) (x : Result (ℤ × MessageSourceGny)) (y : Result Parse) : Type 0 where
  advances :
      (d : Config) (n : ℕ)
      → x ≡ ok (pos n, idle d)
      → y ≡ ok (view (base d))
      → Good (base d)
      → n ≤ length rbuf
      → (n ≡ length rbuf) ⊎ (d.state ≡ done)
      → Reads rbuf x y
  refuses : (e : Fault) → x ≡ fault e → y ≡ fault e → Reads rbuf x y

kept-state : (c : Config) (left : Bytes) → (kept c left).state ≡ c.state
kept-state c left = by_state c.state
  where
    by_state : (s : State) → (kept_in s (record c { state = s }) left).state ≡ s
    by_state entity = refl
    by_state _ = refl

taken :
    (c : Config) (left rbuf : Bytes)
    → (left ≡ []) ⊎ (c.state ≡ done)
    → (length rbuf - length left ≡ length rbuf) ⊎ ((kept c left).state ≡ done)
taken c left rbuf (inl n) = inl (rw n (omega arith))
taken c left rbuf (inr d) = inr (kept-state c left ∙ d)

-- `read` behind its loop.
closing :
    (s : Socket) (rbuf : Bytes) (i : ℕ) (r f : MessageSourceGny) (d : Config) (n : ℕ)
    → flush r ≡ ok f
    → trim_stream f ≡ idle d
    → length rbuf - (length f.data_stream - i) ≡ n
    → s.consume n ≡ pos n
    → close_read s rbuf (i, r) ≡ ok (pos n, idle d)
unfolding close_read
closing s rbuf i r f d n e t m k = rw (e, m, k, t, (==_iff n n).1 refl)

-- From a reader between two calls, a call of `read` on the bytes `rbuf` leaves the reader where the
-- machine is after these bytes, and takes them all or the message is complete; or both stop with
-- one fault. The socket delivers what it has shown, and the call must not end inside the value of a header with a name of its own.
pub read_bytes-parse :
    (c : Config) (s : Socket) (rbuf : Bytes)
    → Good (base c)
    → ((n : ℕ) → n ≤ length rbuf → s.consume n ≡ pos n)
    → Holds IsSettled (parse rbuf (view (base c)))
    → Reads rbuf (read_bytes (idle c) s rbuf) (parse rbuf (view (base c)))
unfolding read_bytes
read_bytes-parse c s rbuf g consumes settled = elim (loop-parse rbuf (base c) g) [
  | fails f e h ↦ refuses f (rw (← zero-add (length c.token)) (rw e)) h
  | stays c' left e p g' n z ↦
      let (fr, fl, ln, tr) = finish c' left g' z in
      let (same_view, good) =
        kept_lem c' left g' z
          (Holds-ok IsSettled (parse rbuf (view (base c))) (view c') p settled) in
      let amount : length rbuf - (length fr.data_stream - index c') ≡ length rbuf - length left =
        omega arith in
      advances (kept c' left) (length rbuf - length left)
        (rw (← zero-add (length c.token)) (
          rw e (
            closing s rbuf (index c') (reader c' left) fr (kept c' left) (length rbuf - length left)
              fl tr amount (consumes (length rbuf - length left) (omega arith)))))
        (p ∙ ap ok (sym same_view)) good (omega arith) (taken c' left rbuf z)
]
