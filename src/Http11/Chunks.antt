-- ===== src/Http11/Chunks.antt =====
-- A chunk that the HTTP/1.1 writer appends, the HTTP/1.1 reader takes back.
use mathlib.Core.Path.{ap₂}
use native.Mathlib.Nat.{pow-suc}
use gnyproxy.Prelude.{
  ℕ, zero, suc, ◌+◌, ◌-◌, ◌*◌, ◌/◌, ◌%◌, ◌^◌, ◌<◌, ◌≡◌, refl, sym, ap, ◌∙◌, false, [], ◌∷◌, ◌++◌,
  arith, Bytes, ◌==◌, length, length-append, append_assoc, append-nil, ok, Bool-cases, ==_iff, inl,
  inr,
}
use gnyproxy.Common.{is_hex, itohex}
use gnyproxy.CLibrary.{print_base, print_x}
use gnyproxy.MessageSink11.{MessageSink11, add_entity, entity_chunked, crlf}
use gnyproxy.MessageSource11.{
  MessageSource11, entity, ChunkState, in_size, in_chunk, Cursor, step, loop, in_entity, in_chunked,
  end_size, move_pos,
}
use gnyproxy.Http11.Hex.{push_hex-itohex, digit_lem}

-- The reader inside a chunked entity.
abbrev pub chunked : MessageSource11 → ChunkState → ℕ → ℕ → ℕ → Bytes → Cursor
chunked r st size last start got = record {
  source = record r {
    state = entity;
    last = last;
    entity_mode = entity_chunked;
    entity_state1 = st;
    entity_state2 = size;
  };
  start = start;
  entity_str = got;
}

module _ (r : MessageSource11) (i l s : ℕ) (got : Bytes) where
  step_digit :
      (size d : ℕ)
      → d < 16
      → size < 2 ^ 60
      → step (chunked r in_size size l s got) i (itohex d)
        ≡ ok (chunked r in_size (size * 16 + d) (itohex d) (i + 1) got)
  unfolding step in_entity in_chunked move_pos
  step_digit size d small fits = rw ((digit_lem d small).0, push_hex-itohex size d small fits) refl

  step_size_cr :
      (size : ℕ)
      → step (chunked r in_size size l s got) i 13 ≡ ok (chunked r in_size size 13 (i + 1) got)
  unfolding step in_entity in_chunked move_pos is_hex
  step_size_cr size = refl

  step_size_lf :
      (size : ℕ)
      → step (chunked r in_size (suc size) l s got) i 10
        ≡ ok (chunked r in_chunk (suc size) 10 (i + 1) got)
  unfolding step in_entity in_chunked move_pos is_hex end_size
  step_size_lf size = let more : (suc size == 0) ≡ false = ground arith in rw (end_size, more) refl

  step_byte :
      (size b : ℕ)
      → step (chunked r in_chunk (suc size) l s got) i b
        ≡ ok (chunked r in_chunk size b (i + 1) (got ++ b ∷ []))
  unfolding step in_entity in_chunked move_pos
  step_byte size b =
      let more : (suc size == 0) ≡ false = ground arith in
      let one_less : suc size - 1 ≡ size = omega arith in rw (more, one_less) refl

  step_chunk_cr :
      step (chunked r in_chunk 0 l s got) i 13 ≡ ok (chunked r in_chunk 0 13 (i + 1) got)
  unfolding step in_entity in_chunked move_pos
  step_chunk_cr = refl

  step_chunk_lf : step (chunked r in_chunk 0 l s got) i 10 ≡ ok (chunked r in_size 0 10 (i + 1) got)
  unfolding step in_entity in_chunked move_pos
  step_chunk_lf = refl

-- The loop goes on behind a step that leaves it in the entity.
loop-step :
    (ch : ℕ) (rest : Bytes) (i size l s : ℕ) (r : MessageSource11) (st : ChunkState) (got : Bytes)
    (d : Cursor)
    → step (chunked r st size l s got) i ch ≡ ok d
    → loop (ch ∷ rest) i (chunked r st size l s got) ≡ loop rest (i + 1) d
unfolding loop
loop-step ch rest i size l s r st got d e = rw e refl

loop-at :
    (rest : Bytes) (r : MessageSource11) (st : ChunkState) (i j size l s : ℕ) (got more : Bytes)
    → i ≡ j
    → got ≡ more
    → loop rest i (chunked r st size l s got) ≡ loop rest j (chunked r st size l s more)
loop-at rest r st i j size l s got more e f = ap₂ (λ k g. loop rest k (chunked r st size l s g)) e f

-- The bytes of a chunk.
loop-bytes :
    (r : MessageSource11) (bytes rest : Bytes) (i l s : ℕ) (got : Bytes)
    → (l' : ℕ) × (s' : ℕ) × (loop (bytes ++ rest) i (chunked r in_chunk (length bytes) l s got)
        ≡ loop rest (i + length bytes) (chunked r in_chunk 0 l' s' (got ++ bytes)))
loop-bytes r [] rest i l s got = (
  l,
  s,
  loop-at rest r in_chunk i (i + 0) 0 l s got (got ++ []) (omega arith) (sym (append-nil got)),
)
loop-bytes r (b ∷ bytes) rest i l s got =
    let (l', s', e) = loop-bytes r bytes rest (i + 1) b (i + 1) (got ++ b ∷ []) in
    (
      l',
      s',
      loop-step b (bytes ++ rest) i (suc (length bytes)) l s r in_chunk got _
            (step_byte r i l s got (length bytes) b)
          ∙ e
          ∙ loop-at rest r in_chunk (i + 1 + length bytes) (i + suc (length bytes)) 0 l' s' _
              (got ++ b ∷ bytes) (omega arith) (append_assoc got (b ∷ []) bytes),
    )

-- The last digit of a size, behind the others.
loop-last :
    (r : MessageSource11) (n : ℕ) (rest front : Bytes) (i l s : ℕ) (got : Bytes)
    → n < 2 ^ 32
    → loop (itohex (n % 16) ∷ rest) (i + length front) (chunked r in_size (n / 16) l s got)
      ≡ loop rest
          (i + length (front ++ itohex (n % 16) ∷ []))
          (chunked r in_size n (itohex (n % 16)) (i + length front + 1) got)
loop-last r n rest front i l s got h =
    let whole : n / 16 * 16 + n % 16 ≡ n = omega arith in
    loop-step (itohex (n % 16)) rest (i + length front) (n / 16) l s r in_size got _
      (step_digit r (i + length front) l s got (n / 16) (n % 16) (omega arith) (omega arith))
    ∙ ap₂ (λ k m. loop rest k (chunked r in_size m (itohex (n % 16)) (i + length front + 1) got))
        (omega (arith, length-append front (itohex (n % 16) ∷ []))) whole

-- The digits of a size.
loop-digits :
    (r : MessageSource11) (fuel n : ℕ) (rest : Bytes) (i l s : ℕ) (got : Bytes)
    → n < 16 ^ fuel
    → 0 < n
    → n < 2 ^ 32
    → (l' : ℕ) × (s' : ℕ) × (loop (print_base fuel 16 n ++ rest) i (chunked r in_size 0 l s got)
        ≡ loop rest (i + length (print_base fuel 16 n)) (chunked r in_size n l' s' got))
unfolding print_base
loop-digits r zero n rest i l s got h p f = absurd (omega arith)
loop-digits r (suc fuel) n rest i l s got h p f = elim (Bool-cases (n / 16 == 0)) [
  | inl one ↦
      let z : n / 16 ≡ 0 = (==_iff (n / 16) 0).0 one in
      (
        itohex (n % 16),
        i + 0 + 1,
        rw one (
            ap₂ (λ k m. loop (itohex (n % 16) ∷ rest) k (chunked r in_size m l s got)) (omega arith)
              (sym z)
            ∙ loop-last r n rest [] i l s got f),
      )
  | inr more ↦
      let some_left : 0 < n / 16 = ground (arith, more) in
      let (l', s', e) =
        loop-digits r fuel (n / 16) (itohex (n % 16) ∷ rest) i l s got
          (omega (arith, pow-suc 16 fuel)) some_left (omega arith) in
      (
        itohex (n % 16),
        i + length (print_base fuel 16 (n / 16)) + 1,
        rw more (
            ap (λ b. loop b i (chunked r in_size 0 l s got))
              (append_assoc (print_base fuel 16 (n / 16)) (itohex (n % 16) ∷ []) rest)
            ∙ e
            ∙ loop-last r n rest (print_base fuel 16 (n / 16)) i l' s' got f),
      )
]

-- What follows the size of a chunk.
loop-body :
    (r : MessageSource11) (b : ℕ) (bytes rest : Bytes) (j l s : ℕ) (got : Bytes)
    → (l' : ℕ) × (s' : ℕ) × (k : ℕ) × (loop
          (13 ∷ 10 ∷ ((b ∷ bytes) ++ 13 ∷ 10 ∷ rest))
          j
          (chunked r in_size (length (b ∷ bytes)) l s got)
        ≡ loop rest k (chunked r in_size 0 l' s' (got ++ b ∷ bytes)))
loop-body r b bytes rest j l s got =
    let n = suc (length bytes) in
    let tail = (b ∷ bytes) ++ 13 ∷ 10 ∷ rest in
    let (l2, s2, e2) = loop-bytes r (b ∷ bytes) (13 ∷ 10 ∷ rest) (j + 1 + 1) 10 (j + 1 + 1) got in
    let k = j + 1 + 1 + n in
    let all = got ++ b ∷ bytes in
    (
      10,
      k + 1 + 1,
      k + 1 + 1,
      loop-step 13 (10 ∷ tail) j n l s r in_size got (chunked r in_size n 13 (j + 1) got)
            (step_size_cr r j l s got n)
          ∙ loop-step 10 tail (j + 1) n 13 (j + 1) r in_size got
              (chunked r in_chunk n 10 (j + 1 + 1) got)
              (step_size_lf r (j + 1) 13 (j + 1) got (length bytes))
          ∙ e2
          ∙ loop-step 13 (10 ∷ rest) k 0 l2 s2 r in_chunk all (chunked r in_chunk 0 13 (k + 1) all)
              (step_chunk_cr r k l2 s2 all)
          ∙ loop-step 10 rest (k + 1) 0 13 (k + 1) r in_chunk all
              (chunked r in_size 0 10 (k + 1 + 1) all) (step_chunk_lf r (k + 1) 13 (k + 1) all),
    )

print_x_lem : (n : ℕ) → n < 2 ^ 32 → print_x n ≡ print_base 8 16 n
unfolding print_x
print_x_lem n h = let whole : n % 2 ^ 32 ≡ n = omega arith in rw whole refl

chunk_assoc :
    (size bytes rest : Bytes)
    → (size ++ crlf ++ bytes ++ crlf) ++ rest ≡ size ++ 13 ∷ 10 ∷ (bytes ++ 13 ∷ 10 ∷ rest)
chunk_assoc size bytes rest = simp append_assoc

loop-chunk :
    (r : MessageSource11) (bytes rest : Bytes) (i l s : ℕ) (got : Bytes)
    → 0 < length bytes
    → length bytes < 2 ^ 32
    → (l' : ℕ) × (s' : ℕ) × (j : ℕ) × (loop
          ((print_x (length bytes) ++ crlf ++ bytes ++ crlf) ++ rest)
          i
          (chunked r in_size 0 l s got)
        ≡ loop rest j (chunked r in_size 0 l' s' (got ++ bytes)))
loop-chunk r [] rest i l s got p h = absurd (omega arith)
loop-chunk r (b ∷ bytes) rest i l s got p h =
    let n = suc (length bytes) in
    let tail = 13 ∷ 10 ∷ ((b ∷ bytes) ++ 13 ∷ 10 ∷ rest) in
    let (l1, s1, e1) = loop-digits r 8 n tail i l s got (omega arith) p h in
    let (l2, s2, k, e2) = loop-body r b bytes rest (i + length (print_base 8 16 n)) l1 s1 got in
    let opened =
      ap (λ x. loop x i (chunked r in_size 0 l s got))
        (chunk_assoc (print_x n) (b ∷ bytes) rest ∙ ap (λ d. d ++ tail) (print_x_lem n h)) in
    (l2, s2, k, opened ∙ e1 ∙ e2)

-- What the writer appends for 1 to 2 ^ 32 - 1 bytes of a chunked entity, read from its size on: the
-- reader takes the size and the bytes, adds these to what it has got, and waits for the next size.
pub add_entity-loop :
    (w : MessageSink11) (r : MessageSource11) (bytes rest : Bytes) (i l s : ℕ) (got : Bytes)
    → 0 < length bytes
    → length bytes < 2 ^ 32
    → (chunk : Bytes) × (l' : ℕ) × (s' : ℕ) × (j : ℕ) × ((add_entity
          (record w { entity_mode = entity_chunked })
          bytes).packet_str
        ≡ w.packet_str ++ chunk)
      × (loop (chunk ++ rest) i (chunked r in_size 0 l s got)
          ≡ loop rest j (chunked r in_size 0 l' s' (got ++ bytes)))
unfolding add_entity
add_entity-loop w r [] rest i l s got p h = absurd (omega arith)
add_entity-loop w r (b ∷ bytes) rest i l s got p h =
    let (l', s', j, e) = loop-chunk r (b ∷ bytes) rest i l s got p h in
    (print_x (suc (length bytes)) ++ crlf ++ (b ∷ bytes) ++ crlf, l', s', j, refl, e)
