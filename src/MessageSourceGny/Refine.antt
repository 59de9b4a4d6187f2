-- ===== src/MessageSourceGny/Refine.antt =====
-- One round of the loop of `read` does what the machine of `Spec` does with that byte: the rounds
-- in the states of the first line, the flags, the names and the chunks.
use native.Mathlib.Numerals.{add-one}
use gnyproxy.Prelude.{
  ℕ, ◌+◌, ◌-◌, ◌<◌, List, [], ◌∷◌, ◌++◌, ◌==◌, ==_iff, ◌≡◌, refl, sym, ap, ◌∙◌, inl, inr, Bytes,
  Result, ok, fault, Fault, drop, take, length, append_assoc, arith, drop-append, drop-append_cons,
  leb, Bool-cases, Result-cases, Holds-ok, Holds-assert, length-append,
}
use gnyproxy.Http.{c_str, header_unknown, header_end}
use gnyproxy.HttpMessage.{
  MessageState, rank, HttpMessage, set_url, end_header, end_footer, append_entity,
}
use gnyproxy.MessageSourceGny.Spec.{Parse, parse_byte}
use gnyproxy.MessageSourceGny.Config.{
  Config, reader, index, view, Good, extended, ended, reader-extended, reader-ended,
  c_string_at-append, c_str-append_nul, index-ended,
}
use gnyproxy.MessageSourceGny.{
  MessageSourceGny, State, init_verb, init_url, header_start, header_key, header_value,
  entity_start, entity, done, step_in,
}

-- Both go on to the configuration `c'`, at the next byte, or both stop with one fault.
pub data Agrees (n : ℕ) (rest : Bytes) (x : Result MessageSourceGny) (y : Result Parse)
    : Type 0 where
  moves :
      (c' : Config)
      → x ≡ ok (reader c' rest)
      → y ≡ ok (view c')
      → Good c'
      → index c' ≡ n + 1
      → Agrees n rest x y
  stops : (e : Fault) → x ≡ fault e → y ≡ fault e → Agrees n rest x y

pub end_header_state : (m m' : HttpMessage) → end_header m ≡ ok m' → m'.state ≡ MessageState.entity
unfolding end_header
end_header_state m m' e =
    Holds-ok (λ a. a.state ≡ MessageState.entity) (end_header m) m' e
      (Holds-assert (λ a. a.state ≡ MessageState.entity)
        (leb (rank m.state) (rank MessageState.header))
        (ok (record m { state = MessageState.entity })) (λ h. refl))

pub append_entity-entity :
    (m : HttpMessage) (e : Bytes)
    → m.state ≡ MessageState.entity
    → append_entity m e ≡ ok (record m { body = m.body ++ e })
unfolding append_entity
append_entity-entity m e h = rw h

take-append_cons {ℓ} :
    {A : Type ℓ} (xs : List A) (y : A) (ys : List A)
    → take (length xs + 1) (xs ++ y ∷ ys) ≡ xs ++ y ∷ []
take-append_cons [] y ys = refl
take-append_cons (x ∷ xs) y ys = rw add-one (ap (◌∷◌ x) (rw add-one at (take-append_cons xs y ys)))

module _ (gone token : Bytes) (ch : ℕ) (rest : Bytes) where
  abbrev pub conf : State → HttpMessage → ℕ → ℕ → Config
  conf s m sub k = record {
    msg = m;
    state = s;
    substate = sub;
    key = k;
    gone = gone;
    token = token;
  }

  abbrev pub here : ℕ
  here = length gone + length token

  abbrev pub Steps : State → HttpMessage → ℕ → ℕ → Type 0
  Steps s m sub k =
      Agrees here rest (step_in s (reader (conf s m sub k) (ch ∷ rest)) here ch)
        (parse_byte (view (conf s m sub k)) ch)

  -- The round ends the item with `ch`.
  pub ends :
      (s : State) (m : HttpMessage) (sub k : ℕ) {x : Result MessageSourceGny} {y : Result Parse}
      → x ≡ ok (record (reader (conf s m sub k) (ch ∷ rest)) { start = here + 1 })
      → y ≡ ok (view (ended (conf s m sub k) ch))
      → Good (ended (conf s m sub k) ch)
      → Agrees here rest x y
  ends s m sub k e f h =
      moves (ended (conf s m sub k) ch) (e ∙ ap ok (sym (reader-ended (conf s m sub k) ch rest))) f
        h (omega (arith, index-ended (conf s m sub k) ch))

  -- The round goes on with the item.
  pub goes :
      (s : State) (m : HttpMessage) (sub k : ℕ) {x : Result MessageSourceGny} {y : Result Parse}
      → x ≡ ok (reader (conf s m sub k) (ch ∷ rest))
      → y ≡ ok (view (extended (conf s m sub k) ch))
      → Good (extended (conf s m sub k) ch)
      → Agrees here rest x y
  goes s m sub k e f h =
      moves (extended (conf s m sub k) ch)
        (e ∙ ap ok (sym (reader-extended (conf s m sub k) ch rest))) f h
        (omega (arith, length-append token (ch ∷ [])))

  past_token : here + 1 - length gone ≡ length token + 1
  past_token = omega arith

  pub Steps-verb : (m : HttpMessage) (sub k : ℕ) → Steps init_verb m sub k
  unfolding step_in parse_byte
  Steps-verb m sub k = ends init_url _ sub k refl refl tt

  pub url_read : (tok : Bytes) → ch ≡ 0 → c_str (tok ++ ch ∷ rest) ≡ c_str tok
  url_read tok e = rw e (c_str-append_nul tok rest)

  pub Steps-url : (m : HttpMessage) (sub k : ℕ) → Steps init_url m sub k
  unfolding step_in parse_byte
  Steps-url m sub k = elim (Bool-cases (ch == 0)) [
    | inl nul ↦
        ends header_start (set_url m (c_str token)) sub k
          (rw (
            nul,
            c_string_at-append gone (token ++ ch ∷ rest),
            url_read token ((==_iff ch 0).0 nul),
          ))
          (rw nul) tt
    | inr more ↦ goes init_url m sub k (rw more) (rw more) tt
  ]

  pub Steps-flag : (m : HttpMessage) (sub k : ℕ) → Steps header_start m sub k
  unfolding step_in parse_byte
  Steps-flag m sub k = elim (Bool-cases (ch == header_end)) [
    | inl end ↦ elim (Bool-cases (rank m.state == rank MessageState.header)) [
      | inl first ↦ elim (Result-cases (end_header m)) [
        | inl (f, e) ↦ stops f (rw (end, first, e)) (rw (end, first, e))
        | inr (m', e) ↦
            ends entity_start m' sub ch (rw (end, first, e)) (rw (end, first, e))
              (omega arith, end_header_state m m' e)
      ]
      | inr last ↦ elim (Result-cases (end_footer m)) [
        | inl (f, e) ↦ stops f (rw (end, last, e)) (rw (end, last, e))
        | inr (m', e) ↦ ends done m' sub ch (rw (end, last, e)) (rw (end, last, e)) tt
      ]
    ]
    | inr pair ↦ elim (Bool-cases (ch == header_unknown)) [
      | inl user ↦
          ends header_key m sub ch (rw (pair, user)) (rw (pair, user))
            ((==_iff ch header_unknown).0 user)
      | inr known ↦
          ends header_value m sub ch (rw (pair, known)) (rw (pair, known))
            (λ e. absurd (ground arith))
    ]
  ]

  pub Steps-name : (m : HttpMessage) (sub k : ℕ) → k ≡ header_unknown → Steps header_key m sub k
  unfolding step_in parse_byte
  Steps-name m sub k u = elim (Bool-cases (ch == 0)) [
    | inl nul ↦
        goes header_value m (here + 1) k (rw nul)
          (rw nul
            (rw (u, (==_iff ch 0).0 nul, c_str-append_nul token [], past_token, drop-append_cons)))
          (λ e. (token, [], rw ((==_iff ch 0).0 nul), refl))
    | inr more ↦ goes header_key m sub k (rw more) (rw more) u
  ]

  chunk_read :
      take (here + 1 - length gone) (drop (length gone) (gone ++ (token ++ ch ∷ rest)))
      ≡ token ++ ch ∷ []
  chunk_read = rw (past_token, drop-append) (take-append_cons token ch rest)

  pub Steps-chunk :
      (m : HttpMessage) (sub k : ℕ) → 0 < sub → m.state ≡ MessageState.entity → Steps entity m sub k
  unfolding step_in parse_byte
  Steps-chunk m sub k left st = elim (Bool-cases (sub - 1 == 0)) [
    | inl last ↦
        ends entity_start (record m { body = m.body ++ (token ++ ch ∷ []) }) (sub - 1) k
          (rw (last, chunk_read, append_entity-entity m (token ++ ch ∷ []) st))
          (rw (
            append_entity-entity (view (conf entity m sub k)).1 (ch ∷ []) st,
            last,
            append_assoc m.body token (ch ∷ []),
          ))
          (omega arith, st)
    | inr more ↦
        goes entity m (sub - 1) k (rw more)
          (rw (
            append_entity-entity (view (conf entity m sub k)).1 (ch ∷ []) st,
            more,
            append_assoc m.body token (ch ∷ []),
          ))
          (ground arith, st)
  ]
