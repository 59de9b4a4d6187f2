-- ===== src/MessageSourceGny/Rounds.antt =====
-- The rounds of the loop of `read` on numbers and on values.
use mathlib.Core.Path.{ap₂}
use gnyproxy.Prelude.{
  ℕ, ◌+◌, ◌-◌, ◌*◌, ◌≤◌, true, false, [], ◌∷◌, ◌++◌, ◌==◌, ==_iff, ◌≡◌, refl, sym, ap, ◌∙◌, inl,
  inr, Bytes, ok, drop, length, append_assoc, append-nil, arith, drop-append_cons, Bool-cases,
  Result-cases, length-append,
}
use gnyproxy.Prelude.Int.{pos}
use gnyproxy.Http.{c_str, header_unknown, headertoa}
use gnyproxy.HttpMessage.{MessageState, HttpMessage, set_status, end_entity}
use gnyproxy.MessageSourceGny.Spec.{in_user, parse_byte}
use gnyproxy.MessageSourceGny.Config.{
  Config, reader, index, view, Good, GoodIn, c_string_at-append, c_str-append_nul,
  read_short-append,
}
use gnyproxy.MessageSourceGny.{
  State, init_verb, init_url, init_status, header_start, header_key, header_value, entity_start,
  entity, done, step_in, add_pair, c_string_at, is_done,
}
use gnyproxy.MessageSourceGny.Refine.{
  Agrees, stops, ends, goes, url_read, Steps, Steps-verb, Steps-url, Steps-flag, Steps-name,
  Steps-chunk,
}

-- A number has come in full when one byte of it is there.
two_bytes : (gone : Bytes) (high : ℕ) → (length gone + 1 == length gone + 1) ≡ true
two_bytes gone high = ground arith

one_byte : (n : ℕ) → (n + 1 == n + 0) ≡ false
one_byte n = ground arith

Steps-status :
    (gone token : Bytes) (ch : ℕ) (rest : Bytes) (m : HttpMessage) (sub k : ℕ)
    → length token ≤ 1
    → Steps gone token ch rest init_status m sub k
unfolding step_in parse_byte
Steps-status gone [] ch rest m sub k h =
    goes gone [] ch rest init_status m sub k (rw (one_byte (length gone))) refl (omega arith)
Steps-status gone (high ∷ []) ch rest m sub k h =
    ends gone (high ∷ []) ch rest header_start (set_status m (pos (high * 256 + ch))) sub k
      (rw (two_bytes gone high, read_short-append gone high ch rest)) refl tt
Steps-status gone (a ∷ b ∷ token) ch rest m sub k h = absurd (omega arith)

Steps-size :
    (gone token : Bytes) (ch : ℕ) (rest : Bytes) (m : HttpMessage) (sub k : ℕ)
    → length token ≤ 1
    → m.state ≡ MessageState.entity
    → Steps gone token ch rest entity_start m sub k
unfolding step_in parse_byte
Steps-size gone [] ch rest m sub k h st =
    goes gone [] ch rest entity_start m sub k (rw (one_byte (length gone))) refl (omega arith, st)
Steps-size gone (high ∷ []) ch rest m sub k h st = elim (Bool-cases (high * 256 + ch == 0)) [
  | inl zero_size ↦ elim (Result-cases (end_entity m)) [
    | inl (f, e) ↦
        stops f (rw (two_bytes gone high, read_short-append gone high ch rest, zero_size, e))
          (rw (zero_size, e))
    | inr (m', e) ↦
        ends gone (high ∷ []) ch rest header_start m' (high * 256 + ch) k
          (rw (two_bytes gone high, read_short-append gone high ch rest, zero_size, e))
          (rw (zero_size, e)) tt
  ]
  | inr sized ↦
      ends gone (high ∷ []) ch rest entity m (high * 256 + ch) k
        (rw (two_bytes gone high, read_short-append gone high ch rest, sized))
        (rw (sized, append-nil)) (ground arith, st)
]
Steps-size gone (a ∷ b ∷ token) ch rest m sub k h st = absurd (omega arith)

Steps-known :
    (gone token : Bytes) (ch : ℕ) (rest : Bytes) (m : HttpMessage) (sub k : ℕ)
    → (k == header_unknown) ≡ false
    → Steps gone token ch rest header_value m sub k
unfolding step_in parse_byte
Steps-known gone token ch rest m sub k known = elim (Bool-cases (ch == 0)) [
  | inl nul ↦ elim (Result-cases (headertoa k)) [
    | inl (f, e) ↦ stops f (rw (nul, known, e)) (rw (known, nul, e))
    | inr (name, e) ↦ elim (Result-cases (add_pair m name (c_str token))) [
      | inl (f, a) ↦
          stops f
            (rw (
              nul,
              known,
              e,
              c_string_at-append gone (token ++ ch ∷ rest),
              url_read gone token ch rest token ((==_iff ch 0).0 nul),
              a,
            ))
            (rw (known, nul, e, a))
      | inr (m', a) ↦
          ends gone token ch rest header_start m' sub k
            (rw (
              nul,
              known,
              e,
              c_string_at-append gone (token ++ ch ∷ rest),
              url_read gone token ch rest token ((==_iff ch 0).0 nul),
              a,
            ))
            (rw (known, nul, e, a)) tt
    ]
  ]
  | inr more ↦
      goes gone token ch rest header_value m sub k (rw more) (rw (known, more))
        (λ e. absurd (ground arith))
]

-- The name and the value of a header that is not in the table, behind one another.
module _ (gone name value : Bytes) where
  abbrev both : Bytes
  both = name ++ 0 ∷ value

  abbrev value_at : ℕ
  value_at = length gone + length name + 1

  value_past : value_at - length gone ≡ length name + 1
  value_past = omega arith

  name_read : (t : Bytes) → c_str (both ++ t) ≡ c_str name
  name_read t = rw (append_assoc name (0 ∷ value) t) (c_str-append_nul name (value ++ t))

  value_read : (t : Bytes) → drop (value_at - length gone) (both ++ t) ≡ value ++ t
  value_read t =
      rw (value_past, append_assoc name (0 ∷ value) t) (drop-append_cons name 0 (value ++ t))

  value_c_string :
      (t : Bytes) → c_string_at (gone ++ (both ++ t)) value_at ≡ ok (c_str (value ++ t))
  value_c_string t =
      ap₂ c_string_at apart behind ∙ c_string_at-append (gone ++ (name ++ 0 ∷ [])) (value ++ t)
    where
      apart : gone ++ (both ++ t) ≡ (gone ++ (name ++ 0 ∷ [])) ++ (value ++ t)
      apart = simp append_assoc

      behind : value_at ≡ length (gone ++ (name ++ 0 ∷ []))
      behind = omega (arith, length-append gone (name ++ 0 ∷ []), length-append name (0 ∷ []))

  abbrev user_conf : Bytes → HttpMessage → ℕ → Config
  user_conf more m k = record {
    msg = m;
    state = header_value;
    substate = value_at;
    key = k;
    gone = gone;
    token = both ++ more;
  }

  view-user_conf :
      (more : Bytes) (m : HttpMessage) (k : ℕ)
      → k ≡ header_unknown
      → view (user_conf more m k) ≡ (in_user (c_str name) (value ++ more), m)
  view-user_conf more m k u = rw ((==_iff k header_unknown).1 u, name_read more, value_read more)

  view_user :
      (m : HttpMessage) (k : ℕ)
      → k ≡ header_unknown
      → view (record (user_conf [] m k) { token = both }) ≡ (in_user (c_str name) value, m)
  view_user m k u = simp append-nil at (view-user_conf [] m k u)

  Steps-user :
      (ch : ℕ) (rest : Bytes) (m : HttpMessage) (k : ℕ)
      → k ≡ header_unknown
      → Steps gone both ch rest header_value m value_at k
  unfolding step_in parse_byte
  Steps-user ch rest m k u =
      let user : (k == header_unknown) ≡ true = (==_iff k header_unknown).1 u in
      let seen = ap (λ p. parse_byte p ch) (view_user m k u) in
      elim (Bool-cases (ch == 0)) [
        | inl nul ↦
            let at_nul = (==_iff ch 0).0 nul in
            let value_there =
              value_c_string (ch ∷ rest) ∙ ap ok (url_read gone value ch rest value at_nul) in
            let name_there =
              c_string_at-append gone (both ++ ch ∷ rest) ∙ ap ok (name_read (ch ∷ rest)) in
            elim (Result-cases (add_pair m (c_str name) (c_str value))) [
              | inl (f, a) ↦
                  stops f (rw (nul, user, name_there, value_there, a)) (seen ∙ rw (nul, a))
              | inr (m', a) ↦
                  ends gone both ch rest header_start m' value_at k
                    (rw (nul, user, name_there, value_there, a)) (seen ∙ rw (nul, a)) tt
            ]
        | inr more ↦
            goes gone both ch rest header_value m value_at k (rw more)
              (seen ∙ (rw more (ap ok (sym (view-user_conf (ch ∷ []) m k u)))))
              (λ _. (name, value ++ ch ∷ [], append_assoc name (0 ∷ value) (ch ∷ []), refl))
      ]

Steps-value :
    (gone token : Bytes) (ch : ℕ) (rest : Bytes) (m : HttpMessage) (sub k : ℕ)
    → (k ≡ header_unknown
        → (name value : Bytes) × (token ≡ name ++ 0 ∷ value)
          × (sub ≡ length gone + length name + 1))
    → Steps gone token ch rest header_value m sub k
Steps-value gone token ch rest m sub k g = elim (Bool-cases (k == header_unknown)) [
  | inl user ↦
      let u = (==_iff k header_unknown).0 user in
      let (name, value, t, s) = g u in rw (t, s) (Steps-user gone name value ch rest m k u)
  | inr known ↦ Steps-known gone token ch rest m sub k known
]

-- Every round, in every state but the last.
pub steps :
    (c : Config) (ch : ℕ) (rest : Bytes)
    → Good c
    → is_done c.state ≡ false
    → Agrees
        (index c)
        rest
        (step_in c.state (reader c (ch ∷ rest)) (index c) ch)
        (parse_byte (view c) ch)
steps c ch rest = by_state c.state
  where
    by_state :
        (s : State)
        → GoodIn s c
        → is_done s ≡ false
        → Agrees
            (index c)
            rest
            (step_in s (reader (record c { state = s }) (ch ∷ rest)) (index c) ch)
            (parse_byte (view (record c { state = s })) ch)
    by_state init_verb g n = Steps-verb c.gone c.token ch rest c.msg c.substate c.key
    by_state init_url g n = Steps-url c.gone c.token ch rest c.msg c.substate c.key
    by_state init_status g n = Steps-status c.gone c.token ch rest c.msg c.substate c.key g
    by_state header_start g n = Steps-flag c.gone c.token ch rest c.msg c.substate c.key
    by_state header_key g n = Steps-name c.gone c.token ch rest c.msg c.substate c.key g
    by_state header_value g n = Steps-value c.gone c.token ch rest c.msg c.substate c.key g
    by_state entity_start g n = Steps-size c.gone c.token ch rest c.msg c.substate c.key g.0 g.1
    by_state entity g n = Steps-chunk c.gone c.token ch rest c.msg c.substate c.key g.0 g.1
    by_state done g n = absurd (cc)
