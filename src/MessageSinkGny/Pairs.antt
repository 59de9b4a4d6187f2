-- ===== src/MessageSinkGny/Pairs.antt =====
-- What `add_key_value_pair` writes is a pair of the wire format, with the name as it stands in the
-- table where it is in the table.
use gnyproxy.Prelude.{
  ℕ, ◌%◌, ◌≡◌, refl, sym, ap, ◌∙◌, inl, inr, false, List, [], ◌∷◌, ◌++◌, ◌==◌, Bytes, Free, ok,
  append_assoc, append-nil, arith,
}
use mathlib.Core.Path.{subst}
use gnyproxy.Common.{write_string}
use gnyproxy.Http.{atoheader, c_str, lower, headertoa, header_unknown, header_end}
use gnyproxy.Http.Tables.{atoheader-HeaderCode, HeaderCode, headertoa-lt}
use gnyproxy.HttpMessage.{KeyValue}
use gnyproxy.GnyWire.{PairsWire, end, known, user}
use gnyproxy.MessageSinkGny.{add_key_value_pair, add_pairs}

-- Names and values with no NUL.
abbrev pub IsClean : List KeyValue → Type 0
IsClean [] = Unit {0}
IsClean ((key, value) ∷ pairs) = Free 0 key × Free 0 value × IsClean pairs

-- The same values in the same order, under names that differ in case only.
abbrev pub SameNames : List KeyValue → List KeyValue → Type 0
SameNames [] [] = Unit {0}
SameNames ((k, v) ∷ xs) ((k', v') ∷ ys) = (lower k ≡ lower k') × (v ≡ v') × SameNames xs ys
SameNames _ _ = ⊥

c_str-Free : (s : Bytes) → Free 0 s → c_str s ≡ s
unfolding c_str
c_str-Free [] h = refl
c_str-Free (x ∷ s) h = rw h.0 (ap (◌∷◌ x) (c_str-Free s h.1))

-- The bytes of one pair, and what a reader makes of them.
pub record Written (key value : Bytes) (p : Bytes) : Type 0 where
  pub name : Bytes
  pub same : lower key ≡ lower name
  pub written : (d : Bytes) → add_key_value_pair d (key, value) ≡ ok (d ++ p)
  pub reads :
      (w : Bytes) (hs : List KeyValue) → PairsWire w hs → PairsWire (p ++ w) ((name, value) ∷ hs)

Written-known :
    (key value : Bytes) (code : ℕ) (name : Bytes)
    → Free 0 key
    → Free 0 value
    → atoheader key ≡ ok code
    → headertoa code ≡ ok name
    → lower key ≡ lower name
    → Written key value (code ∷ (value ++ 0 ∷ []))
unfolding add_key_value_pair write_string
Written-known key value code name hk hv a e l = record {
  name = name;
  same = l;
  written = λ d.
      let small = headertoa-lt code name e in
      let no_user : (code == header_unknown) ≡ false = ground arith in
      let one_byte : code % 256 ≡ code = omega arith in
      rw (c_str-Free key hk, a, one_byte, no_user) (simp append_assoc);
  reads = λ w hs p.
      subst (λ s. PairsWire s ((name, value) ∷ hs))
        (ap (◌∷◌ code) (sym (append_assoc value (0 ∷ []) w))) (known code name value e hv p);
}

user_bytes :
    (key value w : Bytes) → (key ++ 0 ∷ (value ++ 0 ∷ [])) ++ w ≡ key ++ 0 ∷ (value ++ 0 ∷ w)
user_bytes key value w = simp append_assoc

Written-user :
    (key value : Bytes)
    → Free 0 key
    → Free 0 value
    → atoheader key ≡ ok header_unknown
    → Written key value (header_unknown ∷ (key ++ 0 ∷ (value ++ 0 ∷ [])))
unfolding add_key_value_pair write_string
Written-user key value hk hv a = record {
  name = key;
  same = refl;
  written = λ d. rw (c_str-Free key hk, a) (simp append_assoc);
  reads = λ w hs p.
      subst (λ s. PairsWire s ((key, value) ∷ hs))
        (ap (◌∷◌ header_unknown) (sym (user_bytes key value w))) (user key value hk hv p);
}

pub Written-pair :
    (key value : Bytes) → Free 0 key → Free 0 value → (p : Bytes) × Written key value p
Written-pair key value hk hv = let (code, a, h) = atoheader-HeaderCode key in by_code code a h
  where
    by_code :
        (code : ℕ)
        → atoheader key ≡ ok code
        → HeaderCode key code
        → (p : Bytes) × Written key value p
    by_code code a (inl (name, e, l)) = (_, Written-known key value code name hk hv a e l)
    by_code code a (inr (u, none)) = (_, Written-user key value hk hv (a ∙ ap ok u))

-- A list of pairs: its bytes and what a reader makes of them.
pub record AllWritten (pairs : List KeyValue) : Type 0 where
  pub bytes : Bytes
  pub names : List KeyValue
  pub all_written : (d : Bytes) → add_pairs d pairs ≡ ok (d ++ bytes)
  pub all_read : PairsWire (bytes ++ header_end ∷ []) names
  pub same_names : SameNames pairs names

pub written_pairs : (pairs : List KeyValue) → IsClean pairs → AllWritten pairs
unfolding add_pairs
written_pairs [] c = record {
  bytes = [];
  names = [];
  all_written = λ d. ap ok (sym (append-nil d));
  all_read = end;
  same_names = tt;
}
written_pairs ((key, value) ∷ pairs) c =
    let (p, w) = Written-pair key value c.0 c.1 in
    let more = written_pairs pairs c.2 in
    record {
      bytes = p ++ more.bytes;
      names = (w.name, value) ∷ more.names;
      all_written =
          λ d. rw (w.written d, more.all_written (d ++ p)) (ap ok (append_assoc d p more.bytes));
      all_read =
          subst (λ s. PairsWire s ((w.name, value) ∷ more.names))
            (sym (append_assoc p more.bytes (header_end ∷ [])))
            (w.reads (more.bytes ++ header_end ∷ []) more.names more.all_read);
      same_names = (w.same, refl, more.same_names);
    }
