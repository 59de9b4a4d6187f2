-- ===== src/MessageSourceGny/Closing.antt =====
-- The end of `read`, behind its loop: what is handed on, and what is kept of the stream.
use mathlib.Core.Path.{ap₂}
use gnyproxy.Prelude.{
  ◌+◌, false, List, [], ◌∷◌, ◌++◌, ◌==◌, ==_iff, ◌≡◌, refl, sym, ap, ◌∙◌, ◌⊎◌, inl, inr, Bytes, ok,
  drop, length, length-append, append-nil, arith, Bool-cases, drop-append,
}
use gnyproxy.Http.{header_unknown}
use gnyproxy.HttpMessage.{MessageState}
use gnyproxy.MessageSourceGny.Spec.{in_user, Parse}
use gnyproxy.MessageSourceGny.Config.{Config, reader, index, view, Good, GoodIn, item_in, msg_in}
use gnyproxy.MessageSourceGny.Refine.{append_entity-entity}
use gnyproxy.MessageSourceGny.{
  MessageSourceGny, State, init_verb, init_url, init_status, header_start, header_key, header_value,
  entity_start, entity, done, is_done, flush, trim_stream,
}

-- The reader between two calls of `read`: nothing is behind `pos`, and nothing is ahead.
abbrev pub base : Config → Config
base c = record c { gone = [] }

abbrev pub idle : Config → MessageSourceGny
idle c = record {
  msg = c.msg;
  data_stream = c.token;
  start = 0;
  state = c.state;
  substate = c.substate;
  key = c.key;
}

-- No value of a header with a name of its own is being read.
abbrev pub IsSettled : Parse → Type 0
IsSettled (in_user name value, m) = ⊥
IsSettled _ = Unit {0}

-- What is kept of a configuration at the end of `read`.
abbrev pub kept_in : State → Config → Bytes → Config
kept_in entity c left = record c { msg = msg_in entity c; gone = []; token = [] }
kept_in _ c left = record c { gone = []; token = c.token ++ left }

abbrev pub kept : Config → Bytes → Config
kept c left = kept_in c.state c left

nil_of_length {ℓ} : {A : Type ℓ} (xs : List A) → length xs ≡ 0 → xs ≡ []
nil_of_length [] h = refl
nil_of_length (x ∷ xs) h = absurd (omega arith)

trim_stream-reader :
    (r : MessageSourceGny) (gone more : Bytes)
    → r.data_stream ≡ gone ++ more
    → r.start ≡ length gone
    → trim_stream r ≡ record r { data_stream = more; start = 0 }
unfolding trim_stream
trim_stream-reader r gone more e n = elim (Bool-cases (r.start == 0)) [
  | inl zero_start ↦
      let at_front : r.start ≡ 0 = (==_iff r.start 0).0 zero_start in
      let none_gone : gone ≡ [] = nil_of_length gone (omega arith) in
      rw zero_start (
        ap₂ (λ d k. record r { data_stream = d; start = k }) (e ∙ ap (λ g. g ++ more) none_gone)
          at_front)
  | inr some_gone ↦
      rw some_gone
        (ap (λ d. record r { data_stream = d; start = 0 }) (ap₂ drop n e ∙ drop-append gone more))
]

-- What the end of `read` leaves of the reader at `c`.
abbrev pub Ends : Config → Bytes → Config → Type 0
Ends c left d =
    (f : MessageSourceGny) × (flush (reader c left) ≡ ok f)
    × (length f.data_stream ≡ index c + length left)
    × (trim_stream f ≡ idle d)

stream_size :
    (c : Config) (left : Bytes) → length (c.gone ++ (c.token ++ left)) ≡ index c + length left
stream_size c left =
    omega (arith, length-append c.gone (c.token ++ left), length-append c.token left)

Ends-plain :
    (c : Config) (left : Bytes)
    → flush (reader c left) ≡ ok (reader c left)
    → Ends c left (record c { gone = []; token = c.token ++ left })
Ends-plain c left e = (
  reader c left,
  e,
  stream_size c left,
  trim_stream-reader (reader c left) c.gone (c.token ++ left) refl refl,
)

Ends-chunk :
    (c : Config) (left : Bytes)
    → c.msg.state ≡ MessageState.entity
    → left ≡ []
    → Ends (record c { state = entity }) left (kept_in entity (record c { state = entity }) left)
Ends-chunk c left st n = (
  record (reader (record c { state = entity }) left) {
    msg = record (c.msg) { body = c.msg.body ++ c.token };
    start = length (c.gone ++ (c.token ++ left));
  },
  rw n (unfold flush in rw (drop-append, append-nil, append_entity-entity c.msg c.token st)),
  stream_size c left,
  trim_stream-reader _ (c.gone ++ (c.token ++ left)) [] (sym (append-nil _)) refl,
)

nil_of_running :
    (s : State) (left : Bytes) → is_done s ≡ false → (left ≡ []) ⊎ (s ≡ done) → left ≡ []
nil_of_running s left h (inl n) = n
nil_of_running s left h (inr d) = absurd (cc (ap is_done d))

pub finish :
    (c : Config) (left : Bytes)
    → Good c
    → (left ≡ []) ⊎ (c.state ≡ done)
    → Ends c left (kept c left)
finish c left = by_state c.state
  where
    by_state :
        (s : State)
        → GoodIn s c
        → (left ≡ []) ⊎ (s ≡ done)
        → Ends (record c { state = s }) left (kept_in s (record c { state = s }) left)
    by_state entity g z = Ends-chunk c left g.1 (nil_of_running entity left refl z)
    by_state s g z = Ends-plain (record c { state = s }) left (unfold flush in refl)

-- The machine sees no difference between the reader at the end of the loop and what is kept.
pub kept_lem :
    (c : Config) (left : Bytes)
    → Good c
    → (left ≡ []) ⊎ (c.state ≡ done)
    → IsSettled (view c)
    → (view (base (kept c left)) ≡ view c) × Good (base (kept c left))
kept_lem c left = by_state c.state
  where
    by_state :
        (s : State)
        → GoodIn s c
        → (left ≡ []) ⊎ (s ≡ done)
        → IsSettled (item_in s c, msg_in s c)
        → (view (base (kept_in s (record c { state = s }) left)) ≡ (item_in s c, msg_in s c))
          × Good (base (kept_in s (record c { state = s }) left))
    by_state init_verb g z h = (refl, tt)
    by_state init_url g z h = (rw (nil_of_running init_url left refl z, append-nil), tt)
    by_state init_status g z h = rw (nil_of_running init_status left refl z, append-nil) (refl, g)
    by_state header_start g z h = (refl, tt)
    by_state header_key g z h = (rw (nil_of_running header_key left refl z, append-nil), g)
    by_state header_value g z h = elim (Bool-cases (c.key == header_unknown)) [
      | inl user ↦ absurd (rw user at h)
      | inr known ↦ (
        rw (nil_of_running header_value left refl z, append-nil, known),
        λ e. absurd (ground arith),
      )
    ]
    by_state entity_start g z h = rw (nil_of_running entity_start left refl z, append-nil) (refl, g)
    by_state entity g z h = (rw append-nil, g)
    by_state done g z h = (refl, tt)
