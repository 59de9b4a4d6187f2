-- ===== src/RoundTrip.antt =====
-- The GNY writer and the GNY reader together: message_sink_gny.cpp and message_source_gny.cpp.
use gnyproxy.Prelude.{
  Holds, ◌==◌, ◌-◌, Bool-cases, inl, inr, drop, length, arith, if◌then◌else◌, ℕ, List, [], ◌∷◌, ◌≡◌,
  refl, sym, ap, ◌∙◌, Bytes, ok, Bool, true, false, append-nil, ok_injective,
}
use gnyproxy.Prelude.Int.{pos}
use gnyproxy.Http.{header_unknown, c_str}
use gnyproxy.HttpMessage.{HttpMessage, init}
use gnyproxy.Socket.{Socket}
use gnyproxy.GnyWire.{MessageWire}
use gnyproxy.MessageSinkGny.{MessageSinkGny, check_for_update}
use gnyproxy.MessageSinkGny
use gnyproxy.MessageSinkGny.Encode.{closed, IsWritable, SameContent, encoded}
use gnyproxy.MessageSourceGny.Spec.{Parse, parse, finished, in_user, in_known}
use gnyproxy.MessageSourceGny.Config.{Config, view, Good, item_in}
use gnyproxy.MessageSourceGny.Decode.{before, parse-MessageWire}
use gnyproxy.MessageSourceGny.Closing.{base, idle, IsSettled}
use gnyproxy.MessageSourceGny.Pieces.{
  concat, read_pieces, SettledCuts, arrives, refused, read_pieces-parse,
}
use gnyproxy.MessageSourceGny.{
  MessageSourceGny, create, State, init_verb, init_status, header_value, done,
}
use gnyproxy.MessageSourceGny.Reads.{view-done}
use mathlib.Core.Path.{subst}

-- The reader that the constructor makes.
abbrev fresh : Bool → Config
fresh is_request = record {
  msg = init is_request;
  state = if is_request then init_verb else init_status;
  substate = 0;
  key = header_unknown;
  gone = [];
  token = [];
}

fresh_lem :
    (b : Bool)
    → (idle (fresh b) ≡ create (init b))
      × ((view (base (fresh b)) ≡ before b) × Good (base (fresh b)))
unfolding create init
fresh_lem true = (refl, (refl, tt))
fresh_lem false = (refl, (refl, omega arith))

done_of_finished : (s : State) (c : Config) → item_in s c ≡ finished → s ≡ done
done_of_finished header_value c e = elim (Bool-cases (c.key == header_unknown)) [
  | inl t ↦ absurd (
      let e' : in_user (c_str c.token) (drop (c.substate - length c.gone) c.token) ≡ finished =
        (sym (rw t refl) ∙ e) in
      cc)
  | inr f ↦ absurd (let e' : in_known c.key c.token ≡ finished = (sym (rw f refl) ∙ e) in cc)
]
done_of_finished done c e = refl
done_of_finished _ c e = absurd (cc)

parse-none : (p : Parse) → parse [] p ≡ ok p
unfolding parse
parse-none p = refl

-- A message in the wire format, however its bytes are cut into calls of `read`, is read whole: the
-- reader that was new holds that message and has stopped. The socket delivers what it has shown, and
-- no call ends inside the value of a header with a name of its own.
pub read_pieces-MessageWire :
    {w : Bytes} {m : HttpMessage} (wire : MessageWire w m) (s : Socket) (ps : List Bytes)
    → ((n : ℕ) → s.consume n ≡ pos n)
    → concat ps ≡ w
    → SettledCuts ps (before m.is_request)
    → (r : MessageSourceGny) × (read_pieces (create (init m.is_request)) s ps ≡ ok r)
      × (r.msg ≡ m)
      × (r.state ≡ done)
read_pieces-MessageWire {w} {m} wire s ps k e cuts =
    let b = m.is_request in
    let (same, (start, good)) = fresh_lem b in
    let parsed : parse (concat ps) (view (base (fresh b))) ≡ ok (finished, m) =
      ap (λ x. parse (concat ps) x) start
      ∙ ap (λ x. parse x (before b)) (e ∙ sym (append-nil w))
      ∙ parse-MessageWire [] wire
      ∙ parse-none _ in
    elim (read_pieces-parse ps (fresh b) s good k
      (subst (λ x. SettledCuts ps x) (sym start) cuts)) [
        | refused f x y ↦ absurd (cc)
        | arrives d x y g ↦
            let v = ok_injective (sym y ∙ parsed) in
            let over = done_of_finished d.state (base d) (ap (λ p. p.0) v) in
            (
              idle d,
              ap (λ r. read_pieces r s ps) (sym same) ∙ x,
              sym (ap (λ p. p.1) (view-done (base d) over)) ∙ ap (λ p. p.1) v,
              over,
            )
      ]

-- A new writer puts a whole message into bytes, if the format can express it; and however these
-- bytes are cut into calls of `read`, a new reader holds at the end a message with the same content.
-- The socket delivers what it has shown, and no call ends inside the value of a header with a name
-- of its own.
pub written-read :
    (m : HttpMessage) (c : IsWritable m) (s : Socket) (ps : List Bytes)
    → ((n : ℕ) → s.consume n ≡ pos n)
    → concat ps ≡ (encoded m c).wire
    → SettledCuts ps (before m.is_request)
    → (sink : MessageSinkGny) × (r : MessageSourceGny) × (check_for_update
          (MessageSinkGny.create (closed m))
        ≡ ok sink)
      × (sink.data_stream ≡ concat ps)
      × (read_pieces (create (init m.is_request)) s ps ≡ ok r)
      × SameContent m r.msg
      × (r.state ≡ done)
written-read m c s ps k e cuts =
    let x = encoded m c in
    let kind : x.decoded.is_request ≡ m.is_request = sym x.same_content.same_kind in
    let (r, reads, same, over) =
      read_pieces-MessageWire x.in_format s ps k e
        (subst (λ b. SettledCuts ps (before b)) (sym kind) cuts) in
    (
      _,
      r,
      x.updates,
      sym e,
      ap (λ b. read_pieces (create (init b)) s ps) (sym kind) ∙ reads,
      subst (λ w. SameContent m w) (sym same) x.same_content,
      over,
    )

-- A message in one piece is cut nowhere inside a value.
pub SettledCuts-whole :
    {w : Bytes} {m : HttpMessage} → MessageWire w m → SettledCuts (w ∷ []) (before m.is_request)
SettledCuts-whole {w} {m} wire =
    let read =
      ap (λ x. parse x (before m.is_request)) (sym (append-nil w))
      ∙ parse-MessageWire [] wire
      ∙ parse-none _ in
    subst (λ r. Holds (λ q. IsSettled q × Unit) r) (sym read) (tt, tt)

pub concat-whole : (w : Bytes) → concat (w ∷ []) ≡ w
unfolding concat
concat-whole w = append-nil w

pub SettledCuts-encoded :
    (m : HttpMessage) (c : IsWritable m)
    → SettledCuts ((encoded m c).wire ∷ []) (before m.is_request)
SettledCuts-encoded m c =
    subst (λ b. SettledCuts ((encoded m c).wire ∷ []) (before b))
      (sym (encoded m c).same_content.same_kind) (SettledCuts-whole (encoded m c).in_format)
