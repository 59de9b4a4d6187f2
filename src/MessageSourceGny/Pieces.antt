-- ===== src/MessageSourceGny/Pieces.antt =====
-- Several calls of `read` in a row, as the select loop makes them while the message comes in.
use gnyproxy.Prelude.{
  Holds, Holds-map, Holds-ok, ℕ, List, [], ◌∷◌, ◌++◌, ◌≡◌, refl, ap, ◌∙◌, Bytes, Result, ok, fault,
  Fault, ◌>>=◌,
}
use gnyproxy.Prelude.Int.{pos}
use gnyproxy.Socket.{Socket}
use gnyproxy.MessageSourceGny.Spec.{Parse, parse, parse-append}
use gnyproxy.MessageSourceGny.Config.{Config, view, Good}
use gnyproxy.MessageSourceGny.Closing.{base, idle, IsSettled}
use gnyproxy.MessageSourceGny.Reads.{advances, refuses, read_bytes-parse}
use gnyproxy.MessageSourceGny.{MessageSourceGny, read_bytes}

-- The bytes in the pieces in which the socket shows them.
unfoldable pub concat : List Bytes → Bytes
concat [] = []
concat (p ∷ ps) = p ++ concat ps

unfoldable pub read_pieces : MessageSourceGny → Socket → List Bytes → Result MessageSourceGny
read_pieces r s [] = ok r
read_pieces r s (p ∷ ps) = do (n, r') ← read_bytes r s p; read_pieces r' s ps

-- No piece ends inside the value of a header with a name of its own.
abbrev pub SettledCuts : List Bytes → Parse → Type 0
SettledCuts [] x = Unit {0}
SettledCuts (p ∷ ps) x = Holds (λ q. IsSettled q × SettledCuts ps q) (parse p x)

-- The reader behind all pieces is where the machine is, or both stop with one fault.
pub data ReadsAll (x : Result MessageSourceGny) (y : Result Parse) : Type 0 where
  arrives : (d : Config) → x ≡ ok (idle d) → y ≡ ok (view (base d)) → Good (base d) → ReadsAll x y
  refused : (e : Fault) → x ≡ fault e → y ≡ fault e → ReadsAll x y

-- However the bytes are cut into calls of `read`, the reader is at the end where the machine of
-- `Spec` is after all of them, or both stop with one fault. The socket delivers what it
-- has shown, and no call ends inside the value of a header with a name of its own.
pub read_pieces-parse :
    (ps : List Bytes) (c : Config) (s : Socket)
    → Good (base c)
    → ((n : ℕ) → s.consume n ≡ pos n)
    → SettledCuts ps (view (base c))
    → ReadsAll (read_pieces (idle c) s ps) (parse (concat ps) (view (base c)))
unfolding read_pieces concat parse
read_pieces-parse [] c s g k cuts = arrives c refl refl g
read_pieces-parse (p ∷ ps) c s g k cuts =
    elim (read_bytes-parse c s p g (λ n _. k n)
      (Holds-map _ IsSettled (parse p (view (base c))) (λ q h. h.0) cuts)) [
        | refuses e x y ↦
            refused e (ap (λ r. r >>= λ (n, r'). read_pieces r' s ps) x)
              (parse-append p (concat ps) _ ∙ ap (λ r. r >>= parse (concat ps)) y)
        | advances d n x y g' m z ↦
            elim (read_pieces-parse ps d s g' k
              (Holds-ok _ (parse p (view (base c))) (view (base d)) y cuts).1) [
                | refused e x' y' ↦
                    refused e (ap (λ r. r >>= λ (n, r'). read_pieces r' s ps) x ∙ x')
                      (parse-append p (concat ps) _ ∙ ap (λ r. r >>= parse (concat ps)) y ∙ y')
                | arrives d' x' y' g'' ↦
                    arrives d' (ap (λ r. r >>= λ (n, r'). read_pieces r' s ps) x ∙ x')
                      (parse-append p (concat ps) _ ∙ ap (λ r. r >>= parse (concat ps)) y ∙ y') g''
              ]
      ]
