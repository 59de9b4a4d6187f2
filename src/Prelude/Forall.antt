-- ===== src/Prelude/Forall.antt =====
-- Predicates on the members of a list, and byte strings.
use Prim.Native.Nat.{ℕ}
use mathlib.Core.Path.{◌≡◌}
use mathlib.Core.Bool.{false}
use mathlib.Core.List.{List, [], ◌∷◌, ◌++◌}
use Prim.Native.Char.{code}
use Prim.Native.String.{String}
use gnyproxy.Prelude.Tests.{◌==◌}

-- Bytes of a `std::string`, each as the unsigned number that its bits stand for.
abbrev pub Bytes : Type 0
Bytes = List ℕ

abbrev pub All {ℓ κ} : {X : Type ℓ} → (X → Type κ) → List X → Type κ
All Q [] = Unit
All Q (first ∷ others) = Q first × All Q others

pub All-append {ℓ κ} :
    {X : Type ℓ} (Q : X → Type κ) (front back : List X)
    → All Q front
    → All Q back
    → All Q (front ++ back)
All-append Q [] back f b = b
All-append Q (first ∷ others) back (f, more) b = (f, All-append Q others back more b)

-- The bytes of an ASCII literal.
abbrev pub codes : String → Bytes
codes String.[] = []
codes (String.◌∷◌ c s) = code c ∷ codes s

-- The byte `c` does not stand in the string.
abbrev pub Free : ℕ → Bytes → Type 0
Free c = All λ x. (x == c) ≡ false
