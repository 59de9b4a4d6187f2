-- ===== src/Prelude/Finite.antt =====
-- Tables that are checked by evaluation: a test of every number below a bound.
use Prim.Native.Nat.{ℕ, zero, suc, ◌<◌}
use mathlib.Core.Path.{◌≡◌}
use mathlib.Core.Bool.{Bool, true, ◌&&◌}
use native.Mathlib.Omega.{arith}

unfoldable pub every : (ℕ → Bool) → ℕ → Bool
every test zero = true
every test (suc bound) = every test bound && test bound

pub every-lt : (test : ℕ → Bool) (bound i : ℕ) → every test bound ≡ true → i < bound → test i ≡ true
unfolding every
every-lt test zero i holds small = absurd (omega arith)
every-lt test (suc bound) i holds small = ground (arith, every-lt test bound i)
