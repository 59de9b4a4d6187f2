-- ===== src/Socket.antt =====
-- The calls of the sockets library, which the code uses and does not define. A call's outcome is
-- a parameter of the models: `peek n` is what `recv(s, buf, n, MSG_PEEK)` gives, `consume n` what a
-- later `recv(s, buf, n, 0)` returns, and `send n` what `send` returns for n bytes.
use gnyproxy.Prelude.{◌≡◌, refl, ◌⊎◌, inl, inr, [], ◌∷◌, ℕ, Bool, false, ◌==◌, Bytes}
use gnyproxy.Prelude.Int.{ℤ, pos, negsuc}

-- `failed` is a return value of -1; no bytes is the end of the stream.
pub data Received : Type 0 where
  received : Bytes → Received
  failed : Received

pub record Socket : Type 0 where
  pub peek : ℕ → Received
  pub consume : ℕ → ℤ
  pub send : ℕ → ℤ

-- An equation between a `ssize_t` and an amount.
abbrev pub is_amount : ℤ → ℕ → Bool
is_amount (pos n) amt = n == amt
is_amount (negsuc n) amt = false

pub Received-cases :
    (r : Received)
    → (r ≡ failed) ⊎ ((r ≡ received []) ⊎ ((b : ℕ) × (bytes : Bytes) × (r ≡ received (b ∷ bytes))))
Received-cases failed = inl refl
Received-cases (received []) = inr (inl refl)
Received-cases (received (b ∷ bytes)) = inr (inr (b, bytes, refl))
