-- ===== src/Prelude/Stores.antt =====
-- Stores that give each number a value, with the update at one number.
use Prim.Native.Nat.{ℕ}
use quickspin.Prelude.Tests.{◌==◌, if◌then◌else◌}

module _ {ℓ} {A : Type ℓ} where
  abbrev pub put : (ℕ → A) → ℕ → A → ℕ → A
  put f k v j = if j == k then v else f j
