-- ===== src/Prelude/Floats.antt =====
-- Go's float64: a number is its 64 bits, and the operations are a parameter. Zero is the bits 0.
use Prim.Native.Nat.{ℕ}
use mathlib.Core.Bool.{Bool}

pub record FloatLib : Type 0 where
  pub of_nat : ℕ → ℕ  -- the conversion of an integer that is not negative
  pub add : ℕ → ℕ → ℕ
  pub sub : ℕ → ℕ → ℕ
  pub mul : ℕ → ℕ → ℕ
  pub div : ℕ → ℕ → ℕ
  pub less : ℕ → ℕ → Bool
  pub leq : ℕ → ℕ → Bool
