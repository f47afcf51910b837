-- ===== src/Prelude/Ints.antt =====
-- Python's `int` where a sign is possible, and its order.
use Prim.Native.Nat.{ℕ}
use mathlib.Core.Path.{◌≡◌}
use mathlib.Core.Bool.{Bool, true, false}
use native.Mathlib.Omega.{arith}
use saffron.Prelude.Tests.{ltb}

-- `negsuc n` is -(n + 1).
pub data ℤ : Type 0 where
  pos : ℕ → ℤ
  negsuc : ℕ → ℤ

-- `a < b`
abbrev pub lt_ℤ : ℤ → ℤ → Bool
lt_ℤ (pos a) (pos b) = ltb a b
lt_ℤ (pos a) (negsuc b) = false
lt_ℤ (negsuc a) (pos b) = true
lt_ℤ (negsuc a) (negsuc b) = ltb b a

pub lt_ℤ_irrefl : (a : ℤ) → lt_ℤ a a ≡ false
lt_ℤ_irrefl (pos a) = ground arith
lt_ℤ_irrefl (negsuc a) = ground arith

pub lt_ℤ_asym : (a b : ℤ) → lt_ℤ a b ≡ true → lt_ℤ b a ≡ false
lt_ℤ_asym (pos a) (pos b) h = ground arith
lt_ℤ_asym (pos a) (negsuc b) h = cc
lt_ℤ_asym (negsuc a) (pos b) h = ground arith
lt_ℤ_asym (negsuc a) (negsuc b) h = ground arith

-- What is not below a number is not below what stands below it.
pub lt_ℤ-false_trans : (a b c : ℤ) → lt_ℤ b a ≡ false → lt_ℤ c b ≡ false → lt_ℤ c a ≡ false
lt_ℤ-false_trans (pos a) (pos b) (pos c) h k = ground arith
lt_ℤ-false_trans (pos a) (pos b) (negsuc c) h k = cc
lt_ℤ-false_trans (pos a) (negsuc b) c h k = cc
lt_ℤ-false_trans (negsuc a) (pos b) (pos c) h k = ground arith
lt_ℤ-false_trans (negsuc a) (pos b) (negsuc c) h k = cc
lt_ℤ-false_trans (negsuc a) (negsuc b) (pos c) h k = ground arith
lt_ℤ-false_trans (negsuc a) (negsuc b) (negsuc c) h k = ground arith
