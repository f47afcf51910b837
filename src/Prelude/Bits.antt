-- ===== src/Prelude/Bits.antt =====
-- `&` and `|` on numbers, by the lowest binary digit and the half.
use Prim.Native.Nat.{
  ℕ, zero, suc, ◌+◌, ◌*◌, ◌/◌, ◌%◌, ◌≤◌, min, max, bit_and, bit_or, digits, bit_and-bitwise,
  bit_or-bitwise,
}
use mathlib.Core.Path.{◌≡◌, refl, ap, ◌∙◌}
use native.Mathlib.Omega.{arith}

module _ (rest : ℕ → ℕ) (op : ℕ → ℕ → ℕ) where
  -- Any two numbers of rounds that reach the first operand give one result.
  digits_settle :
      (more less a b : ℕ)
      → a ≤ less
      → less ≤ more
      → digits rest op more a b ≡ digits rest op less a b
  digits_settle zero zero a b h k = refl
  digits_settle (suc more) zero zero b h k = refl
  digits_settle (suc more) (suc less) zero b h k = refl
  digits_settle (suc more) (suc less) (suc a) b h k =
      let shorter = digits_settle more less (suc a / 2) (b / 2) (omega arith) (omega arith) in
      omega arith
  digits_settle zero (suc less) a b h k = absurd (omega arith)
  digits_settle (suc more) zero (suc a) b h k = absurd (omega arith)

  digits_split :
      (a b : ℕ)
      → digits rest op (suc a) (suc a) b
        ≡ digits rest op (suc a / 2) (suc a / 2) (b / 2) * 2 + op (suc a % 2) (b % 2)
  digits_split a b =
      let shorter = digits_settle a (suc a / 2) (suc a / 2) (b / 2) (omega arith) (omega arith) in
      omega arith

min_digit : (a b : ℕ) → min (a % 2) (b % 2) ≤ 1
min_digit a b = omega arith

and_step : (a b : ℕ) → bit_and a b ≡ bit_and (a / 2) (b / 2) * 2 + min (a % 2) (b % 2)
and_step zero b = omega (arith, bit_and-bitwise 0 b, bit_and-bitwise 0 (b / 2))
and_step (suc a) b = omega (
  arith,
  bit_and-bitwise (suc a) b,
  bit_and-bitwise (suc a / 2) (b / 2),
  digits_split (λ y. 0) min a b,
)

or_step : (a b : ℕ) → bit_or a b ≡ bit_or (a / 2) (b / 2) * 2 + max (a % 2) (b % 2)
or_step zero b = omega (arith, bit_or-bitwise 0 b, bit_or-bitwise 0 (b / 2))
or_step (suc a) b = omega (
  arith,
  bit_or-bitwise (suc a) b,
  bit_or-bitwise (suc a / 2) (b / 2),
  digits_split (λ y. y) max a b,
)

pub and-half : (a b : ℕ) → bit_and a b / 2 ≡ bit_and (a / 2) (b / 2)
and-half a b = omega (arith, and_step a b)

pub and-low : (a b : ℕ) → bit_and a b % 2 ≡ min (a % 2) (b % 2)
and-low a b = omega (arith, and_step a b)

pub or-half : (a b : ℕ) → bit_or a b / 2 ≡ bit_or (a / 2) (b / 2)
or-half a b = omega (arith, or_step a b)

pub or-low : (a b : ℕ) → bit_or a b % 2 ≡ max (a % 2) (b % 2)
or-low a b = omega (arith, or_step a b)

and-le_fuel : (fuel a b : ℕ) → a ≤ fuel → bit_and a b ≤ a
and-le_fuel fuel zero b h = omega (arith, bit_and-bitwise 0 b)
and-le_fuel zero (suc a) b h = absurd (omega arith)
and-le_fuel (suc fuel) (suc a) b h =
    omega (arith, and_step (suc a) b, and-le_fuel fuel (suc a / 2) (b / 2) (omega arith))

pub and-le : (a b : ℕ) → bit_and a b ≤ a
and-le a b = and-le_fuel a a b (omega arith)

and-le_right_fuel : (fuel a b : ℕ) → a ≤ fuel → bit_and a b ≤ b
and-le_right_fuel fuel zero b h = omega (arith, bit_and-bitwise 0 b)
and-le_right_fuel zero (suc a) b h = absurd (omega arith)
and-le_right_fuel (suc fuel) (suc a) b h =
    omega (arith, and_step (suc a) b, and-le_right_fuel fuel (suc a / 2) (b / 2) (omega arith))

pub and-le_right : (a b : ℕ) → bit_and a b ≤ b
and-le_right a b = and-le_right_fuel a a b (omega arith)

and_absorb_fuel : (fuel a b : ℕ) → a ≤ fuel → bit_and a (bit_and a b) ≡ bit_and a b
and_absorb_fuel fuel zero b h = omega (arith, bit_and-bitwise 0 b, bit_and-bitwise 0 (bit_and 0 b))
and_absorb_fuel zero (suc a) b h = absurd (omega arith)
and_absorb_fuel (suc fuel) (suc a) b h =
    let n = bit_and (suc a) b in
    let shorter = and_absorb_fuel fuel (suc a / 2) (b / 2) (omega arith) in
    let halves : bit_and (suc a / 2) (n / 2) ≡ bit_and (suc a / 2) (b / 2) =
      ap (λ (t : ℕ). bit_and (suc a / 2) t) (and-half (suc a) b) ∙ shorter in
    omega (arith, and_step (suc a) n, and_step (suc a) b, halves)

pub and_absorb : (a b : ℕ) → bit_and a (bit_and a b) ≡ bit_and a b
and_absorb a b = and_absorb_fuel a a b (omega arith)
