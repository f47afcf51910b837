-- ===== src/Gates/Tokens/Row.antt =====
-- One row of the table of longest common subsequences, held in the bits of a number.
use Prim.Native.Nat.{bit_and, bit_or}
use saffron.Prelude.Bits.{and-half, and-le, and-low, and_absorb, or-half, or-low}
use saffron.Prelude.{
  ℕ, zero, suc, ◌+◌, ◌-◌, ◌/◌, ◌%◌, ◌≤◌, ◌≡◌, refl, ap, ap₂, sym, ◌∙◌, inl, inr, Bool, true, false,
  not, List, [], ◌∷◌, map, arith, Text, same, Bool-cases, if◌then◌else◌, ◌==◌,
}
use saffron.Gates.Tokens.Longest.{lcs, lcs-same, lcs-other}

-- The lowest bits of a number, lowest first.
unfoldable pub low_bits : ℕ → ℕ → List Bool
low_bits zero n = []
low_bits (suc width) n = (n % 2 == 1) ∷ low_bits width (n / 2)

-- The sum with a carry, and the difference, bit by bit: the bits of the update of one row from
-- those of the row and of the tokens that match.
unfoldable pub ripple : Bool → List Bool → List Bool → List Bool
ripple carry [] matched = []
ripple carry (v ∷ vs) [] = []
ripple carry (v ∷ vs) (m ∷ ms) =
    let kept = ripple carry vs ms in
    let set = ripple true vs ms in
    let cleared = ripple false vs ms in
    if v then (if m then carry ∷ set else true ∷ kept) else carry ∷ cleared

-- Every binary digit of `m` is one of `v`.
abbrev IsWithin : ℕ → ℕ → Type 0
IsWithin m v = bit_and v m ≡ m

IsWithin-half : (m v : ℕ) → IsWithin m v → IsWithin (m / 2) (v / 2)
IsWithin-half m v h = sym (and-half v m) ∙ ap (λ n. n / 2) h

IsWithin-low : (m v : ℕ) → IsWithin m v → m % 2 ≤ v % 2
IsWithin-low m v h = omega (arith, and-low v m, ap (λ (n : ℕ). n % 2) h)

IsWithin-le : (m v : ℕ) → IsWithin m v → m ≤ v
IsWithin-le m v h = omega (arith, and-le v m)

abbrev digit : Bool → ℕ
digit true = 1
digit false = 0

digit_le : (b : Bool) → digit b ≤ 1
digit_le true = omega arith
digit_le false = omega arith

-- `(v + m) | (v - m)` has the bits that the ripple computes, whatever stands above them.
update_bits :
    (width v m : ℕ) (carry : Bool)
    → IsWithin m v
    → low_bits width (bit_or (v + m + digit carry) (v - m))
      ≡ ripple carry (low_bits width v) (low_bits width m)
unfolding low_bits ripple
update_bits zero v m carry h = refl
update_bits (suc width) v m carry h =
    let x = v + m + digit carry in
    let y = v - m in
    let within = IsWithin-half m v h in
    let low = IsWithin-low m v h in
    let le = IsWithin-le m v h in
    let next = λ (c : Bool). λ (e : x / 2 ≡ v / 2 + m / 2 + digit c).
      let half_y : y / 2 ≡ v / 2 - m / 2 = omega arith in
      ap (low_bits width) (or-half x y ∙ ap₂ bit_or e half_y)
      ∙ update_bits width (v / 2) (m / 2) c within in
    elim (Bool-cases (v % 2 == 1)) [
      | inl p ↦ elim (Bool-cases (m % 2 == 1)) [
        | inl q ↦
            rw (p, q)
              (ap₂ ◌∷◌ (ground (arith, or-low x y)) (next true (ground (arith, digit_le carry))))
        | inr q ↦
            rw (p, q)
              (ap₂ ◌∷◌ (ground (arith, or-low x y)) (next carry (ground (arith, digit_le carry))))
      ]
      | inr p ↦
          rw p (ap₂ ◌∷◌ (ground (arith, or-low x y)) (next false (ground (arith, digit_le carry))))
    ]

-- A digit of the second operand counts only where the row has one.
ripple-and :
    (width v k : ℕ) (carry : Bool)
    → ripple carry (low_bits width v) (low_bits width (bit_and v k))
      ≡ ripple carry (low_bits width v) (low_bits width k)
unfolding low_bits ripple
ripple-and zero v k carry = refl
ripple-and (suc width) v k carry =
    let next = λ (c : Bool).
      ap (λ n. ripple c (low_bits width (v / 2)) (low_bits width n)) (and-half v k)
      ∙ ripple-and width (v / 2) (k / 2) c in
    elim (Bool-cases (v % 2 == 1)) [
      | inl p ↦ elim (Bool-cases (k % 2 == 1)) [
        | inl q ↦
            let both : (bit_and v k % 2 == 1) ≡ true = ground (arith, and-low v k) in
            rw (p, q, both) (ap (λ rest. carry ∷ rest) (next true))
        | inr q ↦
            let both : (bit_and v k % 2 == 1) ≡ false = ground (arith, and-low v k) in
            rw (p, q, both) (ap (λ rest. true ∷ rest) (next carry))
      ]
      | inr p ↦ rw p (ap (λ rest. carry ∷ rest) (next false))
    ]

-- One round of the loop over `b`.
pub round_bits :
    (width v k : ℕ)
    → low_bits width (bit_or (v + bit_and v k) (v - bit_and v k))
      ≡ ripple false (low_bits width v) (low_bits width k)
round_bits width v k =
    let m = bit_and v k in
    ap (λ (n : ℕ). low_bits width (bit_or n (v - m))) (omega arith)
    ∙ update_bits width v m false (and_absorb v k)
    ∙ ripple-and width v k false

-- The bits are clear exactly where the length grows by one along `a`: `p` is what stands before
-- `a`, backwards, and `q` the tokens of the other list so far, backwards.
abbrev pub Row : List Text → List Text → List Bool → List Text → Type 0
Row q p [] [] = Unit
Row q p [] (x ∷ a) = ⊥
Row q p (v ∷ vs) [] = ⊥
Row q p (v ∷ vs) (x ∷ a) = (lcs (x ∷ p) q ≡ lcs p q + digit (not v)) × Row q (x ∷ p) vs a

pub Row-step :
    (y : Text) (q p : List Text) (carry : Bool) (vs : List Bool) (a : List Text)
    → lcs p (y ∷ q) ≡ lcs p q + digit carry
    → Row q p vs a
    → Row (y ∷ q) p (ripple carry vs (map (λ x. same x y) a)) a
unfolding ripple
Row-step y q p carry [] [] h r = tt
Row-step y q p carry [] (x ∷ a) h r = r
Row-step y q p carry (v ∷ vs) [] h r = absurd r
Row-step y q p carry (true ∷ vs) (x ∷ a) h r = elim (Bool-cases (same x y)) [
  | inl e ↦
      let here = lcs-same x y p q e in
      rw e (ground arith, Row-step y q (x ∷ p) true vs a (ground arith) r.1)
  | inr e ↦
      let here = lcs-other x y p q e in
      rw e (ground arith, Row-step y q (x ∷ p) carry vs a (ground arith) r.1)
]
Row-step y q p carry (false ∷ vs) (x ∷ a) h r = elim (Bool-cases (same x y)) [
  | inl e ↦
      let here = lcs-same x y p q e in
      (ground arith, Row-step y q (x ∷ p) false vs a (ground arith) r.1)
  | inr e ↦
      let here = lcs-other x y p q e in
      (
        ground (arith, digit_le carry),
        Row-step y q (x ∷ p) false vs a (ground (arith, digit_le carry)) r.1,
      )
]
