-- ===== src/Gates/Tokens/Masks.antt =====
-- The bits of the masks, of a full row, and of the count at the end.
use Prim.Native.Nat.{bit_and, bit_or}
use native.Mathlib.Nat.{pow-suc}
use saffron.Prelude.Bits.{and-half, and-low, and-le_right, or-half, or-low}
use saffron.Prelude.{
  ℕ, zero, suc, ◌+◌, ◌-◌, ◌/◌, ◌%◌, ◌^◌, ◌≤◌, ◌<◌, ◌≡◌, refl, ap, ap₂, ◌∙◌, inl, inr, Bool, true,
  false, ◌&&◌, ◌||◌, List, [], ◌∷◌, map, arith, Text, same, same_iff, elem, length, Bool-cases,
  if◌then◌else◌, ◌==◌,
}
use saffron.Gates.Tokens.{Masks, set_mask, build_masks, no_masks, count_ones, ones}
use saffron.Gates.Tokens.Row.{low_bits}

bit_at : ℕ → ℕ → Bool
bit_at zero n = n % 2 == 1
bit_at (suc i) n = bit_at i (n / 2)

bit_at-or : (i a b : ℕ) → bit_at i (bit_or a b) ≡ (bit_at i a || bit_at i b)
unfolding bit_at
bit_at-or zero a b = ground (arith, or-low a b)
bit_at-or (suc i) a b = ap (bit_at i) (or-half a b) ∙ bit_at-or i (a / 2) (b / 2)

bit_at-zero : (i : ℕ) → bit_at i 0 ≡ false
unfolding bit_at
bit_at-zero zero = refl
bit_at-zero (suc i) = bit_at-zero i

bit_at-pow : (i j : ℕ) → bit_at i (2 ^ j) ≡ (i == j)
unfolding bit_at
bit_at-pow zero zero = refl
bit_at-pow zero (suc j) = ground (arith, pow-suc 2 j)
bit_at-pow (suc i) zero = ground (arith, bit_at-zero i)
bit_at-pow (suc i) (suc j) =
    let half : 2 ^ suc j / 2 ≡ 2 ^ j = omega (arith, pow-suc 2 j) in
    ap (bit_at i) half ∙ ground (arith, bit_at-pow i j)

-- The token stands in `a`, counted from `index`, at place `i`.
hit : Text → ℕ → List Text → ℕ → Bool
hit token index [] i = false
hit token index (x ∷ a) i = (same x token && i == index) || hit token (index + 1) a i

same-absent :
    (b : List Text) (token x : Text) → elem token b ≡ true → elem x b ≡ false → same x token ≡ false
same-absent b token x h k = elim (Bool-cases (same x token)) [
  | inl s ↦ let e = ap (λ (t : Text). elem t b) ((same_iff x token).0 s) in absurd (ground arith)
  | inr s ↦ s
]

bit_at-build_masks :
    (b : List Text) (index : ℕ) (a : List Text) (masks : Masks) (token : Text) (i : ℕ)
    → elem token b ≡ true
    → bit_at i (build_masks b index a masks token) ≡ (bit_at i (masks token) || hit token index a i)
unfolding build_masks hit
bit_at-build_masks b index [] masks token i h = ground arith
bit_at-build_masks b index (x ∷ a) masks token i h =
    let updated = set_mask masks x (bit_or (masks x) (2 ^ index)) in
    elim (Bool-cases (elem x b)) [
      | inl e ↦ elim (Bool-cases (same x token)) [
        | inl s ↦
            let heads = (same_iff x token).0 s in
            let here : bit_at i (updated token) ≡ (bit_at i (masks token) || i == index) =
              unfold set_mask in
              rw (s, heads)
                (bit_at-or i (masks token) (2 ^ index) ∙ ground (arith, bit_at-pow i index)) in
            ground (arith, here, bit_at-build_masks b (index + 1) a updated token i h)
        | inr s ↦
            let here : updated token ≡ masks token = unfold set_mask in rw s in
            ground (arith, ap (bit_at i) here, bit_at-build_masks b (index + 1) a updated token i h)
      ]
      | inr e ↦
          let other = same-absent b token x h e in
          ground (arith, other, bit_at-build_masks b (index + 1) a masks token i h)
    ]

hit_below :
    (token : Text) (index : ℕ) (a : List Text) (i : ℕ) → i < index → hit token index a i ≡ false
unfolding hit
hit_below token index [] i h = refl
hit_below token index (x ∷ a) i h = ground (arith, hit_below token (index + 1) a i (omega arith))

low_bits-hit :
    (token : Text) (index : ℕ) (a : List Text) (n : ℕ)
    → ((i : ℕ) → bit_at i n ≡ hit token index a (index + i))
    → low_bits (length a) n ≡ map (λ x. same x token) a
unfolding low_bits
low_bits-hit token index [] n h = refl
low_bits-hit token index (x ∷ a) n h =
    ap₂ ◌∷◌ first (low_bits-hit token (index + 1) a (n / 2) later)
  where
    first : (n % 2 == 1) ≡ same x token
    first =
        unfold bit_at hit in
        ground (arith, h 0, hit_below token (index + 1) a (index + 0) (omega arith))

    later : (i : ℕ) → bit_at i (n / 2) ≡ hit token (index + 1) a (index + 1 + i)
    later i =
        unfold bit_at hit in (h (suc i) ∙ ground (arith, ap (hit token (index + 1) a) (shift i)))
      where
        shift : (i : ℕ) → index + suc i ≡ index + 1 + i
        shift i = omega arith

-- The mask of a token of `b` has a bit for each place of `a` where the token stands.
pub low_bits-masks :
    (a b : List Text) (token : Text)
    → elem token b ≡ true
    → low_bits (length a) (build_masks b 0 a no_masks token) ≡ map (λ x. same x token) a
low_bits-masks a b token h = low_bits-hit token 0 a (build_masks b 0 a no_masks token) λ i.
    bit_at-build_masks b 0 a no_masks token i h
    ∙ ground (arith, bit_at-zero i, ap (hit token 0 a) (plus_zero i))
  where
    plus_zero : (i : ℕ) → 0 + i ≡ i
    plus_zero i = omega arith

pow_pos : (width : ℕ) → 0 < 2 ^ width
pow_pos zero = omega arith
pow_pos (suc width) = omega (arith, pow-suc 2 width, pow_pos width)

abbrev pub trues : List Bool → ℕ
trues [] = 0
trues (b ∷ bs) = if b then suc (trues bs) else trues bs

pub low_bits-and_mask :
    (width v : ℕ) → low_bits width (bit_and v (2 ^ width - 1)) ≡ low_bits width v
unfolding low_bits
low_bits-and_mask zero v = refl
low_bits-and_mask (suc width) v =
    let mask = 2 ^ suc width - 1 in
    let odd : mask % 2 ≡ 1 = omega (arith, pow-suc 2 width, pow_pos width) in
    let half : mask / 2 ≡ 2 ^ width - 1 = omega (arith, pow-suc 2 width, pow_pos width) in
    ap₂ ◌∷◌ (ground (arith, and-low v mask)) (
      ap (low_bits width) (and-half v mask ∙ ap (bit_and (v / 2)) half)
      ∙ low_bits-and_mask width (v / 2))

count_ones-trues :
    (fuel width n : ℕ) → n ≤ fuel → n < 2 ^ width → count_ones fuel n ≡ trues (low_bits width n)
unfolding count_ones low_bits
count_ones-trues zero zero n h k = refl
count_ones-trues (suc fuel) zero n h k =
    let nothing : n / 2 ≡ 0 = omega arith in
    ground (arith, count_ones-trues fuel zero (n / 2) (omega arith) (omega arith))
count_ones-trues zero (suc width) n h k =
    ground (arith, pow_pos width, count_ones-trues zero width (n / 2) (omega arith))
count_ones-trues (suc fuel) (suc width) n h k =
    ground (arith, pow-suc 2 width, count_ones-trues fuel width (n / 2))

-- The count of ones among the low bits of a vector.
pub ones-mask : (width v : ℕ) → ones (bit_and v (2 ^ width - 1)) ≡ trues (low_bits width v)
unfolding ones
ones-mask width v =
    let n = bit_and v (2 ^ width - 1) in
    let small : n < 2 ^ width = omega (arith, and-le_right v (2 ^ width - 1), pow_pos width) in
    count_ones-trues n width n (omega arith) small ∙ ap trues (low_bits-and_mask width v)

-- Every bit of a full row is set.
pub full_head : (width : ℕ) → ((2 ^ suc width - 1) % 2 == 1) ≡ true
full_head width = ground (arith, pow-suc 2 width, pow_pos width)

pub full_tail : (width : ℕ) → (2 ^ suc width - 1) / 2 ≡ 2 ^ width - 1
full_tail width = omega (arith, pow-suc 2 width, pow_pos width)
