-- ===== src/Gates/Tokens/Longest.antt =====
-- Longest common subsequences: what the length is, and the recursion that computes it.
use Prim.Native.Nat.{max}
use mathlib.Core.List.{Sublistᴰ}
use mathlib.Core.List.Sublistᴰ
use native.Mathlib.Decide.{dec_le}
use saffron.Prelude.{
  ℕ, suc, ◌≤◌, ◌≡◌, refl, ap, sym, ◌∙◌, subst, ◌≢◌, ◌⊎◌, inl, inr, true, false, List, [], ◌∷◌,
  arith, Text, same, same_iff, length, Bool-cases, if◌then◌else◌,
}

abbrev pub IsCommon : List Text → List Text → List Text → Type 0
IsCommon c a b = Sublistᴰ c a × Sublistᴰ c b

-- `n` is the length of a longest common subsequence.
abbrev pub IsLongest : ℕ → List Text → List Text → Type 0
IsLongest n a b =
    ((c : List Text) × IsCommon c a b × (length c ≡ n))
    × ((c : List Text) → IsCommon c a b → length c ≤ n)

pub IsLongest-unique : (n m : ℕ) (a b : List Text) → IsLongest n a b → IsLongest m a b → n ≡ m
IsLongest-unique n m a b ((c, common, e), most) ((d, common', e'), most') =
    omega (arith, most d common', most' c common)

unfoldable pub lcs : List Text → List Text → ℕ
lcs [] b = 0
lcs (x ∷ a) [] = 0
lcs (x ∷ a) (y ∷ b) =
    let both = lcs a b in
    let left = lcs (x ∷ a) b in
    let right = lcs a (y ∷ b) in if same x y then suc both else max left right

tail_sublist : {x : Text} {c a : List Text} → Sublistᴰ (x ∷ c) a → Sublistᴰ c a
tail_sublist (Sublistᴰ.cons h) = Sublistᴰ.cons (tail_sublist h)
tail_sublist (Sublistᴰ.cons-cons e h) = Sublistᴰ.cons h

-- A common subsequence of lists with one head is no longer than one of the tails and the head.
pub same_head_bound :
    (n : ℕ) (x : Text) (a b c : List Text)
    → ((d : List Text) → IsCommon d a b → length d ≤ n)
    → IsCommon c (x ∷ a) (x ∷ b)
    → length c ≤ suc n
same_head_bound n x a b [] most h = omega arith
same_head_bound n x a b (y ∷ c) most (h, k) =
    let left : Sublistᴰ c a = elim (Sublistᴰ.cases_cons h) [
      | inl s ↦ tail_sublist s
      | inr (r, e, s) ↦ subst (λ t. Sublistᴰ t a) (sym (cons_tail e)) s
    ] in
    let right : Sublistᴰ c b = elim (Sublistᴰ.cases_cons k) [
      | inl s ↦ tail_sublist s
      | inr (r, e, s) ↦ subst (λ t. Sublistᴰ t b) (sym (cons_tail e)) s
    ] in
    omega (arith, most c (left, right))
  where
    cons_tail : {u v : Text} {c r : List Text} → u ∷ c ≡ v ∷ r → c ≡ r
    cons_tail e = cc

-- A common subsequence of lists with two heads leaves out one of them.
other_head :
    (x y : Text) (a b c : List Text)
    → x ≢ y
    → IsCommon c (x ∷ a) (y ∷ b)
    → IsCommon c a (y ∷ b) ⊎ IsCommon c (x ∷ a) b
other_head x y a b c other (h, k) = elim (Sublistᴰ.cases_cons h) [
  | inl s ↦ inl (s, k)
  | inr (r, e, s) ↦ elim (Sublistᴰ.cases_cons k) [
    | inl t ↦ inr (h, t)
    | inr (r', e', t) ↦ absurd (other (cons_head (sym e ∙ e')))
  ]
]
  where
    cons_head : {u v : Text} {c r : List Text} → u ∷ c ≡ v ∷ r → u ≡ v
    cons_head e = cc

longer_side :
    (l r : ℕ) (x y : Text) (a b : List Text)
    → IsLongest l (x ∷ a) b
    → IsLongest r a (y ∷ b)
    → (c : List Text) × IsCommon c (x ∷ a) (y ∷ b) × (length c ≡ max l r)
longer_side l r x y a b ((c, (h, k), size), most) ((d, (h', k'), size'), most') =
    elim (dec_le l r) [
      | yes p ↦ (d, (Sublistᴰ.cons h', k'), omega arith)
      | no p ↦ (c, (h, Sublistᴰ.cons k), omega arith)
    ]

other_heads-IsLongest :
    (l r : ℕ) (x y : Text) (a b : List Text)
    → x ≢ y
    → IsLongest l (x ∷ a) b
    → IsLongest r a (y ∷ b)
    → IsLongest (max l r) (x ∷ a) (y ∷ b)
other_heads-IsLongest l r x y a b other left right = (
  longer_side l r x y a b left right,
  (λ c common. elim (other_head x y a b c other common) [
    | inl h ↦ omega (arith, right.1 c h)
    | inr h ↦ omega (arith, left.1 c h)
  ]),
)

-- The recursion computes the length of a longest common subsequence.
pub lcs-IsLongest : (a b : List Text) → IsLongest (lcs a b) a b
unfolding lcs
lcs-IsLongest [] b = (
  ([], (Sublistᴰ.slnil, Sublistᴰ.nil-sublist b), refl),
  (λ c h. rw (Sublistᴰ.eq-nil h.0) (omega arith)),
)
lcs-IsLongest (x ∷ a) [] = (
  ([], (Sublistᴰ.nil-sublist (x ∷ a), Sublistᴰ.slnil), refl),
  (λ c h. rw (Sublistᴰ.eq-nil h.1) (omega arith)),
)
lcs-IsLongest (x ∷ a) (y ∷ b) =
    step (lcs-IsLongest a b) (lcs-IsLongest (x ∷ a) b) (lcs-IsLongest a (y ∷ b))
  where
    step :
        {n l r : ℕ}
        → IsLongest n a b
        → IsLongest l (x ∷ a) b
        → IsLongest r a (y ∷ b)
        → IsLongest (if same x y then suc n else max l r) (x ∷ a) (y ∷ b)
    step {n} {l} {r} both left right = elim (Bool-cases (same x y)) [
      | inl e ↦
          let heads = (same_iff x y).0 e in
          let ((c, (h, k), size), most) = both in
          rw (e, ← heads)
            (
              (x ∷ c, (Sublistᴰ.cons-cons refl h, Sublistᴰ.cons-cons refl k), ap suc size),
              (λ d common. same_head_bound n x a b d most common),
            )
      | inr e ↦
          rw e
            (other_heads-IsLongest l r x y a b (λ heads. ground (arith, same_iff x y)) left right)
    ]

pub lcs-same :
    (x y : Text) (a b : List Text) → same x y ≡ true → lcs (x ∷ a) (y ∷ b) ≡ suc (lcs a b)
unfolding lcs
lcs-same x y a b e = rw e

pub lcs-other :
    (x y : Text) (a b : List Text)
    → same x y ≡ false
    → lcs (x ∷ a) (y ∷ b) ≡ max (lcs (x ∷ a) b) (lcs a (y ∷ b))
unfolding lcs
lcs-other x y a b e = rw e

pub lcs-nil : (a : List Text) → lcs a [] ≡ 0
unfolding lcs
lcs-nil [] = refl
lcs-nil (x ∷ a) = refl

pub lcs-nil_left : (b : List Text) → lcs [] b ≡ 0
unfolding lcs
lcs-nil_left b = refl
