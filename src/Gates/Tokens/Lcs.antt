-- ===== src/Gates/Tokens/Lcs.antt =====
-- The bit-parallel length is the length of a longest common subsequence.
use mathlib.Core.List.{Sublistᴰ}
use saffron.Prelude.{
  ℕ, ◌+◌, ◌-◌, ◌^◌, ◌≡◌, refl, sym, ◌∙◌, subst, Bool, true, false, List, [], ◌∷◌, ◌++◌, map, arith,
  Text, same, same_iff, elem, length, All, All-map, append-nil, if_cases, ltb,
}
use saffron.Gates.Tokens.{Masks, build_masks, no_masks, run_tokens, lcs_of_shorter, lcs_length}
use saffron.Gates.Tokens.Longest.{
  IsLongest, IsLongest-unique, lcs, lcs-IsLongest, lcs-nil, lcs-nil_left,
}
use saffron.Gates.Tokens.Row.{low_bits, round_bits, Row, Row-step}
use saffron.Gates.Tokens.Masks.{low_bits-masks, trues, ones-mask, full_head, full_tail}

-- A list put backwards in front of another.
unfoldable pub onto : List Text → List Text → List Text
onto [] p = p
onto (x ∷ a) p = onto a (x ∷ p)

Row-start : (a p : List Text) → Row [] p (low_bits (length a) (2 ^ length a - 1)) a
unfolding low_bits
Row-start [] p = tt
Row-start (x ∷ a) p =
    rw (full_head (length a), full_tail (length a))
      (omega (arith, lcs-nil (x ∷ p), lcs-nil p), Row-start a (x ∷ p))

Row-run :
    (masks : Masks) (a : List Text) (tokens q : List Text) (v : ℕ)
    → All (λ y. low_bits (length a) (masks y) ≡ map (λ x. same x y) a) tokens
    → Row q [] (low_bits (length a) v) a
    → Row (onto tokens q) [] (low_bits (length a) (run_tokens masks tokens v)) a
unfolding onto run_tokens
Row-run masks a [] q v h r = r
Row-run masks a (y ∷ tokens) q v h r = Row-run masks a tokens (y ∷ q) _ h.1 (
    rw (round_bits (length a) v (masks y), h.0)
      (Row-step y q [] false (low_bits (length a) v) a
        (omega (arith, lcs-nil_left (y ∷ q), lcs-nil_left q)) r))

Row-total :
    (q p : List Text) (vs : List Bool) (a : List Text)
    → Row q p vs a
    → lcs (onto a p) q + trues vs ≡ lcs p q + length a
unfolding onto
Row-total q p [] [] r = omega arith
Row-total q p [] (x ∷ a) r = absurd r
Row-total q p (v ∷ vs) [] r = absurd r
Row-total q p (v ∷ vs) (x ∷ a) r = ground (arith, Row-total q (x ∷ p) vs a r.1)

masks_fit :
    (a b tokens : List Text)
    → All (λ y. elem y b ≡ true) tokens
    → All (λ y. low_bits (length a) (build_masks b 0 a no_masks y) ≡ map (λ x. same x y) a) tokens
masks_fit a b [] h = tt
masks_fit a b (y ∷ tokens) h = (low_bits-masks a b y h.0, masks_fit a b tokens h.1)

elem_self : (b : List Text) → All (λ y. elem y b ≡ true) b
elem_self [] = tt
elem_self (x ∷ b) = (ground (arith, same_iff x x), All-map (λ y h. ground arith) b (elem_self b))

lcs_of_shorter-onto : (a b : List Text) → lcs_of_shorter a b ≡ lcs (onto a []) (onto b [])
unfolding lcs_of_shorter
lcs_of_shorter-onto [] b = unfold onto in sym (lcs-nil_left _)
lcs_of_shorter-onto (t ∷ a) b =
    let width = length (t ∷ a) in
    let masks = build_masks b 0 (t ∷ a) no_masks in
    let v = run_tokens masks b (2 ^ width - 1) in
    let row =
      Row-run masks (t ∷ a) b [] (2 ^ width - 1) (masks_fit (t ∷ a) b b (elem_self b))
        (Row-start (t ∷ a) []) in
    let total = Row-total (onto b []) [] (low_bits width v) (t ∷ a) row in
    omega (arith, total, ones-mask width v, lcs-nil_left (onto b []))

onto_sublist :
    {c a : List Text} (d p : List Text)
    → Sublistᴰ c a
    → Sublistᴰ d p
    → Sublistᴰ (onto c d) (onto a p)
unfolding onto
onto_sublist d p Sublistᴰ.slnil k = k
onto_sublist d p (Sublistᴰ.cons {a = x} h) k = onto_sublist d (x ∷ p) h (Sublistᴰ.cons k)
onto_sublist d p (Sublistᴰ.cons-cons {a = x} {b = y} e h) k =
    onto_sublist (x ∷ d) (y ∷ p) h (Sublistᴰ.cons-cons e k)

onto-onto : (a p q : List Text) → onto (onto a p) q ≡ onto p (a ++ q)
unfolding onto
onto-onto [] p q = refl
onto-onto (x ∷ a) p q = onto-onto a (x ∷ p) q

pub onto_twice : (a : List Text) → onto (onto a []) [] ≡ a
onto_twice a = onto-onto a [] [] ∙ unfold onto in append-nil a

pub length-onto : (a p : List Text) → length (onto a p) ≡ length a + length p
unfolding onto
length-onto [] p = omega arith
length-onto (x ∷ a) p = omega (arith, length-onto a (x ∷ p))

-- Reading both lists backwards changes no length.
pub IsLongest-onto :
    (n : ℕ) (a b : List Text) → IsLongest n (onto a []) (onto b []) → IsLongest n a b
IsLongest-onto n a b ((c, (h, k), size), most) = (
  (
    onto c [],
    (
      subst (Sublistᴰ (onto c [])) (onto_twice a) (onto_sublist [] [] h Sublistᴰ.slnil),
      subst (Sublistᴰ (onto c [])) (onto_twice b) (onto_sublist [] [] k Sublistᴰ.slnil),
    ),
    omega (arith, length-onto c []),
  ),
  (λ d (h', k'). omega (
    arith,
    length-onto d [],
    most (onto d []) (onto_sublist [] [] h' Sublistᴰ.slnil, onto_sublist [] [] k' Sublistᴰ.slnil),
  )),
)

IsLongest-symm : (n : ℕ) (a b : List Text) → IsLongest n a b → IsLongest n b a
IsLongest-symm n a b ((c, (h, k), size), most) =
    ((c, (k, h), size), (λ d common. most d (common.1, common.0)))

lcs_of_shorter-IsLongest : (a b : List Text) → IsLongest (lcs_of_shorter a b) a b
lcs_of_shorter-IsLongest a b =
    IsLongest-onto (lcs_of_shorter a b) a b
      (rw lcs_of_shorter-onto (lcs-IsLongest (onto a []) (onto b [])))

-- The bit-parallel algorithm is right: its result is the length of a longest common subsequence of
-- the two lists, one of that length exists and none is longer.
pub lcs_length-IsLongest : (a b : List Text) → IsLongest (lcs_length a b) a b
unfolding lcs_length
lcs_length-IsLongest a b =
    if_cases (λ n. IsLongest n a b) (ltb (length b) (length a)) (lcs_of_shorter b a)
      (lcs_of_shorter a b)
      (λ _. IsLongest-symm (lcs_of_shorter b a) b a (lcs_of_shorter-IsLongest b a))
      (λ _. lcs_of_shorter-IsLongest a b)

-- The bit-parallel algorithm computes what the quadratic recursion computes.
pub lcs_length-eq-lcs : (a b : List Text) → lcs_length a b ≡ lcs a b
lcs_length-eq-lcs a b =
    IsLongest-unique (lcs_length a b) (lcs a b) a b (lcs_length-IsLongest a b) (lcs-IsLongest a b)
