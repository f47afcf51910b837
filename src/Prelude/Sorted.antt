-- ===== src/Prelude/Sorted.antt =====
-- `sorted(set(names))`: the names once each, in the order of `str`.
use mathlib.Core.Path.{◌≡◌, refl}
use mathlib.Core.Logic.{inl, inr}
use mathlib.Core.Bool.{true, false, ◌||◌}
use mathlib.Core.List.{List, [], ◌∷◌}
use native.Mathlib.Omega.{arith}
use saffron.Prelude.Tests.{if◌then◌else◌, Bool-cases}
use saffron.Prelude.Lists.{All, All-map}
use saffron.Prelude.Texts.{Text, same, same_iff, elem, text_lt}

unfoldable pub insert_name : Text → List Text → List Text
insert_name n [] = n ∷ []
insert_name n (m ∷ names) =
    let rest = insert_name n names in
    if same n m then m ∷ names else if text_lt n m then n ∷ m ∷ names else m ∷ rest

unfoldable pub sorted_set : List Text → List Text
unfolding insert_name
sorted_set [] = []
sorted_set (n ∷ names) = insert_name n (sorted_set names)

pub text_lt_trans : (a b c : Text) → text_lt a b ≡ true → text_lt b c ≡ true → text_lt a c ≡ true
unfolding text_lt
text_lt_trans [] [] c h k = cc
text_lt_trans [] (x ∷ b) [] h k = cc
text_lt_trans [] (x ∷ b) (y ∷ c) h k = refl
text_lt_trans (x ∷ a) [] c h k = cc
text_lt_trans (x ∷ a) (y ∷ b) [] h k = cc
text_lt_trans (x ∷ a) (y ∷ b) (z ∷ c) h k = ground (arith, text_lt_trans a b c)

pub text_lt_total : (a b : Text) → same a b ≡ false → text_lt a b ≡ false → text_lt b a ≡ true
unfolding text_lt same
text_lt_total [] [] h k = cc
text_lt_total [] (x ∷ b) h k = cc
text_lt_total (x ∷ a) [] h k = refl
text_lt_total (x ∷ a) (y ∷ b) h k = ground (arith, text_lt_total a b)

pub text_lt_irrefl : (a : Text) → text_lt a a ≡ false
unfolding text_lt
text_lt_irrefl [] = refl
text_lt_irrefl (x ∷ a) = ground (arith, text_lt_irrefl a)

-- Every name stands below all that follow it, so that none stands there twice.
abbrev pub IsIncreasing : List Text → Type 0
IsIncreasing [] = Unit
IsIncreasing (n ∷ names) = All (λ m. text_lt n m ≡ true) names × IsIncreasing names

insert_name-above :
    (m n : Text) (names : List Text)
    → text_lt m n ≡ true
    → All (λ k. text_lt m k ≡ true) names
    → All (λ k. text_lt m k ≡ true) (insert_name n names)
unfolding insert_name
insert_name-above m n [] h k = (h, tt)
insert_name-above m n (x ∷ names) h k = ground (arith, insert_name-above m n names)

insert_name-IsIncreasing :
    (n : Text) (names : List Text) → IsIncreasing names → IsIncreasing (insert_name n names)
unfolding insert_name
insert_name-IsIncreasing n [] h = (tt, tt)
insert_name-IsIncreasing n (m ∷ names) h = elim (Bool-cases (same n m)) [
  | inl e ↦ rw e h
  | inr e ↦ elim (Bool-cases (text_lt n m)) [
    | inl l ↦ rw (e, l) ((l, All-map (λ k. text_lt_trans n m k l) names h.0), h)
    | inr l ↦
        rw (e, l)
          (
            insert_name-above m n names (text_lt_total n m e l) h.0,
            insert_name-IsIncreasing n names h.1,
          )
  ]
]

pub sorted_set-IsIncreasing : (names : List Text) → IsIncreasing (sorted_set names)
unfolding sorted_set
sorted_set-IsIncreasing [] = tt
sorted_set-IsIncreasing (n ∷ names) =
    insert_name-IsIncreasing n (sorted_set names) (sorted_set-IsIncreasing names)

elem-insert_name :
    (x n : Text) (names : List Text) → elem x (insert_name n names) ≡ (same x n || elem x names)
unfolding insert_name
elem-insert_name x n [] = refl
elem-insert_name x n (m ∷ names) =
    ground (arith, elem-insert_name x n names, same_iff n m, same_iff x n, same_iff x m)

pub elem-sorted_set : (x : Text) (names : List Text) → elem x (sorted_set names) ≡ elem x names
unfolding sorted_set
elem-sorted_set x [] = refl
elem-sorted_set x (n ∷ names) =
    ground (arith, elem-insert_name x n (sorted_set names), elem-sorted_set x names)
