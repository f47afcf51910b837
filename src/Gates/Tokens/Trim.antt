-- ===== src/Gates/Tokens/Trim.antt =====
-- Trimming the shared ends changes no edit distance.
use Prim.Native.Nat.{min}
use mathlib.Core.List.{Sublistᴰ, reverse, reverse-append, reverse-reverse}
use native.Mathlib.Nat.{zero-add, suc-add}
use saffron.Prelude.{
  ℕ, zero, suc, ◌+◌, ◌-◌, ◌*◌, ◌≤◌, ◌≡◌, refl, ap, ap₂, sym, ◌∙◌, subst, subst₂, inl, inr, false,
  List, [], ◌∷◌, ◌++◌, append_assoc, arith, Text, same, same_iff, length, length-append, take, drop,
  Bool-cases,
}
use saffron.Gates.Tokens.{shared, slice, trim_shared_ends, lcs_length, count_trimmed, token_count}
use saffron.Gates.Tokens.Longest.{IsLongest, IsLongest-unique, same_head_bound}
use saffron.Gates.Tokens.Lcs.{onto, onto_twice, length-onto, IsLongest-onto, lcs_length-IsLongest}

IsLongest-prefix :
    (p : List Text) (n : ℕ) (a b : List Text)
    → IsLongest n a b
    → IsLongest (length p + n) (p ++ a) (p ++ b)
IsLongest-prefix [] n a b h = rw zero-add h
IsLongest-prefix (x ∷ p) n a b h =
    let ((c, (s, t), size), most) = IsLongest-prefix p n a b h in
    (
      (x ∷ c, (Sublistᴰ.cons-cons refl s, Sublistᴰ.cons-cons refl t), omega arith),
      (λ d common. omega (arith, same_head_bound (length p + n) x (p ++ a) (p ++ b) d most common)),
    )

onto-split : (s p : List Text) → onto s p ≡ onto s [] ++ p
unfolding onto
onto-split [] p = refl
onto-split (x ∷ s) p =
    onto-split s (x ∷ p)
    ∙ sym (ap (λ l. l ++ p) (onto-split s (x ∷ [])) ∙ append_assoc (onto s []) (x ∷ []) p)

onto-append : (a s p : List Text) → onto (a ++ s) p ≡ onto s (onto a p)
unfolding onto
onto-append [] s p = refl
onto-append (x ∷ a) s p = onto-append a s (x ∷ p)

IsLongest-suffix :
    (s : List Text) (n : ℕ) (a b : List Text)
    → IsLongest n a b
    → IsLongest (length s + n) (a ++ s) (b ++ s)
IsLongest-suffix s n a b h = IsLongest-onto (length s + n) (a ++ s) (b ++ s) (
    rw (onto-append a s [], onto-append b s [], onto-split s (onto a []), onto-split s (onto b []))
      (subst (λ k. IsLongest (k + n) (onto s [] ++ onto a []) (onto s [] ++ onto b []))
        (omega (arith, length-onto s []))
        (IsLongest-prefix (onto s []) n (onto a []) (onto b []) (IsLongest_back n a b h))))
  where
    IsLongest_back :
        (n : ℕ) (a b : List Text) → IsLongest n a b → IsLongest n (onto a []) (onto b [])
    IsLongest_back n a b h =
        IsLongest-onto n (onto a []) (onto b []) (rw (onto_twice a, onto_twice b) h)

-- What the two loops count is shared, and within the bounds of both lists.
shared_lem :
    (limit : ℕ) (old new : List Text)
    → (take (shared limit old new) old ≡ take (shared limit old new) new)
      × (shared limit old new ≤ limit)
unfolding shared
shared_lem zero old new = (refl, omega arith)
shared_lem (suc limit) [] new = (refl, omega arith)
shared_lem (suc limit) (x ∷ old) [] = (refl, omega arith)
shared_lem (suc limit) (x ∷ old) (y ∷ new) = elim (Bool-cases (same x y)) [
  | inl e ↦
      let (same_take, small) = shared_lem limit old new in
      rw e (ap₂ ◌∷◌ ((same_iff x y).0 e) same_take, omega arith)
  | inr e ↦ rw e (refl, omega arith)
]

take-append-drop : (k : ℕ) (xs : List Text) → take k xs ++ drop k xs ≡ xs
take-append-drop zero xs = refl
take-append-drop (suc k) [] = refl
take-append-drop (suc k) (x ∷ xs) = ap (λ l. x ∷ l) (take-append-drop k xs)

drop-nil : (k : ℕ) → drop {A = Text} k [] ≡ []
drop-nil zero = refl
drop-nil (suc k) = refl

drop-drop : (i j : ℕ) (xs : List Text) → drop j (drop i xs) ≡ drop (i + j) xs
drop-drop zero j xs = rw zero-add
drop-drop (suc i) j [] = drop-nil j ∙ sym (drop-nil (suc i + j))
drop-drop (suc i) j (x ∷ xs) = rw suc-add (drop-drop i j xs)

drop-append : (xs ys : List Text) → drop (length xs) (xs ++ ys) ≡ ys
drop-append [] ys = refl
drop-append (x ∷ xs) ys = drop-append xs ys

length-drop : (k : ℕ) (xs : List Text) → length (drop k xs) ≡ length xs - k
length-drop zero xs = omega arith
length-drop (suc k) [] = omega arith
length-drop (suc k) (x ∷ xs) = omega (arith, length-drop k xs)

length-reverse : (xs : List Text) → length (reverse xs) ≡ length xs
length-reverse [] = refl
length-reverse (x ∷ xs) =
    ap length (reverse-append (x ∷ []) xs)
    ∙ length-append (reverse xs) (x ∷ [])
    ∙ omega (arith, length-reverse xs)

-- The last `k` tokens, found from the back.
drop-reverse :
    (k : ℕ) (xs : List Text)
    → k ≤ length xs
    → drop (length xs - k) xs ≡ reverse (take k (reverse xs))
drop-reverse k xs h =
    let back = reverse xs in
    let front = reverse (drop k back) in
    let end_ = reverse (take k back) in
    let whole : xs ≡ front ++ end_ =
      sym (reverse-reverse xs)
      ∙ ap reverse (sym (take-append-drop k back))
      ∙ reverse-append (take k back) (drop k back) in
    let size : length xs - k ≡ length front =
      omega (arith, length-reverse (drop k back), length-drop k back, length-reverse xs) in
    ap₂ drop size whole ∙ drop-append front end_

-- The three parts of a list.
parts :
    (start e : ℕ) (xs : List Text)
    → start + e ≤ length xs
    → xs ≡ take start xs ++ (slice start (length xs - e) xs ++ drop (length xs - e) xs)
parts start e xs h =
    let middle = length xs - e - start in
    sym (take-append-drop start xs)
    ∙ ap (λ l. take start xs ++ l)
        (sym (take-append-drop middle (drop start xs))
          ∙ ap (λ l. take middle (drop start xs) ++ l)
              (drop-drop start middle xs ∙ ap (λ k. drop k xs) (omega arith)))

-- Both lists are their trimmed lists between one beginning and one end.
pub trim_shared_ends_lem :
    (old new : List Text)
    → (p : List Text) × (s : List Text) × (old ≡ p ++ ((trim_shared_ends old new).0 ++ s))
      × (new ≡ p ++ ((trim_shared_ends old new).1 ++ s))
unfolding trim_shared_ends
trim_shared_ends_lem old new =
    let limit = min (length old) (length new) in
    let start = shared limit old new in
    let e = shared (limit - start) (reverse old) (reverse new) in
    let (same_start, small) = shared_lem limit old new in
    let (same_end, small_end) = shared_lem (limit - start) (reverse old) (reverse new) in
    let fits_old : start + e ≤ length old = omega arith in
    let fits_new : start + e ≤ length new = omega arith in
    let ends : drop (length new - e) new ≡ drop (length old - e) old =
      drop-reverse e new (omega arith)
      ∙ ap reverse (sym same_end)
      ∙ sym (drop-reverse e old (omega arith)) in
    (
      take start old,
      drop (length old - e) old,
      parts start e old fits_old,
      parts start e new fits_new
          ∙ ap₂ (λ a b. a ++ (slice start (length new - e) new ++ b)) (sym same_start) ends,
    )

count_trimmed_exact :
    (old new : List Text) (physical : ℕ)
    → (count_trimmed old new physical).1 ≡ false
    → (count_trimmed old new physical).0 ≡ length old + length new - 2 * lcs_length old new
unfolding count_trimmed
count_trimmed_exact old new physical h = ground arith

-- Where the count of a file is no estimate, it is the exact edit distance of the two whole
-- streams by insertions and deletions: all their tokens but those of a longest common subsequence,
-- counted twice. Trimming the shared ends changes nothing.
pub token_count_exact :
    (old new : List Text) (physical n : ℕ)
    → (token_count old new physical).1 ≡ false
    → IsLongest n old new
    → (token_count old new physical).0 ≡ length old + length new - 2 * n
unfolding token_count
token_count_exact old new physical n exact longest =
    let (a, b) = trim_shared_ends old new in
    let m = lcs_length a b in
    let (p, s, whole_old, whole_new) = trim_shared_ends_lem old new in
    let inner =
      IsLongest-prefix p (length s + m) (a ++ s) (b ++ s)
        (IsLongest-suffix s m a b (lcs_length-IsLongest a b)) in
    let outer : IsLongest (length p + (length s + m)) old new =
      subst₂ (IsLongest (length p + (length s + m))) (sym whole_old) (sym whole_new) inner in
    let size = IsLongest-unique n (length p + (length s + m)) old new longest outer in
    let old_size = ap length whole_old in
    let new_size = ap length whole_new in
    omega (
      arith,
      count_trimmed_exact a b physical exact,
      size,
      old_size,
      new_size,
      length-append p (a ++ s),
      length-append a s,
      length-append p (b ++ s),
      length-append b s,
    )
