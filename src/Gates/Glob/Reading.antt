-- ===== src/Gates/Glob/Reading.antt =====
-- How a glob's text is read, apart from any translation of it.
use saffron.Prelude.{
  ℕ, ◌≡◌, refl, ap, ◌≢◌, inl, inr, List, [], ◌∷◌, ◌++◌, arith, Text, Bool-cases, ◌==◌, false,
}
use saffron.Gates.Glob.{
  Piece, escaped, directories, everything, segment, one, slash, star, question, to_regex, single,
}

-- The token that a piece stands for.
abbrev pub token : Piece → Text
token (escaped c) = c ∷ []
token one = question ∷ []
token segment = star ∷ []
token everything = star ∷ star ∷ []
token directories = star ∷ star ∷ slash ∷ []

abbrev pub NotNext : ℕ → Text → Type 0
NotNext a [] = Unit
NotNext a (c ∷ rest) = c ≢ a

-- A token is the longest that stands there: no `*` before another star, no `**` before a slash, and
-- no wildcard as a plain character.
abbrev pub Fits : Piece → Text → Type 0
Fits (escaped c) rest = (c ≢ star) × (c ≢ question)
Fits one rest = Unit
Fits segment rest = NotNext star rest
Fits everything rest = NotNext slash rest
Fits directories rest = Unit

-- The pattern is written as these tokens, from left to right.
abbrev pub Spells : Text → List Piece → Type 0
Spells pattern [] = pattern ≡ []
Spells pattern (piece ∷ pieces) =
    (rest : Text) × (pattern ≡ token piece ++ rest) × Fits piece rest × Spells rest pieces

to_regex_plain : (a : ℕ) (s : Text) → a ≢ star → to_regex (a ∷ s) ≡ single a ∷ to_regex s
unfolding to_regex
to_regex_plain a [] n = refl
to_regex_plain a (b ∷ []) n = ground arith
to_regex_plain a (b ∷ c ∷ s) n = ground arith

to_regex-star : (s : Text) → NotNext star s → to_regex (star ∷ s) ≡ segment ∷ to_regex s
unfolding to_regex single
to_regex-star [] n = refl
to_regex-star (b ∷ []) n = ground arith
to_regex-star (b ∷ c ∷ s) n = ground arith

to_regex_stars : (s : Text) → NotNext slash s → to_regex (star ∷ star ∷ s) ≡ everything ∷ to_regex s
unfolding to_regex
to_regex_stars [] n = refl
to_regex_stars (c ∷ s) n = ground arith

Reads : Text → Type 0
Reads pattern = Spells pattern (to_regex pattern)

Reads-plain : (a : ℕ) (s : Text) → a ≢ star → Reads s → Reads (a ∷ s)
unfolding Reads single
Reads-plain a s n h = rw (to_regex_plain a s n) (elim (Bool-cases (a == question)) [
  | inl e ↦ rw (n_eq a n, e) (s, ap (λ (c : ℕ). c ∷ s) (ground arith), tt, h)
  | inr e ↦ rw (n_eq a n, e) (s, refl, (n, ground arith), h)
])
  where
    n_eq : (a : ℕ) → a ≢ star → (a == star) ≡ false
    n_eq a n = ground arith

Reads-star : (a : ℕ) (s : Text) → a ≡ star → NotNext star s → Reads s → Reads (a ∷ s)
unfolding Reads
Reads-star a s e n h = rw (e, to_regex-star s n) (s, refl, n, h)

Reads-stars :
    (a b : ℕ) (s : Text) → a ≡ star → b ≡ star → NotNext slash s → Reads s → Reads (a ∷ b ∷ s)
unfolding Reads
Reads-stars a b s e f n h = rw (e, f, to_regex_stars s n) (s, refl, n, h)

Reads-directories :
    (a b c : ℕ) (s : Text) → a ≡ star → b ≡ star → c ≡ slash → Reads s → Reads (a ∷ b ∷ c ∷ s)
unfolding Reads to_regex
Reads-directories a b c s e f g h = rw (e, f, g) (s, refl, tt, h)

reads : (pattern : Text) → Reads pattern
reads [] = unfold Reads to_regex in refl
reads (a ∷ []) = elim (Bool-cases (a == star)) [
  | inl e ↦ Reads-star a [] (ground arith) tt (reads [])
  | inr e ↦ Reads-plain a [] (ground arith) (reads [])
]
reads (a ∷ b ∷ []) = elim (Bool-cases (a == star)) [
  | inl e ↦ elim (Bool-cases (b == star)) [
    | inl f ↦ Reads-stars a b [] (ground arith) (ground arith) tt (reads [])
    | inr f ↦ Reads-star a (b ∷ []) (ground arith) (ground arith) (reads (b ∷ []))
  ]
  | inr e ↦ Reads-plain a (b ∷ []) (ground arith) (reads (b ∷ []))
]
reads (a ∷ b ∷ c ∷ s) = elim (Bool-cases (a == star)) [
  | inl e ↦ elim (Bool-cases (b == star)) [
    | inl f ↦ elim (Bool-cases (c == slash)) [
      | inl g ↦ Reads-directories a b c s (ground arith) (ground arith) (ground arith) (reads s)
      | inr g ↦ Reads-stars a b (c ∷ s) (ground arith) (ground arith) (ground arith) (reads (c ∷ s))
    ]
    | inr f ↦ Reads-star a (b ∷ c ∷ s) (ground arith) (ground arith) (reads (b ∷ c ∷ s))
  ]
  | inr e ↦ Reads-plain a (b ∷ c ∷ s) (ground arith) (reads (b ∷ c ∷ s))
]

-- The translation reads the tokens of the pattern,
pub to_regex-Spells : (pattern : Text) → Spells pattern (to_regex pattern)
to_regex-Spells pattern = unfold Reads in reads pattern

-- and there is but one way to read them.
pub Spells-unique :
    (pattern : Text) (pieces : List Piece) → Spells pattern pieces → pieces ≡ to_regex pattern
Spells-unique pattern [] h = rw h (unfold to_regex in refl)
Spells-unique pattern (escaped c ∷ pieces) (rest, e, (n, m), h) =
    rw (e, to_regex_plain c rest n, Spells-unique rest pieces h) (unfold single in ground arith)
Spells-unique pattern (one ∷ pieces) (rest, e, f, h) =
    rw (e, Spells-unique rest pieces h) (unfold single to_regex in ground arith)
Spells-unique pattern (segment ∷ pieces) (rest, e, f, h) =
    rw (e, to_regex-star rest f, Spells-unique rest pieces h) refl
Spells-unique pattern (everything ∷ pieces) (rest, e, f, h) =
    rw (e, to_regex_stars rest f, Spells-unique rest pieces h) refl
Spells-unique pattern (directories ∷ pieces) (rest, e, f, h) =
    rw (e, Spells-unique rest pieces h) (unfold to_regex in refl)
