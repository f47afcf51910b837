-- ===== src/Gates/Glob/Slashes.antt =====
-- What globs do at slashes, and patterns without wildcards.
use saffron.Prelude.{
  ℕ, suc, ◌+◌, ◌≡◌, refl, ap, sym, ◌∙◌, ◌≢◌, ◌↔◌, ◌⊎◌, inl, inr, true, List, [], ◌∷◌, ◌++◌, arith,
  Text, All, append-nil, Bool-cases, ◌==◌, if◌then◌else◌,
}
use saffron.Gates.Glob.{
  escaped, segment, one, slash, line_feed, star, question, to_regex, single, matches,
}
use saffron.Gates.Glob.Language.{NoSlash, Word, InLanguage, matches_language, path_of}

-- How many slashes a text holds.
unfoldable pub slashes : Text → ℕ
slashes [] = 0
slashes (c ∷ s) = if c == slash then suc (slashes s) else slashes s

slashes-append : (s t : Text) → slashes (s ++ t) ≡ slashes s + slashes t
unfolding slashes
slashes-append [] t = omega arith
slashes-append (c ∷ s) t = ground (arith, slashes-append s t)

slashes-NoSlash : (s : Text) → NoSlash s → slashes s ≡ 0
unfolding slashes
slashes-NoSlash [] h = refl
slashes-NoSlash (c ∷ s) h = ground (arith, slashes-NoSlash s h.1)

-- No two stars stand side by side.
abbrev pub IsShallow : Text → Type 0
IsShallow [] = Unit
IsShallow (a ∷ []) = Unit
IsShallow (a ∷ b ∷ rest) = ¬ ((a ≡ star) × (b ≡ star)) × IsShallow (b ∷ rest)

single_cases :
    (a : ℕ)
    → (a ≡ star) × (single a ≡ segment)
      ⊎ (a ≡ question) × (single a ≡ one)
      ⊎ (a ≢ star) × (a ≢ question) × (single a ≡ escaped a)
unfolding single
single_cases a = elim (Bool-cases (a == star)) [
  | inl e ↦ inl (ground arith, rw e)
  | inr e ↦ elim (Bool-cases (a == question)) [
    | inl f ↦ inr (inl (ground arith, rw (e, f)))
    | inr f ↦ inr (inr (ground arith, ground arith, rw (e, f)))
  ]
]

slashes-single : (a : ℕ) (word : Text) → Word (single a) word → slashes word ≡ slashes (a ∷ [])
slashes-single a word h = elim (single_cases a) [
  | inl (e, f) ↦
      let clean : Word segment word = rw f at h in
      slashes-NoSlash word clean ∙ unfold slashes in ground arith
  | inr (inl (e, f)) ↦
      let (c, w, other) : Word one word = rw f at h in rw w (unfold slashes in ground arith)
  | inr (inr (e, g, f)) ↦ let w : Word (escaped a) word = rw f at h in rw w
]

to_regex_shallow : (a : ℕ) (s : Text) → IsShallow (a ∷ s) → to_regex (a ∷ s) ≡ single a ∷ to_regex s
unfolding to_regex
to_regex_shallow a [] h = refl
to_regex_shallow a (b ∷ []) h = ground arith
to_regex_shallow a (b ∷ c ∷ s) h = ground arith

IsShallow-tail : (a : ℕ) (s : Text) → IsShallow (a ∷ s) → IsShallow s
IsShallow-tail a [] h = tt
IsShallow-tail a (b ∷ s) h = h.1

slashes-InLanguage :
    (pattern path : Text)
    → IsShallow pattern
    → InLanguage (to_regex pattern) path
    → slashes path ≡ slashes pattern
slashes-InLanguage [] path h g = unfold slashes to_regex in rw g
slashes-InLanguage (a ∷ pattern) path h g =
    let (word, rest, split, w, later) : InLanguage (single a ∷ to_regex pattern) path =
      rw (to_regex_shallow a pattern h) at g in
    rw
      (
        split,
        slashes-append word rest,
        slashes-single a word w,
        slashes-InLanguage pattern rest (IsShallow-tail a pattern h) later,
      )
      (sym (slashes-append (a ∷ []) pattern))

-- A pattern with no two stars side by side matches only paths with as many slashes as it has: `*`
-- and `?` stop at a slash.
pub matches-slashes :
    (path pattern : Text)
    → IsShallow pattern
    → matches path pattern ≡ true
    → slashes path ≡ slashes pattern
matches-slashes path pattern h m =
    slashes-InLanguage pattern path h ((matches_language path pattern).0 m)

-- `**` alone matches exactly the paths that hold no line feed.
pub matches-everything :
    (path : Text) → (matches path (star ∷ star ∷ []) ≡ true) ↔ All (λ c. c ≢ line_feed) path
unfolding to_regex
matches-everything path =
    let (sound, complete) = matches_language path (star ∷ star ∷ []) in
    (
      (λ m. let (word, rest, split, w, e) = sound m in rw (split, e, append-nil) w),
      (λ h. complete (path, [], sym (append-nil path), h, refl)),
    )

-- No wildcard.
abbrev pub IsLiteral : Text → Type 0
IsLiteral = All (λ c. (c ≢ star) × (c ≢ question))

IsLiteral-IsShallow : (s : Text) → IsLiteral s → IsShallow s
IsLiteral-IsShallow [] h = tt
IsLiteral-IsShallow (a ∷ []) h = tt
IsLiteral-IsShallow (a ∷ b ∷ s) h = ((λ e. h.0.0 e.0), IsLiteral-IsShallow (b ∷ s) h.1)

single_literal : (a : ℕ) → a ≢ star → a ≢ question → single a ≡ escaped a
unfolding single
single_literal a h k = ground arith

literal_InLanguage :
    (pattern path : Text)
    → IsLiteral pattern
    → InLanguage (to_regex pattern) path ↔ (path ≡ pattern)
literal_InLanguage [] path h = unfold to_regex in ((λ g. g), (λ e. e))
literal_InLanguage (a ∷ pattern) path h =
    rw
      (
        to_regex_shallow a pattern (IsLiteral-IsShallow (a ∷ pattern) h),
        single_literal a h.0.0 h.0.1,
      )
      (
        (λ (word, rest, split, w, later).
            rw (split, w, (literal_InLanguage pattern rest h.1).0 later)),
        (λ e. (a ∷ [], pattern, e, refl, (literal_InLanguage pattern pattern h.1).1 refl)),
      )

-- A pattern without wildcards matches itself and nothing else.
pub matches_literal :
    (path pattern : Text) → IsLiteral pattern → (matches path pattern ≡ true) ↔ (path ≡ pattern)
matches_literal path pattern h =
    let (sound, complete) = matches_language path pattern in
    let (there, back) = literal_InLanguage pattern path h in
    ((λ m. there (sound m)), (λ e. complete (back e)))

-- `**/` stands for any number of whole directories, none included: a path matches `**/pattern`
-- exactly if what is left of it after some directories matches `pattern`.
pub matches-directories :
    (path pattern : Text)
    → (matches path (star ∷ star ∷ slash ∷ pattern) ≡ true) ↔ (
        (names : List Text) × (rest : Text) × All (λ name. (name ≢ []) × NoSlash name) names
        × (path ≡ path_of names ++ rest)
        × (matches rest pattern ≡ true))
unfolding to_regex
matches-directories path pattern =
    let (sound, complete) = matches_language path (star ∷ star ∷ slash ∷ pattern) in
    (
      (λ m.
          let (word, rest, split, (names, good, e), later) = sound m in
          (
            names,
            rest,
            good,
            split ∙ ap (λ w. w ++ rest) e,
            (matches_language rest pattern).1 later,
          )),
      (λ (names, rest, good, split, m).
          complete
            (path_of names, rest, split, (names, good, refl), (matches_language rest pattern).0 m)),
    )
