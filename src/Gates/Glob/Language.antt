-- ===== src/Gates/Glob/Language.antt =====
-- The language of a glob, and that `matches` decides it.
use saffron.Prelude.{
  ℕ, ◌≡◌, refl, ap, sym, ◌∙◌, ◌≢◌, ◌↔◌, inl, inr, Bool, true, false, List, [], ◌∷◌, ◌++◌, arith,
  Text, All, append_assoc, Bool-cases, subst, ◌==◌,
}
use saffron.Gates.Glob.{
  Piece, escaped, directories, everything, segment, one, slash, line_feed, to_regex, repeat, rounds,
  not_slash, not_line_feed, full_match, matches,
}
use saffron.Gates.Glob.Reading.{Spells, to_regex-Spells, Spells-unique}

-- The names of directories, each followed by a slash.
abbrev pub path_of : List Text → Text
path_of [] = []
path_of (name ∷ names) = name ++ slash ∷ path_of names

abbrev pub NoSlash : Text → Type 0
NoSlash = All (λ c. c ≢ slash)

-- The words of one piece.
abbrev pub Word : Piece → Text → Type 0
Word (escaped a) w = w ≡ a ∷ []
Word one w = (c : ℕ) × (w ≡ c ∷ []) × (c ≢ slash)
Word segment w = NoSlash w
Word everything w = All (λ c. c ≢ line_feed) w
Word directories w =
    (names : List Text) × All (λ name. (name ≢ []) × NoSlash name) names × (w ≡ path_of names)

-- A text is in the language if it falls into words, one for each piece in turn.
abbrev pub InLanguage : List Piece → Text → Type 0
InLanguage [] s = s ≡ []
InLanguage (piece ∷ pieces) s =
    (word : Text) × (rest : Text) × (s ≡ word ++ rest) × Word piece word × InLanguage pieces rest

module _ (test : ℕ → Bool) (next : Text → Bool) where
  abbrev Repeats : Text → Type 0
  Repeats s =
      (word : Text) × (rest : Text) × (s ≡ word ++ rest)
      × All (λ c. test c ≡ true) word
      × (next rest ≡ true)

  repeat_sound : (s : Text) → repeat test next s ≡ true → Repeats s
  unfolding repeat
  repeat_sound [] h = ([], [], refl, tt, h)
  repeat_sound (c ∷ s) h = elim (Bool-cases (next (c ∷ s))) [
    | inl e ↦ ([], c ∷ s, refl, tt, e)
    | inr e ↦
        let (word, rest, split, inside, after) = repeat_sound s (ground arith) in
        (c ∷ word, rest, ap (λ t. c ∷ t) split, (ground arith, inside), after)
  ]

  repeat_complete :
      (word rest : Text)
      → All (λ c. test c ≡ true) word
      → next rest ≡ true
      → repeat test next (word ++ rest) ≡ true
  unfolding repeat
  repeat_complete [] [] h k = k
  repeat_complete [] (c ∷ rest) h k = ground arith
  repeat_complete (c ∷ word) rest h k = ground (arith, repeat_complete word rest h.1 k)

module _ (next : Text → Bool) where
  abbrev IsName : Text → Type 0
  IsName name = (name ≢ []) × NoSlash name

  abbrev Rounds : Text → Type 0
  Rounds s =
      (names : List Text) × (rest : Text) × All IsName names
      × (s ≡ path_of names ++ rest)
      × (next rest ≡ true)

  -- From inside a name: what is left of it, its slash, and more rounds.
  abbrev Inside : Text → Type 0
  Inside s =
      (name : Text) × (after : Text) × NoSlash name × (s ≡ name ++ slash ∷ after) × Rounds after

  rounds_sound :
      (s : Text) → (rounds next false s ≡ true → Rounds s) × (rounds next true s ≡ true → Inside s)
  unfolding rounds
  rounds_sound [] = ((λ h. ([], [], tt, refl, h)), (λ h. absurd (ground arith)))
  rounds_sound (c ∷ s) =
      let (outer, inner) = rounds_sound s in
      (
        (λ h. elim (Bool-cases (next (c ∷ s))) [
          | inl e ↦ ([], c ∷ s, tt, refl, e)
          | inr e ↦
              let (name, after, clean, split, (names, rest, good, cut, end)) =
                inner (ground arith) in
              let other : c ≢ slash = ground arith in
              (
                (c ∷ name) ∷ names,
                rest,
                ((ground arith, (other, clean)), good),
                ap (λ t. c ∷ t)
                    (split
                      ∙ ap (λ t. name ++ slash ∷ t) cut
                      ∙ sym (append_assoc name (slash ∷ path_of names) rest)),
                end,
              )
        ]),
        (λ h. elim (Bool-cases (c == slash)) [
          | inl e ↦
              let (names, rest, good, cut, end) = outer (ground arith) in
              ([], s, tt, ground arith, (names, rest, good, cut, end))
          | inr e ↦
              let (name, after, clean, split, more) = inner (ground arith) in
              (c ∷ name, after, (ground arith, clean), ap (λ t. c ∷ t) split, more)
        ]),
      )

  rounds_inside :
      (name after : Text)
      → NoSlash name
      → rounds next false after ≡ true
      → rounds next true (name ++ slash ∷ after) ≡ true
  unfolding rounds
  rounds_inside [] after h k = ground arith
  rounds_inside (c ∷ name) after h k = ground (arith, rounds_inside name after h.1 k)

  rounds_complete :
      (names : List Text) (rest : Text)
      → All IsName names
      → next rest ≡ true
      → rounds next false (path_of names ++ rest) ≡ true
  unfolding rounds
  rounds_complete [] [] h k = ground arith
  rounds_complete [] (c ∷ rest) h k = ground arith
  rounds_complete ([] ∷ names) rest h k = absurd (h.0.0 refl)
  rounds_complete ((c ∷ name) ∷ names) rest h k = rw append_assoc (
      ground (
        arith,
        rounds_inside name (path_of names ++ rest) h.0.1.1 (rounds_complete names rest h.1 k),
      ))

not_slash-All : (word : Text) → All (λ c. not_slash c ≡ true) word ↔ NoSlash word
not_slash-All [] = ((λ h. tt), (λ h. tt))
not_slash-All (c ∷ word) = ground (arith, not_slash-All word)

not_line_feed-All :
    (word : Text) → All (λ c. not_line_feed c ≡ true) word ↔ All (λ c. c ≢ line_feed) word
not_line_feed-All [] = ((λ h. tt), (λ h. tt))
not_line_feed-All (c ∷ word) = ground (arith, not_line_feed-All word)

full_match_sound :
    (pieces : List Piece) (s : Text) → full_match pieces s ≡ true → InLanguage pieces s
unfolding full_match
full_match_sound [] [] h = refl
full_match_sound [] (c ∷ s) h = cc
full_match_sound (escaped a ∷ pieces) [] h = cc
full_match_sound (escaped a ∷ pieces) (c ∷ s) h =
    (c ∷ [], s, refl, ground arith, full_match_sound pieces s (ground arith))
full_match_sound (one ∷ pieces) [] h = cc
full_match_sound (one ∷ pieces) (c ∷ s) h =
    (c ∷ [], s, refl, (c, refl, ground arith), full_match_sound pieces s (ground arith))
full_match_sound (segment ∷ pieces) s h =
    let (word, rest, split, inside, after) = repeat_sound not_slash (full_match pieces) s h in
    (word, rest, split, (not_slash-All word).0 inside, full_match_sound pieces rest after)
full_match_sound (everything ∷ pieces) s h =
    let (word, rest, split, inside, after) = repeat_sound not_line_feed (full_match pieces) s h in
    (word, rest, split, (not_line_feed-All word).0 inside, full_match_sound pieces rest after)
full_match_sound (directories ∷ pieces) s h =
    let (names, rest, good, split, after) = (rounds_sound (full_match pieces) s).0 h in
    (path_of names, rest, split, (names, good, refl), full_match_sound pieces rest after)

full_match_complete :
    (pieces : List Piece) (s : Text) → InLanguage pieces s → full_match pieces s ≡ true
unfolding full_match
full_match_complete [] s h = rw h
full_match_complete (escaped a ∷ pieces) s (word, rest, split, e, later) =
    rw (split, e) (ground (arith, full_match_complete pieces rest later))
full_match_complete (one ∷ pieces) s (word, rest, split, (c, e, other), later) =
    rw (split, e) (ground (arith, full_match_complete pieces rest later))
full_match_complete (segment ∷ pieces) s (word, rest, split, inside, later) = rw split (
    repeat_complete not_slash (full_match pieces) word rest ((not_slash-All word).1 inside)
      (full_match_complete pieces rest later))
full_match_complete (everything ∷ pieces) s (word, rest, split, inside, later) = rw split (
    repeat_complete not_line_feed (full_match pieces) word rest ((not_line_feed-All word).1 inside)
      (full_match_complete pieces rest later))
full_match_complete (directories ∷ pieces) s (word, rest, split, (names, good, e), later) =
    rw (split, e)
      (rounds_complete (full_match pieces) names rest good (full_match_complete pieces rest later))

-- What `to_regex` makes of a pattern, as a language.
pub matches_language :
    (path pattern : Text) → (matches path pattern ≡ true) ↔ InLanguage (to_regex pattern) path
unfolding matches
matches_language path pattern =
    (full_match_sound (to_regex pattern) path, full_match_complete (to_regex pattern) path)

-- A path is what a pattern stands for: read from left to right as its longest tokens, the pattern has
-- a word of the path for each.
abbrev pub Glob : Text → Text → Type 0
Glob path pattern = (pieces : List Piece) × Spells pattern pieces × InLanguage pieces path

-- `matches` answers true exactly on the paths in the language of the pattern. Its text is a row of
-- the tokens `**/`, `**`, `*` and `?`, the longest that stands there, and of plain characters; and
-- the path falls into one word for each, in order: the character itself, a text without slash for
-- `*`, one character other than a slash for `?`, whole directory names with their slashes for
-- `**/`, and a text without line feed for `**`.
pub matches_iff : (path pattern : Text) → (matches path pattern ≡ true) ↔ Glob path pattern
matches_iff path pattern =
    let (sound, complete) = matches_language path pattern in
    (
      (λ m. (to_regex pattern, to_regex-Spells pattern, sound m)),
      (λ (pieces, spelt, g).
          complete (
            subst (λ (ps : List Piece). InLanguage ps path) (Spells-unique pattern pieces spelt)
              g)),
    )
