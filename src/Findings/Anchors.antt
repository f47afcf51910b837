-- ===== src/Findings/Anchors.antt =====
-- The meaning of `_is_anchored`.
use saffron.Prelude.{
  ℕ, zero, suc, refl, ap, subst, [], ◌∷◌, ◌++◌, length, ◌+◌, ◌≤◌, ◌<◌, ◌≡◌, ◌↔◌, ◌⊎◌, true, ◌&&◌,
  List, Option, none, some, arith, Text, same_iff, elem, Elem, elem_iff, any_iff, Any, ℤ, pos,
  negsuc,
}
use saffron.Gates.Contract.{split_lines}
use saffron.Findings.{
  WordTables, Finding, DiffFacts, HunkRange, in_range, line_at, cited_line, is_uncommon,
  shares_name, is_anchored, words_of, common_words,
}

-- The line stands in the range, of that file.
abbrev pub Covered : Text → ℤ → HunkRange → Type 0
Covered file (pos n) range =
    (file ≡ range.path) × (range.start ≤ n) × (n < range.start + range.count)
Covered file (negsuc n) range = ⊥

-- The file has the text as its line of that number, counted from 1.
abbrev pub HasLine : ℤ → Text → Option Text → Type 0
HasLine line text none = ⊥
HasLine line text (some content) =
    (before : List Text) × (after : List Text) × (split_lines content ≡ before ++ text ∷ after)
    × (line ≡ pos (suc (length before)))

module _ (tables : WordTables) where
  in_range_iff :
      (file : Text) (line : ℤ) (range : HunkRange)
      → (in_range tables file line range ≡ true) ↔ Covered file line range
  in_range_iff file (pos n) range = ground (arith, same_iff file range.path)
  in_range_iff file (negsuc n) range = ground arith

  line_at-after :
      (before : List Text) (line : Text) (after : List Text)
      → line_at tables (suc (length before)) (before ++ line ∷ after) ≡ some line
  line_at-after [] line after = refl
  line_at-after (x ∷ before) line after = line_at-after before line after

  line_at_sound :
      (n : ℕ) (lines : List Text) (line : Text)
      → line_at tables n lines ≡ some line
      → (before : List Text) × (after : List Text) × (lines ≡ before ++ line ∷ after)
        × (n ≡ suc (length before))
  line_at_sound zero lines line h = absurd (ground arith)
  line_at_sound (suc n) [] line h = absurd (ground arith)
  line_at_sound (suc zero) (x ∷ lines) line h = ([], lines, ground arith, refl)
  line_at_sound (suc (suc n)) (x ∷ lines) line h =
      let (before, after, e, f) = line_at_sound (suc n) lines line h in
      (x ∷ before, after, ap (λ (t : List Text). x ∷ t) e, ap suc f)

  cited_line_iff :
      (line : ℤ) (text : Text) (content : Option Text)
      → (cited_line tables line content ≡ some text) ↔ HasLine line text content
  cited_line_iff line text none = ((λ e. absurd (ground arith)), (λ h. absurd h))
  cited_line_iff (pos n) text (some content) = (
    (λ h.
        let (before, after, e, f) = line_at_sound n (split_lines content) text h in
        (before, after, e, ap pos f)),
    (λ (before, after, e, f).
        let number : n ≡ suc (length before) = cc f in
        rw (number, e) (line_at-after before text after)),
  )
  cited_line_iff (negsuc n) text (some content) =
      ((λ e. absurd (ground arith)), (λ (before, after, e, f). cc f))

  -- A word of the line that the diff changed too, and that is no common one.
  abbrev pub Names : List Text → Text → Type 0
  Names tokens line =
      Any (λ word. Elem word tokens × ¬ Elem (tables.casefold word) common_words)
        (words_of tables line)

  shares_name_iff :
      (tokens : List Text) (line : Option Text)
      → (shares_name tables tokens line ≡ true)
        ↔ ((text : Text) × (line ≡ some text) × Names tokens text)
  shares_name_iff tokens none = ((λ e. absurd (ground arith)), (λ (text, e, h). cc e))
  shares_name_iff tokens (some line) =
      let both =
        any_iff (λ word. elem word tokens && is_uncommon tables word)
          (λ word. Elem word tokens × ¬ Elem (tables.casefold word) common_words)
          (λ word.
            ground (arith, elem_iff word tokens, elem_iff (tables.casefold word) common_words))
          (words_of tables line) in
      (
        (λ m. (line, refl, both.0 m)),
        (λ (text, e, h).
            let line_eq : text ≡ line = cc e in
            both.1 (subst (λ (t : Text). Names tokens t) line_eq h)),
      )

  -- A finding is anchored exactly if its line is one that a hunk of its file covers, or its file has
  -- that line at head, the first being number 1, and a word of the line, that is no common word,
  -- stands on a changed line.
  pub is_anchored_iff :
      (finding : Finding) (facts : DiffFacts) (read_head : Text → Option Text)
      → (is_anchored tables finding facts read_head ≡ true) ↔ (
          Any (Covered finding.file finding.line) facts.hunk_lines
          ⊎ ((text : Text) × HasLine finding.line text (read_head finding.file)
              × Names facts.tokens text))
  unfolding is_anchored
  is_anchored_iff finding facts read_head =
      let cited = cited_line_iff finding.line in
      let shared =
        shares_name_iff facts.tokens (cited_line tables finding.line (read_head finding.file)) in
      let ranges =
        any_iff (in_range tables finding.file finding.line) (Covered finding.file finding.line)
          (in_range_iff finding.file finding.line) facts.hunk_lines in
      let named : (shares_name tables facts.tokens
              (cited_line tables finding.line (read_head finding.file))
            ≡ true)
          ↔ ((text : Text) × HasLine finding.line text (read_head finding.file)
              × Names facts.tokens text) =
        (
          (λ m.
              let (text, e, h) = shared.0 m in
              (text, (cited text (read_head finding.file)).0 e, h)),
          (λ (text, e, h). shared.1 (text, (cited text (read_head finding.file)).1 e, h)),
        ) in
      ground (arith, ranges, named)
