-- ===== src/Findings/Hunks.antt =====
-- One hunk of a diff, written out and walked.
use saffron.Prelude.{
  ℕ, ◌-◌, ◌+◌, ◌<◌, ◌⊎◌, ◌↔◌, Any, pos, ◌≤◌, ◌≡◌, refl, sym, ap, ◌∙◌, true, false, ◌||◌, List, [],
  ◌∷◌, ◌++◌, map, Option, none, some, arith, Text, codes, starts_with, append-nil, append_assoc,
  if_cases, ltb, if◌then◌else◌,
}
use saffron.Gates.Diff.{literal}
use saffron.Findings.Anchors.{Covered}
use saffron.Findings.{
  WordTables, HunkHeader, Walk, DiffFacts, add_tokens, add_range, hunk_of, words_of, enter_hunk,
  read_outside, read_inside, is_inside, walk_lines,
}

-- The lines of a hunk's body, without their mark. A blank line may have lost it, and a note begins
-- with a backslash.
pub data BodyLine : Type 0 where
  added removed context no_newline : Text → BodyLine
  blank : BodyLine

abbrev pub show_line : BodyLine → Text
show_line (added s) = b'+' ∷ s
show_line (removed s) = b'-' ∷ s
show_line (context s) = 32 ∷ s
show_line (no_newline s) = 92 ∷ s
show_line blank = []

abbrev pub old_size : BodyLine → ℕ
old_size (added s) = 0
old_size (no_newline s) = 0
old_size _ = 1

abbrev pub new_size : BodyLine → ℕ
new_size (removed s) = 0
new_size (no_newline s) = 0
new_size _ = 1

-- The lines use up the two counts, and each stands where one of them is left.
abbrev pub IsBody : ℕ → ℕ → List BodyLine → Type 0
IsBody old new [] = (old ≡ 0) × (new ≡ 0)
IsBody old new (line ∷ body) =
    ((ltb 0 old || ltb 0 new) ≡ true)
    × (old_size line ≤ old)
    × (new_size line ≤ new)
    × IsBody (old - old_size line) (new - new_size line) body

module _ (tables : WordTables) where
  abbrev pub line_words : BodyLine → List Text
  line_words (added s) = words_of tables s
  line_words (removed s) = words_of tables s
  line_words _ = []

  unfoldable pub changed_words : List BodyLine → List Text
  changed_words [] = []
  changed_words (line ∷ body) = line_words line ++ changed_words body

  abbrev after_line : Walk → BodyLine → Walk
  after_line walk line = record walk {
    facts = add_tokens walk.facts (line_words line);
    old_left = walk.old_left - old_size line;
    new_left = walk.new_left - new_size line;
  }

  read_inside-show_line :
      (walk : Walk) (line : BodyLine)
      → read_inside tables walk (show_line line) ≡ after_line walk line
  unfolding read_inside
  read_inside-show_line walk (added s) = ground arith
  read_inside-show_line walk (removed s) = ground arith
  read_inside-show_line walk (context s) = ground (arith, append-nil walk.facts.tokens)
  read_inside-show_line walk (no_newline s) = ground (arith, append-nil walk.facts.tokens)
  read_inside-show_line walk blank = ground (arith, append-nil walk.facts.tokens)

  abbrev after_body : Walk → List BodyLine → Walk
  after_body walk body = record walk {
    facts = add_tokens walk.facts (changed_words body);
    old_left = 0;
    new_left = 0;
  }

  walk_lines-body :
      (walk : Walk) (body : List BodyLine) (rest : List Text)
      → IsBody walk.old_left walk.new_left body
      → walk_lines tables walk (map show_line body ++ rest)
        ≡ walk_lines tables (after_body walk body) rest
  unfolding walk_lines changed_words
  walk_lines-body walk [] rest h =
      ap (λ (w : Walk). walk_lines tables w rest)
        (ground (arith, append-nil walk.facts.tokens, h.0, h.1))
  walk_lines-body walk (line ∷ body) rest (left, o, n, h) =
      let enters : (if is_inside tables walk
            then read_inside tables walk (show_line line)
            else read_outside tables walk (show_line line))
          ≡ after_line walk line =
        rw left (read_inside-show_line walk line) in
      ap (λ (w : Walk). walk_lines tables w (map show_line body ++ rest)) enters
      ∙ walk_lines-body (after_line walk line) body rest h
      ∙ ap (λ (w : Walk). walk_lines tables w rest)
          (ground (arith, append_assoc walk.facts.tokens (line_words line) (changed_words body)))

  -- What the walk has after a hunk: the hunk's range, and the words of its changed lines.
  abbrev after_hunk : Walk → HunkHeader → List BodyLine → Walk
  after_hunk walk header body = record walk {
    facts = add_tokens (add_range walk.path header walk.facts) (changed_words body);
    old_left = 0;
    new_left = 0;
  }

  at_sign :
      (c : ℕ) (line : Text) (header : HunkHeader)
      → hunk_of tables (c ∷ line) ≡ some header
      → c ≡ b'@'
  unfolding hunk_of codes starts_with literal
  at_sign c line header =
      if_cases (λ (found : Option HunkHeader). found ≡ some header → c ≡ b'@')
        (starts_with (codes "@@ -") (c ∷ line)) _ none (λ starts h. ground (arith, starts))
        λ other h. cc

  at-read_outside :
      (walk : Walk) (line : Text)
      → read_outside tables walk (b'@' ∷ line)
        ≡ enter_hunk tables walk (hunk_of tables (b'@' ∷ line))
  unfolding read_outside codes starts_with
  at-read_outside walk line = refl

  header-read_outside :
      (walk : Walk) (line : Text) (header : HunkHeader)
      → hunk_of tables line ≡ some header
      → read_outside tables walk line ≡ enter_hunk tables walk (some header)
  unfolding hunk_of codes
  header-read_outside walk [] header h = cc
  header-read_outside walk (c ∷ line) header h =
      let e = at_sign c line header h in
      ap (λ (t : ℕ). read_outside tables walk (t ∷ line)) e
      ∙ at-read_outside walk line
      ∙ ap (λ (t : ℕ). enter_hunk tables walk (hunk_of tables (t ∷ line))) (sym e)
      ∙ ap (enter_hunk tables walk) h

  -- `add_range` covers the header's lines of the file, and those that were covered.
  add_range-Covered :
      (path : Text) (header : HunkHeader) (facts : DiffFacts) (file : Text) (n : ℕ)
      → Any (Covered file (pos n)) (add_range path header facts).hunk_lines ↔ (
          ((file ≡ path) × (header.start ≤ n) × (n < header.start + header.count))
          ⊎ Any (Covered file (pos n)) facts.hunk_lines)
  add_range-Covered path header facts file n = ground arith

  walk_lines-after_hunk :
      (walk : Walk) (line : Text) (header : HunkHeader) (body : List BodyLine) (rest : List Text)
      → is_inside tables walk ≡ false
      → hunk_of tables line ≡ some header
      → IsBody header.old_count header.count body
      → walk_lines tables walk (line ∷ map show_line body ++ rest)
        ≡ walk_lines tables (after_hunk walk header body) rest
  unfolding walk_lines
  walk_lines-after_hunk walk line header body rest outside h b =
      let enters : (if is_inside tables walk
            then read_inside tables walk line
            else read_outside tables walk line)
          ≡ enter_hunk tables walk (some header) =
        rw outside (header-read_outside walk line header h) in
      ap (λ (w : Walk). walk_lines tables w (map show_line body ++ rest)) enters
      ∙ walk_lines-body (enter_hunk tables walk (some header)) body rest b

  -- Outside a hunk, a header whose counts a body uses up is walked to the end of that body and no
  -- further, whatever its lines look like. After it the walk is outside again and under the path that
  -- it had; exactly the words of the added and removed lines are taken; and the lines covered are
  -- those that were, and of the current path the `count` lines from the header's `start` on.
  pub walk_lines-hunk :
      (walk : Walk) (line : Text) (header : HunkHeader) (body : List BodyLine) (rest : List Text)
      → is_inside tables walk ≡ false
      → hunk_of tables line ≡ some header
      → IsBody header.old_count header.count body
      → (facts : DiffFacts) × (walk_lines tables walk (line ∷ map show_line body ++ rest)
          ≡ walk_lines tables
              (record { facts = facts; path = walk.path; old_left = 0; new_left = 0 })
              rest)
        × (facts.tokens ≡ walk.facts.tokens ++ changed_words body)
        × ((file : Text) (n : ℕ)
            → Any (Covered file (pos n)) facts.hunk_lines ↔ (
                ((file ≡ walk.path) × (header.start ≤ n) × (n < header.start + header.count))
                ⊎ Any (Covered file (pos n)) walk.facts.hunk_lines))
  walk_lines-hunk walk line header body rest outside h b = (
    (after_hunk walk header body).facts,
    walk_lines-after_hunk walk line header body rest outside h b,
    ground arith,
    add_range-Covered walk.path header walk.facts,
  )
