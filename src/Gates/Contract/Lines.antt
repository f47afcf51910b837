-- ===== src/Gates/Contract/Lines.antt =====
-- What `split_lines` splits on, and what it gives back.
use saffron.Prelude.{
  ℕ, ◌≡◌, refl, ap, ◌∙◌, ◌≢◌, true, false, List, [], ◌∷◌, ◌++◌, map, arith, Text, All,
}
use saffron.Gates.Contract.{
  newline, carriage_return, split, ends_with, drop_last, strip_return, split_lines,
}

-- A line of a text that is terminated by "\n": it holds no "\n" and does not end in "\r".
abbrev pub IsLine : Text → Type 0
IsLine line = All (λ c. c ≢ newline) line × (ends_with carriage_return line ≡ false)

-- The text in which every line is terminated.
unfoldable pub unlines : List Text → Text
unlines [] = []
unlines (line ∷ lines) = line ++ newline ∷ unlines lines

split-line :
    (line rest : Text)
    → All (λ c. c ≢ newline) line
    → split (line ++ newline ∷ rest) ≡ line ∷ split rest
unfolding split
split-line [] rest h = refl
split-line (c ∷ line) rest h = ground (arith, split-line line rest h.1)

split-unlines : (lines : List Text) → All IsLine lines → split (unlines lines) ≡ lines ++ [] ∷ []
unfolding split unlines
split-unlines [] h = refl
split-unlines (line ∷ lines) h =
    split-line line (unlines lines) h.0.0 ∙ ap (λ rest. line ∷ rest) (split-unlines lines h.1)

drop_last-snoc {ℓ} : {A : Type ℓ} (xs : List A) (x : A) → drop_last (xs ++ x ∷ []) ≡ xs
unfolding drop_last
drop_last-snoc [] x = refl
drop_last-snoc (y ∷ []) x = refl
drop_last-snoc (y ∷ z ∷ xs) x = ap (λ rest. y ∷ rest) (drop_last-snoc (z ∷ xs) x)

ends_with-append :
    (suffix c : ℕ) (s t : Text) → ends_with suffix (s ++ c ∷ t) ≡ ends_with suffix (c ∷ t)
unfolding ends_with
ends_with-append suffix c [] t = refl
ends_with-append suffix c (d ∷ []) t = refl
ends_with-append suffix c (d ∷ e ∷ s) t = ends_with-append suffix c (e ∷ s) t

ends_with-cons :
    (suffix c d : ℕ) (t : Text) → ends_with suffix (c ∷ d ∷ t) ≡ ends_with suffix (d ∷ t)
unfolding ends_with
ends_with-cons suffix c d t = refl

ends_with-unlines :
    (line : Text) (lines : List Text) → ends_with newline (unlines (line ∷ lines)) ≡ true
unfolding unlines ends_with
ends_with-unlines line [] = ends_with-append newline newline line []
ends_with-unlines line ([] ∷ lines) =
    ends_with-append newline newline line (unlines ([] ∷ lines)) ∙ ends_with-unlines [] lines
ends_with-unlines line ((c ∷ next) ∷ lines) =
    ends_with-append newline newline line (unlines ((c ∷ next) ∷ lines))
    ∙ ends_with-unlines (c ∷ next) lines

strip_return-lines : (lines : List Text) → All IsLine lines → map strip_return lines ≡ lines
unfolding strip_return
strip_return-lines [] h = refl
strip_return-lines (line ∷ lines) h = rw (h.0.1, strip_return-lines lines h.1)

-- The lines of a text whose every line is terminated by "\n" come back exactly, whatever other
-- separators (form feeds, line separators, inner carriage returns) they hold, if there is a line,
-- no line holds "\n" and none ends in "\r".
pub split_lines-unlines :
    (line : Text) (lines : List Text)
    → IsLine line
    → All IsLine lines
    → split_lines (unlines (line ∷ lines)) ≡ line ∷ lines
unfolding split_lines
split_lines-unlines line lines h hs = rw (
  ends_with-unlines line lines,
  split-unlines (line ∷ lines) (h, hs),
  drop_last-snoc (line ∷ lines) [],
  strip_return-lines (line ∷ lines) (h, hs),
)
