-- ===== src/Samples/Contract.antt =====
-- Lines, normalised messages and identities, on small texts.
use saffron.Prelude.{◌≡◌, refl, ◌≢◌, true, ◌&&◌, ◌||◌, [], ◌∷◌, arith, Text, codes, leb, ◌==◌, All}
use saffron.Gates.Contract.{CharClasses, split_lines, normalize_message, ends_with}
use saffron.Gates.Contract.Lines.{unlines, IsLine, split_lines-unlines}
use saffron.Gates.Contract.Normal.{AreSeparate, IsRun}

-- The ASCII part of the Unicode tables.
abbrev pub ascii : CharClasses
ascii = record {
  is_digit = λ c. leb b'0' c && leb c b'9';
  is_space = λ c. c == 32 || (leb 9 c && leb c 13);
}

ascii-AreSeparate : AreSeparate ascii
ascii-AreSeparate = record {
  n_digit = refl;
  n_space = refl;
  space_space = refl;
  space_digit = refl;
}

normalized : normalize_message ascii (codes "  line 12,  column 345 ") ≡ codes "line N, column N"
unfolding normalize_message codes
normalized = refl

run_of : (s : Text) → s ≢ [] → All (λ c. ascii.is_digit c ≡ true) s → IsRun ascii.is_digit s
run_of s h k = (h, k)

form_feed : split_lines (97 ∷ 12 ∷ 98 ∷ 13 ∷ 10 ∷ 99 ∷ []) ≡ (97 ∷ 12 ∷ 98 ∷ []) ∷ (99 ∷ []) ∷ []
unfolding split_lines
form_feed = refl

-- "a\\fb" and "c", each terminated.
abbrev with_form_feed : Text
with_form_feed = 97 ∷ 12 ∷ 98 ∷ []

abbrev plain : Text
plain = 99 ∷ []

with_form_feed-IsLine : IsLine with_form_feed
unfolding ends_with
with_form_feed-IsLine = ((omega arith, (omega arith, (omega arith, tt))), refl)

plain-IsLine : IsLine plain
unfolding ends_with
plain-IsLine = ((omega arith, tt), refl)

split_lines-unlines_example :
    split_lines (unlines (with_form_feed ∷ plain ∷ [])) ≡ with_form_feed ∷ plain ∷ []
split_lines-unlines_example =
    split_lines-unlines with_form_feed (plain ∷ []) with_form_feed-IsLine (plain-IsLine, tt)
