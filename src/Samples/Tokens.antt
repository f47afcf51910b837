-- ===== src/Samples/Tokens.antt =====
-- The token counts, on short streams.
use saffron.Prelude.{◌+◌, ◌-◌, ◌*◌, ◌≡◌, refl, false, List, [], ◌∷◌, Text, length, same}
use saffron.Gates.Tokens.{lcs_length, token_count, count_trimmed, trim_shared_ends}
use saffron.Gates.Tokens.Longest.{IsLongest, lcs, lcs-IsLongest}
use saffron.Gates.Tokens.Lcs.{lcs_length-IsLongest}
use saffron.Gates.Tokens.Trim.{token_count_exact}

-- "x a b y" and "x b a c y".
abbrev old : List Text
old = (b'x' ∷ []) ∷ (b'a' ∷ []) ∷ (b'b' ∷ []) ∷ (b'y' ∷ []) ∷ []

abbrev new : List Text
new = (b'x' ∷ []) ∷ (b'b' ∷ []) ∷ (b'a' ∷ []) ∷ (b'c' ∷ []) ∷ (b'y' ∷ []) ∷ []

three : lcs_length old new ≡ 3
unfolding lcs_length same
three = refl

lcs_length-IsLongest_example : IsLongest (lcs_length old new) old new
lcs_length-IsLongest_example = lcs_length-IsLongest old new

counted : (token_count old new 2).1 ≡ false
unfolding token_count count_trimmed trim_shared_ends same
counted = refl

token_count_exact_example : (token_count old new 2).0 ≡ length old + length new - 2 * lcs old new
token_count_exact_example =
    token_count_exact old new 2 (lcs old new) counted (lcs-IsLongest old new)
