-- ===== src/Samples/Diffs.antt =====
-- The size and integrity theorems, on a small diff.
use saffron.Prelude.{
  ◌≡◌, refl, ◌↔◌, ◌⊎◌, ◌≤◌, true, false, [], ◌∷◌, none, some, Text, codes, same, join,
}
use saffron.Policy.{IntegrityPatterns}
use saffron.Gates.Contract.{pass, split_lines}
use saffron.Gates.Diff.{file_header, binary_paths}
use saffron.Gates.Patch.{Digits}
use saffron.Gates.Integrity.{integrity_gate}
use saffron.Gates.Tokens.{token_count, count_trimmed, trim_shared_ends, lcs_length}
use saffron.Gates.Size.{count_block, size_gate, token_counts, ceiling_of}
use saffron.Gates.Size.Verdict.{HidesDeclared, counted, size_gate-pass_iff}
use saffron.Samples.Contract.{ascii}

abbrev diff : Text
diff =
    codes "diff --git a/f.py b/f.py\n--- a/f.py\n+++ b/f.py\n@@ -1,2 +1,2 @@\n a\n-b c\n+b  d e\n"

header : file_header (codes "diff --git a/f.py b/f.py") ≡ some (codes "f.py")
unfolding file_header codes same
header = refl

quoted_header : file_header (codes "diff --git \"a/f\" \"b/f\"") ≡ some (codes "f")
unfolding file_header codes same
quoted_header = refl

hidden_file :
    binary_paths (codes "Binary files /dev/null and b/x and b/y differ")
    ≡ some (none, some (codes "x and b/y"))
unfolding binary_paths codes
hidden_file = refl

three_tokens :
    token_counts ascii diff ≡ record { path = codes "f.py"; count = 3; estimated = false } ∷ []
unfolding token_counts codes same split_lines count_block file_header token_count count_trimmed
    trim_shared_ends lcs_length
three_tokens = refl

size_gate-pass_iff_example : ((size_gate ascii diff (codes "bug") [] true []).status ≡ pass) ↔ (
    ((true ≡ false) ⊎ (¬ HidesDeclared diff []))
    × (counted [] (token_counts ascii diff) ≤ ceiling_of (codes "bug")))
size_gate-pass_iff_example = size_gate-pass_iff ascii diff (codes "bug") [] true []

abbrev patterns : IntegrityPatterns
patterns = record { test_paths = []; suppressions = codes "noqa" ∷ []; gate_config = [] }

abbrev repr : Text → Text
repr text = text

abbrev digits : Digits
digits = record { is_digit = ascii.is_digit; value = λ c. c }

clean : (integrity_gate repr digits diff patterns []).status ≡ pass
unfolding integrity_gate codes split_lines same join binary_paths
clean = refl
