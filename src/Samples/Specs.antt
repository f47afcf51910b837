-- ===== src/Samples/Specs.antt =====
-- The theorem on a spec's `consumes`, on one entry of each form.
use saffron.Prelude.{
  ◌≡◌, refl, ◌↔◌, List, [], ◌∷◌, none, some, Text, codes, All, same, split_on, partition,
}
use saffron.Intake.Entries.{entries_fault, empty_name, not_canonical}
use saffron.Intake.Entries.Form.{IsWellFormed, entries_fault-none_iff}

abbrev entries : List Text
entries = codes "src/a.py" ∷ codes "src/a.py:name" ∷ []

entries_fault-none_iff_example : (entries_fault entries ≡ none) ↔ All IsWellFormed entries
entries_fault-none_iff_example = entries_fault-none_iff entries

passes : entries_fault entries ≡ none
unfolding entries_fault codes same split_on partition
passes = refl

nameless : entries_fault (codes "a.py:" ∷ []) ≡ some (codes "a.py:", empty_name)
unfolding entries_fault codes same split_on partition
nameless = refl

climbs : entries_fault (codes "../a.py" ∷ []) ≡ some (codes "../a.py", not_canonical)
unfolding entries_fault codes same split_on partition
climbs = refl
