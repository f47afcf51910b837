-- ===== src/Samples/Criteria.antt =====
-- The criteria theorems, on a spec of one criterion.
use saffron.Prelude.{◌≡◌, refl, ◌≢◌, ◌↔◌, [], ◌∷◌, none, arith, All, false, same}
use saffron.Intake.{Criterion}
use saffron.Gates.Contract.{pass}
use saffron.Gates.Criteria.{criteria_gate, witnesses_green_at_base}
use saffron.Gates.Criteria.Sides.{IsReadable}
use saffron.Gates.Criteria.Verdict.{IsMet, criteria_gate-pass_iff}
use saffron.Samples.Suites.{before, after}

-- The witness "c", which only the suite at head collects.
abbrev adds_c : Criterion
adds_c = record {
  claim = [];
  witness = b'c' ∷ [];
  preserves = false;
  mutant = none;
  subject = none;
  wrong_versions = [];
}

abbrev keeps_a : Criterion
keeps_a = record {
  claim = [];
  witness = b'a' ∷ [];
  preserves = false;
  mutant = none;
  subject = none;
  wrong_versions = [];
}

criteria_gate-pass_iff_example : ((criteria_gate (adds_c ∷ []) before after).status ≡ pass) ↔ (
    (adds_c ∷ [] ≢ [])
    × IsReadable before
    × IsReadable after
    × All (IsMet before after) (adds_c ∷ []))
criteria_gate-pass_iff_example = criteria_gate-pass_iff (adds_c ∷ []) before after

already_green : witnesses_green_at_base (keeps_a ∷ []) before ≡ (b'a' ∷ []) ∷ []
unfolding witnesses_green_at_base same
already_green = refl

is_named : witnesses_green_at_base (keeps_a ∷ []) before ≢ []
is_named e = ground (arith, already_green)
