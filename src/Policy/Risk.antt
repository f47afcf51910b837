-- ===== src/Policy/Risk.antt =====
-- When a task's effective risk is `elevated`.
use saffron.Prelude.{
  ◌≡◌, ◌≢◌, ◌↔◌, ◌⊎◌, true, List, arith, Text, codes, any, any_iff, Any, same_iff,
}
use saffron.Gates.Glob.{matches}
use saffron.Gates.Glob.Language.{Glob, matches_iff}
use saffron.Policy.{effective_risk}

touched_iff :
    (changed_files elevate_on : List Text)
    → (any (λ path. any (matches path) elevate_on) changed_files ≡ true)
      ↔ Any (λ path. Any (Glob path) elevate_on) changed_files
touched_iff changed_files elevate_on =
    any_iff (λ path. any (matches path) elevate_on) (λ path. Any (Glob path) elevate_on)
      (λ path. any_iff (matches path) (Glob path) (matches_iff path) elevate_on) changed_files

-- The effective risk is `elevated` exactly if the spec says so or a changed path is matched by a
-- pattern of `elevate_on`, and otherwise it is the spec's own tier.
pub effective_risk_iff :
    (spec_risk : Text) (changed_files elevate_on : List Text)
    → ((effective_risk spec_risk changed_files elevate_on ≡ codes "elevated")
        ↔ ((spec_risk ≡ codes "elevated") ⊎ Any (λ path. Any (Glob path) elevate_on) changed_files))
      × ((effective_risk spec_risk changed_files elevate_on ≢ codes "elevated")
          → effective_risk spec_risk changed_files elevate_on ≡ spec_risk)
unfolding effective_risk
effective_risk_iff spec_risk changed_files elevate_on =
    ground (arith, same_iff spec_risk (codes "elevated"), touched_iff changed_files elevate_on)
