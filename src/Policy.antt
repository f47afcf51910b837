-- ===== src/Policy.antt =====
-- saffron/repos/policy.py: the declarations of a repo that the gate suite reads, and the risk tier.
pub mod Risk
use saffron.Prelude.{Bool, List, [], ◌∷◌, Option, Text, codes, any, same, if◌then◌else◌}
use saffron.Gates.Glob.{matches}

pub record GateDeclaration : Type 0 where
  pub blocking : Bool
  pub form : Bool

pub record IntegrityPatterns : Type 0 where
  pub test_paths : List Text
  pub suppressions : List Text
  pub gate_config : List Text

pub record ConstantPattern : Type 0 where
  pub pattern : Text
  pub replace : Text

pub record WitnessPatterns : Type 0 where
  pub witness_name : Option Text
  pub witness_body : Option Text
  pub constants : List ConstantPattern

-- The fields of `Policy` that the suite's comparison and its tier read. `gates` is a mapping in
-- declaration order.
pub record Policy : Type 0 where
  pub gates : List (Text × GateDeclaration)
  pub elevate_on : List Text
  pub protected : List Text
  pub integrity : IntegrityPatterns
  pub witness : WitnessPatterns

-- The two nested loops: the first match ends both.
unfoldable pub effective_risk : Text → List Text → List Text → Text
effective_risk spec_risk changed_files elevate_on =
    if same spec_risk (codes "elevated")
    then codes "elevated"
    else if any (λ path. any (matches path) elevate_on) changed_files
    then codes "elevated"
    else spec_risk
