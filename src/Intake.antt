-- ===== src/Intake.antt =====
-- The spec of saffron/intake.py: `Mutant`, `Criterion`, the fields of `Spec` that the gates and the
-- scheduler read, and the rules on `consumes` and `removes`.
pub mod Entries
use saffron.Prelude.{Bool, List, Option, Text, ℤ}

pub record Mutant : Type 0 where
  pub file : Text
  pub find : Text
  pub replace : Text

pub record Criterion : Type 0 where
  pub claim : Text
  pub witness : Text
  pub preserves : Bool
  pub mutant : Option Mutant
  pub subject : Option Text
  pub wrong_versions : List Text

-- The acceptance comes as `Criterion` records, or as the claims of the body's checklist.
pub record Spec : Type 0 where
  pub id : Text
  pub priority : ℤ
  pub depends_on : List Text
  pub consumes : List Text
  pub removes : List Text
  pub touches : List Text
  pub forbidden : List Text
  pub body : Text
  pub acceptance_criteria : List Text
  pub acceptance : List Criterion
