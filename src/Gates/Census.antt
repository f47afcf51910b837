-- ===== src/Gates/Census.antt =====
-- saffron/gates/core/census.py and saffron/gates/core/committed.py: which collected names are gone,
-- and whether the worktree is clean.
pub mod Verdict
use saffron.Prelude.{
  Bool, true, false, not, List, [], ◌∷◌, ◌++◌, map, Option, none, some, Text, codes, elem, filter,
  length, decimal, sorted_set, if◌then◌else◌,
}
use saffron.Gates.Contract.{Failure, GateResult, gate_result, pass, fail, skip, error}

-- The two lists of one more result's `collected`, one after the other.
abbrev pub joined : Option (List Text) → Option (List Text) → Option (List Text)
joined none later = later
joined (some names) none = some names
joined (some names) (some more) = some (names ++ more)

-- `_collected`: every name that a gate enumerated, or `none` if no gate reported.
unfoldable pub collected_names : List GateResult → Option (List Text)
collected_names [] = none
collected_names (result ∷ results) = joined result.collected (collected_names results)

-- `sorted(set(before) - set(after))`
unfoldable pub removed_names : List Text → List Text → List Text
unfolding sorted_set
removed_names before after = sorted_set (filter (λ name. not (elem name after)) before)

abbrev pub removed_failure : Text → Failure
removed_failure name = record {
  file = name;
  line = none;
  code = codes "removed-test";
  message = codes "collected at base_sha, absent at head";
}

unfoldable pub census_verdict : List Text → List Text → List Text → GateResult
census_verdict before after [] = gate_result (codes "census") pass [] (
    decimal (length after)
    ++ (codes " tests collected, none of " ++ (decimal (length before) ++ codes " removed")))
census_verdict before after (name ∷ names) =
    gate_result (codes "census") fail (map removed_failure (name ∷ names)) (
      decimal (length (name ∷ names))
      ++ (codes " of "
          ++ (decimal (length before) ++ codes " collected tests no longer collected")))

unfoldable pub census_between : Option (List Text) → Option (List Text) → GateResult
unfolding census_verdict removed_names
census_between none after =
    gate_result (codes "census") skip [] (codes "no gate reported collected tests at base_sha")
census_between (some before) none = gate_result (codes "census") error [] (
    decimal (length before)
    ++ codes
        " tests were enumerated at base_sha and none at head; the comparison is not trustworthy")
census_between (some before) (some after) = census_verdict before after (removed_names before after)

unfoldable pub census_gate : List GateResult → List GateResult → GateResult
unfolding census_between collected_names
census_gate base head = census_between (collected_names base) (collected_names head)

abbrev pub uncommitted : Text → Failure
uncommitted path = record {
  file = path;
  line = none;
  code = codes "uncommitted-change";
  message =
      codes
        "changed but not committed; the gates measure the committed tree, and the patch a reviewer reads is base_sha..HEAD";
}

unfoldable pub committed_gate : List Text → GateResult
committed_gate [] = gate_result (codes "committed") pass [] (codes "worktree clean")
committed_gate (path ∷ paths) =
    gate_result (codes "committed") fail (map uncommitted (path ∷ paths))
      (decimal (length (path ∷ paths)) ++ codes " path(s) changed but not committed")
