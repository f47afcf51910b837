-- ===== src/Gates/Selection.antt =====
-- saffron/gates/core/revert.py: the tests that the `revert` gate runs and the source that it
-- reverts, or why it skips.
pub mod Choice
use saffron.Prelude.{
  Bool, true, false, not, ◌&&◌, ◌||◌, List, [], ◌∷◌, ◌++◌, map, Option, none, some, Text, codes,
  same, elem, any, filter, starts_with, take, length, is_empty, decimal, join, sorted_set, text_lt,
  if◌then◌else◌,
}
use saffron.Intake.{Criterion, Mutant}
use saffron.Gates.Contract.{Failure, GateResult, Status, gate_result, pass, fail, skip, error}
use saffron.Gates.Baseline.{ran}
use saffron.Gates.Census.{collected_names}
use saffron.Gates.Criteria.{failure_codes}
use saffron.Gates.Scope.{matches_any}

unfoldable pub argv_safe : Text → Bool
argv_safe name = not (starts_with (codes "-") name)

-- `{c.witness for c in acceptance if c.preserves}` and `{c.witness for c in acceptance}`
abbrev pub preserved_witnesses : List Criterion → List Text
preserved_witnesses acceptance = map (λ c. c.witness) (filter (λ c. c.preserves) acceptance)

abbrev pub declared_witnesses : List Criterion → List Text
declared_witnesses acceptance = map (λ c. c.witness) acceptance

-- `before_exempt`, a set kept as a list of its members.
unfoldable pub new_tests : List Criterion → List Text → List Text → List Text
new_tests acceptance before after =
    filter (λ name. not (elem name (preserved_witnesses acceptance)))
      (filter (λ name. not (elem name before)) after
        ++ filter (λ name. elem name after) (declared_witnesses acceptance))

unfoldable pub exempted_tests : List Text → List Text → List Text
unfolding sorted_set
exempted_tests exempt before_exempt = sorted_set (filter (λ name. elem name exempt) before_exempt)

abbrev pub candidates_of : List Text → List Text → List Text
candidates_of exempt before_exempt = filter (λ name. not (elem name exempt)) before_exempt

unfoldable pub safe_subset : List Text → List Text
unfolding sorted_set argv_safe
safe_subset candidates = sorted_set (filter argv_safe candidates)

unfoldable pub dropped_names : List Text → List Text → List Text
unfolding sorted_set
dropped_names candidates subset = sorted_set (filter (λ name. not (elem name subset)) candidates)

unfoldable pub first_note : List Text → List Text → Text
first_note dropped exempted =
    (if is_empty dropped
      then []
      else codes " — ignored "
        ++ (decimal (length dropped)
            ++ (codes " collected name(s) reading as command-line options: "
                ++ join (codes ", ") (take 3 dropped))))
    ++ (if is_empty exempted
        then []
        else codes " — "
          ++ (decimal (length exempted)
              ++ (codes " exempt test(s): " ++ join (codes ", ") exempted)))

-- The changed files that match none of the test paths.
unfoldable pub source_of : List Text → List Text → List Text
source_of changed_files test_paths =
    filter (λ path. not (matches_any test_paths path)) changed_files

-- The file is source that the diff changed, or a test.
unfoldable pub is_reached : List Text → List Text → Text → Bool
is_reached source test_paths file = elem file source || matches_any test_paths file

-- One criterion of the loop over `aside` and `kept`, which are sets kept as lists: the pair that
-- it adds to the one, and to the other.
unfoldable pub aside_of : List Text → List Text → List Text → Criterion → List (Text × Text)
unfolding is_reached
aside_of source test_paths subset criterion = elim criterion.mutant [
  | none ↦ []
  | some mutant ↦
      if not (elem criterion.witness subset) || is_reached source test_paths mutant.file
      then []
      else elim criterion.subject [
        | none ↦ (criterion.witness, mutant.file) ∷ []
        | some subject ↦
            if is_reached source test_paths subject
            then []
            else (criterion.witness, mutant.file) ∷ []
      ]
]

unfoldable pub kept_of : List Text → List Text → List Text → Criterion → List (Text × Text)
unfolding is_reached
kept_of source test_paths subset criterion = elim criterion.mutant [
  | none ↦ []
  | some mutant ↦
      if not (elem criterion.witness subset) || is_reached source test_paths mutant.file
      then []
      else elim criterion.subject [
        | none ↦ []
        | some subject ↦
            if is_reached source test_paths subject then (criterion.witness, subject) ∷ [] else []
      ]
]

unfoldable pub gather : (Criterion → List (Text × Text)) → List Criterion → List (Text × Text)
gather pairs [] = []
gather pairs (criterion ∷ acceptance) = pairs criterion ++ gather pairs acceptance

-- `sorted` on a set of pairs
unfoldable pub pair_lt : Text × Text → Text × Text → Bool
unfolding text_lt same
pair_lt (a, b) (c, d) = text_lt a c || (same a c && text_lt b d)

unfoldable pub insert_pair : Text × Text → List (Text × Text) → List (Text × Text)
unfolding pair_lt
insert_pair p [] = p ∷ []
insert_pair p (q ∷ pairs) =
    let rest = insert_pair p pairs in
    if same p.0 q.0 && same p.1 q.1
    then q ∷ pairs
    else if pair_lt p q
    then p ∷ q ∷ pairs
    else q ∷ rest

unfoldable pub sorted_pairs : List (Text × Text) → List (Text × Text)
unfolding insert_pair
sorted_pairs [] = []
sorted_pairs (p ∷ pairs) = insert_pair p (sorted_pairs pairs)

abbrev pub witnesses_of : List (Text × Text) → List Text
witnesses_of pairs = map (λ p. p.0) pairs

-- `w (f)` for each pair
abbrev pub show_pairs : List (Text × Text) → Text
show_pairs pairs = join (codes ", ") (map (λ p. p.0 ++ (codes " (" ++ (p.1 ++ codes ")"))) pairs)

unfoldable pub second_note : List (Text × Text) → List (Text × Text) → Text
second_note unreachable kept_by_subject =
    (if is_empty unreachable
      then []
      else codes " — "
        ++ (decimal (length (sorted_set (witnesses_of unreachable)))
            ++ (codes " witness(es) whose mutant's file this diff never touched: "
                ++ show_pairs unreachable)))
    ++ (if is_empty kept_by_subject
        then []
        else codes " — "
          ++ (decimal (length (sorted_set (witnesses_of kept_by_subject)))
              ++ (codes " witness(es) a declared subject kept judged: "
                  ++ show_pairs kept_by_subject)))

-- What the gate decides before it touches the worktree: a skip, or the source to revert and the
-- tests to run, with the note of the later verdict.
pub data Plan : Type 0 where
  stop : GateResult → Plan
  proceed : List Text → List Text → Text → Plan

abbrev pub skipped : Text → Plan
skipped why = stop (gate_result (codes "revert") skip [] why)

-- The reading of the dirty paths, the last test before the revert.
unfoldable pub plan_clean : List Text → List Text → Text → List Text → Plan
plan_clean source subset note [] = proceed source subset note
plan_clean source subset note (path ∷ collides) = skipped (
    codes "uncommitted changes to source this gate would revert: "
    ++ (join (codes ", ") (take 3 (path ∷ collides))
        ++ codes " — restoring to HEAD would destroy them and hide them from `committed`"))

unfoldable pub plan_reached : List Text → List Text → Text → List Text → Plan
unfolding plan_clean sorted_set
plan_reached source [] note dirty =
    skipped (codes "no new test depends on source this diff changed" ++ note)
plan_reached source (name ∷ subset) note dirty =
    plan_clean source (name ∷ subset) note (sorted_set (filter (λ path. elem path source) dirty))

unfoldable pub plan_source :
    List Criterion → List Text → List Text → Text → List Text → List Text → Plan
unfolding plan_reached
plan_source acceptance test_paths subset note dirty [] =
    skipped (codes "the diff has no source outside the repo's declared test paths")
plan_source acceptance test_paths subset note dirty (path ∷ paths) =
    let source = path ∷ paths in
    let aside = gather (aside_of source test_paths subset) acceptance in
    let kept = gather (kept_of source test_paths subset) acceptance in
    let kept_by_subject = sorted_pairs (filter (λ p. not (elem p.0 (witnesses_of aside))) kept) in
    plan_reached source (filter (λ name. not (elem name (witnesses_of aside))) subset)
      (note ++ second_note (sorted_pairs aside) kept_by_subject) dirty

unfoldable pub plan_subset :
    List Criterion → List Text → List Text → List Text → List Text → List Text → Text → Plan
unfolding plan_source source_of
plan_subset acceptance changed_files test_paths dirty exempted [] note = skipped (
    (if is_empty exempted
      then codes "the diff adds no new test"
      else codes "every new test is exempt")
    ++ note)
plan_subset acceptance changed_files [] dirty exempted (name ∷ subset) note =
    skipped (codes "the repo declares no test paths, so source cannot be told from test")
plan_subset acceptance changed_files (pattern ∷ test_paths) dirty exempted (name ∷ subset) note =
    plan_source acceptance (pattern ∷ test_paths) (name ∷ subset) note dirty
      (source_of changed_files (pattern ∷ test_paths))

unfoldable pub plan_between :
    List Criterion
    → List Text
    → List Text
    → List Text
    → List Text
    → Option (List Text)
    → Option (List Text)
    → Plan
unfolding plan_subset new_tests safe_subset
plan_between acceptance changed_files test_paths dirty exempt (some before) (some after) =
    let before_exempt = new_tests acceptance before after in
    let exempted = exempted_tests exempt before_exempt in
    let candidates = candidates_of exempt before_exempt in
    let subset = safe_subset candidates in
    plan_subset acceptance changed_files test_paths dirty exempted subset
      (first_note (dropped_names candidates subset) exempted)
plan_between acceptance changed_files test_paths dirty exempt _ _ =
    skipped (codes "no readable test enumeration to compare — nothing to revert")

unfoldable pub plan_revert :
    List GateResult
    → List GateResult
    → List Criterion
    → List Text
    → List Text
    → List Text
    → List Text
    → Plan
unfolding plan_between collected_names
plan_revert prior results acceptance changed_files test_paths dirty exempt =
    plan_between acceptance changed_files test_paths dirty exempt (collected_names prior)
      (collected_names results)
