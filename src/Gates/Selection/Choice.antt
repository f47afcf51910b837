-- ===== src/Gates/Selection/Choice.antt =====
-- What the `revert` gate hands over: which tests it runs, and which source it reverts.
use saffron.Prelude.{
  ◌≡◌, refl, ◌≢◌, ◌↔◌, ◌⊎◌, true, not, List, [], ◌∷◌, ◌++◌, Option, none, some, arith, Text, elem,
  Elem, elem_iff, Elem-append, Elem-filter, filter, sorted_set, elem-sorted_set,
}
use saffron.Intake.{Criterion}
use saffron.Gates.Contract.{GateResult, skip}
use saffron.Gates.Census.Verdict.{Lists, IsCollected, IsCollected-iff}
use saffron.Gates.Scope.{matches_any}
use saffron.Gates.Scope.Verdict.{IsIn, matches_any_iff}
use saffron.Gates.Selection.{
  argv_safe, preserved_witnesses, declared_witnesses, new_tests, candidates_of, safe_subset,
  source_of, aside_of, gather, witnesses_of, Plan, stop, proceed, plan_clean, plan_reached,
  plan_source, plan_subset, plan_between, plan_revert,
}

-- A test that the gate may run: collected at head, new there or declared by a criterion, declared
-- `preserves` by none, not exempt, and no option to the process that it is handed to.
abbrev pub IsRunnable :
    List Criterion → (Text → Type 0) → (Text → Type 0) → List Text → Text → Type 0
IsRunnable acceptance Before After exempt name =
    After name
    × (((¬ Before name) ⊎ Elem name (declared_witnesses acceptance))
        × ((¬ Elem name (preserved_witnesses acceptance))
            × ((¬ Elem name exempt) × (argv_safe name ≡ true))))

-- A path that the gate may revert: changed, no test, and with nothing uncommitted in it.
abbrev pub IsRevertible : List Text → List Text → List Text → Text → Type 0
IsRevertible changed_files test_paths dirty path =
    Elem path changed_files × ((¬ IsIn test_paths path) × (¬ Elem path dirty))

-- A plan that stops is a skip without failures. One that proceeds runs tests of the one kind, one
-- at least, with source of the other kind reverted, one file at least.
abbrev pub IsPlanned : (Text → Type 0) → (Text → Type 0) → Plan → Type 0
IsPlanned Test Source (stop result) = (result.status ≡ skip) × (result.failures ≡ [])
IsPlanned Test Source (proceed source subset note) =
    (subset ≢ [])
    × (source ≢ [])
    × ((name : Text) → Elem name subset → Test name)
    × ((path : Text) → Elem path source → Source path)

pub Elem-sorted_set :
    (name : Text) (names : List Text) → Elem name (sorted_set names) ↔ Elem name names
Elem-sorted_set name names =
    ground
      (arith, elem-sorted_set name names, elem_iff name (sorted_set names), elem_iff name names)

module _ (Test Source : Text → Type 0) where
  plan_clean-IsPlanned :
      (source subset : List Text) (note : Text) (collides : List Text)
      → subset ≢ []
      → source ≢ []
      → ((name : Text) → Elem name subset → Test name)
      → (collides ≡ [] → (path : Text) → Elem path source → Source path)
      → IsPlanned Test Source (plan_clean source subset note collides)
  unfolding plan_clean
  plan_clean-IsPlanned source subset note [] s o t c = (s, o, t, c refl)
  plan_clean-IsPlanned source subset note (path ∷ collides) s o t c = (refl, refl)

no_collision :
    (source dirty : List Text)
    → sorted_set (filter (λ path. elem path source) dirty) ≡ []
    → (path : Text) → Elem path source
    → ¬ Elem path dirty
no_collision source dirty e path m d =
    let collides = filter (λ p. elem p source) dirty in
    let (out, in_) = Elem-sorted_set path collides in
    let hit : Elem path (sorted_set collides) =
      in_ ((Elem-filter (λ p. elem p source) path dirty).1 (d, (elem_iff path source).1 m)) in
    let none_left : Elem path [] = rw e at hit in none_left

module _ (changed_files test_paths dirty : List Text) (Test : Text → Type 0) where
  plan_reached-IsPlanned :
      (source subset : List Text) (note : Text)
      → source ≢ []
      → ((path : Text) → Elem path source → Elem path changed_files × (¬ IsIn test_paths path))
      → ((name : Text) → Elem name subset → Test name)
      → IsPlanned Test
          (IsRevertible changed_files test_paths dirty)
          (plan_reached source subset note dirty)
  unfolding plan_reached
  plan_reached-IsPlanned source [] note o c t = (refl, refl)
  plan_reached-IsPlanned source (name ∷ subset) note o c t =
      plan_clean-IsPlanned Test (IsRevertible changed_files test_paths dirty) source (name ∷ subset)
        note (sorted_set (filter (λ path. elem path source) dirty)) (λ e. ground arith) o t
        λ e path m. ((c path m).0, ((c path m).1, no_collision source dirty e path m))

  plan_source-IsPlanned :
      (acceptance : List Criterion) (subset : List Text) (note : Text) (source : List Text)
      → ((path : Text) → Elem path source → Elem path changed_files × (¬ IsIn test_paths path))
      → ((name : Text) → Elem name subset → Test name)
      → IsPlanned Test
          (IsRevertible changed_files test_paths dirty)
          (plan_source acceptance test_paths subset note dirty source)
  unfolding plan_source
  plan_source-IsPlanned acceptance subset note [] c t = (refl, refl)
  plan_source-IsPlanned acceptance subset note (path ∷ paths) c t =
      let aside = gather (aside_of (path ∷ paths) test_paths subset) acceptance in
      plan_reached-IsPlanned (path ∷ paths)
        (filter (λ name. not (elem name (witnesses_of aside))) subset) _ (λ e. ground arith) c
        λ name m. t name ((Elem-filter (λ n. not (elem n (witnesses_of aside))) name subset).0 m).0

source_of_lem :
    (path : Text) (changed_files test_paths : List Text)
    → Elem path (source_of changed_files test_paths)
    → Elem path changed_files × (¬ IsIn test_paths path)
unfolding source_of
source_of_lem path changed_files test_paths m =
    let (member, outside) =
      (Elem-filter (λ p. not (matches_any test_paths p)) path changed_files).0 m in
    (member, (λ inside. ground (arith, matches_any_iff test_paths path)))

plan_subset-IsPlanned :
    (acceptance : List Criterion) (changed_files test_paths dirty exempted subset : List Text)
    (note : Text) (Test : Text → Type 0)
    → ((name : Text) → Elem name subset → Test name)
    → IsPlanned Test
        (IsRevertible changed_files test_paths dirty)
        (plan_subset acceptance changed_files test_paths dirty exempted subset note)
unfolding plan_subset
plan_subset-IsPlanned acceptance changed_files test_paths dirty exempted [] note Test t =
    (refl, refl)
plan_subset-IsPlanned acceptance changed_files [] dirty exempted (name ∷ subset) note Test t =
    (refl, refl)
plan_subset-IsPlanned acceptance changed_files (p ∷ test_paths) dirty exempted (name ∷ subset) note
      Test t =
    plan_source-IsPlanned changed_files (p ∷ test_paths) dirty Test acceptance (name ∷ subset) note
      (source_of changed_files (p ∷ test_paths))
      (λ path m. source_of_lem path changed_files (p ∷ test_paths) m) t

safe_subset_lem :
    (acceptance : List Criterion) (before after exempt : List Text) (name : Text)
    → Elem name (safe_subset (candidates_of exempt (new_tests acceptance before after)))
    → IsRunnable acceptance (λ n. Elem n before) (λ n. Elem n after) exempt name
unfolding safe_subset new_tests
safe_subset_lem acceptance before after exempt name m =
    let declared = declared_witnesses acceptance in
    let fresh = filter (λ n. not (elem n before)) after in
    let witnesses = filter (λ n. elem n after) declared in
    let unpreserved = λ (n : Text). not (elem n (preserved_witnesses acceptance)) in
    let all_new = filter unpreserved (fresh ++ witnesses) in
    let unexempt = λ (n : Text). not (elem n exempt) in
    let (member, safe) =
      (Elem-filter argv_safe name (filter unexempt all_new)).0
        ((Elem-sorted_set name (filter argv_safe (filter unexempt all_new))).0 m) in
    let (candidate, allowed) = (Elem-filter unexempt name all_new).0 member in
    let (joined, kept) = (Elem-filter unpreserved name (fresh ++ witnesses)).0 candidate in
    ground (
      arith,
      (Elem-append name fresh witnesses).0 joined,
      Elem-filter (λ n. not (elem n before)) name after,
      Elem-filter (λ n. elem n after) name declared,
      elem_iff name after,
      elem_iff name before,
      elem_iff name (preserved_witnesses acceptance),
      elem_iff name exempt,
    )

IsRunnable-map :
    (acceptance : List Criterion) (B A B' A' : Text → Type 0) (exempt : List Text) (name : Text)
    → B name ↔ B' name
    → A name ↔ A' name
    → IsRunnable acceptance B A exempt name
    → IsRunnable acceptance B' A' exempt name
IsRunnable-map acceptance B A B' A' exempt name b a h = ground arith

plan_between-IsPlanned :
    (acceptance : List Criterion) (changed_files test_paths dirty exempt : List Text)
    (Before After : Text → Type 0) (before after : Option (List Text))
    → ((name : Text) → Lists name before ↔ Before name)
    → ((name : Text) → Lists name after ↔ After name)
    → IsPlanned
        (IsRunnable acceptance Before After exempt)
        (IsRevertible changed_files test_paths dirty)
        (plan_between acceptance changed_files test_paths dirty exempt before after)
unfolding plan_between
plan_between-IsPlanned acceptance changed_files test_paths dirty exempt B A none none b a =
    (refl, refl)
plan_between-IsPlanned acceptance changed_files test_paths dirty exempt B A none (some x) b a =
    (refl, refl)
plan_between-IsPlanned acceptance changed_files test_paths dirty exempt B A (some x) none b a =
    (refl, refl)
plan_between-IsPlanned acceptance changed_files test_paths dirty exempt B A (some before)
      (some after) b a =
    plan_subset-IsPlanned acceptance changed_files test_paths dirty _ _ _ _ λ name m.
      IsRunnable-map acceptance (λ n. Elem n before) (λ n. Elem n after) B A exempt name (b name)
        (a name) (safe_subset_lem acceptance before after exempt name m)

-- What the revert gate decides before it touches the worktree: it skips without failures, or it
-- goes on with at least one test and at least one source file. Every test that it runs is
-- collected at head, is new there or a criterion's witness, is declared `preserves` by none, is
-- not exempt and is no command-line option; every file that it reverts is changed, lies outside
-- the test paths and holds nothing uncommitted.
pub plan_revert-IsPlanned :
    (prior results : List GateResult) (acceptance : List Criterion)
    (changed_files test_paths dirty exempt : List Text)
    → IsPlanned
        (IsRunnable acceptance
          (λ name. IsCollected name prior)
          (λ name. IsCollected name results)
          exempt)
        (IsRevertible changed_files test_paths dirty)
        (plan_revert prior results acceptance changed_files test_paths dirty exempt)
unfolding plan_revert
plan_revert-IsPlanned prior results acceptance changed_files test_paths dirty exempt =
    plan_between-IsPlanned acceptance changed_files test_paths dirty exempt _ _ _ _
      (λ name. IsCollected-iff name prior) (λ name. IsCollected-iff name results)
