-- ===== src/Queue/Order.antt =====
-- The stack order of saffron/scheduler.py: `_stack_order`, with `_stack_dependency_reason` and
-- `_second_stack_base_reason`.
pub mod Pick
pub mod Lands
use saffron.Prelude.{
  ℕ, zero, suc, Bool, true, false, not, ◌&&◌, ◌||◌, List, [], ◌∷◌, ◌++◌, map, Option, none, some,
  Text, codes, same, elem, filter, all, join, length, sorted_set, text_lt, ℤ, lt_ℤ, if◌then◌else◌,
}
use saffron.Intake.{Spec}
use saffron.Queue.Rows.{Candidate, Refusal, RefusalKind, depends_on}
use saffron.Queue.Paths.{comma}
use saffron.Queue.Dependencies.{verb_of}

-- `causes`: a parent's cause and remedy.
abbrev pub Causes : Type 0
Causes = List (Text × Text × Text)

unfoldable pub find_cause : Causes → Text → Option (Text × Text)
find_cause [] dep = none
find_cause ((key, cause, remedy) ∷ causes) dep =
    let rest = find_cause causes dep in if same key dep then some (cause, remedy) else rest

-- `_second_stack_base_reason`
unfoldable pub second_stack_base_reason : Text → List Text → Text
second_stack_base_reason stack_base_id other_ids =
    codes "depends_on "
    ++ (join comma (sorted_set other_ids)
        ++ (codes " "
            ++ (verb_of (length other_ids)
                ++ (codes " outside the stack order and not on the default branch, and "
                    ++ (stack_base_id
                        ++ codes
                            " is already this batch's stack base, off whose chain they sit — merge it first, or run the spec in a later stack batch")))))

-- The loop over `missing` for the first entry with a cause.
abbrev pub with_cause : Causes → Text → List Text → Text
with_cause causes reason [] = reason
with_cause causes reason (dep ∷ missing) = elim (find_cause causes dep) [
  | some (cause, remedy) ↦ reason ++ (codes " — " ++ (cause ++ (codes ", so " ++ remedy)))
  | none ↦ with_cause causes reason missing
]

abbrev pub second_or : Option Text → List Text → Text → Text
second_or (some stack_base_id) (dep ∷ off_chain) reason =
    second_stack_base_reason stack_base_id (dep ∷ off_chain)
second_or (some stack_base_id) [] reason = reason
second_or none off_chain reason = reason

unfoldable pub missing_of : List Text → List Text → List Text → List Text
missing_of taken_ids on_default_branch deps =
    filter (λ dep. not (elem dep taken_ids) && not (elem dep on_default_branch)) deps

-- What `_stack_order` passes straight through.
pub record Passed : Type 0 where
  pub causes : Causes
  pub other_qualifying : List Text
  pub stack_base_id : Option Text

-- `_stack_dependency_reason`
unfoldable pub stack_dependency_reason : Passed → List Text → List Text → List Text → Text
unfolding missing_of second_stack_base_reason find_cause
stack_dependency_reason passed taken_ids on_default_branch deps =
    let missing = missing_of taken_ids on_default_branch deps in
    let reason =
      codes "depends_on "
      ++ (join comma missing
          ++ (codes " "
              ++ (verb_of (length missing)
                  ++ codes " outside the stack order and not on the default branch"))) in
    second_or passed.stack_base_id (filter (λ dep. elem dep passed.other_qualifying) missing)
      (with_cause passed.causes reason missing)

abbrev pub is_ready : List Text → List Text → Candidate → Bool
is_ready on_default_branch taken_ids candidate =
    all (λ dep. elem dep taken_ids || elem dep on_default_branch) candidate.spec.depends_on

-- `(c.spec.priority, c.spec.id) < (d.spec.priority, d.spec.id)`
unfoldable pub runs_before : Candidate → Candidate → Bool
runs_before c d =
    lt_ℤ c.spec.priority d.spec.priority
    || (not (lt_ℤ d.spec.priority c.spec.priority) && text_lt c.spec.id d.spec.id)

-- A candidate put before those that a pick was made of.
abbrev pub pick_over :
    (Candidate → Bool)
    → Candidate
    → List Candidate
    → Option (Candidate × List Candidate)
    → Option (Candidate × List Candidate)
pick_over ready c remaining none = if ready c then some (c, remaining) else none
pick_over ready c remaining (some (best, others)) =
    if ready c && not (runs_before best c) then some (c, remaining) else some (best, c ∷ others)

-- `ready`, `best` and `remaining.remove(best)` in one pass: the first least candidate that is ready,
-- and the others.
unfoldable pub pick : (Candidate → Bool) → List Candidate → Option (Candidate × List Candidate)
unfolding runs_before
pick ready [] = none
pick ready (c ∷ remaining) = pick_over ready c remaining (pick ready remaining)

-- The loop: what is taken, in order, and what is left. Each round takes one.
unfoldable pub take_ready :
    ℕ → List Text → List Text → List Candidate → List Candidate × List Candidate
unfolding pick
take_ready zero on_default_branch taken_ids remaining = ([], remaining)
take_ready (suc fuel) on_default_branch taken_ids remaining =
    elim (pick (is_ready on_default_branch taken_ids) remaining) [
      | none ↦ ([], remaining)
      | some (best, others) ↦
          let (taken, left) = take_ready fuel on_default_branch (best.spec.id ∷ taken_ids) others in
          (best ∷ taken, left)
    ]

abbrev pub ids_of : List Candidate → List Text
ids_of candidates = map (λ (c : Candidate). c.spec.id) candidates

abbrev pub order_refusal : Passed → List Text → List Text → Candidate → Refusal
order_refusal passed taken_ids on_default_branch c = record {
  path = c.path;
  reason = stack_dependency_reason passed taken_ids on_default_branch c.spec.depends_on;
  kind = depends_on;
}

-- `_stack_order`
unfoldable pub stack_order : Passed → List Text → List Candidate → List Candidate × List Refusal
unfolding take_ready stack_dependency_reason
stack_order passed on_default_branch candidates =
    let (taken, remaining) = take_ready (length candidates) on_default_branch [] candidates in
    (taken, map (order_refusal passed (ids_of taken) on_default_branch) remaining)
