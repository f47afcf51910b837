-- ===== src/Samples/Queues.antt =====
-- The scheduler's theorems, on two specs of which one depends on the other.
use saffron.Prelude.{
  same_iff, ℕ, ◌+◌, ◌≡◌, refl, ◌≢◌, ◌↔◌, ◌⊎◌, inl, inr, true, false, ◌||◌, ◌&&◌, List, [], ◌∷◌,
  none, some, Text, codes, Elem, length, Any, leb, ◌==◌, pos, ℤ, sorted_set, text_lt, same,
  split_on, partition, starts_with,
}
use saffron.Intake.{Spec}
use saffron.Gates.Contract.{CharClasses}
use saffron.Gates.Glob.{matches}
use saffron.Queue.Walk.{
  Edges, walk_from, out_of_fuel, depends_on_path, reachable, deepest_open_parent,
}
use saffron.Queue.Walk.Reach.{Reach, Descends, walk_from-ne-out_of_fuel, depends_on_path_iff}
use saffron.Queue.Walk.Deepest.{Yields, deepest_open_parent_lem}
use saffron.Queue.Rows.{TaskRow, Candidate, Refusal}
use saffron.Queue.Dependencies.{ScanFacts, refuse}
use saffron.Queue.Dependencies.Admitted.{Admits, refuse-none_iff}
use saffron.Queue.Order.{Passed, stack_order}
use saffron.Queue.Order.Pick.{In}
use saffron.Queue.Order.Lands.{
  Lands, HasParents, IsOrder, stack_order-taken_iff, stack_order-IsOrder, stack_order_partition,
}
use saffron.Queue.Base.{resolve_stack_base, external_of}
use saffron.Queue.Base.Chosen.{Resolves, resolve_stack_base-Resolves}
use saffron.Queue.Names.{removed_name_refusals}
use saffron.Queue.Names.Loops.{IsHeld}
use saffron.Queue.Names.Clashes.{Clashes, removed_name_refusals_iff}
use saffron.Queue.Build.{build_queue}
use saffron.Queue.Night.{DiscoveredSpec, Night, rows_at}
use saffron.Queue.Build.Accounts.{IsSorted, IsOpen, at_priority}
use saffron.Queue.Build.Outcome.{Ends, build_queue-Ends}
use saffron.Queue.Build.Unstacked.{Kept, LetsPass, build_queue-unstacked}

abbrev parent_id : Text
parent_id = codes "SA-1"

abbrev child_id : Text
child_id = codes "SA-2"

-- SA-2 depends on SA-1, and SA-1 on a spec that is nowhere.
abbrev edges : Edges
edges = (parent_id, codes "SA-0" ∷ []) ∷ (child_id, parent_id ∷ []) ∷ []

walk_from-ne-out_of_fuel_example : walk_from (λ id. false) edges child_id ≢ out_of_fuel
walk_from-ne-out_of_fuel_example = walk_from-ne-out_of_fuel (λ id. false) edges child_id

depends_on_path_iff_example :
    (depends_on_path child_id parent_id edges ≡ true) ↔ Descends edges child_id parent_id
depends_on_path_iff_example = depends_on_path_iff edges child_id parent_id

is_on_path : depends_on_path child_id parent_id edges ≡ true
unfolding depends_on_path codes
is_on_path = refl

reached : reachable child_id edges ≡ codes "SA-0" ∷ codes "SA-1" ∷ []
unfolding reachable codes
reached = refl

abbrev parents : List Text
parents = parent_id ∷ child_id ∷ []

deepest_open_parent_lem_example :
    (chosen : Text) × ((deepest_open_parent parents parents edges).0 ≡ some chosen)
    × Elem chosen parents
    × ((other : Text) → Elem other parents → Yields edges parents other chosen)
    × ((other : Text)
        → Elem other (deepest_open_parent parents parents edges).1
          ↔ (Elem other parents × (chosen ≢ other) × ¬ Reach edges chosen other))
deepest_open_parent_lem_example = deepest_open_parent_lem parents parents edges parent_id (inl refl)

deepest : deepest_open_parent parents parents edges ≡ (some child_id, [])
unfolding deepest_open_parent reachable codes text_lt
deepest = refl

abbrev spec_of : Text → ℕ → List Text → Spec
spec_of id priority depends_on = record {
  id = id;
  priority = pos priority;
  depends_on = depends_on;
  consumes = [];
  removes = [];
  touches = codes "src/**" ∷ [];
  forbidden = [];
  body = [];
  acceptance_criteria = [];
  acceptance = [];
}

abbrev candidate : Spec → Candidate
candidate spec = record {
  path = spec.id;
  spec = spec;
  spec_sha = codes "sha";
  task_id = none;
  stack_base = none;
}

abbrev parent : Candidate
parent = candidate (spec_of parent_id 5 [])

abbrev child : Candidate
child = candidate (spec_of child_id 1 (parent_id ∷ []))

-- On a cycle with itself.
abbrev cyclic : Candidate
cyclic = candidate (spec_of (codes "SA-3") 0 (codes "SA-3" ∷ []))

abbrev passed : Passed
passed = record { causes = []; other_qualifying = []; stack_base_id = none }

abbrev offered : List Candidate
offered = child ∷ cyclic ∷ parent ∷ []

taken : (stack_order passed [] offered).0 ≡ parent ∷ child ∷ []
unfolding stack_order codes same
taken = refl

stack_order-taken_iff_example :
    In child (stack_order passed [] offered).0 ↔ HasParents (Lands [] offered) child
stack_order-taken_iff_example = stack_order-taken_iff passed [] offered child (inl refl)

stack_order-IsOrder_example : IsOrder [] [] (stack_order passed [] offered).0
stack_order-IsOrder_example = stack_order-IsOrder passed [] offered

stack_order_partition_example :
    let result = stack_order passed [] offered in
    (length offered ≡ length result.0 + length result.1)
    × ((c : Candidate)
        → In c offered
        → In c result.0 ⊎ Any (λ refusal. c.path ≡ refusal.path) result.1)
stack_order_partition_example = stack_order_partition passed [] offered

-- SA-1 waits for its merge, with a pull request.
abbrev sha : Text
sha = codes "0123456789abcdef0123456789abcdef01234567"

abbrev waiting_row : TaskRow
waiting_row = record {
  task_id = 7;
  spec_id = parent_id;
  spec_sha = codes "sha";
  state = codes "READY_FOR_REVIEW";
  branch = some (codes "saffron/SA-1");
  pushed_sha = some sha;
  pushed_in_state = some (codes "READY_FOR_REVIEW");
  pr_url = some (codes "https://pulls/1");
}

resolve_stack_base-Resolves_example :
    Resolves
      (waiting_row ∷ [])
      edges
      (sorted_set (external_of (child_id ∷ []) [] (child ∷ [])))
      (resolve_stack_base (some (waiting_row ∷ [])) (child ∷ []) (child_id ∷ []) [] edges)
resolve_stack_base-Resolves_example =
    resolve_stack_base-Resolves (waiting_row ∷ []) (child ∷ []) (child_id ∷ []) [] edges

abbrev classes : CharClasses
classes = record { is_digit = λ c. leb 48 c && leb c 57; is_space = λ c. c == 32 || c == 10 }

abbrev repr : Text → Text
repr text = text

abbrev scan : ScanFacts
scan = record {
  open_prs = [];
  merged_anywhere = [];
  states_at_current_sha = (parent_id, codes "READY_FOR_REVIEW" ∷ []) ∷ (child_id, []) ∷ [];
  retired = [];
  unreadable_retired = 0;
  protected = codes "policy.yaml" ∷ [];
  markers = [];
  edges = edges;
}

refuse-none_iff_example :
    (refuse classes repr scan [] true child ≡ none) ↔ Admits classes scan [] true child
refuse-none_iff_example = refuse-none_iff classes repr scan [] true child

is_admitted : refuse classes repr scan [] true child ≡ none
unfolding refuse codes split_on matches
is_admitted = refl

abbrev found_of : Candidate → DiscoveredSpec
found_of c = record { path = c.path; spec = c.spec; spec_sha = c.spec_sha }

abbrev night : Night
night = record {
  discovered = (found_of parent ∷ found_of child ∷ [], []);
  retired_directory = none;
  ledger = some (waiting_row ∷ []);
  open_prs = [];
  protected = [];
  markers = [];
  pushed_landed = none;
}

child-IsOpen : IsOpen (waiting_row ∷ []) (found_of child)
unfolding rows_at codes same
child-IsOpen m =
    let apart : same child_id parent_id ≡ false = refl in
    elim m [ inl h ↦ cc (apart, (same_iff child_id parent_id).1 h.0.0) | inr n ↦ n ]

build_queue-Ends_example : Ends child_id (build_queue classes repr night true)
build_queue-Ends_example =
    build_queue-Ends classes repr night true (found_of child) (inr (inl refl)) child-IsOpen

build_queue-unstacked_example :
    (outcome : List Candidate × List Refusal) × (passing : List Candidate) × (build_queue classes
        repr night false
      ≡ some outcome)
    × Kept
        (waiting_row ∷ [])
        (LetsPass classes repr night)
        (found_of parent ∷ found_of child ∷ [])
        passing
    × IsSorted outcome.0
    × ((p : ℤ) → at_priority p outcome.0 ≡ at_priority p passing)
    × ((c : Candidate) → In c outcome.0 ↔ In c passing)
build_queue-unstacked_example = build_queue-unstacked classes repr night

-- SA-1 is done, and SA-2 runs on its branch.
queued : build_queue classes repr night false ≡ some (child ∷ [], [])
unfolding build_queue codes
queued = refl

-- SA-1 removes a name that SA-3 reads.
abbrev remover : Spec
remover = record (spec_of parent_id 5 []) { removes = codes "src/a.py:old" ∷ [] }

abbrev reader : Spec
reader = record (spec_of (codes "SA-3") 5 []) { body = codes "calls old() twice" }

abbrev both_ids : List Text
both_ids = parent_id ∷ codes "SA-3" ∷ []

removed_name_refusals_iff_example :
    IsHeld
      (codes "SA-3")
      (removed_name_refusals (λ spec. false) [] both_ids (remover ∷ reader ∷ []))
    ↔ Clashes (λ spec. false) [] (λ t. Elem t both_ids) (remover ∷ reader ∷ []) (codes "SA-3")
removed_name_refusals_iff_example =
    removed_name_refusals_iff (λ spec. false) [] both_ids (remover ∷ reader ∷ []) (codes "SA-3")

held_one :
    removed_name_refusals (λ spec. false) [] both_ids (remover ∷ reader ∷ [])
    ≡ (codes "SA-3", codes "SA-3 and SA-1 both name old, declare one a parent of the other") ∷ []
unfolding removed_name_refusals codes same partition starts_with depends_on_path
held_one = refl
