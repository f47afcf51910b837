-- ===== src/Queue/Build/Outcome.antt =====
-- What `build_queue` returns, in both modes.
use saffron.Prelude.{
  ◌≡◌, refl, ap, sym, subst, ◌∙◌, ◌↔◌, ◌⊎◌, inl, inr, Bool, true, false, not, List, [], ◌∷◌, ◌++◌,
  map, Option, none, some, arith, Text, elem, Any, Any-map, any, sorted_set, if_cases,
}
use saffron.Gates.Contract.{CharClasses}
use saffron.Queue.Walk.{Edges, ancestor_branches}
use saffron.Queue.Rows.{Candidate, Refusal, RefusalKind, depends_on, TaskRow, StackBase}
use saffron.Queue.Names.{find_held}
use saffron.Queue.Dependencies.{ScanFacts, refuse}
use saffron.Queue.Order.{stack_order, ids_of, Passed}
use saffron.Queue.Order.Pick.{In}
use saffron.Queue.Order.Lands.{stack_order_partition}
use saffron.Queue.Base.{Resolved, resolve_stack_base, external_of, unresolved, no_task_cause}
use saffron.Queue.Base.Chosen.{resolve_stack_base-Resolves}
use saffron.Queue.Build.{
  sift, judge_of, judged, scan_of, scan_refusals, sift_night, night_judge, night_candidates,
  held_on, carry, order_resolved, order_night, build_queue, sort_by_priority, base_id_of, first_of,
}
use saffron.Queue.Night.{Night, DiscoveredSpec, rows_of}
use saffron.Queue.Build.Accounts.{
  sift-kept, sift-refused, sort_by_priority_iff, open_candidates_iff, open_candidate, IsOpen,
}

-- The path stands in the queue, or has a refusal.
abbrev pub HasOutcome : Text → List Candidate × List Refusal → Type 0
HasOutcome path (queue, refusals) =
    Any (λ c. path ≡ c.path) queue ⊎ Any (λ refusal. path ≡ refusal.path) refusals

In-path : (c : Candidate) (queue : List Candidate) → In c queue → Any (λ d. c.path ≡ d.path) queue
In-path c queue m = Any-map (λ d e. ap (λ (t : Candidate). t.path) e) queue m

Any-append :
    {A : Type 0} (P : A → Type 0) (xs ys : List A) → Any P (xs ++ ys) ↔ (Any P xs ⊎ Any P ys)
Any-append P [] ys = ground arith
Any-append P (x ∷ xs) ys = ground (arith, Any-append P xs ys)

carried_paths :
    (path : Text) (found : StackBase) (ordered : List Candidate)
    → Any (λ c. path ≡ c.path) ordered
    → Any
        (λ c. path ≡ c.path)
        (map (λ (c : Candidate). record c { stack_base = some found }) ordered)
carried_paths path found [] m = m
carried_paths path found (c ∷ ordered) (inl e) = inl e
carried_paths path found (c ∷ ordered) (inr m) = inr (carried_paths path found ordered m)

carry-path :
    (path : Text) (resolved : Resolved) (base : Option StackBase) (ordered : List Candidate)
    → Any (λ c. path ≡ c.path) ordered
    → Any (λ c. path ≡ c.path) (carry resolved base ordered)
carry-path path resolved none ordered m = m
carry-path path resolved (some found) ordered m =
    if_cases (λ queue. Any (λ c. path ≡ c.path) queue)
      (any
        (λ (c : Candidate).
          any (λ dep. elem dep (found.spec_id ∷ resolved.chain_ids)) c.spec.depends_on)
        ordered)
      (map (λ (c : Candidate). record c { stack_base = some found }) ordered) ordered
      (λ named. carried_paths path found ordered m) λ unnamed. m

found_In :
    (P : Candidate → Type 0) (queue : List Candidate)
    → Any P queue
    → (c : Candidate) × In c queue × P c
found_In P [] m = absurd m
found_In P (c ∷ queue) (inl h) = (c, inl refl, h)
found_In P (c ∷ queue) (inr m) = let (d, k, h) = found_In P queue m in (d, inr k, h)

abbrev passed_of : Resolved → Passed
passed_of resolved = record {
  causes = resolved.causes;
  other_qualifying = resolved.other_qualifying;
  stack_base_id = first_of (base_id_of resolved.stack_base);
}

order_resolved-HasOutcome :
    (on_default_branch : List Text) (kept : List Candidate) (refusals : List Refusal)
    (resolved : Resolved) (path : Text)
    → HasOutcome path (kept, refusals)
    → HasOutcome path (order_resolved on_default_branch kept refusals resolved)
unfolding order_resolved
order_resolved-HasOutcome on_default_branch kept refusals resolved path (inl m) =
    let satisfied = on_default_branch ++ (resolved.chain_ids ++ base_id_of resolved.stack_base) in
    let order = stack_order (passed_of resolved) satisfied kept in
    let (c, k, e) = found_In (λ c. path ≡ c.path) kept m in
    elim ((stack_order_partition (passed_of resolved) satisfied kept).1 c k) [
      | inl taken ↦ inl (
          carry-path path resolved resolved.stack_base order.0
            (Any-map (λ d f. e ∙ f) order.0 (In-path c order.0 taken)))
      | inr refused ↦ inr (
          (Any-append (λ refusal. path ≡ refusal.path) refusals order.1).1
            (inr (Any-map (λ r f. e ∙ f) order.1 refused)))
    ]
order_resolved-HasOutcome on_default_branch kept refusals resolved path (inr m) =
    let satisfied = on_default_branch ++ (resolved.chain_ids ++ base_id_of resolved.stack_base) in
    let order = stack_order (passed_of resolved) satisfied kept in
    inr ((Any-append (λ refusal. path ≡ refusal.path) refusals order.1).1 (inl m))

-- The assertion holds whether or not the repository has rows.
resolve_stack_base-some :
    (ledger : Option (List TaskRow)) (kept : List Candidate)
    (kept_ids on_default_branch : List Text) (edges : Edges)
    → (resolved : Resolved) × (resolve_stack_base ledger kept kept_ids on_default_branch edges
        ≡ some resolved)
unfolding resolve_stack_base
resolve_stack_base-some none kept kept_ids on_default_branch edges = (
  unresolved (map no_task_cause (sorted_set (external_of kept_ids on_default_branch kept))),
  refl,
)
resolve_stack_base-some (some ledger) kept kept_ids on_default_branch edges =
    let (resolved, found, right) =
      resolve_stack_base-Resolves ledger kept kept_ids on_default_branch edges in
    (resolved, found)

abbrev pub Ends : Text → Option (List Candidate × List Refusal) → Type 0
Ends path result =
    (outcome : List Candidate × List Refusal) × (result ≡ some outcome) × HasOutcome path outcome

judged_path :
    (c : Candidate) (refused : Option (RefusalKind × Text)) (held : Option Text)
    → (judged c refused held ≡ none)
      ⊎ ((refusal : Refusal) × (judged c refused held ≡ some refusal) × (c.path ≡ refusal.path))
judged_path c (some (kind, reason)) held =
    inr (record { path = c.path; reason = reason; kind = kind }, refl, refl)
judged_path c none (some reason) =
    inr (record { path = c.path; reason = reason; kind = depends_on }, refl, refl)
judged_path c none none = inl refl

pub judged-none_iff :
    (c : Candidate) (refused : Option (RefusalKind × Text)) (held : Option Text)
    → (judged c refused held ≡ none) ↔ ((refused ≡ none) × (held ≡ none))
judged-none_iff c (some (kind, reason)) held = ground arith
judged-none_iff c none (some reason) = ground arith
judged-none_iff c none none = ground arith

sorted-HasOutcome :
    (path : Text) (kept : List Candidate) (refusals : List Refusal)
    → HasOutcome path (kept, refusals)
    → HasOutcome path (sort_by_priority kept, refusals)
sorted-HasOutcome path kept refusals (inr m) = inr m
sorted-HasOutcome path kept refusals (inl m) =
    let (c, k, e) = found_In (λ c. path ≡ c.path) kept m in
    let sorted = sort_by_priority kept in
    inl (Any-map (λ d f. e ∙ f) sorted (In-path c sorted ((sort_by_priority_iff c kept).1 k)))

module _ (classes : CharClasses) (repr : Text → Text) where
  order_night-Ends :
      (scan : ScanFacts) (ledger : Option (List TaskRow)) (sifted : List Candidate × List Refusal)
      (path : Text)
      → HasOutcome path sifted
      → Ends path (order_night classes repr scan ledger sifted)
  order_night-Ends scan ledger (kept, refusals) path h =
      let on_default_branch = scan.retired ++ scan.merged_anywhere in
      let (resolved, e) =
        resolve_stack_base-some ledger kept (ids_of kept) on_default_branch scan.edges in
      (
        order_resolved on_default_branch kept refusals resolved,
        rw (e, order_night) refl,
        order_resolved-HasOutcome on_default_branch kept refusals resolved path h,
      )

  night_judge_path :
      (night : Night) (stack : Bool) (c : Candidate)
      → (night_judge classes repr night stack c ≡ none)
        ⊎ ((refusal : Refusal) × (night_judge classes repr night stack c ≡ some refusal)
            × (c.path ≡ refusal.path))
  unfolding judge_of
  night_judge_path night stack c =
      let scan = scan_of night in
      judged_path c
        (refuse classes repr scan (ancestor_branches c.spec.id scan.edges) (not stack) c)
        (find_held c.spec.id (held_on night))

  sift_night-HasOutcome :
      (night : Night) (stack : Bool) (c : Candidate)
      → In c (night_candidates night)
      → HasOutcome c.path (sift_night classes repr night stack)
  unfolding sift_night
  sift_night-HasOutcome night stack c m =
      let judge = night_judge classes repr night stack in
      let candidates = night_candidates night in
      elim (night_judge_path night stack c) [
        | inl e ↦
            inl (In-path c (sift judge candidates).0 ((sift-kept judge candidates c).1 (m, e)))
        | inr (refusal, e, p) ↦ inr (
            (Any-append (λ r. c.path ≡ r.path) (scan_refusals night) (sift judge candidates).1).1 (
              inr (
                Any-map (λ r f. p ∙ ap (λ (t : Refusal). t.path) f) (sift judge candidates).1
                  ((sift-refused judge candidates refusal).1
                    (Any-map (λ d f. ap judge (sym f) ∙ e) candidates m)))))
      ]

  build_queue-HasOutcome :
      (night : Night) (stack : Bool) (path : Text)
      → HasOutcome path (sift_night classes repr night stack)
      → Ends path (build_queue classes repr night stack)
  unfolding build_queue
  build_queue-HasOutcome night true path h =
      order_night-Ends (scan_of night) night.ledger (sift_night classes repr night true) path h
  build_queue-HasOutcome night false path h =
      let (kept, refusals) = sift_night classes repr night false in
      ((sort_by_priority kept, refusals), refl, sorted-HasOutcome path kept refusals h)

  -- `build_queue` returns, in either mode, and loses no spec: each one discovered that no task at its
  -- sha is done with stands in the queue, or a refusal names its path.
  pub build_queue-Ends :
      (night : Night) (stack : Bool) (found : DiscoveredSpec)
      → Any (λ other. found ≡ other) (night.discovered).0
      → IsOpen (rows_of night.ledger) found
      → Ends found.path (build_queue classes repr night stack)
  unfolding night_candidates
  build_queue-Ends night stack found m open_spec =
      let ledger = rows_of night.ledger in
      build_queue-HasOutcome night stack found.path (
        sift_night-HasOutcome night stack (open_candidate ledger found) (
          (open_candidates_iff ledger (night.discovered).0 (open_candidate ledger found)).1 (
            Any-map
              (λ other e. (
                subst (λ (f : DiscoveredSpec). IsOpen ledger f) e open_spec,
                ap (open_candidate ledger) e,
              ))
              (night.discovered).0 m)))
