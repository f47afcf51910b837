-- ===== src/Queue/Base/Chosen.antt =====
-- The external parents that qualify, and the choice of `_resolve_stack_base` among them.
use saffron.Prelude.{
  ◌≡◌, refl, ap, sym, ◌∙◌, subst, ◌≢◌, ◌↔◌, ◌⊎◌, inl, inr, Bool, true, false, not, List, [], ◌∷◌,
  map, Option, none, some, arith, Text, same, same_iff, elem, Elem, filter, is_empty, sorted_set,
  if_cases,
}
use saffron.Queue.Walk.{Edges, reachable, branch_of, deepest_open_parent}
use saffron.Queue.Walk.Reach.{Reach, reachable_iff}
use saffron.Queue.Walk.Deepest.{deepest_open_parent_lem, Yields}
use saffron.Queue.Rows.{TaskRow, StackBase, Candidate, stale_rebuttal_unjudged}
use saffron.Queue.Order.{Causes}
use saffron.Queue.Base.{
  BaseAnswer, base, unfit, stack_base_candidate, sort_external, sorted_by, base_ids, find_base,
  Resolved, unresolved, with_chain, resolve_among, resolve_chosen, resolve_stack_base, external_of,
  newest_answer, waiting_answer, last_row, is_waiting_row, tasks_by_spec_id, text_or_empty,
  is_resolved_sha,
}

find_base-ids :
    (id : Text) (bases : List StackBase)
    → Elem id (base_ids bases)
    → (found : StackBase) × (find_base id bases ≡ some found) × (found.spec_id ≡ id)
unfolding find_base
find_base-ids id [] m = absurd m
find_base-ids id (b ∷ bases) m =
    if_cases (λ answer. (found : StackBase) × (answer ≡ some found) × (found.spec_id ≡ id))
      (same id b.spec_id) (some b) (find_base id bases)
      (λ own. (b, refl, sym ((same_iff id b.spec_id).0 own)))
      λ other. find_base-ids id bases (ground (arith, same_iff id b.spec_id))

abbrev pub is_base : BaseAnswer → Bool
is_base (base found) = true
is_base (unfit cause remedy) = false

-- A base keeps the id that it was asked for.
abbrev KeepsId : Text → BaseAnswer → Type 0
KeepsId dep (base found) = found.spec_id ≡ dep
KeepsId dep (unfit cause remedy) = Unit

newest_answer-KeepsId : (dep : Text) (row : TaskRow) → KeepsId dep (newest_answer dep row)
unfolding newest_answer
newest_answer-KeepsId dep row =
    if_cases (KeepsId dep) (is_empty (text_or_empty row.branch)) _ _ (λ t. tt)
      λ f.
        if_cases (KeepsId dep) (stale_rebuttal_unjudged row) _ _ (λ t. tt)
          λ f.
            if_cases (KeepsId dep) (not (is_resolved_sha (text_or_empty row.pushed_sha))) _ _
              (λ t. tt)
              λ f.
                if_cases (KeepsId dep) (is_empty (text_or_empty row.pr_url)) _ _ (λ t. tt)
                  (λ f. refl)

waiting_answer-KeepsId :
    (dep : Text) (has_rows : Bool) (rows : List TaskRow)
    → KeepsId dep (waiting_answer dep has_rows rows)
waiting_answer-KeepsId dep true [] = tt
waiting_answer-KeepsId dep false [] = tt
waiting_answer-KeepsId dep has_rows (row ∷ rows) = newest_answer-KeepsId dep (last_row row rows)

stack_base_candidate-KeepsId :
    (ledger : List TaskRow) (dep : Text) → KeepsId dep (stack_base_candidate ledger dep)
unfolding stack_base_candidate
stack_base_candidate-KeepsId ledger dep =
    waiting_answer-KeepsId dep (not (is_empty (tasks_by_spec_id ledger dep)))
      (filter is_waiting_row (tasks_by_spec_id ledger dep))

abbrev pub qualifies : List TaskRow → Text → Bool
qualifies ledger dep = is_base (stack_base_candidate ledger dep)

sorted_by-ids :
    (dep id : Text) (answer : BaseAnswer) (sorted : List StackBase × Causes)
    → KeepsId dep answer
    → Elem id (base_ids (sorted_by dep answer sorted).0)
      ↔ (((id ≡ dep) × (is_base answer ≡ true)) ⊎ Elem id (base_ids sorted.0))
sorted_by-ids dep id (base found) sorted k = ground arith
sorted_by-ids dep id (unfit cause remedy) sorted k = ground arith

-- The bases are those of the external parents that qualify.
sort_external-ids :
    (ledger : List TaskRow) (external : List Text) (id : Text)
    → Elem id (base_ids (sort_external ledger external).0)
      ↔ (Elem id external × (qualifies ledger id ≡ true))
unfolding sort_external
sort_external-ids ledger [] id = ground arith
sort_external-ids ledger (dep ∷ external) id =
    let answer = stack_base_candidate ledger dep in
    let own : id ≡ dep → qualifies ledger id ≡ qualifies ledger dep =
      λ e. ap (λ (t : Text). qualifies ledger t) e in
    let first =
      sorted_by-ids dep id answer (sort_external ledger external)
        (stack_base_candidate-KeepsId ledger dep) in
    let later = sort_external-ids ledger external id in
    (
      (λ m. elim (first.0 m) [
        | inl (e, q) ↦ (inl e, own e ∙ q)
        | inr n ↦ (inr (later.0 n).0, (later.0 n).1)
      ]),
      (λ (m, q). elim m [
        | inl e ↦ first.1 (inl (e, sym (own e) ∙ q))
        | inr n ↦ first.1 (inr (later.1 (n, q)))
      ]),
    )

-- What `_resolve_stack_base` returns of the external parents: no base and no parent that qualifies,
-- or the base of one that does and that every other such parent yields to, with the branches and the
-- ids of its whole chain.
abbrev pub IsResolved : List TaskRow → Edges → List Text → Resolved → Option StackBase → Type 0
IsResolved ledger edges external resolved none =
    (dep : Text) → Elem dep external → qualifies ledger dep ≡ false
IsResolved ledger edges external resolved (some found) =
    Elem found.spec_id external
    × (qualifies ledger found.spec_id ≡ true)
    × ((other : Text)
        → Elem other external
        → qualifies ledger other ≡ true
        → Yields edges external other found.spec_id)
    × ((id : Text)
        → Elem id resolved.chain_ids ↔ (Reach edges found.spec_id id × (found.spec_id ≢ id)))
    × (found.chain_branches ≡ map branch_of resolved.chain_ids)

abbrev pub Resolves : List TaskRow → Edges → List Text → Option Resolved → Type 0
Resolves ledger edges external answer =
    (resolved : Resolved) × (answer ≡ some resolved)
    × IsResolved ledger edges external resolved resolved.stack_base

resolve_chosen-Resolves :
    (ledger : List TaskRow) (edges : Edges) (external : List Text) (qualifying : List StackBase)
    (causes : Causes)
    → ((id : Text)
        → Elem id (base_ids qualifying) ↔ (Elem id external × (qualifies ledger id ≡ true)))
    → (deepest : Option Text × List Text) (chosen : Text) → deepest.0 ≡ some chosen
    → Elem chosen (base_ids qualifying)
    → ((other : Text) → Elem other (base_ids qualifying) → Yields edges external other chosen)
    → Resolves ledger edges external (resolve_chosen edges qualifying causes deepest)
resolve_chosen-Resolves ledger edges external qualifying causes h (none, off_chain) chosen d m y =
    cc
resolve_chosen-Resolves ledger edges external qualifying causes h (some id, off_chain) chosen d m
      y =
    let e : chosen ≡ id = cc in
    let (found, stored, keeps) = find_base-ids chosen qualifying m in
    let stored' : find_base id qualifying ≡ some found = rw (sym e) stored in
    let own : found.spec_id ≡ id = keeps ∙ e in
    let resolved : Resolved = record {
      stack_base = some (with_chain edges id found);
      causes = causes;
      other_qualifying = filter (λ other. elem other (base_ids qualifying)) off_chain;
      chain_ids = reachable id edges;
    } in
    (
      resolved,
      rw (stored', resolve_chosen) refl,
      (
        subst (λ (t : Text). Elem t external) (sym keeps) ((h chosen).0 m).0,
        subst (λ (t : Text). qualifies ledger t ≡ true) (sym keeps) ((h chosen).0 m).1,
        (λ other k q.
            subst (λ (t : Text). Yields edges external other t) (sym keeps)
              (y other ((h other).1 (k, q)))),
        (λ other. rw own (reachable_iff edges id other)),
        refl,
      ),
    )

resolve_among-Resolves :
    (ledger : List TaskRow) (edges : Edges) (external : List Text)
    (sorted : List StackBase × Causes)
    → ((id : Text)
        → Elem id (base_ids sorted.0) ↔ (Elem id external × (qualifies ledger id ≡ true)))
    → Resolves ledger edges external (resolve_among edges external sorted)
resolve_among-Resolves ledger edges external ([], causes) h =
    (unresolved causes, refl, (λ dep m. ground (arith, h dep)))
resolve_among-Resolves ledger edges external (first ∷ qualifying, causes) h =
    let ids = base_ids (first ∷ qualifying) in
    let (chosen, deepest, member, yields, off_chain) =
      deepest_open_parent_lem external ids edges first.spec_id (inl refl) in
    resolve_chosen-Resolves ledger edges external (first ∷ qualifying) causes h
      (deepest_open_parent external ids edges) chosen deepest member yields

-- The assertion of `_resolve_stack_base` never fails, and what it returns is right: no base exactly
-- if no external parent qualifies, else the base of one that does, to which every other one that
-- does yields, with the ids and the branches of the whole chain that it reaches.
pub resolve_stack_base-Resolves :
    (ledger : List TaskRow) (kept : List Candidate) (kept_ids on_default_branch : List Text)
    (edges : Edges)
    → Resolves ledger edges
        (sorted_set (external_of kept_ids on_default_branch kept))
        (resolve_stack_base (some ledger) kept kept_ids on_default_branch edges)
unfolding resolve_stack_base
resolve_stack_base-Resolves ledger kept kept_ids on_default_branch edges =
    let external = sorted_set (external_of kept_ids on_default_branch kept) in
    resolve_among-Resolves ledger edges external (sort_external ledger external)
      (sort_external-ids ledger external)
