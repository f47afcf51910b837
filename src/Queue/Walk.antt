-- ===== src/Queue/Walk.antt =====
-- The walks of saffron/scheduler.py over `depends_on`: `_reachable`, `_depends_on_path`,
-- `_ancestor_branches` and `_deepest_open_parent`.
pub mod Rounds
pub mod Reach
pub mod Deepest
pub mod Distinct
use mathlib.Core.List.{reverse}
use saffron.Prelude.{
  ℕ, zero, suc, ◌+◌, Bool, true, false, not, List, [], ◌∷◌, ◌++◌, map, Option, none, some, Text,
  codes, same, elem, filter, length, ltb, sorted_set, if◌then◌else◌,
}

-- `edges`, a mapping from a spec id to its `depends_on`: of two entries the later is the one that
-- a dict keeps.
abbrev pub Edges : Type 0
Edges = List (Text × List Text)

unfoldable pub find_entry : Edges → Text → Option (List Text)
unfolding same
find_entry [] id = none
find_entry ((key, deps) ∷ edges) id = elim (find_entry edges id) [
  | some later ↦ some later
  | none ↦ if same key id then some deps else none
]

abbrev pub or_nothing : Option (List Text) → List Text
or_nothing none = []
or_nothing (some deps) = deps

-- `edges.get(id, ())`
unfoldable pub targets : Edges → Text → List Text
unfolding find_entry
targets edges id = or_nothing (find_entry edges id)

-- How a walk ends: at the target, or with all that it visited.
pub data Walked : Type 0 where
  arrived : Walked
  visited_all : List Text → Walked
  out_of_fuel : Walked

-- The loop of the two walks, from its stack (the top first) and what it visited. Only
-- `_depends_on_path` stops at a target, and it compares before it looks at `visited`.
unfoldable pub walk : (Text → Bool) → Edges → ℕ → List Text → List Text → Walked
unfolding targets
walk is_target edges zero [] visited = visited_all visited
walk is_target edges zero (current ∷ stack) visited = out_of_fuel
walk is_target edges (suc fuel) [] visited = visited_all visited
walk is_target edges (suc fuel) (current ∷ stack) visited =
    let skipped = walk is_target edges fuel stack visited in
    let entered =
      walk is_target edges fuel (reverse (targets edges current) ++ stack) (current ∷ visited) in
    if is_target current then arrived else if elem current visited then skipped else entered

-- The entries' lengths: no walk pushes more.
unfoldable pub edge_count : Edges → ℕ
edge_count [] = 0
edge_count ((key, deps) ∷ edges) = length deps + edge_count edges

unfoldable pub walk_from : (Text → Bool) → Edges → Text → Walked
unfolding walk edge_count
walk_from is_target edges start =
    walk is_target edges (length (targets edges start) + edge_count edges)
      (reverse (targets edges start)) (start ∷ [])

abbrev pub nowhere : Text → Bool
nowhere id = false

-- The source's `reached` is `visited` without the start.
abbrev pub reached_of : Text → Walked → List Text
reached_of start (visited_all visited) = filter (λ id. not (same start id)) visited
reached_of start _ = []

-- `_reachable`
unfoldable pub reachable : Text → Edges → List Text
unfolding walk_from
reachable spec_id edges = reached_of spec_id (walk_from nowhere edges spec_id)

abbrev pub is_arrived : Walked → Bool
is_arrived arrived = true
is_arrived _ = false

-- `_depends_on_path`
unfoldable pub depends_on_path : Text → Text → Edges → Bool
unfolding walk_from
depends_on_path start target edges = is_arrived (walk_from (same target) edges start)

-- `_branch`
unfoldable pub branch_of : Text → Text
branch_of spec_id = codes "saffron/" ++ spec_id

-- `_ancestor_branches`
unfoldable pub ancestor_branches : Text → Edges → List Text
unfolding reachable branch_of
ancestor_branches spec_id edges = map branch_of (reachable spec_id edges)

-- `(_reachable(candidate, edges) & parents) - {candidate}`
unfoldable pub reach_among : Edges → List Text → Text → List Text
unfolding reachable
reach_among edges parents candidate =
    filter (λ id. not (same candidate id))
      (filter (λ id. elem id parents) (reachable candidate edges))

-- The loop over the sorted candidates: the first with the widest reach.
unfoldable pub widest : Edges → List Text → Text → List Text → Text
unfolding reach_among
widest edges parents chosen [] = chosen
widest edges parents chosen (candidate ∷ candidates) =
    widest edges parents
      (if ltb (length (reach_among edges parents chosen))
          (length (reach_among edges parents candidate))
        then candidate
        else chosen)
      candidates

-- `frozenset(parents) - {chosen} - chosen_reach`
unfoldable pub off_chain_of : Edges → List Text → Text → List Text
unfolding reach_among
off_chain_of edges parents chosen =
    filter (λ id. not (elem id (reach_among edges parents chosen)))
      (filter (λ id. not (same chosen id)) parents)

abbrev pub deepest_of : Edges → List Text → List Text → Option Text × List Text
deepest_of edges parents [] = (none, parents)
deepest_of edges parents (first ∷ candidates) =
    let chosen = widest edges parents first candidates in
    (some chosen, off_chain_of edges parents chosen)

-- `_deepest_open_parent`
unfoldable pub deepest_open_parent : List Text → List Text → Edges → Option Text × List Text
unfolding widest off_chain_of sorted_set
deepest_open_parent parents candidates edges = deepest_of edges parents (sorted_set candidates)
