-- ===== src/Queue/Walk/Reach.antt =====
-- Reachability over `depends_on`, and the walks against it.
use mathlib.Core.List.{reverse}
use saffron.Prelude.{
  ◌+◌, ◌≡◌, refl, ◌≢◌, ◌↔◌, inl, inr, Bool, true, not, List, [], ◌∷◌, arith, Text, same, same_iff,
  Elem, Elem-filter, length, subst,
}
use saffron.Queue.Walk.{
  Edges, targets, Walked, arrived, visited_all, out_of_fuel, edge_count, walk_from, nowhere,
  reached_of, reachable, is_arrived, depends_on_path,
}
use saffron.Queue.Walk.Rounds.{
  Elem-reverse, length-reverse, weight-le_edge_count, walk-ne-out_of_fuel, walk-Sound, walk-Closed,
  Sound, Closed, Frontier,
}

-- What `depends_on` leads to, link by link.
pub data Reach (edges : Edges) (start : Text) : Text → Type 0 where
  here : Reach edges start start
  step : {u v : Text} → Reach edges start u → Elem v (targets edges u) → Reach edges start v

-- A walk of one link at least.
abbrev pub Descends : Edges → Text → Text → Type 0
Descends edges start target = (u : Text) × Reach edges start u × Elem target (targets edges u)

-- Whatever the edges, cycles included, a walk of `_reachable` or of `_depends_on_path` ends: it is
-- never cut off by the fuel.
pub walk_from-ne-out_of_fuel :
    (is_target : Text → Bool) (edges : Edges) (start : Text)
    → walk_from is_target edges start ≢ out_of_fuel
unfolding walk_from
walk_from-ne-out_of_fuel is_target edges start =
    walk-ne-out_of_fuel is_target edges (length (targets edges start) + edge_count edges)
      (reverse (targets edges start)) (start ∷ [])
      (omega (arith, length-reverse (targets edges start), weight-le_edge_count (start ∷ []) edges))

Descends-step :
    (edges : Edges) (start u v : Text)
    → Descends edges start u
    → Elem v (targets edges u)
    → Descends edges start v
Descends-step edges start u v (w, r, e) f = (u, step r e, f)

Descends-Reach : (edges : Edges) (start u : Text) → Descends edges start u → Reach edges start u
Descends-Reach edges start u (w, r, e) = step r e

-- All that the walk's result says, once.
walk_from-Sound :
    (is_target : Text → Bool) (edges : Edges) (start : Text)
    → Sound is_target edges
        (Descends edges start)
        (Reach edges start)
        (Descends-step edges start)
        (Descends-Reach edges start)
        (walk_from is_target edges start)
unfolding walk_from
walk_from-Sound is_target edges start =
    walk-Sound is_target edges (Descends edges start) (Reach edges start)
      (Descends-step edges start) (Descends-Reach edges start)
      (length (targets edges start) + edge_count edges) (reverse (targets edges start)) (start ∷ [])
      (λ id m. (start, here, (Elem-reverse id (targets edges start)).0 m))
      λ id m. elim m [ inl e ↦ rw e here | inr n ↦ absurd n ]

walk_from-Closed :
    (is_target : Text → Bool) (edges : Edges) (start : Text)
    → Closed is_target edges (start ∷ []) (walk_from is_target edges start)
unfolding walk_from Frontier
walk_from-Closed is_target edges start =
    walk-Closed is_target edges (start ∷ []) (length (targets edges start) + edge_count edges)
      (reverse (targets edges start)) (start ∷ []) (λ id m. m)
      λ u v m e. elim m [
        | inl p ↦ inl (
            (Elem-reverse v (targets edges start)).1
              (subst (λ (t : Text). Elem v (targets edges t)) p e))
        | inr n ↦ absurd n
      ]

-- A closed list that has the start has all that the start reaches.
Closed-Reach :
    (is_target : Text → Bool) (edges : Edges) (start : Text) (visited : List Text)
    → Closed is_target edges (start ∷ []) (visited_all visited)
    → {id : Text} → Reach edges start id
    → Elem id visited
unfolding Frontier
Closed-Reach is_target edges start visited c here = c.0 start (inl refl)
Closed-Reach is_target edges start visited c (step {u} {v} r e) =
    elim (c.1 u v (Closed-Reach is_target edges start visited c r) e) [
      | inl n ↦ absurd n
      | inr (m, plain) ↦ m
    ]

depends_on_walked :
    (edges : Edges) (start target : Text) (w : Walked)
    → w ≢ out_of_fuel
    → Sound
        (same target)
        edges
        (Descends edges start)
        (Reach edges start)
        (Descends-step edges start)
        (Descends-Reach edges start)
        w
    → Closed (same target) edges (start ∷ []) w
    → (is_arrived w ≡ true) ↔ Descends edges start target
unfolding Frontier
depends_on_walked edges start target arrived n s c =
    let found : target ≡ s.0 = (same_iff target s.0).0 s.2 in ((λ e. rw found s.1), (λ d. refl))
depends_on_walked edges start target (visited_all visited) n s c = (
  (λ e. cc),
  (λ (u, r, e). elim (c.1 u target (Closed-Reach (same target) edges start visited c r) e) [
    | inl m ↦ absurd m
    | inr (m, plain) ↦ ground (arith, same_iff target target)
  ]),
)
depends_on_walked edges start target out_of_fuel n s c = absurd (n refl)

-- `_depends_on_path(start, target)` is true exactly when some chain of `depends_on` links, one at
-- the least, leads from the start to the target: also from a spec to itself, and only round a cycle.
pub depends_on_path_iff :
    (edges : Edges) (start target : Text)
    → (depends_on_path start target edges ≡ true) ↔ Descends edges start target
unfolding depends_on_path
depends_on_path_iff edges start target =
    depends_on_walked edges start target (walk_from (same target) edges start)
      (walk_from-ne-out_of_fuel (same target) edges start)
      (walk_from-Sound (same target) edges start) (walk_from-Closed (same target) edges start)

reachable_walked :
    (edges : Edges) (start id : Text) (w : Walked)
    → w ≢ out_of_fuel
    → Sound nowhere edges
        (Descends edges start)
        (Reach edges start)
        (Descends-step edges start)
        (Descends-Reach edges start)
        w
    → Closed nowhere edges (start ∷ []) w
    → Elem id (reached_of start w) ↔ (Reach edges start id × (start ≢ id))
reachable_walked edges start id arrived n s c = cc (s.2)
reachable_walked edges start id (visited_all visited) n s c =
    let kept = Elem-filter (λ (other : Text). not (same start other)) id visited in
    let differs : (not (same start id) ≡ true) ↔ (start ≢ id) = ground (arith, same_iff start id) in
    (
      (λ m. (s id (kept.0 m).0, differs.0 (kept.0 m).1)),
      (λ r. kept.1 (Closed-Reach nowhere edges start visited c r.0, differs.1 r.1)),
    )
reachable_walked edges start id out_of_fuel n s c = absurd (n refl)

-- `_reachable` returns exactly the specs, other than its own, that chains of `depends_on` links lead
-- to: a cycle neither loses one nor puts the spec itself among them.
pub reachable_iff :
    (edges : Edges) (start id : Text)
    → Elem id (reachable start edges) ↔ (Reach edges start id × (start ≢ id))
unfolding reachable
reachable_iff edges start id =
    reachable_walked edges start id (walk_from nowhere edges start)
      (walk_from-ne-out_of_fuel nowhere edges start) (walk_from-Sound nowhere edges start)
      (walk_from-Closed nowhere edges start)
