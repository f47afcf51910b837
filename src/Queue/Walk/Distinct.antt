-- ===== src/Queue/Walk/Distinct.antt =====
-- Lists that name nothing twice, such as what a walk visits.
use saffron.Prelude.{
  ℕ, zero, suc, ◌≤◌, ◌≡◌, refl, ◌≢◌, inl, inr, Bool, not, List, [], ◌∷◌, arith, Text, same,
  same_iff, elem, Elem, elem_iff, Elem-filter, filter, length, if_cases, subst, if◌then◌else◌,
}
use saffron.Queue.Walk.{
  Edges, Walked, arrived, visited_all, out_of_fuel, walk, walk_from, nowhere, reached_of, reachable,
  reach_among,
}

abbrev pub Distinct : List Text → Type 0
Distinct [] = Unit
Distinct (x ∷ names) = (¬ Elem x names) × Distinct names

pub filter-Distinct :
    (p : Text → Bool) (names : List Text) → Distinct names → Distinct (filter p names)
filter-Distinct p [] d = tt
filter-Distinct p (x ∷ names) d = ground (arith, filter-Distinct p names, Elem-filter p x names)

-- The names without the first that is `x`.
remove : Text → List Text → List Text
remove x [] = []
remove x (y ∷ names) = let rest = remove x names in if same x y then names else y ∷ rest

length-remove :
    (x : Text) (names : List Text) → Elem x names → length names ≡ suc (length (remove x names))
unfolding remove
length-remove x [] m = absurd m
length-remove x (y ∷ names) m = ground (arith, length-remove x names, same_iff x y)

Elem-remove : (x y : Text) (names : List Text) → Elem y names → y ≢ x → Elem y (remove x names)
unfolding remove
Elem-remove x y [] m n = absurd m
Elem-remove x y (z ∷ names) m n = ground (arith, Elem-remove x y names, same_iff x z)

-- Distinct names that stand in a list are no more than it holds.
pub length-Distinct :
    (names others : List Text)
    → Distinct names
    → ((x : Text) → Elem x names → Elem x others)
    → length names ≤ length others
length-Distinct [] others d h = omega arith
length-Distinct (x ∷ names) others (fresh, d) h =
    let shorter = length-Distinct names (remove x others) d (λ y m.
      Elem-remove x y others (h y (inr m)) (λ e. fresh (subst (λ (t : Text). Elem t names) e m))) in
    omega (arith, length-remove x others (h x (inl refl)))

abbrev DistinctWalk : Walked → Type 0
DistinctWalk (visited_all visited) = Distinct visited
DistinctWalk _ = Unit

walk-Distinct :
    (is_target : Text → Bool) (edges : Edges) (fuel : ℕ) (stack visited : List Text)
    → Distinct visited
    → DistinctWalk (walk is_target edges fuel stack visited)
unfolding walk
walk-Distinct is_target edges zero [] visited d = d
walk-Distinct is_target edges zero (current ∷ stack) visited d = tt
walk-Distinct is_target edges (suc fuel) [] visited d = d
walk-Distinct is_target edges (suc fuel) (current ∷ stack) visited d =
    if_cases DistinctWalk (is_target current) arrived _ (λ found. tt)
      λ other.
        if_cases DistinctWalk (elem current visited) _ _
          (λ old. walk-Distinct is_target edges fuel stack visited d)
          λ new.
            walk-Distinct is_target edges fuel _ (current ∷ visited)
              (ground (arith, elem_iff current visited), d)

reached_of-Distinct : (start : Text) (w : Walked) → DistinctWalk w → Distinct (reached_of start w)
reached_of-Distinct start arrived d = tt
reached_of-Distinct start (visited_all visited) d =
    filter-Distinct (λ id. not (same start id)) visited d
reached_of-Distinct start out_of_fuel d = tt

pub reachable-Distinct : (start : Text) (edges : Edges) → Distinct (reachable start edges)
unfolding reachable walk_from
reachable-Distinct start edges =
    reached_of-Distinct start (walk_from nowhere edges start)
      (walk-Distinct nowhere edges _ _ (start ∷ []) ((λ n. n), tt))

pub reach_among-Distinct :
    (edges : Edges) (parents : List Text) (candidate : Text)
    → Distinct (reach_among edges parents candidate)
unfolding reach_among
reach_among-Distinct edges parents candidate =
    filter-Distinct _ _ (filter-Distinct _ _ (reachable-Distinct candidate edges))
