-- ===== src/Queue/Walk/Rounds.antt =====
-- The rounds of a walk over `depends_on`: how many it has left, and what each of them keeps of the
-- stack and of what was visited.
use mathlib.Core.List.{reverse, reverse-append}
use saffron.Prelude.{
  ℕ, zero, suc, ◌+◌, ◌≤◌, ◌≡◌, refl, ap, ◌∙◌, ◌≢◌, ◌↔◌, ◌⊎◌, inl, inr, Bool, true, false, List, [],
  ◌∷◌, ◌++◌, arith, Text, same, same_iff, elem, Elem, elem_iff, Elem-append, length, length-append,
  Bool-cases, Option-cases, if_cases, subst, if◌then◌else◌,
}
use saffron.Queue.Walk.{
  Edges, find_entry, targets, Walked, arrived, visited_all, out_of_fuel, walk, edge_count,
}

pub Elem-reverse : (id : Text) (ids : List Text) → Elem id (reverse ids) ↔ Elem id ids
Elem-reverse id [] = ((λ m. m), (λ m. m))
Elem-reverse id (x ∷ ids) =
    rw (reverse-append (x ∷ []) ids)
      (ground (arith, Elem-append id (reverse ids) (x ∷ []), Elem-reverse id ids))

pub length-reverse : (ids : List Text) → length (reverse ids) ≡ length ids
length-reverse [] = refl
length-reverse (x ∷ ids) =
    ap length (reverse-append (x ∷ []) ids)
    ∙ length-append (reverse ids) (x ∷ [])
    ∙ omega (arith, length-reverse ids)

-- The lengths of the entries that no visited spec owns.
unfoldable pub weight : List Text → Edges → ℕ
weight visited [] = 0
weight visited ((key, deps) ∷ edges) =
    (if elem key visited then 0 else length deps) + weight visited edges

weight-cons :
    (current : Text) (visited : List Text) (edges : Edges)
    → weight (current ∷ visited) edges ≤ weight visited edges
unfolding weight
weight-cons current visited [] = omega arith
weight-cons current visited ((key, deps) ∷ edges) =
    ground (arith, weight-cons current visited edges)

pub weight-le_edge_count :
    (visited : List Text) (edges : Edges) → weight visited edges ≤ edge_count edges
unfolding weight edge_count
weight-le_edge_count visited [] = omega arith
weight-le_edge_count visited ((key, deps) ∷ edges) =
    ground (arith, weight-le_edge_count visited edges)

-- Entering a spec takes its own entry off the weight.
weight-targets :
    (current : Text) (visited : List Text) (edges : Edges)
    → elem current visited ≡ false
    → weight (current ∷ visited) edges + length (targets edges current) ≤ weight visited edges
unfolding weight targets find_entry
weight-targets current visited [] h = omega arith
weight-targets current visited ((key, deps) ∷ edges) h =
    let later = weight-targets current visited edges h in
    let shrinks = weight-cons current visited edges in
    let own : key ≡ current → elem key visited ≡ false = λ e. rw e h in
    elim (Option-cases (find_entry edges current)) [
      | inl e ↦ elim (Bool-cases (same key current)) [
        | inl s ↦ rw (e, s) (ground (arith, same_iff key current, own))
        | inr s ↦ rw (e, s) (ground (arith))
      ]
      | inr (found, e) ↦ let own_part = rw e at later in rw e (ground (arith, own_part))
    ]

module _ (is_target : Text → Bool) (edges : Edges) where
  -- The stack's length and the weight of what is not yet visited bound the rounds left.
  pub walk-ne-out_of_fuel :
      (fuel : ℕ) (stack visited : List Text)
      → length stack + weight visited edges ≤ fuel
      → walk is_target edges fuel stack visited ≢ out_of_fuel
  unfolding walk
  walk-ne-out_of_fuel zero [] visited h = λ e. cc
  walk-ne-out_of_fuel zero (current ∷ stack) visited h = absurd (omega arith)
  walk-ne-out_of_fuel (suc fuel) [] visited h = λ e. cc
  walk-ne-out_of_fuel (suc fuel) (current ∷ stack) visited h =
      if_cases (λ r. r ≢ out_of_fuel) (is_target current) arrived _ (λ found. λ e. cc)
        λ other.
          if_cases (λ r. r ≢ out_of_fuel) (elem current visited) _ _
            (λ old. walk-ne-out_of_fuel fuel stack visited (omega arith))
            λ new.
              walk-ne-out_of_fuel fuel (reverse (targets edges current) ++ stack)
                (current ∷ visited)
                (omega (
                  arith,
                  length-append {0} (reverse (targets edges current)) stack,
                  length-reverse (targets edges current),
                  weight-targets current visited edges new,
                ))

  -- What holds of the stack and passes along the edges holds wherever the walk comes, and what it
  -- entails (`Q`) holds of all that was visited.
  module _ (P Q : Text → Type 0) (passes : (u v : Text) → P u → Elem v (targets edges u) → P v)
      (entails : (u : Text) → P u → Q u) where
    abbrev pub Sound : Walked → Type 0
    Sound arrived = (id : Text) × P id × (is_target id ≡ true)
    Sound (visited_all visited) = (id : Text) → Elem id visited → Q id
    Sound out_of_fuel = Unit

    holds_pushed :
        (current : Text) (stack : List Text)
        → P current
        → ((id : Text) → Elem id stack → P id)
        → (id : Text) → Elem id (reverse (targets edges current) ++ stack)
        → P id
    holds_pushed current stack h k id m =
        elim ((Elem-append id (reverse (targets edges current)) stack).0 m) [
          | inl own ↦ passes current id h ((Elem-reverse id (targets edges current)).0 own)
          | inr old ↦ k id old
        ]

    pub walk-Sound :
        (fuel : ℕ) (stack visited : List Text)
        → ((id : Text) → Elem id stack → P id)
        → ((id : Text) → Elem id visited → Q id)
        → Sound (walk is_target edges fuel stack visited)
    unfolding walk
    walk-Sound zero [] visited h k = k
    walk-Sound zero (current ∷ stack) visited h k = tt
    walk-Sound (suc fuel) [] visited h k = k
    walk-Sound (suc fuel) (current ∷ stack) visited h k =
        if_cases Sound (is_target current) arrived _
          (λ found. (current, h current (inl refl), found))
          λ other.
            if_cases Sound (elem current visited) _ _
              (λ old. walk-Sound fuel stack visited (λ id m. h id (inr m)) k)
              λ new.
                walk-Sound fuel (reverse (targets edges current) ++ stack) (current ∷ visited)
                  (holds_pushed current stack (h current (inl refl)) (λ id m. h id (inr m)))
                  λ id m. elim m [
                    | inl e ↦ rw e (entails current (h current (inl refl)))
                    | inr old ↦ k id old
                  ]

  -- Each edge out of what is visited leads to the stack, or to a visited spec that was no target.
  unfoldable pub Frontier : List Text → List Text → Type 0
  Frontier stack visited =
      (u v : Text)
      → Elem u visited
      → Elem v (targets edges u)
      → Elem v stack ⊎ (Elem v visited × (is_target v ≡ false))

  abbrev pub Closed : List Text → Walked → Type 0
  Closed before (visited_all visited) =
      ((id : Text) → Elem id before → Elem id visited) × Frontier [] visited
  Closed before _ = Unit

  pub walk-Closed :
      (before : List Text) (fuel : ℕ) (stack visited : List Text)
      → ((id : Text) → Elem id before → Elem id visited)
      → Frontier stack visited
      → Closed before (walk is_target edges fuel stack visited)
  unfolding walk Frontier
  walk-Closed before zero [] visited k f = (k, f)
  walk-Closed before zero (current ∷ stack) visited k f = tt
  walk-Closed before (suc fuel) [] visited k f = (k, f)
  walk-Closed before (suc fuel) (current ∷ stack) visited k f =
      if_cases (Closed before) (is_target current) arrived _ (λ found. tt)
        λ other.
          if_cases (Closed before) (elem current visited) _ _
            (λ old. walk-Closed before fuel stack visited k λ u v m e.
              ground (arith, f u v m e, (elem_iff v visited).0, same_iff v current, old, other))
            λ new.
              walk-Closed before fuel (reverse (targets edges current) ++ stack) (current ∷ visited)
                (λ id m. inr (k id m))
                λ u v m e. elim m [
                  | inl p ↦ inl (
                      (Elem-append v (reverse (targets edges current)) stack).1 (
                        inl (
                          (Elem-reverse v (targets edges current)).1
                            (subst (λ (t : Text). Elem v (targets edges t)) p e))))
                  | inr old ↦ elim (f u v old e) [
                    | inl (inl same_spec) ↦ inr (inl same_spec, rw same_spec other)
                    | inl (inr pushed) ↦
                        inl ((Elem-append v (reverse (targets edges current)) stack).1 (inr pushed))
                    | inr (seen, plain) ↦ inr (inr seen, plain)
                  ]
                ]
