-- ===== src/Queue/Order/Lands.antt =====
-- The specification of `_stack_order`: which specs land, and what an order is.
use saffron.Prelude.{
  ℕ, zero, suc, ◌+◌, ◌≤◌, ◌≡◌, refl, ap, sym, ◌∙◌, subst, ◌↔◌, ◌⊎◌, inl, inr, true, false, ◌||◌,
  List, [], ◌∷◌, Option, none, some, arith, length, Any, All, all_iff, Text, elem, Elem, elem_iff,
  map,
}
use saffron.Queue.Rows.{Candidate}
use saffron.Queue.Order.{
  is_ready, pick, take_ready, ids_of, Passed, stack_order, order_refusal, runs_before,
}
use saffron.Queue.Order.Pick.{In, Picked, pick-Picked}

-- A parent lands if it is satisfied already, or is a candidate all of whose parents land: on no
-- cycle, and under no parent that is missing.
pub data Lands (on_default_branch : List Text) (candidates : List Candidate) : Text → Type 0 where
  satisfied : {id : Text} → Elem id on_default_branch → Lands on_default_branch candidates id
  built :
      (c : Candidate)
      → In c candidates
      → ((dep : Text) → Elem dep c.spec.depends_on → Lands on_default_branch candidates dep)
      → Lands on_default_branch candidates c.spec.id

abbrev pub HasParents : (Text → Type 0) → Candidate → Type 0
HasParents P c = (dep : Text) → Elem dep c.spec.depends_on → P dep

All-Elem : (P : Text → Type 0) (names : List Text) → All P names ↔ ((n : Text) → Elem n names → P n)
All-Elem P [] = ((λ h n m. absurd m), (λ h. tt))
All-Elem P (x ∷ names) =
    let ih = All-Elem P names in
    (
      (λ h n m. elim m [ inl e ↦ subst P (sym e) h.0 | inr later ↦ ih.0 h.1 n later ]),
      (λ h. (h x (inl refl), ih.1 (λ n m. h n (inr m)))),
    )

-- The test of readiness.
is_ready_iff :
    (on_default_branch taken_ids : List Text) (c : Candidate)
    → (is_ready on_default_branch taken_ids c ≡ true)
      ↔ HasParents (λ dep. Elem dep taken_ids ⊎ Elem dep on_default_branch) c
is_ready_iff on_default_branch taken_ids c =
    let tested =
      all_iff (λ dep. elem dep taken_ids || elem dep on_default_branch)
        (λ dep. Elem dep taken_ids ⊎ Elem dep on_default_branch)
        (λ dep. ground (arith, elem_iff dep taken_ids, elem_iff dep on_default_branch))
        c.spec.depends_on in
    let every =
      All-Elem (λ dep. Elem dep taken_ids ⊎ Elem dep on_default_branch) c.spec.depends_on in
    ((λ h. every.0 (tested.0 h)), (λ h. tested.1 (every.1 h)))

-- Each spec of an order stands behind its parents, and none that follows it and was as ready runs
-- before it.
abbrev pub IsOrder : List Text → List Text → List Candidate → Type 0
IsOrder on_default_branch taken_ids [] = Unit
IsOrder on_default_branch taken_ids (c ∷ taken) =
    HasParents (λ dep. Elem dep taken_ids ⊎ Elem dep on_default_branch) c
    × ((d : Candidate)
        → In d taken
        → HasParents (λ dep. Elem dep taken_ids ⊎ Elem dep on_default_branch) d
        → runs_before d c ≡ false)
    × IsOrder on_default_branch (c.spec.id ∷ taken_ids) taken

-- The ids taken at the end, those that were taken before included.
abbrev pub all_taken : List Text → List Candidate → List Text
all_taken taken_ids [] = taken_ids
all_taken taken_ids (c ∷ taken) = all_taken (c.spec.id ∷ taken_ids) taken

-- What the loop has at its end.
abbrev pub Ended : List Text → List Text → List Candidate → List Candidate × List Candidate → Type 0
Ended on_default_branch taken_ids remaining (taken, left) =
    IsOrder on_default_branch taken_ids taken
    × ((c : Candidate) → In c remaining ↔ (In c taken ⊎ In c left))
    × (length remaining ≡ length taken + length left)
    × ((c : Candidate)
        → In c left
        → is_ready on_default_branch (all_taken taken_ids taken) c ≡ false)

take_ready-Ended :
    (fuel : ℕ) (on_default_branch taken_ids : List Text) (remaining : List Candidate)
    → length remaining ≤ fuel
    → Ended on_default_branch taken_ids remaining
        (take_ready fuel on_default_branch taken_ids remaining)
unfolding take_ready
take_ready-Ended zero on_default_branch taken_ids [] h =
    (tt, (λ c. ground arith), omega arith, (λ c m. absurd m))
take_ready-Ended zero on_default_branch taken_ids (c ∷ remaining) h = absurd (omega arith)
take_ready-Ended (suc fuel) on_default_branch taken_ids remaining h =
    go (pick (is_ready on_default_branch taken_ids) remaining)
      (pick-Picked (is_ready on_default_branch taken_ids) remaining)
      (take_ready-Ended fuel on_default_branch)
  where
    go :
        (picked : Option (Candidate × List Candidate))
        → Picked (is_ready on_default_branch taken_ids) remaining picked
        → ((taken_ids' : List Text) (remaining' : List Candidate)
            → length remaining' ≤ fuel
            → Ended on_default_branch taken_ids' remaining'
                (take_ready fuel on_default_branch taken_ids' remaining'))
        → Ended on_default_branch taken_ids remaining (elim picked [
          | none ↦ ([], remaining)
          | some (best, others) ↦ (
            best ∷ (take_ready fuel on_default_branch (best.spec.id ∷ taken_ids) others).0,
            (take_ready fuel on_default_branch (best.spec.id ∷ taken_ids) others).1,
          )
        ])
    go none p later =
        (tt, (λ c. ((λ m. inr m), (λ m. elim m [ inl n ↦ absurd n | inr m ↦ m ]))), omega arith, p)
    go (some (best, others)) (is_in, ready, least, kept, count) later =
        let rest = later (best.spec.id ∷ taken_ids) others (omega arith) in
        (
          (
            (is_ready_iff on_default_branch taken_ids best).0 ready,
            (λ d m parents.
                least d ((kept d).1 (inr ((rest.1 d).1 (inl m))))
                  ((is_ready_iff on_default_branch taken_ids d).1 parents)),
            rest.0,
          ),
          (λ c. ground (arith, kept c, rest.1 c)),
          omega (arith, rest.2),
          rest.3,
        )

In-ids :
    (c : Candidate) (candidates : List Candidate)
    → In c candidates
    → Elem c.spec.id (ids_of candidates)
In-ids c [] m = absurd m
In-ids c (d ∷ candidates) (inl e) = inl (ap (λ (t : Candidate). t.spec.id) e)
In-ids c (d ∷ candidates) (inr m) = inr (In-ids c candidates m)

all_taken_iff :
    (id : Text) (taken_ids : List Text) (taken : List Candidate)
    → Elem id (all_taken taken_ids taken) ↔ (Elem id taken_ids ⊎ Elem id (ids_of taken))
all_taken_iff id taken_ids [] = ((λ m. inl m), (λ m. elim m [ inl m ↦ m | inr n ↦ absurd n ]))
all_taken_iff id taken_ids (c ∷ taken) =
    ground (arith, all_taken_iff id (c.spec.id ∷ taken_ids) taken)

module _ (on_default_branch : List Text) (candidates : List Candidate) where
  IsOrder-Lands :
      (taken_ids : List Text) (taken : List Candidate)
      → ((id : Text) → Elem id taken_ids → Lands on_default_branch candidates id)
      → ((c : Candidate) → In c taken → In c candidates)
      → IsOrder on_default_branch taken_ids taken
      → (c : Candidate) → In c taken
      → HasParents (Lands on_default_branch candidates) c
  IsOrder-Lands taken_ids [] landed inside o c m = absurd m
  IsOrder-Lands taken_ids (d ∷ taken) landed inside (parents, least, o) c m =
      let own : HasParents (Lands on_default_branch candidates) d =
        λ dep e. elim (parents dep e) [ inl t ↦ landed dep t | inr b ↦ satisfied b ] in
      let later =
        IsOrder-Lands (d.spec.id ∷ taken_ids) taken
          (λ id t. elim t [
            | inl e ↦
                subst (λ (n : Text). Lands on_default_branch candidates n) (sym e)
                  (built d (inside d (inl refl)) own)
            | inr t ↦ landed id t
          ])
          (λ c m. inside c (inr m)) o in
      elim m [
        | inl e ↦
            subst (λ (t : Candidate). HasParents (Lands on_default_branch candidates) t) (sym e) own
        | inr m ↦ later c m
      ]

  -- Where nothing is ready any more, all that lands has been taken.
  module _ (taken left : List Candidate)
      (ended : Ended on_default_branch [] candidates (taken, left)) where
    left_unready :
        (c : Candidate)
        → In c left
        → ¬ HasParents (λ dep. Elem dep (all_taken [] taken) ⊎ Elem dep on_default_branch) c
    left_unready c m parents =
        cc ((is_ready_iff on_default_branch (all_taken [] taken) c).1 parents, ended.3 c m)

    Lands-taken :
        {id : Text}
        → Lands on_default_branch candidates id
        → Elem id (all_taken [] taken) ⊎ Elem id on_default_branch
    Lands-taken (satisfied b) = inr b
    Lands-taken (built c m parents) = elim ((ended.1 c).0 m) [
      | inl t ↦ inl ((all_taken_iff c.spec.id [] taken).1 (inr (In-ids c taken t)))
      | inr l ↦ absurd (left_unready c l (λ dep e. Lands-taken (parents dep e)))
    ]

    taken-Lands_iff :
        (c : Candidate)
        → In c candidates
        → In c taken ↔ HasParents (Lands on_default_branch candidates) c
    taken-Lands_iff c m = (
      IsOrder-Lands [] taken (λ id n. absurd n) (λ d t. (ended.1 d).1 (inl t)) ended.0 c,
      (λ parents. elim ((ended.1 c).0 m) [
        | inl t ↦ t
        | inr l ↦ absurd (left_unready c l (λ dep e. Lands-taken (parents dep e)))
      ]),
    )

stack_order-Ended :
    (on_default_branch : List Text) (candidates : List Candidate)
    → Ended on_default_branch [] candidates
        (take_ready (length candidates) on_default_branch [] candidates)
stack_order-Ended on_default_branch candidates =
    take_ready-Ended (length candidates) on_default_branch [] candidates (omega arith)

-- `_stack_order` takes a candidate exactly if each of its parents lands: is satisfied from the
-- start, or is itself a candidate whose parents land. A spec on a cycle, under one, or under a parent
-- that is nowhere is never taken, and nothing else is left out.
pub stack_order-taken_iff :
    (passed : Passed) (on_default_branch : List Text) (candidates : List Candidate) (c : Candidate)
    → In c candidates
    → In c (stack_order passed on_default_branch candidates).0
      ↔ HasParents (Lands on_default_branch candidates) c
unfolding stack_order
stack_order-taken_iff passed on_default_branch candidates c m =
    let result = take_ready (length candidates) on_default_branch [] candidates in
    taken-Lands_iff on_default_branch candidates result.0 result.1
      (stack_order-Ended on_default_branch candidates) c m

-- In the order that `_stack_order` returns every parent is satisfied from the start or stands before
-- its child, and no spec stands behind one that it should run before, by priority and then by id,
-- though its own parents were there as early.
pub stack_order-IsOrder :
    (passed : Passed) (on_default_branch : List Text) (candidates : List Candidate)
    → IsOrder on_default_branch [] (stack_order passed on_default_branch candidates).0
unfolding stack_order
stack_order-IsOrder passed on_default_branch candidates =
    (stack_order-Ended on_default_branch candidates).0

length-map : {A B : Type 0} (f : A → B) (xs : List A) → length (map f xs) ≡ length xs
length-map f [] = refl
length-map f (x ∷ xs) = ap suc (length-map f xs)

refused_of :
    (passed : Passed) (taken_ids on_default_branch : List Text) (c : Candidate)
    (left : List Candidate)
    → In c left
    → Any
        (λ refusal. c.path ≡ refusal.path)
        (map (order_refusal passed taken_ids on_default_branch) left)
refused_of passed taken_ids on_default_branch c [] m = absurd m
refused_of passed taken_ids on_default_branch c (d ∷ left) (inl e) =
    inl (ap (λ (t : Candidate). t.path) e)
refused_of passed taken_ids on_default_branch c (d ∷ left) (inr m) =
    inr (refused_of passed taken_ids on_default_branch c left m)

-- `_stack_order` loses no candidate and counts none twice: as many are taken or refused as there
-- were, and a candidate that is not taken has a refusal at its path.
pub stack_order_partition :
    (passed : Passed) (on_default_branch : List Text) (candidates : List Candidate)
    → let result = stack_order passed on_default_branch candidates in
      (length candidates ≡ length result.0 + length result.1)
      × ((c : Candidate)
          → In c candidates
          → In c result.0 ⊎ Any (λ refusal. c.path ≡ refusal.path) result.1)
unfolding stack_order
stack_order_partition passed on_default_branch candidates =
    let result = take_ready (length candidates) on_default_branch [] candidates in
    let ended = stack_order-Ended on_default_branch candidates in
    let refused = order_refusal passed (ids_of result.0) on_default_branch in
    (
      ended.2 ∙ ap (λ (n : ℕ). length result.0 + n) (sym (length-map refused result.1)),
      (λ c m. elim ((ended.1 c).0 m) [
        | inl t ↦ inl t
        | inr l ↦ inr (refused_of passed (ids_of result.0) on_default_branch c result.1 l)
      ]),
    )
