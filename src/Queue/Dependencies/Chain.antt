-- ===== src/Queue/Dependencies/Chain.antt =====
-- The open parents of one spec, and what it is for them to lie on one chain.
use saffron.Prelude.{
  ◌≤◌, ◌<◌, ◌≡◌, refl, sym, ◌∙◌, ◌≢◌, ◌↔◌, ◌⊎◌, inl, inr, true, List, [], ◌∷◌, none, arith, Text,
  same, same_iff, elem, Elem, elem_iff, elem-sorted_set, sorted_set, is_empty, is_empty_iff, length,
  ltb, Bool-cases, subst,
}
use saffron.Queue.Walk.{Edges, reach_among, deepest_open_parent}
use saffron.Queue.Walk.Reach.{Reach, here, step}
use saffron.Queue.Walk.Deepest.{reach_among_iff, deepest_open_parent_widest}
use saffron.Queue.Walk.Distinct.{length-Distinct, reach_among-Distinct}
use saffron.Queue.Dependencies.{open_parents_refusal}

Reach_trans : {edges : Edges} {a b c : Text} → Reach edges a b → Reach edges b c → Reach edges a c
Reach_trans r here = r
Reach_trans r (step s e) = step (Reach_trans r s) e

-- The chain of this parent holds all the others.
abbrev pub Heads : Edges → List Text → Text → Type 0
Heads edges parents chosen =
    Elem chosen parents
    × ((other : Text) → Elem other parents → chosen ≢ other → Reach edges chosen other)

-- Whether a parent is reached is decided by the walk.
reached_or_not :
    (edges : Edges) (parents : List Text) (candidate id : Text)
    → Elem id parents
    → candidate ≢ id
    → Reach edges candidate id ⊎ (¬ Reach edges candidate id)
reached_or_not edges parents candidate id m n =
    let reached = reach_among_iff edges parents candidate id in
    elim (Bool-cases (elem id (reach_among edges parents candidate))) [
      | inl e ↦ inl (reached.0 ((elem_iff id (reach_among edges parents candidate)).0 e)).1
      | inr e ↦
          inr
            λ r. cc (e, (elem_iff id (reach_among edges parents candidate)).1 (reached.1 (m, r, n)))
    ]

-- What reaches another parent, and is not reached by it, reaches more.
reaches_more :
    (edges : Edges) (parents : List Text) (top below : Text)
    → Elem below parents
    → top ≢ below
    → Reach edges top below
    → ¬ Reach edges below top
    → length (reach_among edges parents below) < length (reach_among edges parents top)
reaches_more edges parents top below m n r back =
    length-Distinct (below ∷ reach_among edges parents below) (reach_among edges parents top)
      (
        (λ k. ((reach_among_iff edges parents below below).0 k).2 refl),
        reach_among-Distinct edges parents below,
      )
      λ x k. elim k [
        | inl e ↦
            subst (λ (t : Text). Elem t (reach_among edges parents top)) (sym e)
              ((reach_among_iff edges parents top below).1 (m, r, n))
        | inr later ↦
            let (inside, reach, differs) = (reach_among_iff edges parents below x).0 later in
            (reach_among_iff edges parents top x).1 (
              inside,
              Reach_trans r reach,
              (λ e. back (subst (λ (t : Text). Reach edges below t) (sym e) reach)),
            )
      ]

-- If some parent heads the others, so does every one that reaches as many.
Heads-widest :
    (edges : Edges) (parents : List Text) (top chosen : Text)
    → Heads edges parents top
    → Elem chosen parents
    → length (reach_among edges parents top) ≤ length (reach_among edges parents chosen)
    → Heads edges parents chosen
Heads-widest edges parents top chosen (m, heads) k wide = (
  k,
  λ other o n. elim (Bool-cases (same top chosen)) [
    | inl e ↦ heads_from other o n ((same_iff top chosen).0 e)
    | inr e ↦
        let differs : top ≢ chosen = λ p. cc ((same_iff top chosen).1 p, e) in
        let down = heads chosen k differs in
        elim (reached_or_not edges parents chosen top m (λ p. differs (sym p))) [
          | inl up ↦ elim (Bool-cases (same top other)) [
            | inl s ↦ subst (λ (t : Text). Reach edges chosen t) ((same_iff top other).0 s) up
            | inr s ↦ Reach_trans up (heads other o (λ p. cc ((same_iff top other).1 p, s)))
          ]
          | inr back ↦
              absurd (omega (arith, reaches_more edges parents top chosen k differs down back))
        ]
  ],
)
  where
    heads_from :
        (other : Text)
        → Elem other parents
        → chosen ≢ other
        → top ≡ chosen
        → Reach edges chosen other
    heads_from other o n e =
        subst (λ (t : Text). Reach edges t other) e (heads other o (λ p. n (sym e ∙ p)))

-- Nothing is off the deepest parent's chain exactly if some parent heads the others.
off_chain_empty_iff :
    (edges : Edges) (parents : List Text) (id : Text)
    → Elem id parents
    → (is_empty (deepest_open_parent parents parents edges).1 ≡ true)
      ↔ ((chosen : Text) × Heads edges parents chosen)
off_chain_empty_iff edges parents id m =
    let (chosen, found, member, yields, off_chain) =
      deepest_open_parent_widest parents parents edges id m in
    let off = (deepest_open_parent parents parents edges).1 in
    (
      (λ e. (
        chosen,
        (
          member,
          (λ other o n. elim (reached_or_not edges parents chosen other o n) [
            | inl r ↦ r
            | inr r ↦ absurd (
                subst (λ (t : List Text). Elem other t) ((is_empty_iff off).0 e)
                  ((off_chain other).1 (o, n, r)))
          ]),
        ),
      )),
      (λ (top, heads).
          let all_on = Heads-widest edges parents top chosen heads member (yields top heads.0).0 in
          none_off off
            λ other o. let (inside, n, r) = (off_chain other).0 o in r (all_on.1 other inside n)),
    )
  where
    none_off : (names : List Text) → ((other : Text) → ¬ Elem other names) → is_empty names ≡ true
    none_off [] h = refl
    none_off (x ∷ names) h = absurd (h x (inl refl))

sorted_iff : (id : Text) (names : List Text) → Elem id (sorted_set names) ↔ Elem id names
sorted_iff id names =
    ground (arith, elem_iff id (sorted_set names), elem_iff id names, elem-sorted_set id names)

Heads-sorted_set :
    (edges : Edges) (parents : List Text) (chosen : Text)
    → Heads edges (sorted_set parents) chosen ↔ Heads edges parents chosen
Heads-sorted_set edges parents chosen = (
  (λ (m, h). ((sorted_iff chosen parents).0 m, (λ o k. h o ((sorted_iff o parents).1 k)))),
  (λ (m, h). ((sorted_iff chosen parents).1 m, (λ o k. h o ((sorted_iff o parents).0 k)))),
)

-- One open parent at most, or one whose chain holds all the others.
abbrev pub OnOneChain : Edges → List Text → Type 0
OnOneChain edges open_deps =
    (length open_deps ≤ 1) ⊎ ((chosen : Text) × Heads edges open_deps chosen)

pub open_parents_refusal-none_iff :
    (edges : Edges) (open_deps : List Text)
    → (open_parents_refusal edges open_deps ≡ none) ↔ OnOneChain edges open_deps
unfolding open_parents_refusal
open_parents_refusal-none_iff edges [] = ground arith
open_parents_refusal-none_iff edges (dep ∷ open_deps) =
    let deps = dep ∷ open_deps in
    let empty_iff =
      off_chain_empty_iff edges (sorted_set deps) dep ((sorted_iff dep deps).1 (inl refl)) in
    (
      (λ e. elim (Bool-cases (ltb 1 (length deps))) [
        | inl many ↦
            let (chosen, heads) = empty_iff.0 (ground arith) in
            inr (chosen, (Heads-sorted_set edges deps chosen).0 heads)
        | inr few ↦ inl (ground arith)
      ]),
      (λ h. elim h [
        | inl few ↦ ground arith
        | inr (chosen, heads) ↦
            let empty = empty_iff.1 (chosen, (Heads-sorted_set edges deps chosen).1 heads) in
            ground arith
      ]),
    )
