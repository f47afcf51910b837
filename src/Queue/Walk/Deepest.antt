-- ===== src/Queue/Walk/Deepest.antt =====
-- The choice of `_deepest_open_parent`, by what each candidate's chain reaches.
use saffron.Prelude.{
  ℕ, ◌≤◌, ◌≡◌, refl, ◌≢◌, ◌↔◌, inl, inr, true, false, not, List, [], ◌∷◌, some, arith, Text, same,
  same_iff, elem, Elem, elem_iff, Elem-filter, filter, length, text_lt, text_lt_trans,
  text_lt_irrefl, IsIncreasing, sorted_set, sorted_set-IsIncreasing, elem-sorted_set, if_cases, ltb,
  ltb→lt,
}
use saffron.Queue.Walk.{
  Edges, reachable, reach_among, widest, off_chain_of, deepest_of, deepest_open_parent,
}
use saffron.Queue.Walk.Distinct.{Distinct, reach_among-Distinct}
use saffron.Queue.Walk.Reach.{Reach, reachable_iff}

-- Which other parents a candidate's chain reaches.
pub reach_among_iff :
    (edges : Edges) (parents : List Text) (candidate id : Text)
    → Elem id (reach_among edges parents candidate)
      ↔ (Elem id parents × Reach edges candidate id × (candidate ≢ id))
unfolding reach_among
reach_among_iff edges parents candidate id = ground (
  arith,
  Elem-filter (λ (n : Text). not (same candidate n)) id
      (filter (λ (n : Text). elem n parents) (reachable candidate edges)),
  Elem-filter (λ (n : Text). elem n parents) id (reachable candidate edges),
  reachable_iff edges candidate id,
  elem_iff id parents,
  same_iff candidate id,
)

off_chain_iff :
    (edges : Edges) (parents : List Text) (chosen id : Text)
    → Elem id (off_chain_of edges parents chosen)
      ↔ (Elem id parents × (chosen ≢ id) × ¬ Reach edges chosen id)
unfolding off_chain_of
off_chain_iff edges parents chosen id = ground (
  arith,
  Elem-filter (λ (n : Text). not (elem n (reach_among edges parents chosen))) id
      (filter (λ (n : Text). not (same chosen n)) parents),
  Elem-filter (λ (n : Text). not (same chosen n)) id parents,
  reach_among_iff edges parents chosen id,
  elem_iff id (reach_among edges parents chosen),
  same_iff chosen id,
)

-- How many other parents a candidate's chain reaches.
abbrev pub reach_size : Edges → List Text → Text → ℕ
reach_size edges parents candidate = length (reach_among edges parents candidate)

-- One candidate's list is shorter than another's, or as long and its id no lower.
abbrev Narrower : Edges → List Text → Text → Text → Type 0
Narrower edges parents other chosen =
    (reach_size edges parents other ≤ reach_size edges parents chosen)
    × (reach_size edges parents other ≡ reach_size edges parents chosen
        → text_lt other chosen ≡ false)

-- A candidate dropped for one of a lower id that reaches as many yields to all that this yields to.
Narrower-dropped :
    (edges : Edges) (parents : List Text) (first dropped chosen : Text)
    → text_lt first dropped ≡ true
    → reach_size edges parents dropped ≤ reach_size edges parents first
    → Narrower edges parents first chosen
    → Narrower edges parents dropped chosen
Narrower-dropped edges parents first dropped chosen l n (m, tie) =
    (omega arith, λ e. ground (arith, tie (omega arith), text_lt_trans first dropped chosen))

abbrev IsDeepest : Edges → List Text → List Text → Text → Type 0
IsDeepest edges parents candidates chosen =
    Elem chosen candidates
    × ((other : Text) → Elem other candidates → Narrower edges parents other chosen)

widest-IsDeepest :
    (edges : Edges) (parents : List Text) (first : Text) (candidates : List Text)
    → IsIncreasing (first ∷ candidates)
    → IsDeepest edges parents (first ∷ candidates) (widest edges parents first candidates)
unfolding widest
widest-IsDeepest edges parents first [] (above, rest) = (
  inl refl,
  λ other m. elim m [ inl e ↦ rw e (omega arith, (λ s. text_lt_irrefl first)) | inr n ↦ absurd n ],
)
widest-IsDeepest edges parents first (second ∷ candidates) ((l, above), (above', rest)) =
    if_cases
      (λ next.
        IsDeepest edges parents (first ∷ second ∷ candidates)
          (widest edges parents next candidates))
      (ltb (length (reach_among edges parents first)) (length (reach_among edges parents second)))
      second first
      (λ wider.
        let (member, yields) = widest-IsDeepest edges parents second candidates (above', rest) in
        let second_yields = yields second (inl refl) in
        let less =
          ltb→lt (reach_size edges parents first) (reach_size edges parents second) wider in
        (
          inr member,
          λ other m. elim m [
            | inl e ↦ rw e (omega arith, (λ s. absurd (omega arith)))
            | inr later ↦ yields other later
          ],
        ))
      λ narrow.
        let (member, yields) = widest-IsDeepest edges parents first candidates (above, rest) in
        (
          ground arith,
          λ other m. elim m [
            | inl e ↦ yields other (inl e)
            | inr (inl e) ↦ rw e (
                Narrower-dropped edges parents first second (widest edges parents first candidates)
                  l (ground arith) (yields first (inl refl)))
            | inr (inr later) ↦ yields other (inr later)
          ],
        )

IsDeepest-sorted :
    (edges : Edges) (parents candidates : List Text) (id : Text)
    → IsIncreasing candidates
    → Elem id candidates
    → (chosen : Text) × ((deepest_of edges parents candidates).0 ≡ some chosen)
      × ((deepest_of edges parents candidates).1 ≡ off_chain_of edges parents chosen)
      × IsDeepest edges parents candidates chosen
IsDeepest-sorted edges parents [] id sorted m = absurd m
IsDeepest-sorted edges parents (first ∷ candidates) id sorted m = (
  widest edges parents first candidates,
  refl,
  refl,
  widest-IsDeepest edges parents first candidates sorted,
)

-- The choice, by the lengths of the code's own sets.
pub deepest_open_parent_widest :
    (parents candidates : List Text) (edges : Edges) (id : Text)
    → Elem id candidates
    → (chosen : Text) × ((deepest_open_parent parents candidates edges).0 ≡ some chosen)
      × Elem chosen candidates
      × ((other : Text) → Elem other candidates → Narrower edges parents other chosen)
      × ((other : Text)
          → Elem other (deepest_open_parent parents candidates edges).1
            ↔ (Elem other parents × (chosen ≢ other) × ¬ Reach edges chosen other))
unfolding deepest_open_parent
deepest_open_parent_widest parents candidates edges id m =
    let sorted_iff : (other : Text) → Elem other (sorted_set candidates) ↔ Elem other candidates =
      λ other. ground (
        arith,
        elem_iff other (sorted_set candidates),
        elem_iff other candidates,
        elem-sorted_set other candidates,
      ) in
    let (chosen, found, off_chain, (member, yields)) =
      IsDeepest-sorted edges parents (sorted_set candidates) id (sorted_set-IsIncreasing candidates)
        ((sorted_iff id).1 m) in
    (
      chosen,
      found,
      (sorted_iff chosen).0 member,
      (λ other k. yields other ((sorted_iff other).1 k)),
      (λ other. rw off_chain (off_chain_iff edges parents chosen other)),
    )

-- The other parents that a candidate's chain of `depends_on` leads to, each once.
abbrev pub IsReached : Edges → List Text → Text → List Text → Type 0
IsReached edges parents candidate ids =
    Distinct ids
    × ((id : Text) → Elem id ids ↔ (Elem id parents × Reach edges candidate id × (candidate ≢ id)))

-- One candidate yields to another: it reaches fewer other parents, or as many under no lower id.
abbrev pub Yields : Edges → List Text → Text → Text → Type 0
Yields edges parents other chosen =
    (theirs : List Text) × (own : List Text) × IsReached edges parents other theirs
    × IsReached edges parents chosen own
    × (length theirs ≤ length own)
    × (length theirs ≡ length own → text_lt other chosen ≡ false)

reach_among-IsReached :
    (edges : Edges) (parents : List Text) (candidate : Text)
    → IsReached edges parents candidate (reach_among edges parents candidate)
reach_among-IsReached edges parents candidate =
    (reach_among-Distinct edges parents candidate, reach_among_iff edges parents candidate)

-- Of candidates that there are, `_deepest_open_parent` chooses one of them whose chain of
-- `depends_on` reaches the most other parents, the one of the lowest id where several do, and
-- returns with it exactly the parents other than it that its chain does not reach.
pub deepest_open_parent_lem :
    (parents candidates : List Text) (edges : Edges) (id : Text)
    → Elem id candidates
    → (chosen : Text) × ((deepest_open_parent parents candidates edges).0 ≡ some chosen)
      × Elem chosen candidates
      × ((other : Text) → Elem other candidates → Yields edges parents other chosen)
      × ((other : Text)
          → Elem other (deepest_open_parent parents candidates edges).1
            ↔ (Elem other parents × (chosen ≢ other) × ¬ Reach edges chosen other))
deepest_open_parent_lem parents candidates edges id m =
    let (chosen, found, member, narrower, off_chain) =
      deepest_open_parent_widest parents candidates edges id m in
    let reached = reach_among-IsReached edges parents in
    (
      chosen,
      found,
      member,
      (λ other k. (
        reach_among edges parents other,
        reach_among edges parents chosen,
        reached other,
        reached chosen,
        (narrower other k).0,
        (narrower other k).1,
      )),
      off_chain,
    )
