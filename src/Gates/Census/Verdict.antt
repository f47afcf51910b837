-- ===== src/Gates/Census/Verdict.antt =====
-- What the census says of each name, and what the `committed` gate says of each path.
use saffron.Prelude.{
  ◌≡◌, refl, ◌≢◌, ◌↔◌, ◌⊎◌, inl, inr, ap, not, List, [], ◌∷◌, map, Option, none, some, arith, Text,
  elem, Elem, elem_iff, Elem-append, Elem-filter, filter, Any, sorted_set, sorted_set-IsIncreasing,
  IsIncreasing, elem-sorted_set, Bool-cases,
}
use saffron.Gates.Contract.{Failure, GateResult, pass, fail, skip, error}
use saffron.Gates.Census.{
  collected_names, joined, removed_names, removed_failure, census_verdict, census_between,
  census_gate, uncommitted, committed_gate,
}

-- The enumeration is there, and lists the name.
abbrev pub Lists : Text → Option (List Text) → Type 0
Lists name none = ⊥
Lists name (some names) = Elem name names

-- Some gate of the suite enumerated the name.
abbrev pub IsCollected : Text → List GateResult → Type 0
IsCollected name results = Any (λ result. Lists name result.collected) results

-- Some gate of the suite enumerated, if only nothing.
abbrev pub Enumerates : List GateResult → Type 0
Enumerates results = Any (λ result. result.collected ≢ none) results

Lists-joined :
    (name : Text) (a b : Option (List Text))
    → Lists name (joined a b) ↔ (Lists name a ⊎ Lists name b)
Lists-joined name none b = ground arith
Lists-joined name (some xs) none = ground arith
Lists-joined name (some xs) (some ys) = ground (arith, Elem-append name xs ys)

pub IsCollected-iff :
    (name : Text) (results : List GateResult)
    → Lists name (collected_names results) ↔ IsCollected name results
unfolding collected_names
IsCollected-iff name [] = ground arith
IsCollected-iff name (result ∷ results) = ground (
  arith,
  Lists-joined name result.collected (collected_names results),
  IsCollected-iff name results,
)

joined-ne-none : (a b : Option (List Text)) → (joined a b ≢ none) ↔ ((a ≢ none) ⊎ (b ≢ none))
joined-ne-none none b = ground arith
joined-ne-none (some xs) none = ground arith
joined-ne-none (some xs) (some ys) = ground arith

pub Enumerates-iff :
    (results : List GateResult) → (collected_names results ≢ none) ↔ Enumerates results
unfolding collected_names
Enumerates-iff [] = ground arith
Enumerates-iff (result ∷ results) =
    ground
      (arith, joined-ne-none result.collected (collected_names results), Enumerates-iff results)

removed_iff :
    (name : Text) (before after : List Text)
    → Elem name (removed_names before after) ↔ (Elem name before × (¬ Elem name after))
unfolding removed_names
removed_iff name before after =
    let gone = filter (λ other. not (elem other after)) before in
    ground (
      arith,
      elem-sorted_set name gone,
      elem_iff name (sorted_set gone),
      elem_iff name gone,
      elem_iff name after,
      Elem-filter (λ other. not (elem other after)) name before,
    )

eq-nil-of_empty : (names : List Text) → ((name : Text) → ¬ Elem name names) → names ≡ []
eq-nil-of_empty [] h = refl
eq-nil-of_empty (name ∷ names) h = absurd (h name (inl refl))

census_verdict-pass_iff :
    (before after removed : List Text)
    → ((census_verdict before after removed).status ≡ pass) ↔ ((name : Text) → ¬ Elem name removed)
unfolding census_verdict
census_verdict-pass_iff before after [] = ((λ h name m. m), (λ h. refl))
census_verdict-pass_iff before after (name ∷ names) =
    ((λ h. absurd (ground arith)), (λ h. absurd (h name (inl refl))))

dec-Elem : (name : Text) (names : List Text) → ¬ (¬ Elem name names) → Elem name names
dec-Elem name names h = elim (Bool-cases (elem name names)) [
  | inl e ↦ (elem_iff name names).0 e
  | inr e ↦ absurd (h (λ m. ground (arith, elem_iff name names)))
]

census_between-pass_iff :
    (before after : Option (List Text))
    → ((census_between before after).status ≡ pass)
      ↔ ((before ≢ none) × (after ≢ none) × ((name : Text) → Lists name before → Lists name after))
unfolding census_between
census_between-pass_iff none after = ground arith
census_between-pass_iff (some before) none = ground arith
census_between-pass_iff (some before) (some after) = (
  (λ h. (
    ground arith,
    ground arith,
    (λ name m.
        let clean = (census_verdict-pass_iff before after (removed_names before after)).0 h name in
        dec-Elem name after (λ n. clean ((removed_iff name before after).1 (m, n)))),
  )),
  (λ (b, a, kept).
      (census_verdict-pass_iff before after (removed_names before after)).1
        λ name m. let (was, gone) = (removed_iff name before after).0 m in gone (kept name was)),
)

-- The census passes exactly if both suites enumerated and every name collected at base is
-- collected at head.
pub census_gate-pass_iff :
    (base head : List GateResult)
    → ((census_gate base head).status ≡ pass) ↔ (
        Enumerates base
        × Enumerates head
        × ((name : Text) → IsCollected name base → IsCollected name head))
unfolding census_gate
census_gate-pass_iff base head =
    let (pass_needs, pass_of) =
      census_between-pass_iff (collected_names base) (collected_names head) in
    (
      (λ h.
          let (b, a, kept) = pass_needs h in
          (
            (Enumerates-iff base).0 b,
            (Enumerates-iff head).0 a,
            (λ name m. (IsCollected-iff name head).0 (kept name ((IsCollected-iff name base).1 m))),
          )),
      (λ (b, a, kept). pass_of (
        (Enumerates-iff base).1 b,
        (Enumerates-iff head).1 a,
        (λ name m. (IsCollected-iff name head).1 (kept name ((IsCollected-iff name base).0 m))),
      )),
    )

census_verdict_judges :
    (before after removed : List Text)
    → ((census_verdict before after removed).status ≢ skip)
      × ((census_verdict before after removed).status ≢ error)
unfolding census_verdict
census_verdict_judges before after [] = ground arith
census_verdict_judges before after (name ∷ names) = ground arith

-- The suites that the census cannot compare: it skips exactly if nothing was enumerated at base,
-- and is an error exactly if something was at base and nothing at head.
pub census_gate-unread_iff :
    (base head : List GateResult)
    → (((census_gate base head).status ≡ skip) ↔ (¬ Enumerates base))
      × (((census_gate base head).status ≡ error) ↔ (Enumerates base × (¬ Enumerates head)))
unfolding census_gate
census_gate-unread_iff base head =
    unread (collected_names base) (collected_names head) (Enumerates-iff base) (Enumerates-iff head)
  where
    unread :
        (before after : Option (List Text))
        → (before ≢ none) ↔ Enumerates base
        → (after ≢ none) ↔ Enumerates head
        → (((census_between before after).status ≡ skip) ↔ (¬ Enumerates base))
          × (((census_between before after).status ≡ error)
              ↔ (Enumerates base × (¬ Enumerates head)))
    unread none after b a = ground arith
    unread (some before) none b a = ground arith
    unread (some before) (some after) b a =
        ground (arith, census_verdict_judges before after (removed_names before after))

abbrev pub files : List Failure → List Text
files failures = map (λ failure. failure.file) failures

files-removed : (names : List Text) → files (map removed_failure names) ≡ names
files-removed [] = refl
files-removed (name ∷ names) = ap (λ rest. name ∷ rest) (files-removed names)

files-census_verdict :
    (before after removed : List Text)
    → files (census_verdict before after removed).failures ≡ removed
unfolding census_verdict
files-census_verdict before after [] = refl
files-census_verdict before after (name ∷ names) = files-removed (name ∷ names)

census_between-removed :
    (before after : Option (List Text))
    → (census_between before after).status ≡ fail
    → IsIncreasing (files (census_between before after).failures)
      × ((name : Text)
          → Elem name (files (census_between before after).failures)
            ↔ (Lists name before × (¬ Lists name after)))
unfolding census_between
census_between-removed none after h = absurd (ground arith)
census_between-removed (some before) none h = absurd (ground arith)
census_between-removed (some before) (some after) h =
    rw (files-census_verdict before after (removed_names before after)) (
      unfold removed_names in
          sorted_set-IsIncreasing (filter (λ name. not (elem name after)) before),
      (λ name. removed_iff name before after),
    )

-- When the census fails, its failures name exactly the names collected at base and not at head,
-- each once, in the order of names and not of the runner.
pub census_gate-removed :
    (base head : List GateResult)
    → (census_gate base head).status ≡ fail
    → IsIncreasing (files (census_gate base head).failures)
      × ((name : Text)
          → Elem name (files (census_gate base head).failures)
            ↔ (IsCollected name base × (¬ IsCollected name head)))
unfolding census_gate
census_gate-removed base head h =
    let (increasing, named) =
      census_between-removed (collected_names base) (collected_names head) h in
    (
      increasing,
      (λ name. ground (arith, named name, IsCollected-iff name base, IsCollected-iff name head)),
    )

files-uncommitted : (paths : List Text) → files (map uncommitted paths) ≡ paths
files-uncommitted [] = refl
files-uncommitted (path ∷ paths) = ap (λ rest. path ∷ rest) (files-uncommitted paths)

-- The `committed` gate names the dirty paths, one failure for each in their order, passes exactly
-- if there is none, and is never an error.
pub committed_gate-files :
    (dirty : List Text)
    → (files (committed_gate dirty).failures ≡ dirty)
      × (((committed_gate dirty).status ≡ pass) ↔ (dirty ≡ []))
      × ((committed_gate dirty).status ≢ error)
unfolding committed_gate
committed_gate-files [] = ground arith
committed_gate-files (path ∷ paths) = (files-uncommitted (path ∷ paths), ground arith, ground arith)
