-- ===== src/Gates/Criteria/Sides.antt =====
-- What one suite says of each name: collected, failed, green.
use saffron.Prelude.{
  ◌≡◌, refl, ◌≢◌, ◌↔◌, ◌⊎◌, inl, inr, subst, true, false, List, [], ◌∷◌, Option, none, some, arith,
  Text, elem, Elem, elem_iff, Elem-append, Any, any, any_iff, is_empty, Bool-cases,
}
use saffron.Gates.Contract.{Failure, GateResult}
use saffron.Gates.Census.Verdict.{Lists, IsCollected, Enumerates}
use saffron.Gates.Criteria.{Side, failure_codes, add_side, enumerated, check_keys, side_of}

-- An enumerating gate of the suite reports a failure with the code.
abbrev pub IsFailed : Text → List GateResult → Type 0
IsFailed code results =
    Any
      (λ result.
        (result.collected ≢ none)
        × Any (λ (failure : Failure). code ≡ failure.code) result.failures)
      results

-- The suite ran the witness, and it did not fail.
abbrev pub IsGreen : Text → List GateResult → Type 0
IsGreen witness results = IsCollected witness results × (¬ IsFailed witness results)

-- Some gate enumerated, and if the enumerating gates report failures then the code of one of them
-- is an enumerated name.
abbrev pub IsReadable : List GateResult → Type 0
IsReadable results =
    Enumerates results
    × ((code : Text)
        → IsFailed code results
        → (name : Text) × IsFailed name results × IsCollected name results)

Elem-codes :
    (code : Text) (failures : List Failure)
    → Elem code (failure_codes failures) ↔ Any (λ (failure : Failure). code ≡ failure.code) failures
unfolding failure_codes
Elem-codes code [] = ground arith
Elem-codes code (failure ∷ failures) = ground (arith, Elem-codes code failures)

-- What a side says, where `E` is that there is an enumeration, `C` which names it holds and `F`
-- which codes.
abbrev Says : Type 0 → (Text → Type 0) → (Text → Type 0) → Option Side → Type 0
Says E C F none = (¬ E) × ((name : Text) → ¬ C name) × ((code : Text) → ¬ F code)
Says E C F (some side) =
    E
    × ((name : Text) → Elem name side.collected ↔ C name)
    × ((code : Text) → Elem code side.failed ↔ F code)

add_side-Says :
    (E : Type 0) (C F : Text → Type 0) (names : Option (List Text)) (failures : List Failure)
    (side : Option Side)
    → Says E C F side
    → Says
        ((names ≢ none) ⊎ E)
        (λ name. Lists name names ⊎ C name)
        (λ code.
          (names ≢ none) × Any (λ (failure : Failure). code ≡ failure.code) failures ⊎ F code)
        (add_side names (failure_codes failures) side)
unfolding add_side
add_side-Says E C F none failures none (e, c, f) =
    (ground arith, (λ name. ground (arith, c name)), (λ code. ground (arith, f code)))
add_side-Says E C F none failures (some side) (e, c, f) =
    (inr e, (λ name. ground (arith, c name)), (λ code. ground (arith, f code)))
add_side-Says E C F (some names) failures none (e, c, f) = (
  ground arith,
  (λ name. ground (arith, c name)),
  (λ code. ground (arith, f code, Elem-codes code failures)),
)
add_side-Says E C F (some names) failures (some side) (e, c, f) = (
  ground arith,
  (λ name. ground (arith, c name, Elem-append name names side.collected)),
  (λ code. ground (
    arith,
    f code,
    Elem-append code (failure_codes failures) side.failed,
    Elem-codes code failures,
  )),
)

abbrev Reports : List GateResult → Option Side → Type 0
Reports results =
    Says (Enumerates results) (λ name. IsCollected name results) (λ code. IsFailed code results)

enumerated-Reports : (results : List GateResult) → Reports results (enumerated results)
unfolding enumerated
enumerated-Reports [] = ((λ h. h), (λ name h. h), (λ code h. h))
enumerated-Reports (result ∷ results) =
    add_side-Says (Enumerates results) (λ name. IsCollected name results)
      (λ code. IsFailed code results) result.collected result.failures (enumerated results)
      (enumerated-Reports results)

Any_witness :
    (P : Text → Type 0) (names : List Text) → Any P names → (name : Text) × Elem name names × P name
Any_witness P [] h = elim h [ ]
Any_witness P (name ∷ names) (inl h) = (name, inl refl, h)
Any_witness P (name ∷ names) (inr h) =
    let (other, m, p) = Any_witness P names h in (other, inr m, p)

Any-intro :
    (P : Text → Type 0) (name : Text) (names : List Text) → Elem name names → P name → Any P names
Any-intro P name [] m p = elim m [ ]
Any-intro P name (other ∷ names) (inl e) p = inl (subst P e p)
Any-intro P name (other ∷ names) (inr m) p = inr (Any-intro P name names m p)

-- What the readable side of a suite says.
abbrev pub Tells : List GateResult → Option Side → Type 0
Tells results none = ¬ IsReadable results
Tells results (some side) =
    IsReadable results
    × ((name : Text) → Elem name side.collected ↔ IsCollected name results)
    × ((code : Text) → Elem code side.failed ↔ IsFailed code results)

keyed_iff :
    (side : Side)
    → (any (λ code. elem code side.collected) side.failed ≡ true)
      ↔ Any (λ code. Elem code side.collected) side.failed
keyed_iff side =
    any_iff (λ code. elem code side.collected) (λ code. Elem code side.collected)
      (λ code. elem_iff code side.collected) side.failed

empty_no-Elem : (names : List Text) → is_empty names ≡ true → (name : Text) → ¬ Elem name names
empty_no-Elem [] h name m = m
empty_no-Elem (x ∷ names) h name m = cc

nonempty-Elem : (names : List Text) → is_empty names ≡ false → (name : Text) × Elem name names
nonempty-Elem [] h = absurd (ground arith)
nonempty-Elem (x ∷ names) h = (x, inl refl)

check_keys-Tells :
    (results : List GateResult) (side : Option Side)
    → Reports results side
    → Tells results (check_keys side)
unfolding check_keys
check_keys-Tells results none h = λ r. h.0 r.0
check_keys-Tells results (some side) (e, c, f) =
    let keyed = any (λ code. elem code side.collected) side.failed in
    elim (Bool-cases (is_empty side.failed)) [
      | inl empty ↦
          rw empty
            ((e, (λ code h. absurd (empty_no-Elem side.failed empty code ((f code).1 h)))), c, f)
      | inr full ↦ elim (Bool-cases keyed) [
        | inl k ↦
            let (name, m, n) =
              Any_witness (λ code. Elem code side.collected) side.failed ((keyed_iff side).0 k) in
            rw (full, k) ((e, (λ code h. (name, (f name).0 m, (c name).0 n))), c, f)
        | inr k ↦
            let (code, m) = nonempty-Elem side.failed full in
            rw (full, k)
              λ r.
                let (name, g, n) = r.1 code ((f code).0 m) in
                let found =
                  Any-intro (λ code. Elem code side.collected) name side.failed ((f name).1 g)
                    ((c name).1 n) in
                absurd (ground (arith, keyed_iff side))
      ]
    ]

pub side_of-Tells : (results : List GateResult) → Tells results (side_of results)
unfolding side_of
side_of-Tells results = check_keys-Tells results (enumerated results) (enumerated-Reports results)
