-- ===== src/Gates/Contract/Normal.antt =====
-- What `normalize_message` makes equal, and what it leaves alone.
use saffron.Prelude.{
  ℕ, ◌≡◌, refl, ◌≢◌, Bool, true, false, ◌&&◌, [], ◌∷◌, ◌++◌, arith, Text, All, is_empty, Bool-cases,
  if_cases, inl, inr,
}
use saffron.Gates.Contract.{
  CharClasses, collapse, lstrip, rstrip, normalize_message, identity, letter_n, space, ℤ,
}
use saffron.Prelude.{Option}

-- What is relied on in the Unicode tables: "N" is neither a digit nor white, and " " is white
-- and no digit.
pub record AreSeparate (classes : CharClasses) : Type 0 where
  pub n_digit : classes.is_digit letter_n ≡ false
  pub n_space : classes.is_space letter_n ≡ false
  pub space_space : classes.is_space space ≡ true
  pub space_digit : classes.is_digit space ≡ false

-- A run of one or more characters of the class.
abbrev pub IsRun : (ℕ → Bool) → Text → Type 0
IsRun test run = (run ≢ []) × All (λ c. test c ≡ true) run

module _ (test : ℕ → Bool) (by : ℕ) where
  collapse-inside :
      (run rest : Text)
      → All (λ c. test c ≡ true) run
      → collapse test by true (run ++ rest) ≡ collapse test by true rest
  unfolding collapse
  collapse-inside [] rest h = refl
  collapse-inside (c ∷ run) rest h = ground (arith, collapse-inside run rest h.1)

  collapse-run :
      (inside : Bool) (run other rest : Text)
      → IsRun test run
      → IsRun test other
      → collapse test by inside (run ++ rest) ≡ collapse test by inside (other ++ rest)
  unfolding collapse
  collapse-run inside [] other rest h k = absurd (h.0 refl)
  collapse-run inside (c ∷ run) [] rest h k = absurd (k.0 refl)
  collapse-run inside (c ∷ run) (d ∷ other) rest h k =
      ground (arith, collapse-inside run rest h.1.1, collapse-inside other rest k.1.1)

  collapse-append-run :
      (inside : Bool) (before run other rest : Text)
      → IsRun test run
      → IsRun test other
      → collapse test by inside (before ++ (run ++ rest))
        ≡ collapse test by inside (before ++ (other ++ rest))
  unfolding collapse
  collapse-append-run inside [] run other rest h k = collapse-run inside run other rest h k
  collapse-append-run inside (c ∷ before) run other rest h k =
      ground (arith, collapse-append-run (test c) before run other rest h k)

  -- A text with nothing of the class stays as it is.
  collapse-absent :
      (inside : Bool) (s : Text) → All (λ c. test c ≡ false) s → collapse test by inside s ≡ s
  unfolding collapse
  collapse-absent inside [] h = refl
  collapse-absent inside (c ∷ s) h = ground (arith, collapse-absent (test c) s h.1)

  collapse-removes :
      (inside : Bool) (s : Text)
      → test by ≡ false
      → All (λ c. test c ≡ false) (collapse test by inside s)
  unfolding collapse
  collapse-removes inside [] h = tt
  collapse-removes inside (c ∷ s) h = ground (arith, collapse-removes (test c) s h)

  collapse-keeps :
      (other : ℕ → Bool) (inside : Bool) (s : Text)
      → other by ≡ false
      → All (λ c. other c ≡ false) s
      → All (λ c. other c ≡ false) (collapse test by inside s)
  unfolding collapse
  collapse-keeps other inside [] h k = tt
  collapse-keeps other inside (c ∷ s) h k = ground (arith, collapse-keeps other (test c) s h k.1)

  -- Every character of the class is `by`, and stands alone.
  abbrev IsSingle : Bool → Text → Type 0
  IsSingle inside [] = Unit
  IsSingle inside (c ∷ s) = (test c ≡ true → (c ≡ by) × (inside ≡ false)) × IsSingle (test c) s

  collapse-IsSingle :
      (inside : Bool) (s : Text) → test by ≡ true → IsSingle inside (collapse test by inside s)
  unfolding collapse
  collapse-IsSingle inside [] h = tt
  collapse-IsSingle inside (c ∷ s) h = elim (Bool-cases (test c)) [
    | inl e ↦ elim (Bool-cases inside) [
      | inl i ↦ rw (e, i) (rw e at (collapse-IsSingle (test c) s h))
      | inr i ↦ rw (e, i, h) ((λ _. (refl, refl)), (rw e at (collapse-IsSingle (test c) s h)))
    ]
    | inr e ↦ rw e (
        rw e (
          (λ (k : false ≡ true). absurd (ground arith)),
          (rw e at (collapse-IsSingle (test c) s h)),
        ))
  ]

  collapse_single : (inside : Bool) (s : Text) → IsSingle inside s → collapse test by inside s ≡ s
  unfolding collapse
  collapse_single inside [] h = refl
  collapse_single inside (c ∷ s) h = ground (arith, collapse_single (test c) s h.1, h.0)

  IsSingle-weaken : (inside : Bool) (s : Text) → IsSingle inside s → IsSingle false s
  IsSingle-weaken inside [] h = tt
  IsSingle-weaken inside (c ∷ s) h = ((λ e. ((h.0 e).0, refl)), h.1)

  lstrip-IsSingle : (s : Text) → IsSingle false s → IsSingle false (lstrip test s)
  unfolding lstrip
  lstrip-IsSingle [] h = tt
  lstrip-IsSingle (c ∷ s) h =
      if_cases (IsSingle false) (test c) (lstrip test s) (c ∷ s)
        (λ _. lstrip-IsSingle s (IsSingle-weaken (test c) s h.1)) (λ _. h)

  rstrip-IsSingle : (inside : Bool) (s : Text) → IsSingle inside s → IsSingle inside (rstrip test s)
  unfolding rstrip
  rstrip-IsSingle inside [] h = tt
  rstrip-IsSingle inside (c ∷ s) h =
      if_cases (IsSingle inside) (is_empty (rstrip test s) && test c) [] (c ∷ rstrip test s)
        (λ _. tt) (λ _. (h.0, rstrip-IsSingle (test c) s h.1))

  lstrip-All : (P : ℕ → Type 0) (s : Text) → All P s → All P (lstrip test s)
  unfolding lstrip
  lstrip-All P [] h = tt
  lstrip-All P (c ∷ s) h =
      if_cases (All P) (test c) (lstrip test s) (c ∷ s) (λ _. lstrip-All P s h.1) (λ _. h)

  rstrip-All : (P : ℕ → Type 0) (s : Text) → All P s → All P (rstrip test s)
  unfolding rstrip
  rstrip-All P [] h = tt
  rstrip-All P (c ∷ s) h =
      if_cases (All P) (is_empty (rstrip test s) && test c) [] (c ∷ rstrip test s) (λ _. tt)
        (λ _. (h.0, rstrip-All P s h.1))

module _ (test : ℕ → Bool) where
  -- The first character is not of the class.
  abbrev IsBare : Text → Type 0
  IsBare [] = Unit
  IsBare (c ∷ s) = test c ≡ false

  lstrip-IsBare : (s : Text) → IsBare (lstrip test s)
  unfolding lstrip
  lstrip-IsBare [] = tt
  lstrip-IsBare (c ∷ s) =
      if_cases IsBare (test c) (lstrip test s) (c ∷ s) (λ _. lstrip-IsBare s) (λ e. e)

  lstrip_bare : (s : Text) → IsBare s → lstrip test s ≡ s
  unfolding lstrip
  lstrip_bare [] h = refl
  lstrip_bare (c ∷ s) h = rw h

  rstrip-IsBare : (s : Text) → IsBare s → IsBare (rstrip test s)
  unfolding rstrip
  rstrip-IsBare [] h = tt
  rstrip-IsBare (c ∷ s) h =
      if_cases IsBare (is_empty (rstrip test s) && test c) [] (c ∷ rstrip test s) (λ _. tt) (λ _. h)

  rstrip_idem : (s : Text) → rstrip test (rstrip test s) ≡ rstrip test s
  unfolding rstrip
  rstrip_idem [] = refl
  rstrip_idem (c ∷ s) = ground (arith, rstrip_idem s)

module _ (classes : CharClasses) where
  open classes use {is_digit, is_space}

  -- Normalising twice is normalising once, if the classes keep "N" and " " apart.
  pub normalize_message_idem :
      (message : Text)
      → AreSeparate classes
      → normalize_message classes (normalize_message classes message)
        ≡ normalize_message classes message
  unfolding normalize_message
  normalize_message_idem message sep =
      let digits = collapse is_digit letter_n false message in
      let spaces = collapse is_space space false digits in
      let left = lstrip is_space spaces in
      let right = rstrip is_space left in
      let clean =
        rstrip-All is_space 0 (λ c. is_digit c ≡ false) left
          (lstrip-All is_space 0 (λ c. is_digit c ≡ false) spaces
            (collapse-keeps is_space space is_digit false digits sep.space_digit
              (collapse-removes is_digit letter_n false message sep.n_digit))) in
      let single = rstrip-IsSingle is_space space false left (
        lstrip-IsSingle is_space space spaces
          (collapse-IsSingle is_space space false digits sep.space_space)) in
      let bare = rstrip-IsBare is_space left (lstrip-IsBare is_space spaces) in
      rw (
        collapse-absent is_digit letter_n false right clean,
        collapse_single is_space space false right single,
        lstrip_bare is_space right bare,
        rstrip_idem is_space left,
      )

  -- Two messages that differ in one run of digits have the same normal form, and so the failures
  -- that carry them have one identity, on whatever lines they were reported.
  pub identity-shift :
      (gate file code before run other rest : Text) (line line' : Option ℤ)
      → IsRun is_digit run
      → IsRun is_digit other
      → identity classes gate
          (record { file = file; line = line; code = code; message = before ++ (run ++ rest) })
        ≡ identity classes gate
            (record { file = file; line = line'; code = code; message = before ++ (other ++ rest) })
  unfolding identity normalize_message
  identity-shift gate file code before run other rest line line' h k =
      rw (collapse-append-run is_digit letter_n false before run other rest h k)
