-- ===== src/Gates/Baseline/Counts.antt =====
-- The subtraction and the no-progress rule, by the count of each identity.
use saffron.Prelude.{
  ◌+◌, ◌-◌, ◌≡◌, refl, ap, sym, ◌↔◌, inl, inr, Bool, true, ◌&&◌, List, [], ◌∷◌, ◌++◌, arith, codes,
  same, same_iff, all, filter, All, all_iff, Bool-cases, if_cases, ==_iff, ◌≢◌, ◌==◌, if◌then◌else◌,
}
use mathlib.Core.List.{Sublistᴰ}
use native.Mathlib.Decide.{ℕ_discrete}
use saffron.Gates.Contract.{CharClasses, GateResult, Identity, identity, same_identity}
use saffron.Gates.Baseline.{
  NewFailure, all_failures, cancels, Counter, key_of, counter, take_one, cancelling, subtract_from,
  subtract_baseline, is_no_progress,
}

pub same_identity_iff : (a b : Identity) → (same_identity a b ≡ true) ↔ (a ≡ b)
unfolding same_identity
same_identity_iff a b = ground (
  arith,
  same_iff a.gate b.gate,
  same_iff a.file b.file,
  same_iff a.code b.code,
  same_iff a.message b.message,
)

-- The identity of a mutant that its witness survived.
abbrev pub is_survivor : Identity → Bool
is_survivor key = same key.gate (codes "witness") && same key.code (codes "survived-mutant")

module _ (classes : CharClasses) where
  counter-subtract_from :
      (news : List NewFailure) (remaining : Counter) (key : Identity)
      → counter classes (subtract_from classes news remaining) key
        ≡ counter classes news key - remaining key
  unfolding counter subtract_from take_one
  counter-subtract_from [] remaining key = omega arith
  counter-subtract_from (new ∷ rest) remaining key =
      let k = key_of classes new in
      elim (Bool-cases (same_identity k key)) [
        | inl e ↦
            let same_key = (same_identity_iff k key).0 e in
            ground (
              arith,
              ap remaining same_key,
              counter-subtract_from rest remaining key,
              counter-subtract_from rest (take_one remaining k) key,
            )
        | inr e ↦ ground (
          arith,
          counter-subtract_from rest remaining key,
          counter-subtract_from rest (take_one remaining k) key,
        )
      ]

  counter-cancelling :
      (news : List NewFailure) (key : Identity)
      → counter classes (filter (λ new. cancels new.gate new.failure) news) key
        ≡ (if is_survivor key then 0 else counter classes news key)
  unfolding counter cancels
  counter-cancelling [] key = ground arith
  counter-cancelling (new ∷ rest) key =
      let k = key_of classes new in
      let survivor =
        same new.gate (codes "witness") && same new.failure.code (codes "survived-mutant") in
      elim (Bool-cases (same_identity k key)) [
        | inl e ↦
            let agree : is_survivor key ≡ survivor =
              unfold identity in ap is_survivor (sym ((same_identity_iff k key).0 e)) in
            ground (arith, agree, counter-cancelling rest key)
        | inr e ↦ ground (arith, counter-cancelling rest key)
      ]

  -- The subtraction, by the number of failures of each identity (gate, file, code, normalised
  -- message; never the line): as many of head's are left as head has more than the baseline, and
  -- all of head's if the identity is that of a witness's survived mutant.
  pub counter-subtract_baseline :
      (head base : List GateResult) (key : Identity)
      → counter classes (subtract_baseline classes head base) key
        ≡ counter classes (all_failures head) key
          - (if is_survivor key then 0 else counter classes (all_failures base) key)
  unfolding subtract_baseline cancelling
  counter-subtract_baseline head base key = rw counter-subtract_from (rw counter-cancelling)

  subtract_from-Sublist :
      (news : List NewFailure) (remaining : Counter)
      → Sublistᴰ (subtract_from classes news remaining) news
  unfolding subtract_from
  subtract_from-Sublist [] remaining = Sublistᴰ.slnil
  subtract_from-Sublist (new ∷ rest) remaining =
      if_cases (λ l. Sublistᴰ l (new ∷ rest)) (remaining (key_of classes new) == 0)
        (new ∷ subtract_from classes rest remaining)
        (subtract_from classes rest (take_one remaining (key_of classes new)))
        (λ _. Sublistᴰ.cons-cons refl (subtract_from-Sublist rest remaining))
        (λ _. Sublistᴰ.cons (subtract_from-Sublist rest (take_one remaining (key_of classes new))))

  -- The subtraction reports failures of head only, whole, in head's order, and none twice.
  pub subtract_baseline-Sublist :
      (head base : List GateResult)
      → Sublistᴰ (subtract_baseline classes head base) (all_failures head)
  unfolding subtract_baseline
  subtract_baseline-Sublist head base =
      subtract_from-Sublist (all_failures head) (cancelling classes base)

  agree_iff :
      (current previous news : List NewFailure)
      → (all
            (λ new.
              counter classes current (key_of classes new)
              == counter classes previous (key_of classes new))
            news
          ≡ true)
        ↔ All
            (λ new.
              counter classes current (key_of classes new)
              ≡ counter classes previous (key_of classes new))
            news
  agree_iff current previous = all_iff _ _ (λ new. ==_iff _ _)

  -- Agreement at the keys of a list is agreement at every key that the list counts.
  agree_at :
      (f g : Counter) (news : List NewFailure) (key : Identity)
      → All (λ new. f (key_of classes new) ≡ g (key_of classes new)) news
      → counter classes news key ≢ 0
      → f key ≡ g key
  unfolding counter
  agree_at f g [] key h k = absurd (k refl)
  agree_at f g (new ∷ rest) key h k = elim (Bool-cases (same_identity (key_of classes new) key)) [
    | inl e ↦ let same_key = (same_identity_iff (key_of classes new) key).0 e in rw (← same_key) h.0
    | inr e ↦ agree_at f g rest key h.1 (rw e at k)
  ]

  counter-append :
      (xs ys : List NewFailure) (key : Identity)
      → counter classes (xs ++ ys) key ≡ counter classes xs key + counter classes ys key
  unfolding counter
  counter-append [] ys key = omega arith
  counter-append (new ∷ xs) ys key = ground (arith, counter-append xs ys key)

  All-everywhere :
      {P : NewFailure → Type 0}
      → ((new : NewFailure) → P new)
      → (news : List NewFailure) → All P news
  All-everywhere f [] = tt
  All-everywhere f (new ∷ news) = (f new, All-everywhere f news)

  -- An attempt made no progress exactly if it has as many failures of each identity as the last.
  pub is_no_progress_iff :
      (current previous : List NewFailure)
      → (is_no_progress classes current previous ≡ true)
        ↔ ((key : Identity) → counter classes current key ≡ counter classes previous key)
  unfolding is_no_progress
  is_no_progress_iff current previous = (
    (λ h key.
        let agree = (agree_iff current previous (current ++ previous)).0 h in
        elim (ℕ_discrete (counter classes (current ++ previous) key) 0) [
          | yes e ↦ omega (arith, counter-append current previous key)
          | no n ↦
              agree_at (counter classes current) (counter classes previous) (current ++ previous)
                key agree n
        ]),
    (λ h.
        (agree_iff current previous (current ++ previous)).1
          (All-everywhere (λ new. h (key_of classes new)) (current ++ previous))),
  )
