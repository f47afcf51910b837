-- ===== src/Gates/Criteria/Verdict.antt =====
-- When the criteria gate passes, by the names and outcomes that the two suites report.
use saffron.Prelude.{
  ◌≡◌, refl, ◌≢◌, ◌↔◌, true, false, List, [], ◌∷◌, Option, none, some, arith, Text, elem_iff, All,
}
use saffron.Intake.{Criterion}
use saffron.Gates.Contract.{Failure, GateResult, pass}
use saffron.Gates.Criteria.{
  Side, side_of, green, judge, green_witnesses, witnesses_green_at_base, keep_failure,
  unmet_criteria, criteria_verdict, criteria_between, criteria_gate,
}
use saffron.Gates.Criteria.Sides.{IsGreen, IsReadable, Tells, side_of-Tells}

-- What a criterion asks of the two suites: its witness is green at head, and at base it is green
-- exactly if the criterion says that it preserves.
abbrev pub IsMet : List GateResult → List GateResult → Criterion → Type 0
IsMet base head criterion =
    IsGreen criterion.witness head
    × (criterion.preserves ≡ true → IsGreen criterion.witness base)
    × (criterion.preserves ≡ false → ¬ IsGreen criterion.witness base)

green_iff :
    (results : List GateResult) (side : Side) (witness : Text)
    → Tells results (some side)
    → (green side witness ≡ true) ↔ IsGreen witness results
unfolding green
green_iff results side witness (r, c, f) =
    ground
      (arith, elem_iff witness side.collected, elem_iff witness side.failed, c witness, f witness)

judge-none_iff :
    (before after : Side) (criterion : Criterion)
    → (judge criterion before after ≡ none) ↔ (
        (green after criterion.witness ≡ true)
        × (criterion.preserves ≡ true → green before criterion.witness ≡ true)
        × (criterion.preserves ≡ false → green before criterion.witness ≡ false))
unfolding judge
judge-none_iff before after criterion = ground arith

judge_iff :
    (base head : List GateResult) (before after : Side) (criterion : Criterion)
    → Tells base (some before)
    → Tells head (some after)
    → (judge criterion before after ≡ none) ↔ IsMet base head criterion
judge_iff base head before after criterion b h = ground (
  arith,
  judge-none_iff before after criterion,
  green_iff head after criterion.witness h,
  green_iff base before criterion.witness b,
)

unmet_criteria_iff :
    (base head : List GateResult) (before after : Side)
    → Tells base (some before)
    → Tells head (some after)
    → (acceptance : List Criterion)
    → (unmet_criteria acceptance before after ≡ []) ↔ All (IsMet base head) acceptance
unfolding unmet_criteria
unmet_criteria_iff base head before after b h [] = ((λ e. tt), (λ a. refl))
unmet_criteria_iff base head before after b h (criterion ∷ acceptance) =
    kept (judge criterion before after) (judge_iff base head before after criterion b h)
      (unmet_criteria_iff base head before after b h acceptance)
  where
    kept :
        {M R : Type 0} (failure : Option Failure) {rest : List Failure}
        → (failure ≡ none) ↔ M
        → (rest ≡ []) ↔ R
        → (keep_failure failure rest ≡ []) ↔ (M × R)
    kept none m r = ground arith
    kept (some failure) m r = ground arith

criteria_between-pass_iff :
    (base head : List GateResult) (acceptance : List Criterion) (before after : Option Side)
    → Tells base before
    → Tells head after
    → ((criteria_between acceptance before after).status ≡ pass)
      ↔ (IsReadable base × IsReadable head × All (IsMet base head) acceptance)
unfolding criteria_between
criteria_between-pass_iff base head acceptance none after b h = ground arith
criteria_between-pass_iff base head acceptance (some before) none b h = ground arith
criteria_between-pass_iff base head acceptance (some before) (some after) b h =
    let unmet_iff = unmet_criteria_iff base head before after b h acceptance in
    verdict (unmet_criteria acceptance before after) unmet_iff
  where
    verdict :
        (failures : List Failure)
        → (failures ≡ []) ↔ All (IsMet base head) acceptance
        → ((criteria_verdict acceptance failures).status ≡ pass)
          ↔ (IsReadable base × IsReadable head × All (IsMet base head) acceptance)
    verdict [] u = ground (arith, b.0, h.0)
    verdict (failure ∷ failures) u = ground arith

-- The criteria gate passes exactly if the spec declares criteria, both suites are readable (some
-- gate enumerated, and its failures, if any, are keyed on a collected name at least once), and
-- every criterion's witness is green at head and, at base, green if the criterion preserves and
-- not green if it does not.
pub criteria_gate-pass_iff :
    (acceptance : List Criterion) (base head : List GateResult)
    → ((criteria_gate acceptance base head).status ≡ pass)
      ↔ ((acceptance ≢ []) × IsReadable base × IsReadable head × All (IsMet base head) acceptance)
unfolding criteria_gate
criteria_gate-pass_iff [] base head = ground arith
criteria_gate-pass_iff (criterion ∷ acceptance) base head = ground (
  arith,
  criteria_between-pass_iff base head (criterion ∷ acceptance) (side_of base) (side_of head)
      (side_of-Tells base) (side_of-Tells head),
)

green_witnesses-nil :
    (base head : List GateResult) (before : Side)
    → Tells base (some before)
    → (acceptance : List Criterion) → All (IsMet base head) acceptance
    → green_witnesses acceptance (some before) ≡ []
unfolding green_witnesses
green_witnesses-nil base head before b [] met = refl
green_witnesses-nil base head before b (criterion ∷ acceptance) met = ground (
  arith,
  green_iff base before criterion.witness b,
  green_witnesses-nil base head before b acceptance met.1,
)

witnesses-nil :
    (base head : List GateResult) (acceptance : List Criterion) (before : Option Side)
    → Tells base before
    → All (IsMet base head) acceptance
    → green_witnesses acceptance before ≡ []
witnesses-nil base head acceptance none b met = unfold green_witnesses in refl
witnesses-nil base head acceptance (some before) b met =
    green_witnesses-nil base head before b acceptance met

-- If the baseline alone names a witness that is already green, then the criteria gate passes at no
-- head whatever.
pub witnesses_green_at_base-blocks :
    (acceptance : List Criterion) (base head : List GateResult)
    → witnesses_green_at_base acceptance base ≢ []
    → (criteria_gate acceptance base head).status ≢ pass
witnesses_green_at_base-blocks acceptance base head named passed =
    let (declared, b, h, met) = (criteria_gate-pass_iff acceptance base head).0 passed in
    named (
      unfold witnesses_green_at_base in
      witnesses-nil base head acceptance (side_of base) (side_of-Tells base) met)
