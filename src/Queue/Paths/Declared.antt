-- ===== src/Queue/Paths/Declared.antt =====
-- What the refusals over paths ask of a spec's `touches` and `forbidden`.
use saffron.Prelude.{
  ◌≡◌, refl, ◌≢◌, ◌↔◌, ◌⊎◌, true, false, List, [], ◌∷◌, none, arith, Text, codes, same_iff, Elem,
  elem_iff, any, any_iff, Any, All, is_empty_iff, split_on,
}
use saffron.Intake.{Spec}
use saffron.Gates.Glob.{matches}
use saffron.Gates.Contract.{CharClasses}
use saffron.Queue.Paths.{
  Marker, is_covered, unmatched_token, unmatched_text, unmatched_criterion_path, path_tokens,
  criteria_texts, claude_refusal, entry_refusal, listed_refusal, protected_touch_refusal,
  retirement_refusal, is_glob_char,
}

-- Some pattern of the list matches the path.
abbrev pub Covers : List Text → Text → Type 0
Covers patterns path = Any (λ pattern. matches path pattern ≡ true) patterns

pub is_covered_iff :
    (path : Text) (patterns : List Text) → (is_covered path patterns ≡ true) ↔ Covers patterns path
is_covered_iff path patterns =
    any_iff (matches path) (λ pattern. matches path pattern ≡ true)
      (λ pattern. ((λ h. h), (λ h. h))) patterns

unmatched_token-none_iff :
    (spec : Spec) (tokens : List Text)
    → (unmatched_token spec tokens ≡ none)
      ↔ All (λ token. Covers spec.forbidden token ⊎ Covers spec.touches token) tokens
unfolding unmatched_token
unmatched_token-none_iff spec [] = ground arith
unmatched_token-none_iff spec (token ∷ tokens) = ground (
  arith,
  unmatched_token-none_iff spec tokens,
  is_covered_iff token spec.forbidden,
  is_covered_iff token spec.touches,
)

abbrev pub AreMet : CharClasses → Spec → Text → Type 0
AreMet classes spec text =
    All (λ token. Covers spec.forbidden token ⊎ Covers spec.touches token)
      (path_tokens classes text)

unmatched_text-none_iff :
    (classes : CharClasses) (spec : Spec) (texts : List Text)
    → (unmatched_text classes spec texts ≡ none) ↔ All (AreMet classes spec) texts
unfolding unmatched_text
unmatched_text-none_iff classes spec [] = ground arith
unmatched_text-none_iff classes spec (text ∷ texts) = ground (
  arith,
  unmatched_text-none_iff classes spec texts,
  unmatched_token-none_iff spec (path_tokens classes text),
)

-- `_unmatched_criterion_path` names no path exactly if the spec touches nothing, or each path token
-- of each criterion is covered by a pattern of `touches` or of `forbidden`.
pub unmatched_criterion_path-none_iff :
    (classes : CharClasses) (spec : Spec)
    → (unmatched_criterion_path classes spec ≡ none)
      ↔ ((spec.touches ≡ []) ⊎ All (AreMet classes spec) (criteria_texts spec))
unfolding unmatched_criterion_path
unmatched_criterion_path-none_iff classes spec =
    ground
      (arith, is_empty_iff spec.touches, unmatched_text-none_iff classes spec (criteria_texts spec))

-- A protected entry is undecided where it is itself a glob.
abbrev pub LeavesAlone : List Text → List Text → Text → Type 0
LeavesAlone touches forbidden entry =
    (any is_glob_char entry ≡ true)
    ⊎ All
        (λ pattern. (matches entry pattern ≡ false) ⊎ ((pattern ≢ entry) × Covers forbidden entry))
        touches

module _ (repr : Text → Text) where
  claude_refusal-none_iff :
      (touches : List Text)
      → (claude_refusal repr touches ≡ none)
        ↔ All (λ entry. ¬ Elem (codes ".claude") (split_on b'/' entry)) touches
  unfolding claude_refusal
  claude_refusal-none_iff [] = ground arith
  claude_refusal-none_iff (entry ∷ touches) =
      ground
        (arith, claude_refusal-none_iff touches, elem_iff (codes ".claude") (split_on b'/' entry))

  entry_refusal-none_iff :
      (entry : Text) (forbidden touches : List Text)
      → (entry_refusal repr entry forbidden touches ≡ none)
        ↔ All
            (λ pattern.
              (matches entry pattern ≡ false) ⊎ ((pattern ≢ entry) × Covers forbidden entry))
            touches
  unfolding entry_refusal
  entry_refusal-none_iff entry forbidden [] = ground arith
  entry_refusal-none_iff entry forbidden (pattern ∷ touches) = ground (
    arith,
    entry_refusal-none_iff entry forbidden touches,
    is_covered_iff entry forbidden,
    same_iff pattern entry,
  )

  listed_refusal-none_iff :
      (touches forbidden protected : List Text)
      → (listed_refusal repr touches forbidden protected ≡ none)
        ↔ All (LeavesAlone touches forbidden) protected
  unfolding listed_refusal
  listed_refusal-none_iff touches forbidden [] = ground arith
  listed_refusal-none_iff touches forbidden (entry ∷ protected) = ground (
    arith,
    listed_refusal-none_iff touches forbidden protected,
    entry_refusal-none_iff entry forbidden touches,
  )

  -- `protected_touch_refusal` gives no reason exactly if no entry of `touches` has a component
  -- `.claude`, and no pattern of `touches` matches a protected literal path, but a pattern other than
  -- that path where `forbidden` covers it.
  pub protected_touch_refusal-none_iff :
      (touches protected forbidden : List Text)
      → (protected_touch_refusal repr touches protected forbidden ≡ none) ↔ (
          All (λ entry. ¬ Elem (codes ".claude") (split_on b'/' entry)) touches
          × All (LeavesAlone touches forbidden) protected)
  unfolding protected_touch_refusal
  protected_touch_refusal-none_iff touches protected forbidden =
      ground (
        arith,
        claude_refusal-none_iff touches,
        listed_refusal-none_iff touches forbidden protected,
      )

-- A marker of this spec lies where the spec may go, and where it says it goes.
abbrev pub IsReached : Spec → Marker → Type 0
IsReached spec (path, marker_spec_id) =
    marker_spec_id ≡ spec.id
    → (¬ Covers spec.forbidden path) × ((spec.touches ≡ []) ⊎ Covers spec.touches path)

IsReached-cons :
    (spec : Spec) (path marker_spec_id : Text) (markers : List Marker)
    → (retirement_refusal spec ((path, marker_spec_id) ∷ markers) ≡ none)
      ↔ (IsReached spec (path, marker_spec_id) × (retirement_refusal spec markers ≡ none))
unfolding retirement_refusal
IsReached-cons spec path marker_spec_id markers = ground (
  arith,
  same_iff marker_spec_id spec.id,
  is_covered_iff path spec.forbidden,
  is_covered_iff path spec.touches,
  is_empty_iff spec.touches,
)

-- `retirement_refusal` gives no reason exactly if `forbidden` covers the path of no marker of the
-- spec and, unless `touches` is empty, `touches` covers each.
pub retirement_refusal-none_iff :
    (spec : Spec) (markers : List Marker)
    → (retirement_refusal spec markers ≡ none) ↔ All (IsReached spec) markers
retirement_refusal-none_iff spec [] = ((λ h. tt), (λ h. unfold retirement_refusal in refl))
retirement_refusal-none_iff spec ((path, marker_spec_id) ∷ markers) =
    let first = IsReached-cons spec path marker_spec_id markers in
    let later = retirement_refusal-none_iff spec markers in
    ((λ h. ((first.0 h).0, later.0 (first.0 h).1)), (λ h. first.1 (h.0, later.1 h.1)))
