-- ===== src/Queue/Paths.antt =====
-- The refusals of saffron/scheduler.py that read paths: `_criteria_texts`, `_path_tokens`,
-- `_unmatched_criterion_path`, `protected_touch_refusal`, `retirement_refusal` and
-- `_dangling_marker_refusals`. The whitespace and digits of `re` and `str.split` and Python's `repr`
-- are parameters.
pub mod Declared
use saffron.Prelude.{
  ℕ, Bool, true, false, not, ◌&&◌, ◌||◌, List, [], ◌∷◌, ◌++◌, map, Option, none, some, Text, codes,
  same, elem, filter, any, is_empty, join, decimal, split_on, ltb, ◌==◌, if◌then◌else◌,
}
use saffron.Intake.{Spec, Criterion}
use saffron.Gates.Glob.{matches}
use saffron.Gates.Contract.{CharClasses, ends_with}
use saffron.Gates.Size.{split_words}
use saffron.Queue.Rows.{Refusal, RefusalKind, retirement_marker}

-- `xs or ys`
abbrev pub or_list {ℓ} : {A : Type ℓ} → List A → List A → List A
or_list [] ys = ys
or_list (x ∷ xs) ys = x ∷ xs

-- `_criteria_texts`
unfoldable pub criteria_texts : Spec → List Text
criteria_texts spec =
    or_list (map (λ (c : Criterion). c.claim) spec.acceptance) spec.acceptance_criteria

-- `_BACKTICKED.findall(text)`, outside a span or within what may become one: a line feed ends the
-- attempt, and a second backtick in a row begins another.
unfoldable pub backticked : Option Text → Text → List Text
backticked within [] = []
backticked none (c ∷ s) = backticked (if c == b'`' then some [] else none) s
backticked (some span) (c ∷ s) =
    let closed = span ∷ backticked none s in
    let reopened = backticked (some []) s in
    let onward = backticked (if c == 10 then none else some (span ++ c ∷ [])) s in
    if c == b'`' then (if is_empty span then reopened else closed) else onward

-- `_LINE_SUFFIX`, character by character: what comes next, and whether the text may end here.
pub data SuffixState : Type 0 where
  colon first_digit digits dash_digit second_digits : SuffixState

abbrev pub suffix_step : (ℕ → Bool) → SuffixState → ℕ → Option SuffixState
suffix_step is_digit colon c = if c == b':' then some first_digit else none
suffix_step is_digit first_digit c = if is_digit c then some digits else none
suffix_step is_digit digits c =
    if c == b':'
    then some first_digit
    else if c == b'-'
    then some dash_digit
    else if is_digit c
    then some digits
    else none
suffix_step is_digit dash_digit c = if is_digit c then some second_digits else none
suffix_step is_digit second_digits c =
    if c == b':' then some first_digit else if is_digit c then some second_digits else none

abbrev pub may_end : SuffixState → Bool
may_end digits = true
may_end second_digits = true
may_end _ = false

unfoldable pub is_suffix_from : (ℕ → Bool) → SuffixState → Text → Bool
is_suffix_from is_digit state [] = may_end state
is_suffix_from is_digit state (c ∷ s) = elim (suffix_step is_digit state c) [
  | none ↦ false
  | some next ↦ is_suffix_from is_digit next s
]

-- `_LINE_SUFFIX.sub("", word)`, for a word without a line feed: up to the first place whose rest is
-- one suffix.
unfoldable pub strip_line_suffix : (ℕ → Bool) → Text → Text
unfolding is_suffix_from
strip_line_suffix is_digit [] = []
strip_line_suffix is_digit (c ∷ s) =
    let rest = strip_line_suffix is_digit s in
    if is_suffix_from is_digit colon (c ∷ s) then [] else c ∷ rest

abbrev pub is_glob_char : ℕ → Bool
is_glob_char c = c == b'*' || (c == b'?' || c == b'[')

abbrev pub is_slash : ℕ → Bool
is_slash c = c == b'/'

-- The two tests that keep a word.
unfoldable pub is_path_token : Text → Bool
unfolding ends_with
is_path_token word = (any is_slash word && not (ends_with b'/' word)) && not (any is_glob_char word)

unfoldable pub span_tokens : CharClasses → List Text → List Text
unfolding strip_line_suffix split_words is_path_token
span_tokens classes [] = []
span_tokens classes (span ∷ spans) =
    filter is_path_token
      (map (strip_line_suffix classes.is_digit) (split_words classes.is_space span))
    ++ span_tokens classes spans

-- `_path_tokens`
unfoldable pub path_tokens : CharClasses → Text → List Text
unfolding backticked span_tokens
path_tokens classes text = span_tokens classes (backticked none text)

abbrev pub is_covered : Text → List Text → Bool
is_covered path patterns = any (matches path) patterns

-- The loop over one text's tokens, and the loop over the texts.
unfoldable pub unmatched_token : Spec → List Text → Option Text
unmatched_token spec [] = none
unmatched_token spec (token ∷ tokens) =
    let rest = unmatched_token spec tokens in
    if is_covered token spec.forbidden
    then rest
    else if is_covered token spec.touches
    then rest
    else some token

unfoldable pub unmatched_text : CharClasses → Spec → List Text → Option Text
unfolding unmatched_token
unmatched_text classes spec [] = none
unmatched_text classes spec (text ∷ texts) =
    elim (unmatched_token spec (path_tokens classes text)) [
      | some token ↦ some token
      | none ↦ unmatched_text classes spec texts
    ]

-- `_unmatched_criterion_path`
unfoldable pub unmatched_criterion_path : CharClasses → Spec → Option Text
unfolding unmatched_text criteria_texts
unmatched_criterion_path classes spec =
    if is_empty spec.touches then none else unmatched_text classes spec (criteria_texts spec)

module _ (repr : Text → Text) where
  -- The loop of `protected_touch_refusal` over `touches` for the component `.claude`.
  unfoldable pub claude_refusal : List Text → Option Text
  claude_refusal [] = none
  claude_refusal (entry ∷ touches) =
      let reason =
        codes "touches entry "
        ++ repr entry
        ++ codes
            " holds .claude, which the cell agent's own file tools refuse to write under (backlog item b-e471bd) — the work lands by hand" in
      let rest = claude_refusal touches in
      if elem (codes ".claude") (split_on b'/' entry) then some reason else rest

  unfoldable pub protected_reason : Text → Text → Text
  protected_reason entry pattern =
      (if same pattern entry
        then codes "touches names " ++ repr entry
        else codes "touches pattern " ++ (repr pattern ++ (codes " covers " ++ repr entry)))
      ++ codes
          ", which policy.yaml's protected list denies for every spec in this repo — not this spec's own forbidden list"

  -- The inner loop, over the patterns of `touches`, for one literal entry.
  unfoldable pub entry_refusal : Text → List Text → List Text → Option Text
  unfolding protected_reason
  entry_refusal entry forbidden [] = none
  entry_refusal entry forbidden (pattern ∷ touches) =
      let rest = entry_refusal entry forbidden touches in
      if not (matches entry pattern)
      then rest
      else if not (same pattern entry) && is_covered entry forbidden
      then rest
      else some (protected_reason entry pattern)

  unfoldable pub listed_refusal : List Text → List Text → List Text → Option Text
  unfolding entry_refusal
  listed_refusal touches forbidden [] = none
  listed_refusal touches forbidden (entry ∷ protected) =
      let rest = listed_refusal touches forbidden protected in
      let own : Option Text = elim (entry_refusal entry forbidden touches) [
        | some reason ↦ some reason
        | none ↦ rest
      ] in
      if any is_glob_char entry then rest else own

  unfoldable pub protected_touch_refusal : List Text → List Text → List Text → Option Text
  unfolding claude_refusal listed_refusal
  protected_touch_refusal touches protected forbidden = elim (claude_refusal touches) [
    | some reason ↦ some reason
    | none ↦ listed_refusal touches forbidden protected
  ]

-- A marker `(path, spec_id)`, that `mirror.retirement_markers` found.
abbrev pub Marker : Type 0
Marker = Text × Text

abbrev pub comma : Text
comma = codes ", "

unfoldable pub retirement_refusal : Spec → List Marker → Option Text
retirement_refusal spec [] = none
retirement_refusal spec ((path, marker_spec_id) ∷ markers) =
    let rest = retirement_refusal spec markers in
    let denied =
      path
      ++ (codes " asserts saffron:retired-by "
          ++ (spec.id
              ++ (codes ", but this spec's own forbidden list denies it: "
                  ++ (join comma spec.forbidden
                      ++ codes
                          " — it may not touch that file at all, a different mistake from touches not reaching it")))) in
    let unreached =
      path
      ++ (codes " asserts saffron:retired-by "
          ++ (spec.id
              ++ (codes ", but no touches pattern reaches it: " ++ join comma spec.touches))) in
    if not (same marker_spec_id spec.id)
    then rest
    else if is_covered path spec.forbidden
    then some denied
    else if not (is_empty spec.touches) && not (is_covered path spec.touches)
    then some unreached
    else rest

-- `"s" if n > 1 else ""`
abbrev pub plural : ℕ → Text
plural n = if ltb 1 n then codes "s" else []

abbrev pub retired_dirname : Text
retired_dirname = codes "done"

unfoldable pub dangling_reason : Text → Text → ℕ → Text
dangling_reason path spec_id unreadable =
    codes "saffron:retired-by "
    ++ (spec_id
        ++ (codes " at "
            ++ (path
                ++ (codes ", but no spec in this directory or "
                    ++ (retired_dirname
                        ++ (codes "/ declares "
                            ++ (spec_id
                                ++ (codes " — a dangling reference"
                                    ++ (if unreadable == 0
                                        then []
                                        else codes ", and "
                                          ++ (decimal unreadable
                                              ++ (codes " spec file"
                                                  ++ (plural unreadable
                                                      ++ codes
                                                          " here did not parse, so it declares no id either way"))))))))))))

unfoldable pub dangling_marker_refusals : List Marker → List Text → ℕ → List Refusal
unfolding dangling_reason
dangling_marker_refusals [] known_ids unreadable = []
dangling_marker_refusals ((path, spec_id) ∷ markers) known_ids unreadable =
    let rest = dangling_marker_refusals markers known_ids unreadable in
    let refusal : Refusal = record {
      path = path;
      reason = dangling_reason path spec_id unreadable;
      kind = retirement_marker;
    } in
    if elem spec_id known_ids then rest else refusal ∷ rest
