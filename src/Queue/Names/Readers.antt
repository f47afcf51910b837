-- ===== src/Queue/Names/Readers.antt =====
-- What a spec reads of a name that another removes: `_removed_name_clash`, described.
use saffron.Prelude.{
  ◌≡◌, refl, ap, ◌≢◌, ◌↔◌, ◌⊎◌, inl, inr, Bool, true, false, not, List, [], ◌∷◌, ◌++◌, none, arith,
  Text, same_iff, any, any_iff, Any, Bool-cases, starts_with, drop, length, is_empty_iff, ◌==◌,
}
use saffron.Intake.{Spec}
use saffron.Queue.Paths.{criteria_texts}
use saffron.Queue.Names.{
  entry_subject, is_identifier, begins_with_identifier, word_within, whole_word, clashes_consumed,
  clashing_entry, removed_name_clash,
}

-- Whether an identifier character stands before what follows the text.
abbrev pub ends_with_identifier : Bool → Text → Bool
ends_with_identifier inside [] = inside
ends_with_identifier inside (c ∷ before) = ends_with_identifier (is_identifier c) before

-- The subject stands in the text with no identifier character just before or after it.
abbrev pub StandsIn : Bool → Text → Text → Type 0
StandsIn inside subject text =
    (before : Text) × (after : Text) × (text ≡ before ++ (subject ++ after))
    × (ends_with_identifier inside before ≡ false)
    × (begins_with_identifier after ≡ false)

starts_with_sound :
    (prefix s : Text) → starts_with prefix s ≡ true → s ≡ prefix ++ drop (length prefix) s
unfolding starts_with
starts_with_sound [] s h = refl
starts_with_sound (a ∷ prefix) [] h = cc
starts_with_sound (a ∷ prefix) (b ∷ s) h =
    let same_head : b ≡ a = ground arith in
    rw same_head (ap (λ (t : Text). a ∷ t) (starts_with_sound prefix s (ground arith)))

starts_with_complete : (prefix after : Text) → starts_with prefix (prefix ++ after) ≡ true
unfolding starts_with
starts_with_complete [] after = refl
starts_with_complete (c ∷ prefix) after = ground (arith, starts_with_complete prefix after)

drop-append : (prefix after : Text) → drop (length prefix) (prefix ++ after) ≡ after
drop-append [] after = refl
drop-append (c ∷ prefix) after = drop-append prefix after

word_within_start :
    (subject : Text) (inside : Bool) (after : Text)
    → subject ≢ []
    → inside ≡ false
    → begins_with_identifier after ≡ false
    → word_within inside subject (subject ++ after) ≡ true
unfolding word_within
word_within_start [] inside after n f g = absurd (n refl)
word_within_start (c ∷ subject) inside after n f g =
    ground (arith, starts_with_complete (c ∷ subject) after, drop-append (c ∷ subject) after)

module _ (subject : Text) where
  word_within_sound :
      (inside : Bool) (text : Text)
      → word_within inside subject text ≡ true
      → StandsIn inside subject text
  unfolding word_within
  word_within_sound inside [] h = cc
  word_within_sound inside (c ∷ text) h =
      elim (Bool-cases (word_within (is_identifier c) subject text)) [
        | inl later ↦
            let (before, after, e, f, g) = word_within_sound (is_identifier c) text later in
            (c ∷ before, after, ap (λ (t : Text). c ∷ t) e, f, g)
        | inr none_later ↦ (
          [],
          drop (length subject) (c ∷ text),
          starts_with_sound subject (c ∷ text) (ground arith),
          ground arith,
          ground arith,
        )
      ]

  word_within_complete :
      (inside : Bool) (before after : Text)
      → subject ≢ []
      → ends_with_identifier inside before ≡ false
      → begins_with_identifier after ≡ false
      → word_within inside subject (before ++ (subject ++ after)) ≡ true
  unfolding word_within
  word_within_complete inside (c ∷ before) after n f g =
      ground (arith, word_within_complete (is_identifier c) before after n f g)
  word_within_complete inside [] after n f g = word_within_start subject inside after n f g

-- The subject is no empty text, and stands in the text as a word of its own.
abbrev pub IsWordOf : Text → Text → Type 0
IsWordOf subject text = (subject ≢ []) × StandsIn false subject text

whole_word_iff : (subject text : Text) → (whole_word text subject ≡ true) ↔ IsWordOf subject text
unfolding whole_word
whole_word_iff subject text = (
  (λ h. (
    (λ e. ground (arith, is_empty_iff subject)),
    word_within_sound subject false text (ground arith),
  )),
  (λ (n, (before, after, e, f, g)).
      let found = word_within_complete subject false before after n f g in
      rw e (ground (arith, found, is_empty_iff subject))),
)

-- An entry that a reader consumes reads the entry that is removed: the same subject, or the path of
-- an entry that is a path alone.
abbrev pub Consumes : Text → Text → Type 0
Consumes entry consumed =
    ((entry_subject consumed).1 ≡ (entry_subject entry).1)
    ⊎ ((¬ Any (λ c. c ≡ b':') entry) × ((entry_subject consumed).0 ≡ (entry_subject entry).0))

clashes_consumed_iff :
    (entry : Text) (consumes : List Text)
    → (clashes_consumed
          (entry_subject entry).0
          (entry_subject entry).1
          (not (any (λ c. c == b':') entry))
          consumes
        ≡ true)
      ↔ Any (Consumes entry) consumes
unfolding clashes_consumed
clashes_consumed_iff entry [] = ground arith
clashes_consumed_iff entry (consumed ∷ consumes) = ground (
  arith,
  clashes_consumed_iff entry consumes,
  same_iff (entry_subject consumed).1 (entry_subject entry).1,
  same_iff (entry_subject consumed).0 (entry_subject entry).0,
  any_iff (λ c. c == b':') (λ c. c ≡ b':') (λ c. ground arith) entry,
)

-- The reader's body, its claims or its `consumes` read what an entry of the remover's `removes` takes
-- away.
abbrev pub Reads : Spec → Text → Type 0
Reads reader entry =
    Any (IsWordOf (entry_subject entry).1) (reader.body ∷ criteria_texts reader)
    ⊎ Any (Consumes entry) reader.consumes

clashing_entry_iff :
    (reader : Spec) (removes : List Text)
    → (clashing_entry (reader.body ∷ criteria_texts reader) reader.consumes removes ≢ none)
      ↔ Any (Reads reader) removes
unfolding clashing_entry
clashing_entry_iff reader [] = ground arith
clashing_entry_iff reader (entry ∷ removes) = ground (
  arith,
  clashing_entry_iff reader removes,
  clashes_consumed_iff entry reader.consumes,
  any_iff (λ text. whole_word text (entry_subject entry).1) (IsWordOf (entry_subject entry).1)
      (whole_word_iff (entry_subject entry).1) (reader.body ∷ criteria_texts reader),
)

pub removed_name_clash_iff :
    (remover reader : Spec)
    → (removed_name_clash remover reader ≢ none) ↔ Any (Reads reader) remover.removes
unfolding removed_name_clash
removed_name_clash_iff remover reader = clashing_entry_iff reader remover.removes
