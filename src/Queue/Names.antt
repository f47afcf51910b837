-- ===== src/Queue/Names.antt =====
-- The removed names of saffron/scheduler.py: `_entry_subject`, `_whole_word` (with `_word_pattern`
-- of saffron/repos/mirror.py), `_removed_name_clash` and `_removed_name_refusals`.
pub mod Loops
pub mod Partners
pub mod Readers
pub mod Clashes
use saffron.Prelude.{
  ℕ, Bool, true, false, not, ◌&&◌, ◌||◌, List, [], ◌∷◌, ◌++◌, Option, none, some, Text, codes, same,
  elem, any, is_empty, partition, starts_with, drop, length, text_lt, leb, ◌==◌, if◌then◌else◌,
}
use saffron.Intake.{Spec}
use saffron.Queue.Walk.{Edges, depends_on_path}
use saffron.Queue.Paths.{criteria_texts}

-- `_entry_subject`
unfoldable pub entry_subject : Text → Text × Text
entry_subject entry =
    let (path, found, name) = partition b':' entry in (path, if is_empty name then path else name)

-- `[A-Za-z0-9_]`
abbrev pub is_identifier : ℕ → Bool
is_identifier c =
    (leb b'A' c && leb c b'Z')
    || ((leb b'a' c && leb c b'z') || ((leb b'0' c && leb c b'9') || c == b'_'))

abbrev pub begins_with_identifier : Text → Bool
begins_with_identifier [] = false
begins_with_identifier (c ∷ s) = is_identifier c

-- `_word_pattern(subject).search(text)`, `inside` telling whether an identifier character stands
-- just before the text.
unfoldable pub word_within : Bool → Text → Text → Bool
word_within inside subject [] = false
word_within inside subject (c ∷ s) =
    ((not inside && starts_with subject (c ∷ s))
      && not (begins_with_identifier (drop (length subject) (c ∷ s))))
    || word_within (is_identifier c) subject s

-- `_whole_word`
unfoldable pub whole_word : Text → Text → Bool
unfolding word_within starts_with
whole_word text subject = not (is_empty subject) && word_within false subject text

-- The loop over the reader's `consumes`.
unfoldable pub clashes_consumed : Text → Text → Bool → List Text → Bool
unfolding entry_subject
clashes_consumed path subject bare [] = false
clashes_consumed path subject bare (consumed ∷ consumes) =
    let (consumed_path, consumed_subject) = entry_subject consumed in
    (same consumed_subject subject || (bare && same consumed_path path))
    || clashes_consumed path subject bare consumes

unfoldable pub clashing_entry : List Text → List Text → List Text → Option Text
unfolding whole_word clashes_consumed
clashing_entry texts consumes [] = none
clashing_entry texts consumes (entry ∷ removes) =
    let (path, subject) = entry_subject entry in
    let bare = not (any (λ c. c == b':') entry) in
    let rest = clashing_entry texts consumes removes in
    if any (λ text. whole_word text subject) texts
    then some subject
    else if clashes_consumed path subject bare consumes
    then some subject
    else rest

-- `_removed_name_clash`
unfoldable pub removed_name_clash : Spec → Spec → Option Text
unfolding clashing_entry
removed_name_clash remover reader =
    clashing_entry (reader.body ∷ criteria_texts reader) reader.consumes remover.removes

-- A dict from ids to specs: an id that is there keeps its place and takes the new spec.
abbrev pub Partners : Type 0
Partners = List (Text × Spec)

unfoldable pub put_partner : Partners → Text → Spec → Partners
put_partner [] id spec = (id, spec) ∷ []
put_partner ((key, old) ∷ partners) id spec =
    let rest = put_partner partners id spec in
    if same key id then (key, spec) ∷ partners else (key, old) ∷ rest

unfoldable pub partners_from : (Spec → Bool) → Partners → List Spec → Partners
unfolding put_partner
partners_from is_partner partners [] = partners
partners_from is_partner partners (spec ∷ specs) =
    partners_from is_partner
      (if is_partner spec then put_partner partners spec.id spec else partners) specs

-- `max(a, b)` on two ids
abbrev pub later_id : Text → Text → Text
later_id a b = if text_lt a b then b else a

abbrev pub name_reason : Text → Text → Text → Text
name_reason held_id other_id subject =
    held_id
    ++ (codes " and "
        ++ (other_id
            ++ (codes " both name " ++ (subject ++ codes ", declare one a parent of the other"))))

-- Which of the two is held, and which is the other.
unfoldable pub held_of : List Text → Text → Text → Option (Text × Text)
unfolding text_lt
held_of candidate_ids remover_id reader_id =
    let held_id = later_id remover_id reader_id in
    let other_id = if same held_id reader_id then remover_id else reader_id in
    if elem remover_id candidate_ids && elem reader_id candidate_ids
    then some (held_id, other_id)
    else if elem reader_id candidate_ids
    then some (reader_id, remover_id)
    else if elem remover_id candidate_ids
    then some (remover_id, reader_id)
    else none

-- `held`, a dict from an id to its reason.
abbrev pub Held : Type 0
Held = List (Text × Text)

unfoldable pub find_held : Text → Held → Option Text
find_held id [] = none
find_held id ((key, reason) ∷ held) =
    let rest = find_held id held in if same key id then some reason else rest

-- `held.setdefault(id, reason)`
unfoldable pub set_default : Held → Text → Text → Held
unfolding find_held
set_default held id reason = elim (find_held id held) [
  | some old ↦ held
  | none ↦ held ++ ((id, reason) ∷ [])
]

abbrev pub joined : Edges → Text → Text → Bool
joined edges a b = depends_on_path a b edges || depends_on_path b a edges

abbrev pub hold_as : Text → Held → Option (Text × Text) → Held
hold_as subject held none = held
hold_as subject held (some (held_id, other_id)) =
    set_default held held_id (name_reason held_id other_id subject)

abbrev pub hold_clash : Option (Text × Text) → Held → Option Text → Held
hold_clash pair held none = held
hold_clash pair held (some subject) = hold_as subject held pair

-- The body of the inner loop.
unfoldable pub hold_pair : List Text → Edges → Text × Spec → Text × Spec → Held → Held
unfolding removed_name_clash held_of set_default
hold_pair candidate_ids edges (remover_id, remover) (reader_id, reader) held =
    let clashed =
      hold_clash (held_of candidate_ids remover_id reader_id) held
        (removed_name_clash remover reader) in
    if same reader_id remover_id || joined edges remover_id reader_id then held else clashed

unfoldable pub hold_readers : List Text → Edges → Text × Spec → Partners → Held → Held
unfolding hold_pair
hold_readers candidate_ids edges remover [] held = held
hold_readers candidate_ids edges remover (reader ∷ readers) held =
    hold_readers candidate_ids edges remover readers
      (hold_pair candidate_ids edges remover reader held)

unfoldable pub hold_removers : List Text → Edges → Partners → Partners → Held → Held
unfolding hold_readers
hold_removers candidate_ids edges partners [] held = held
hold_removers candidate_ids edges partners ((remover_id, remover) ∷ removers) held =
    hold_removers candidate_ids edges partners removers (
      if is_empty remover.removes
      then held
      else hold_readers candidate_ids edges (remover_id, remover) partners held)

-- `_removed_name_refusals`, with whether a live spec has a waiting task at its current sha.
unfoldable pub removed_name_refusals : (Spec → Bool) → Edges → List Text → List Spec → Held
unfolding hold_removers partners_from
removed_name_refusals is_waiting edges candidate_ids specs =
    let partners = partners_from (λ spec. elem spec.id candidate_ids || is_waiting spec) [] specs in
    hold_removers candidate_ids edges partners partners []
