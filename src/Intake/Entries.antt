-- ===== src/Intake/Entries.antt =====
-- The validators of `consumes` and `removes` in saffron/intake.py: `_is_canonical_path`,
-- `_consumes_and_removes_entries_are_well_formed` and `_consumes_needs_a_parent`.
pub mod Form
use saffron.Prelude.{
  Bool, not, ◌&&◌, ◌||◌, List, [], ◌∷◌, Option, none, some, Text, codes, same, split_on, partition,
  is_empty, any, if◌then◌else◌,
}
use saffron.Intake.{Spec}

-- A segment that no canonical path has.
unfoldable pub is_stray : Text → Bool
is_stray segment = is_empty segment || (same segment (codes ".") || same segment (codes ".."))

unfoldable pub is_canonical_path : Text → Bool
unfolding is_stray
is_canonical_path path = not (any is_stray (split_on b'/' path))

pub data EntryFault : Type 0 where
  empty_entry empty_path empty_name not_canonical : EntryFault

-- The checks on one entry, in the order of the source.
unfoldable pub entry_fault : Text → Option EntryFault
unfolding is_canonical_path
entry_fault entry =
    let (path, found, name) = partition b':' entry in
    if is_empty entry
    then some empty_entry
    else if is_empty path
    then some empty_path
    else if found && is_empty name
    then some empty_name
    else if is_canonical_path path
    then none
    else some not_canonical

-- The first entry that raises `ValueError`, with its fault.
unfoldable pub entries_fault : List Text → Option (Text × EntryFault)
unfolding entry_fault
entries_fault [] = none
entries_fault (entry ∷ entries) = elim (entry_fault entry) [
  | some fault ↦ some (entry, fault)
  | none ↦ entries_fault entries
]

-- `_consumes_needs_a_parent`: whether it raises.
unfoldable pub lacks_parent : Spec → Bool
lacks_parent spec = not (is_empty spec.consumes) && is_empty spec.depends_on
