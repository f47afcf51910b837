-- ===== src/Intake/Entries/Form.antt =====
-- The form of an entry of `consumes` or `removes`, against the checks on it.
use saffron.Prelude.{
  ℕ, ◌≡◌, refl, sym, ap, ◌∙◌, subst, ◌≢◌, ◌↔◌, ◌⊎◌, inl, inr, Bool, true, false, List, [], ◌∷◌,
  ◌++◌, none, arith, Text, codes, same_iff, split_on, partition, is_empty_iff, any, All, Bool-cases,
  Option-cases, if◌then◌else◌,
}
use saffron.Intake.Entries.{is_stray, is_canonical_path, entry_fault, entries_fault}

-- No character of the text is the separator.
abbrev pub Lacks : ℕ → Text → Type 0
Lacks separator s = All (λ c. c ≢ separator) s

partition-Lacks : (separator : ℕ) (s : Text) → Lacks separator (partition separator s).0
unfolding partition
partition-Lacks separator [] = tt
partition-Lacks separator (c ∷ s) = ground (arith, partition-Lacks separator s)

-- The two parts give the text back.
partition_join :
    (separator : ℕ) (s : Text)
    → s ≡ (
        if (partition separator s).1
        then (partition separator s).0 ++ separator ∷ (partition separator s).2
        else (partition separator s).0)
unfolding partition
partition_join separator [] = refl
partition_join separator (c ∷ s) = ground (arith, partition_join separator s)

partition-append :
    (separator : ℕ) (path name : Text)
    → Lacks separator path
    → partition separator (path ++ separator ∷ name) ≡ (path, true, name)
unfolding partition
partition-append separator [] name h = ground arith
partition-append separator (c ∷ path) name h = ground (arith, partition-append separator path name)

partition_whole :
    (separator : ℕ) (path : Text)
    → Lacks separator path
    → partition separator path ≡ (path, false, [])
unfolding partition
partition_whole separator [] h = refl
partition_whole separator (c ∷ path) h = ground (arith, partition_whole separator path)

-- The segments of a path: none empty, none "." or "..".
abbrev pub IsCanonical : Text → Type 0
IsCanonical path =
    All (λ segment. (segment ≢ []) × (segment ≢ codes ".") × (segment ≢ codes ".."))
      (split_on b'/' path)

stray_free_iff :
    (segments : List Text)
    → (any is_stray segments ≡ false)
      ↔ All (λ segment. (segment ≢ []) × (segment ≢ codes ".") × (segment ≢ codes "..")) segments
unfolding is_stray
stray_free_iff [] = ground arith
stray_free_iff (segment ∷ segments) = ground (
  arith,
  stray_free_iff segments,
  is_empty_iff segment,
  same_iff segment (codes "."),
  same_iff segment (codes ".."),
)

is_canonical_path_iff : (path : Text) → (is_canonical_path path ≡ true) ↔ IsCanonical path
unfolding is_canonical_path
is_canonical_path_iff path = ground (arith, stray_free_iff (split_on b'/' path))

-- A canonical path, alone or with a colon and a name behind it.
abbrev pub IsWellFormed : Text → Type 0
IsWellFormed entry =
    (path : Text) × Lacks b':' path
    × IsCanonical path
    × ((entry ≡ path) ⊎ ((name : Text) × (name ≢ []) × (entry ≡ path ++ b':' ∷ name)))

-- What the checks ask of the parts.
parts_iff :
    (entry : Text)
    → let parts = partition b':' entry in
      (entry_fault entry ≡ none)
      ↔ ((entry ≢ []) × (parts.0 ≢ []) × IsCanonical parts.0 × ((parts.1 ≡ false) ⊎ (parts.2 ≢ [])))
unfolding entry_fault
parts_iff entry =
    let parts = partition b':' entry in
    ground (
      arith,
      is_empty_iff entry,
      is_empty_iff parts.0,
      is_empty_iff parts.2,
      is_canonical_path_iff parts.0,
    )

canonical-ne-nil : (path : Text) → IsCanonical path → path ≢ []
unfolding split_on
canonical-ne-nil [] h = λ e. h.0.0 refl
canonical-ne-nil (c ∷ path) h = λ e. cc

append-ne-nil : (path name : Text) → path ++ b':' ∷ name ≢ []
append-ne-nil [] name = λ e. cc
append-ne-nil (c ∷ path) name = λ e. cc

-- The checks on the parts of a text that is split so.
well_formed_parts :
    (entry path name : Text) (found : Bool)
    → partition b':' entry ≡ (path, found, name)
    → entry ≢ []
    → IsCanonical path
    → (found ≡ false) ⊎ (name ≢ [])
    → entry_fault entry ≡ none
well_formed_parts entry path name found e n canonical k = (parts_iff entry).1 (
  n,
  (λ p. canonical-ne-nil path canonical (sym (ap (λ (t : Text × Bool × Text). t.0) e) ∙ p)),
  subst IsCanonical (sym (ap (λ (t : Text × Bool × Text). t.0) e)) canonical,
  elim k [
    | inl absent ↦ inl (ap (λ (t : Text × Bool × Text). t.1) e ∙ absent)
    | inr named ↦ inr (λ p. named (sym (ap (λ (t : Text × Bool × Text). t.2) e) ∙ p))
  ],
)

-- An entry raises nothing exactly if it is a canonical path, with no colon in it, or such a path with
-- a colon and a name that is not empty behind it.
pub entry_fault-none_iff : (entry : Text) → (entry_fault entry ≡ none) ↔ IsWellFormed entry
entry_fault-none_iff entry =
    let parts = partition b':' entry in
    (
      (λ e.
          let (n, p, canonical, k) = (parts_iff entry).0 e in
          let joined = partition_join b':' entry in
          (
            parts.0,
            partition-Lacks b':' entry,
            canonical,
            elim (Bool-cases parts.1) [
              | inr absent ↦ inl (rw absent at joined)
              | inl found ↦
                  inr (parts.2, elim k [ inl absent ↦ cc | inr named ↦ named ], rw found at joined)
            ],
          )),
      (λ (path, lacks, canonical, form). elim form [
        | inl e ↦
            well_formed_parts entry path [] false
              (ap (partition b':') e ∙ partition_whole b':' path lacks)
              (λ p. canonical-ne-nil path canonical (sym e ∙ p)) canonical (inl refl)
        | inr (name, named, e) ↦
            well_formed_parts entry path name true
              (ap (partition b':') e ∙ partition-append b':' path name lacks)
              (λ p. append-ne-nil path name (sym e ∙ p)) canonical (inr named)
      ]),
    )

-- The validator of `consumes` and of `removes` lets a list pass exactly if each entry is a canonical
-- path with no colon in it, or such a path with a colon and a name that is not empty behind it.
pub entries_fault-none_iff :
    (entries : List Text) → (entries_fault entries ≡ none) ↔ All IsWellFormed entries
unfolding entries_fault
entries_fault-none_iff [] = ground arith
entries_fault-none_iff (entry ∷ entries) =
    let first = entry_fault-none_iff entry in
    let later = entries_fault-none_iff entries in
    elim (Option-cases (entry_fault entry)) [
      | inl e ↦ rw (e, entries_fault) ((λ h. (first.0 e, later.0 h)), (λ h. later.1 h.1))
      | inr (fault, e) ↦ rw (e, entries_fault) ((λ h. cc), (λ h. cc (sym e ∙ first.1 h.0)))
    ]
