-- ===== src/Queue/Names/Loops.antt =====
-- Which ids the loops of `_removed_name_refusals` hold.
use saffron.Prelude.{
  ◌≡◌, refl, ap, subst, ◌≢◌, ◌↔◌, ◌⊎◌, inl, inr, false, List, [], ◌∷◌, ◌++◌, Option, none, some,
  arith, Text, same, same_iff, text_lt_total, text_lt_trans, text_lt_irrefl, elem, Elem, elem_iff,
  is_empty, text_lt, Any, is_empty_iff, Option-cases, Bool-cases, if◌then◌else◌,
}
use saffron.Intake.{Spec}
use saffron.Queue.Walk.{Edges}
use saffron.Queue.Names.{
  Held, find_held, set_default, held_of, joined, removed_name_clash, hold_clash, hold_pair,
  hold_readers, hold_removers, Partners, name_reason, clashing_entry,
}

-- Somebody is held under the id.
abbrev pub IsHeld : Text → Held → Type 0
IsHeld id held = find_held id held ≢ none

find_held-append :
    (id key reason : Text) (held : Held)
    → find_held id (held ++ ((key, reason) ∷ [])) ≡ (elim (find_held id held) [
      | some old ↦ some old
      | none ↦ if same key id then some reason else none
    ])
unfolding find_held
find_held-append id key reason [] = ground arith
find_held-append id key reason ((other, old) ∷ held) =
    ground (arith, find_held-append id key reason held)

-- `setdefault` holds its key, and keeps all that was held.
set_default_iff :
    (held : Held) (key reason id : Text)
    → IsHeld id (set_default held key reason) ↔ (IsHeld id held ⊎ (key ≡ id))
unfolding set_default
set_default_iff held key reason id =
    let found = find_held-append id key reason held in
    elim (Option-cases (find_held key held)) [
      | inl e ↦
          rw (e, set_default)
            (ground (arith, found, same_iff key id, Option-cases (find_held id held)))
      | inr (old, e) ↦
          let own : key ≡ id → find_held id held ≡ some old =
            λ p. subst (λ (t : Text). find_held t held ≡ some old) p e in
          rw (e, set_default) (ground (arith, own))
    ]

abbrev pub IsFirstOf : Text → Option (Text × Text) → Type 0
IsFirstOf id none = ⊥
IsFirstOf id (some (held_id, other_id)) = held_id ≡ id

hold_clash_iff :
    (pair : Option (Text × Text)) (held : Held) (clash : Option Text) (id : Text)
    → IsHeld id (hold_clash pair held clash)
      ↔ (IsHeld id held ⊎ ((clash ≢ none) × IsFirstOf id pair))
hold_clash_iff pair held none id =
    ((λ h. inl h), (λ h. elim h [ inl old ↦ old | inr (n, e) ↦ absurd (n refl) ]))
hold_clash_iff none held (some subject) id =
    ((λ h. inl h), (λ h. elim h [ inl old ↦ old | inr (n, e) ↦ absurd e ]))
hold_clash_iff (some (held_id, other_id)) held (some subject) id =
    let added = set_default_iff held held_id (name_reason held_id other_id subject) id in
    (
      (λ h. elim (added.0 h) [ inl old ↦ inl old | inr e ↦ inr ((λ n. cc), e) ]),
      (λ h. elim h [ inl old ↦ added.1 (inl old) | inr (n, e) ↦ added.1 (inr e) ]),
    )

-- The candidate of the two that is held: of two candidates the later.
abbrev pub IsLater : (Text → Type 0) → Text → Text → Text → Type 0
IsLater IsCandidate remover_id reader_id id =
    IsCandidate id
    × (((id ≡ reader_id) × (IsCandidate remover_id → text_lt reader_id remover_id ≡ false))
        ⊎ ((id ≡ remover_id) × (IsCandidate reader_id → text_lt remover_id reader_id ≡ false)))

held_of_iff :
    (candidate_ids : List Text) (remover_id reader_id id : Text)
    → reader_id ≢ remover_id
    → IsFirstOf id (held_of candidate_ids remover_id reader_id)
      ↔ IsLater (λ t. Elem t candidate_ids) remover_id reader_id id
unfolding held_of
held_of_iff candidate_ids remover_id reader_id id n =
    let reader_same : id ≡ reader_id → elem id candidate_ids ≡ elem reader_id candidate_ids =
      λ e. ap (λ (t : Text). elem t candidate_ids) e in
    let remover_same : id ≡ remover_id → elem id candidate_ids ≡ elem remover_id candidate_ids =
      λ e. ap (λ (t : Text). elem t candidate_ids) e in
    ground (
      arith,
      elem_iff id candidate_ids,
      elem_iff remover_id candidate_ids,
      elem_iff reader_id candidate_ids,
      reader_same,
      remover_same,
      text_lt_total remover_id reader_id,
      text_lt_trans remover_id reader_id remover_id,
      text_lt_irrefl remover_id,
      same_iff remover_id reader_id,
    )

-- The two partners clash, with no chain between them, and the id is that of the one to hold.
abbrev pub HoldsPair : List Text → Edges → Text × Spec → Text × Spec → Text → Type 0
HoldsPair candidate_ids edges (remover_id, remover) (reader_id, reader) id =
    (reader_id ≢ remover_id)
    × (joined edges remover_id reader_id ≡ false)
    × (removed_name_clash remover reader ≢ none)
    × IsLater (λ t. Elem t candidate_ids) remover_id reader_id id

hold_pair_iff :
    (candidate_ids : List Text) (edges : Edges) (remover reader : Text × Spec) (held : Held)
    (id : Text)
    → IsHeld id (hold_pair candidate_ids edges remover reader held)
      ↔ (IsHeld id held ⊎ HoldsPair candidate_ids edges remover reader id)
unfolding hold_pair
hold_pair_iff candidate_ids edges (remover_id, remover) (reader_id, reader) held id = ground (
  arith,
  hold_clash_iff (held_of candidate_ids remover_id reader_id) held
      (removed_name_clash remover reader) id,
  held_of_iff candidate_ids remover_id reader_id id,
  same_iff reader_id remover_id,
)

hold_readers_iff :
    (candidate_ids : List Text) (edges : Edges) (remover : Text × Spec) (readers : Partners)
    (held : Held) (id : Text)
    → IsHeld id (hold_readers candidate_ids edges remover readers held)
      ↔ (IsHeld id held ⊎ Any (λ reader. HoldsPair candidate_ids edges remover reader id) readers)
unfolding hold_readers
hold_readers_iff candidate_ids edges remover [] held id =
    ((λ h. inl h), (λ h. elim h [ inl old ↦ old | inr n ↦ absurd n ]))
hold_readers_iff candidate_ids edges remover (reader ∷ readers) held id =
    let first = hold_pair_iff candidate_ids edges remover reader held id in
    let later =
      hold_readers_iff candidate_ids edges remover readers
        (hold_pair candidate_ids edges remover reader held) id in
    ground (arith, first, later)

-- Nothing clashes with a spec that removes nothing.
no_clash : (remover reader : Spec) → remover.removes ≡ [] → removed_name_clash remover reader ≡ none
unfolding removed_name_clash clashing_entry
no_clash remover reader e = rw e refl

none_held :
    (candidate_ids : List Text) (edges : Edges) (remover_id : Text) (remover : Spec)
    (readers : Partners) (id : Text)
    → remover.removes ≡ []
    → ¬ Any (λ reader. HoldsPair candidate_ids edges (remover_id, remover) reader id) readers
none_held candidate_ids edges remover_id remover [] id e m = m
none_held candidate_ids edges remover_id remover ((reader_id, reader) ∷ readers) id e (inl h) =
    h.2 (no_clash remover reader e)
none_held candidate_ids edges remover_id remover ((reader_id, reader) ∷ readers) id e (inr m) =
    none_held candidate_ids edges remover_id remover readers id e m

pub hold_removers_iff :
    (candidate_ids : List Text) (edges : Edges) (partners removers : Partners) (held : Held)
    (id : Text)
    → IsHeld id (hold_removers candidate_ids edges partners removers held) ↔ (
        IsHeld id held
        ⊎ Any
            (λ remover. Any (λ reader. HoldsPair candidate_ids edges remover reader id) partners)
            removers)
unfolding hold_removers
hold_removers_iff candidate_ids edges partners [] held id =
    ((λ h. inl h), (λ h. elim h [ inl old ↦ old | inr n ↦ absurd n ]))
hold_removers_iff candidate_ids edges partners ((remover_id, remover) ∷ removers) held id =
    elim (Bool-cases (is_empty remover.removes)) [
      | inl e ↦
          let removes_nothing = (is_empty_iff remover.removes).0 e in
          let later = hold_removers_iff candidate_ids edges partners removers held id in
          rw e (
            ground (
              arith,
              later,
              none_held candidate_ids edges remover_id remover partners id removes_nothing,
            ))
      | inr e ↦
          let first = hold_readers_iff candidate_ids edges (remover_id, remover) partners held id in
          let later =
            hold_removers_iff candidate_ids edges partners removers
              (hold_readers candidate_ids edges (remover_id, remover) partners held) id in
          rw e (ground (arith, first, later))
    ]
