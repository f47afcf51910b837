-- ===== src/Queue/Names/Clashes.antt =====
-- Which candidates `_removed_name_refusals` is to hold.
use saffron.Prelude.{
  ◌≡◌, refl, ◌≢◌, ◌↔◌, ◌⊎◌, inl, inr, Bool, true, ◌||◌, List, [], arith, Text, elem, Elem, elem_iff,
  Any,
}
use saffron.Intake.{Spec}
use saffron.Queue.Walk.{Edges}
use saffron.Queue.Walk.Reach.{Descends, depends_on_path_iff}
use saffron.Queue.Names.Partners.{Stands, Stands-iff, partners_from_iff}
use saffron.Queue.Names.Readers.{Reads, removed_name_clash_iff}
use saffron.Queue.Names.{find_held, partners_from, removed_name_refusals}
use saffron.Queue.Names.Loops.{IsHeld, IsLater, HoldsPair, hold_removers_iff}

-- Of the two specs the reader reads what the remover takes away, the `depends_on` of neither leads to
-- the other, and the id is that of the one to hold.
abbrev pub Holds : (Text → Type 0) → Edges → Spec → Spec → Text → Type 0
Holds IsCandidate edges remover reader id =
    (reader.id ≢ remover.id)
    × (¬ Descends edges remover.id reader.id)
    × (¬ Descends edges reader.id remover.id)
    × Any (Reads reader) remover.removes
    × IsLater IsCandidate remover.id reader.id id

HoldsPair-iff :
    (candidate_ids : List Text) (edges : Edges) (remover reader : Spec) (id : Text)
    → HoldsPair candidate_ids edges (remover.id, remover) (reader.id, reader) id
      ↔ Holds (λ t. Elem t candidate_ids) edges remover reader id
HoldsPair-iff candidate_ids edges remover reader id = ground (
  arith,
  depends_on_path_iff edges remover.id reader.id,
  depends_on_path_iff edges reader.id remover.id,
  removed_name_clash_iff remover reader,
)

-- Who may clash: a candidate, or a spec whose task waits.
abbrev pub IsPartner : (Spec → Bool) → (Text → Type 0) → Spec → Type 0
IsPartner is_waiting IsCandidate spec = IsCandidate spec.id ⊎ (is_waiting spec ≡ true)

-- Some two of the specs clash so that the id is held.
abbrev pub Clashes : (Spec → Bool) → Edges → (Text → Type 0) → List Spec → Text → Type 0
Clashes is_waiting edges IsCandidate specs id =
    (remover : Spec) × (reader : Spec) × Stands (IsPartner is_waiting IsCandidate) remover specs
    × Stands (IsPartner is_waiting IsCandidate) reader specs
    × Holds IsCandidate edges remover reader id

-- `_removed_name_refusals` holds exactly the candidates that stand in a clash on a removed name with
-- another candidate or with a live spec whose task waits: of two candidates the later id. Of specs of
-- one id, the last that is a candidate or waits counts. A clash is between two ids, where one's body,
-- claims or `consumes` reads what an entry of the other's `removes` takes away and no chain of
-- `depends_on` leads from either to the other.
pub removed_name_refusals_iff :
    (is_waiting : Spec → Bool) (edges : Edges) (candidate_ids : List Text) (specs : List Spec)
    (id : Text)
    → IsHeld id (removed_name_refusals is_waiting edges candidate_ids specs)
      ↔ Clashes is_waiting edges (λ t. Elem t candidate_ids) specs id
unfolding removed_name_refusals find_held
removed_name_refusals_iff is_waiting edges candidate_ids specs id =
    let is_partner : Spec → Bool = λ spec. elem spec.id candidate_ids || is_waiting spec in
    let partners = partners_from is_partner [] specs in
    let both = hold_removers_iff candidate_ids edges partners partners [] id in
    let removers =
      partners_from_iff is_partner
        (λ remover. Any (λ reader. HoldsPair candidate_ids edges remover reader id) partners)
        specs in
    let readers = λ (remover : Spec).
      partners_from_iff is_partner
        (λ reader. HoldsPair candidate_ids edges (remover.id, remover) reader id) specs in
    let partner : (spec : Spec)
        → (is_partner spec ≡ true) ↔ IsPartner is_waiting (λ t. Elem t candidate_ids) spec =
      λ spec. ground (arith, elem_iff spec.id candidate_ids) in
    let stands = Stands-iff _ _ partner specs in
    (
      (λ h. elim (both.0 h) [
        | inl old ↦ absurd (old refl)
        | inr found ↦
            let (remover, removes, later) = removers.0 found in
            let (reader, reads, holds) = (readers remover).0 later in
            (
              remover,
              reader,
              (stands remover).0 removes,
              (stands reader).0 reads,
              (HoldsPair-iff candidate_ids edges remover reader id).0 holds,
            )
      ]),
      (λ (remover, reader, removes, reads, holds). both.1 (
          inr (
            removers.1 (
              remover,
              (stands remover).1 removes,
              (readers remover).1 (
                reader,
                (stands reader).1 reads,
                (HoldsPair-iff candidate_ids edges remover reader id).1 holds,
              ),
            )))),
    )

-- The candidates count by what their ids are alone.
pub Clashes-iff :
    (is_waiting : Spec → Bool) (edges : Edges) (C D : Text → Type 0)
    → ((id : Text) → C id ↔ D id)
    → (specs : List Spec) (id : Text)
    → Clashes is_waiting edges C specs id ↔ Clashes is_waiting edges D specs id
Clashes-iff is_waiting edges C D h specs id =
    let stands =
      Stands-iff (IsPartner is_waiting C) (IsPartner is_waiting D)
        (λ spec. ground (arith, h spec.id)) specs in
    let holds : (remover reader : Spec)
        → Holds C edges remover reader id ↔ Holds D edges remover reader id =
      λ remover reader. ground (arith, h id, h remover.id, h reader.id) in
    (
      (λ (remover, reader, removes, reads, clash). (
        remover,
        reader,
        (stands remover).0 removes,
        (stands reader).0 reads,
        (holds remover reader).0 clash,
      )),
      (λ (remover, reader, removes, reads, clash). (
        remover,
        reader,
        (stands remover).1 removes,
        (stands reader).1 reads,
        (holds remover reader).1 clash,
      )),
    )
