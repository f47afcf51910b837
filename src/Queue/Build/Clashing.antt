-- ===== src/Queue/Build/Clashing.antt =====
-- Which candidates of a night a removed name holds.
use saffron.Prelude.{
  ◌≡◌, ◌↔◌, inl, inr, List, [], ◌∷◌, map, none, arith, Text, Elem, Any, Option-cases,
}
use saffron.Queue.Rows.{TaskRow}
use saffron.Queue.Names.{find_held}
use saffron.Queue.Names.Clashes.{Clashes, Clashes-iff, removed_name_refusals_iff}
use saffron.Queue.Order.{ids_of}
use saffron.Queue.Night.{
  Night, DiscoveredSpec, rows_of, edges_of, states_at_current_sha_of, open_candidates,
}
use saffron.Queue.Build.{scan_of, held_on, has_waiting, night_candidates}
use saffron.Queue.Build.Accounts.{IsOpen, is_done_iff}

-- An open spec has the id.
abbrev pub IsOpenId : List TaskRow → List DiscoveredSpec → Text → Type 0
IsOpenId ledger specs id = Any (λ found. IsOpen ledger found × (id ≡ found.spec.id)) specs

open_ids_iff :
    (ledger : List TaskRow) (specs : List DiscoveredSpec) (id : Text)
    → Elem id (ids_of (open_candidates ledger specs)) ↔ IsOpenId ledger specs id
unfolding open_candidates
open_ids_iff ledger [] id = ground arith
open_ids_iff ledger (found ∷ specs) id =
    ground (arith, open_ids_iff ledger specs id, is_done_iff found ledger)

-- Among a night's specs, of which those that are open or wait count, one clashes so that the id is
-- held.
abbrev pub ClashesOn : Night → Text → Type 0
ClashesOn night id =
    let ledger = rows_of night.ledger in
    let specs = (night.discovered).0 in
    Clashes (has_waiting (states_at_current_sha_of ledger specs)) (edges_of specs)
      (IsOpenId ledger specs) (map (λ (found : DiscoveredSpec). found.spec) specs) id

pub held_on-none_iff :
    (night : Night) (id : Text) → (find_held id (held_on night) ≡ none) ↔ ¬ ClashesOn night id
unfolding held_on night_candidates scan_of
held_on-none_iff night id =
    let ledger = rows_of night.ledger in
    let specs = (night.discovered).0 in
    let waits = has_waiting (states_at_current_sha_of ledger specs) in
    let ids = ids_of (open_candidates ledger specs) in
    let all_specs = map (λ (found : DiscoveredSpec). found.spec) specs in
    let held = removed_name_refusals_iff waits (edges_of specs) ids all_specs id in
    let clashes =
      Clashes-iff waits (edges_of specs) (λ t. Elem t ids) (IsOpenId ledger specs)
        (open_ids_iff ledger specs) all_specs id in
    (
      (λ e c. held.1 (clashes.1 c) e),
      (λ n. elim (Option-cases (find_held id (held_on night))) [
        | inl e ↦ e
        | inr (reason, e) ↦ absurd (n (clashes.0 (held.0 (λ f. cc (e, f)))))
      ]),
    )
