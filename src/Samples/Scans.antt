-- ===== src/Samples/Scans.antt =====
-- `reconcile`'s theorems, on a task whose pull request GitHub says was merged.
use saffron.Prelude.{◌≡◌, refl, true, false, [], ◌∷◌, none, some, codes, same}
use saffron.Reconcile.{TrackedTask, Answers, reconcile, moved, merged}
use saffron.Reconcile.Moves.{RowsMove, reconcile-RowsMove}
use saffron.Reconcile.Again.{reconcile_again}

abbrev task : TrackedTask
task = record {
  task_id = 4;
  spec_id = codes "SA-1";
  state = codes "READY_FOR_REVIEW";
  pr_url = some (codes "https://pulls/1");
  pushed_sha = some (codes "abc");
  merged_head_sha = none;
}

abbrev answers : Answers
answers = record {
  pull = λ id. some (record {
    state = some (codes "MERGED");
    review_decision = none;
    is_draft = some true;
    head_ref_oid = some (codes "abc");
  });
  regate = λ id. none;
}

reconcile-RowsMove_example :
    RowsMove answers true none (task ∷ []) (reconcile answers true none (task ∷ [])).0
reconcile-RowsMove_example = reconcile-RowsMove answers true none (task ∷ [])

reconcile_again_example :
    (reconcile answers false none (reconcile answers false none (task ∷ [])).0).0
    ≡ (reconcile answers false none (task ∷ [])).0
reconcile_again_example = reconcile_again answers none (task ∷ [])

is_merged : reconcile answers true none (task ∷ []) ≡ (
  record task { state = codes "MERGED"; merged_head_sha = some (codes "abc") } ∷ [],
  moved merged 4 ∷ [],
)
unfolding reconcile codes same
is_merged = refl
