-- ===== src/Run/Operations.antt =====
-- The operations of the storage of runs, in any order: what they keep.
use short_form_studio.Prelude.{
  ℕ, String, ◌≡◌, Option, some, List, [], ◌∷◌, inl, inr, Bool-cases, Option-cases,
}
use short_form_studio.Prelude.Dict
use short_form_studio.Prelude.Dict.{put-cases, remove-found}
use short_form_studio.Run.Evolution.{
  IsWellFormed, Evolves, Evolves-trans, Allowed, unchanged, get_run-found, touch-Allowed, created,
  removed,
}
use short_form_studio.Run.Row.{RunRow, Update, all_updatable, to_model_defaults_json}
use short_form_studio.Run.Storage.{
  RunStorage, empty, create_run, get_run, stale, update_found, update_run, stage_expected, mem_text,
  conditional_found, conditional_update_run, delete_run, merge_model_defaults, remove_all,
  ids_of_project, delete_runs_by_project, is_empty, is_deleting,
}

update_found-Allowed :
    (now run_id : ℕ) (updates : List Update) (expected : Option ℕ) (row : RunRow) (s : RunStorage)
    → Dict.get run_id s.rows ≡ some row
    → Allowed s (update_found now run_id updates expected row s).1
unfolding update_found
update_found-Allowed now run_id updates expected row s here =
    elim (Bool-cases (stale expected row)) [
      | inl e ↦ rw e (unchanged s)
      | inr e ↦ rw e (elim (Bool-cases (is_empty updates)) [
        | inl n ↦ rw n (unchanged s)
        | inr n ↦ rw n (touch-Allowed now run_id updates row s here)
      ])
    ]

update_run-Allowed :
    (now run_id : ℕ) (updates : List Update) (w expected : Option ℕ) (s : RunStorage)
    → Allowed s (update_run now run_id updates w expected s).1
unfolding update_run
update_run-Allowed now run_id updates w expected s = elim (Bool-cases (all_updatable updates)) [
  | inr e ↦ rw e (unchanged s)
  | inl e ↦ rw e (elim (Option-cases (get_run run_id w s)) [
    | inl n ↦ rw n (unchanged s)
    | inr (row, n) ↦
        rw n
          (update_found-Allowed now run_id updates expected row s (get_run-found run_id w s row n))
  ])
]

conditional_found-Allowed :
    (now run_id : ℕ) (updates : List Update) (stages rejected : List String) (row : RunRow)
    (s : RunStorage)
    → Dict.get run_id s.rows ≡ some row
    → Allowed s (conditional_found now run_id updates stages rejected row s).1
unfolding conditional_found
conditional_found-Allowed now run_id updates stages rejected row s here =
    elim (Bool-cases (stage_expected row.current_stage stages)) [
      | inr e ↦ rw e (unchanged s)
      | inl e ↦ rw e (elim (Bool-cases (mem_text row.status rejected)) [
        | inl n ↦ rw n (unchanged s)
        | inr n ↦ rw n (elim (Bool-cases (is_empty updates)) [
          | inl z ↦ rw z (unchanged s)
          | inr z ↦ rw z (touch-Allowed now run_id updates row s here)
        ])
      ])
    ]

conditional_update_run-Allowed :
    (now run_id : ℕ) (updates : List Update) (stages : List String) (w : Option ℕ)
    (rejected : List String) (s : RunStorage)
    → Allowed s (conditional_update_run now run_id updates stages w rejected s).1
unfolding conditional_update_run
conditional_update_run-Allowed now run_id updates stages w rejected s =
    elim (Bool-cases (all_updatable updates)) [
      | inr e ↦ rw e (unchanged s)
      | inl e ↦ rw e (elim (Option-cases (get_run run_id w s)) [
        | inl n ↦ rw n (unchanged s)
        | inr (row, n) ↦ rw n (
            conditional_found-Allowed now run_id updates stages rejected row s
              (get_run-found run_id w s row n))
      ])
    ]

delete_run-Allowed :
    (run_id : ℕ) (w : Option ℕ) (s : RunStorage) → Allowed s (delete_run run_id w s).1
unfolding delete_run
delete_run-Allowed run_id w s = elim (Option-cases (get_run run_id w s)) [
  | inl n ↦ rw n (unchanged s)
  | inr (row, n) ↦ rw n (removed run_id s)
]

remove_all-Allowed :
    (ids : List ℕ) (s : RunStorage) → Allowed s (record s { rows = remove_all ids s.rows })
unfolding remove_all
remove_all-Allowed [] s v = unchanged s v
remove_all-Allowed (k ∷ ids) s v =
    let one = removed k s v in
    let rest = remove_all-Allowed ids (record s { rows = Dict.remove k s.rows }) one.0 in
    (rest.0, Evolves-trans one.1 rest.1)

delete_runs_by_project-Allowed :
    (project_id : ℕ) (s : RunStorage) → Allowed s (delete_runs_by_project project_id s).1
unfolding delete_runs_by_project
delete_runs_by_project-Allowed project_id s =
    remove_all-Allowed (ids_of_project project_id s.rows) s

merge_model_defaults-Allowed :
    (now run_id : ℕ) (merge : Option String → String) (w : Option ℕ) (s : RunStorage)
    → Allowed s (merge_model_defaults now run_id merge w s).1
unfolding merge_model_defaults
merge_model_defaults-Allowed now run_id merge w s = elim (Option-cases (get_run run_id w s)) [
  | inl n ↦ rw n (unchanged s)
  | inr (row, n) ↦ rw n (
      touch-Allowed now run_id (to_model_defaults_json (some (merge row.model_defaults_json)) ∷ [])
        row s (get_run-found run_id w s row n))
]

create_run-Allowed : (now : ℕ) (row : RunRow) (s : RunStorage) → Allowed s (create_run now row s).1
unfolding create_run
create_run-Allowed now row s = elim (Bool-cases (is_deleting s.project_status row.project_id)) [
  | inl e ↦ rw e (unchanged s)
  | inr e ↦ rw e (created now row s)
]

-- one operation of the storage, at its time
pub data RunOp : Type 0 where
  creating : ℕ → RunRow → RunOp
  updating : ℕ → ℕ → List Update → Option ℕ → Option ℕ → RunOp
  updating_if : ℕ → ℕ → List Update → List String → Option ℕ → List String → RunOp
  merging : ℕ → ℕ → (Option String → String) → Option ℕ → RunOp
  deleting : ℕ → Option ℕ → RunOp
  deleting_project : ℕ → RunOp

unfoldable pub perform : RunOp → RunStorage → RunStorage
perform (creating now row) s = (create_run now row s).1
perform (updating now run_id updates w expected) s = (update_run now run_id updates w expected s).1
perform (updating_if now run_id updates stages w rejected) s =
    (conditional_update_run now run_id updates stages w rejected s).1
perform (merging now run_id merge w) s = (merge_model_defaults now run_id merge w s).1
perform (deleting run_id w) s = (delete_run run_id w s).1
perform (deleting_project project_id) s = (delete_runs_by_project project_id s).1

unfoldable pub perform_all : List RunOp → RunStorage → RunStorage
unfolding perform
perform_all [] s = s
perform_all (op ∷ ops) s = perform_all ops (perform op s)

perform-Allowed : (op : RunOp) (s : RunStorage) → Allowed s (perform op s)
unfolding perform
perform-Allowed (creating now row) s = create_run-Allowed now row s
perform-Allowed (updating now run_id updates w expected) s =
    update_run-Allowed now run_id updates w expected s
perform-Allowed (updating_if now run_id updates stages w rejected) s =
    conditional_update_run-Allowed now run_id updates stages w rejected s
perform-Allowed (merging now run_id merge w) s = merge_model_defaults-Allowed now run_id merge w s
perform-Allowed (deleting run_id w) s = delete_run-Allowed run_id w s
perform-Allowed (deleting_project project_id) s = delete_runs_by_project-Allowed project_id s

-- Over any sequence of operations of the storage, where each row stands under its own id, each
-- row keeps standing under its own id; a row found at the end under an id given before is the row of the
-- beginning, unchanged or of an earlier version, and no id given before is given again.
pub perform_all-Allowed :
    (ops : List RunOp) (s : RunStorage)
    → IsWellFormed s
    → IsWellFormed (perform_all ops s) × Evolves s (perform_all ops s)
unfolding perform_all
perform_all-Allowed [] s v = unchanged s v
perform_all-Allowed (op ∷ ops) s v =
    let one = perform-Allowed op s v in
    let rest = perform_all-Allowed ops (perform op s) one.0 in (rest.0, Evolves-trans one.1 rest.1)

pub empty-IsWellFormed : IsWellFormed empty
unfolding Dict.get
empty-IsWellFormed = record { own_id = λ k row h. absurd (cc); given = λ k row h. absurd (cc) }
