-- ===== src/Tasks/Ownership.antt =====
-- packages/creator-service/creator_service/memory_task_tracking_storage.py: the operations that change the
-- storage of runs together with the one of tasks, under the ownership lock.
use short_form_studio.Prelude.{
  ℕ, ◌==◌, ltb, String, Bool, true, false, not, ◌||◌, ◌&&◌, Option, none, some, List, [], ◌∷◌,
  str_eq, if◌then◌else◌,
}
use short_form_studio.Prelude.Checked.{Result, ok, err}
use short_form_studio.Prelude.Dict
use short_form_studio.Errors.{Error, value_error, text}
use short_form_studio.Run.Row.{RunRow, Update, to_current_stage, to_status}
use short_form_studio.Run.Storage.{RunStorage, get_run, conditional_update_run, store, mem_text}
use short_form_studio.Tasks.Row.{TaskRow, TaskStorage, row_id_of}
use short_form_studio.Tasks.Storage.{NewTask, create_task}
use short_form_studio.Tasks.Claims.{is_claimed_by, finish_if_claimed}

abbrev pub Both : Type 0
Both = RunStorage × TaskStorage

-- `run_storage._rows[run_id] = previous`, unless there is none
abbrev pub restore : ℕ → Option RunRow → RunStorage → RunStorage
restore run_id none runs = runs
restore run_id (some previous) runs = store run_id previous runs

abbrev pub with_pending :
    ℕ
    → Option RunRow
    → Option RunRow
    → RunStorage
    → Option TaskRow × TaskStorage
    → Result Error (Bool × Option RunRow) × Both
with_pending run_id previous row runs (none, tasks) = (
  err (value_error (text "Pending task ownership already exists")),
  (restore run_id previous runs, tasks),
)
with_pending run_id previous row runs (some pending, tasks) = (ok (true, row), (runs, tasks))

abbrev pub after_transition :
    ℕ
    → ℕ
    → Option RunRow
    → NewTask
    → TaskStorage
    → Result Error (Bool × Option RunRow) × RunStorage
    → Result Error (Bool × Option RunRow) × Both
after_transition now run_id previous task_row tasks (err e, runs) = (err e, (runs, tasks))
after_transition now run_id previous task_row tasks (ok (false, row), runs) =
    (ok (false, row), (runs, tasks))
after_transition now run_id previous task_row tasks (ok (true, row), runs) =
    with_pending run_id previous row runs (create_task now task_row tasks)

unfoldable pub transition_run_and_create_pending :
    ℕ
    → ℕ
    → List Update
    → List String
    → NewTask
    → Option ℕ
    → List String
    → Both
    → Result Error (Bool × Option RunRow) × Both
unfolding get_run conditional_update_run create_task Dict.put
transition_run_and_create_pending now run_id updates stages task_row w rejected (runs, tasks) =
    after_transition now run_id (get_run run_id w runs) task_row tasks
      (conditional_update_run now run_id updates stages w rejected runs)

-- the first component of the answer of a conditional update
abbrev pub applied_of : Result Error (Bool × Option RunRow) → Result Error Bool
applied_of (err e) = err e
applied_of (ok (applied, row)) = ok applied

-- a conditional update that raises leaves the task running
abbrev pub finish_after :
    ℕ
    → String
    → String
    → String
    → Option String
    → Option String
    → TaskStorage
    → Result Error (Bool × Option RunRow) × RunStorage
    → Result Error Bool × Both
finish_after now celery token status code message tasks (err e, runs) = (err e, (runs, tasks))
finish_after now celery token status code message tasks (ok (applied, row), runs) =
    (ok applied, (runs, (finish_if_claimed now celery token status code message tasks).1))

-- the task's run is `run_id`, and the token holds it
unfoldable pub owns : String → ℕ → TaskRow → Bool
unfolding is_claimed_by
owns token run_id row = is_claimed_by token row && row.run_id == run_id

abbrev pub task_of : Option ℕ → TaskStorage → Option TaskRow
task_of none tasks = none
task_of (some k) tasks = Dict.get k tasks.rows

-- `self._rows[self._rows_by_celery_task_id[celery_task_id]]`, if it is there
unfoldable pub find_task : String → TaskStorage → Option TaskRow
unfolding row_id_of Dict.get
find_task celery tasks = task_of (row_id_of celery tasks.by_celery) tasks

abbrev pub finish_owned :
    ℕ
    → String
    → String
    → String
    → ℕ
    → List Update
    → List String
    → List String
    → Option String
    → Option String
    → Option TaskRow
    → Both
    → Result Error Bool × Both
finish_owned now celery token status run_id updates stages rejected code message none
      (runs, tasks) =
    (ok false, (runs, tasks))
finish_owned now celery token status run_id updates stages rejected code message (some row)
      (runs, tasks) =
    if not (owns token run_id row)
    then (ok false, (runs, tasks))
    else finish_after now celery token status code message tasks
        (conditional_update_run now run_id updates stages none rejected runs)

unfoldable pub finish_claimed_run :
    ℕ
    → String
    → String
    → String
    → ℕ
    → List Update
    → List String
    → List String
    → Option String
    → Option String
    → Both
    → Result Error Bool × Both
unfolding find_task owns conditional_update_run finish_if_claimed
finish_claimed_run now celery token status run_id updates stages rejected code message
      (runs, tasks) =
    finish_owned now celery token status run_id updates stages rejected code message
      (find_task celery tasks) (runs, tasks)

-- the row is a newer task of the owner's run and type that has not failed
unfoldable pub is_newer : ℕ → TaskRow → TaskRow → Bool
unfolding mem_text
is_newer run_id owner row =
    row.run_id == run_id
    && str_eq row.task_type owner.task_type
    && ltb owner.id row.id
    && mem_text row.status ("pending" ∷ "queued" ∷ "running" ∷ "success" ∷ [])

unfoldable pub has_newer : ℕ → TaskRow → List (ℕ × TaskRow) → Bool
unfolding is_newer
has_newer run_id owner [] = false
has_newer run_id owner ((k, row) ∷ rest) = is_newer run_id owner row || has_newer run_id owner rest

abbrev pub fail_updates : List Update
fail_updates = to_current_stage (some "FAILED") ∷ to_status "failed" ∷ []

abbrev pub rollback_by :
    ℕ
    → ℕ
    → List String
    → List String
    → List String
    → Option TaskRow
    → Both
    → Result Error (Bool × Option RunRow) × RunStorage
rollback_by now run_id types stages rejected none (runs, tasks) =
    (ok (false, get_run run_id none runs), runs)
rollback_by now run_id types stages rejected (some owner) (runs, tasks) =
    if not (owner.run_id == run_id) || not (mem_text owner.task_type types)
    then (ok (false, get_run run_id none runs), runs)
    else if has_newer run_id owner tasks.rows
    then (ok (false, get_run run_id none runs), runs)
    else conditional_update_run now run_id fail_updates stages none rejected runs

unfoldable pub rollback_run_if_task_owner :
    ℕ
    → String
    → ℕ
    → List String
    → List String
    → List String
    → Both
    → Result Error (Bool × Option RunRow) × RunStorage
unfolding find_task mem_text has_newer get_run conditional_update_run
rollback_run_if_task_owner now celery run_id types stages rejected (runs, tasks) =
    rollback_by now run_id types stages rejected (find_task celery tasks) (runs, tasks)
