-- ===== src/Tasks/Failing.antt =====
-- packages/creator-service/creator_service/memory_task_tracking_storage.py:
-- `fail_claimed_and_cancel_quota`, which changes the storages of runs, tasks and usage together.
use short_form_studio.Prelude.{
  ℕ, String, Bool, true, false, not, Option, none, some, List, [], ◌∷◌, if◌then◌else◌,
}
use short_form_studio.Prelude.Checked.{Result, ok, err}
use short_form_studio.Prelude.Dict
use short_form_studio.Prelude.Dict.{get-put}
use short_form_studio.Errors.{Error}
use short_form_studio.Run.Row.{Update, to_current_stage, to_status}
use short_form_studio.Run.Storage.{RunStorage, conditional_update_run}
use short_form_studio.Tasks.Row.{TaskRow, TaskStorage, row_id_of, write}
use short_form_studio.Tasks.Claims.{is_claimed_by}
use short_form_studio.Usage.Rows.{UsageStorage}
use short_form_studio.Usage.Owned.{Answer, cancel_owned, settle_owned, finalize_revoked_owned}

pub data BillingOutcome : Type 0 where
  not_started accounted unknown : BillingOutcome

pub record Stores : Type 0 where
  pub runs : RunStorage
  pub tasks : TaskStorage
  pub usage : UsageStorage

-- the arguments, less the storages; `run` is none where the run or its storage is not given
pub record Failure : Type 0 where
  pub celery_task_id : String
  pub token : String
  pub error_code : String
  pub error_message : String
  pub run : Option ℕ
  pub expected_stages : List String
  pub billing_outcome : Option BillingOutcome

-- match billing_outcome
unfoldable pub settle_by : Option BillingOutcome → String → UsageStorage → Answer Bool
unfolding cancel_owned settle_owned finalize_revoked_owned
settle_by none owner_id s = finalize_revoked_owned owner_id s
settle_by (some not_started) owner_id s = cancel_owned owner_id s
settle_by (some accounted) owner_id s = settle_owned owner_id false s
settle_by (some unknown) owner_id s = settle_owned owner_id true s

abbrev pub failed_row : ℕ → Failure → TaskRow → TaskRow
failed_row now f row = record row {
  status = "failed";
  claim_token = none;
  finished_at = some now;
  error_code = some f.error_code;
  error_message = some f.error_message;
}

abbrev pub rejected_statuses : List String
rejected_statuses = "failed" ∷ "cancelled" ∷ "completed" ∷ []

abbrev pub failed_run : List Update
failed_run = to_current_stage (some "FAILED") ∷ to_status "failed" ∷ []

-- the run's move to FAILED, where the run is given; a run that may not move is left
abbrev pub fail_run : ℕ → Failure → Option ℕ → RunStorage → Result Error (Unit {0}) × RunStorage
fail_run now f none runs = (ok tt, runs)
fail_run now f (some run_id) runs =
    let (answer, runs') =
      conditional_update_run now run_id failed_run f.expected_stages none rejected_statuses runs in
    (elim answer [ ok _ ↦ ok tt | err raised ↦ err raised ], runs')

-- what follows the settlement
abbrev pub fail_task :
    ℕ → Failure → ℕ → TaskRow → RunStorage → TaskStorage → Answer Bool → Result Error Bool × Stores
fail_task now f k row runs tasks (err raised, usage) =
    (err raised, record { runs = runs; tasks = tasks; usage = usage })
fail_task now f k row runs tasks (ok _, usage) =
    (ok true, record { runs = runs; tasks = write k (failed_row now f row) tasks; usage = usage })

abbrev pub after_run :
    ℕ
    → Failure
    → ℕ
    → TaskRow
    → TaskStorage
    → UsageStorage
    → Result Error (Unit {0}) × RunStorage
    → Result Error Bool × Stores
after_run now f k row tasks usage (err raised, runs) =
    (err raised, record { runs = runs; tasks = tasks; usage = usage })
after_run now f k row tasks usage (ok _, runs) =
    fail_task now f k row runs tasks (settle_by f.billing_outcome f.celery_task_id usage)

abbrev pub fail_row : ℕ → Failure → ℕ → Option TaskRow → Stores → Result Error Bool × Stores
fail_row now f k none s = (ok false, s)
fail_row now f k (some row) s =
    if not (is_claimed_by f.token row)
    then (ok false, s)
    else after_run now f k row s.tasks s.usage (fail_run now f f.run s.runs)

abbrev pub fail_found : ℕ → Failure → Option ℕ → Stores → Result Error Bool × Stores
fail_found now f none s = (ok false, s)
fail_found now f (some k) s = fail_row now f k (Dict.get k s.tasks.rows) s

unfoldable pub fail_claimed_and_cancel_quota : ℕ → Failure → Stores → Result Error Bool × Stores
unfolding row_id_of is_claimed_by conditional_update_run settle_by Dict.get Dict.put
fail_claimed_and_cancel_quota now f s =
    fail_found now f (row_id_of f.celery_task_id s.tasks.by_celery) s
