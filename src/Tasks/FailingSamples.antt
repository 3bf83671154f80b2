-- ===== src/Tasks/FailingSamples.antt =====
-- The failing of a claimed task at concrete inputs.
use short_form_studio.Prelude.{ℕ, ◌≡◌, refl, true, false, none, some, [], ◌∷◌}
use short_form_studio.Prelude.Int.{◌+ℤ◌}
use short_form_studio.Prelude.Checked.{ok}
use short_form_studio.Prelude.Dict
use short_form_studio.Run.Storage.{empty}
use short_form_studio.Tasks.Row.{row_id_of, TaskRow, TaskStorage, write}
use short_form_studio.Tasks.Claims.{is_claimed_by}
use short_form_studio.Tasks.Failing.{
  Failure, Stores, settle_by, unknown, failed_row, fail_claimed_and_cancel_quota,
}
use short_form_studio.Tasks.Failed.{Settled, RunFailed, fail_claimed_and_cancel_quota-once}
use short_form_studio.Tasks.Lists.{list_stuck_tasks}
use short_form_studio.Usage.Rows.{Owner, reserved, none_reserved, UsageStorage, no_usage}
use short_form_studio.Usage.Owned.{settle_owned}

-- a running task whose token is "t1"
abbrev running : TaskRow
running = record {
  id = 1;
  run_id = 7;
  task_type = "generate_script";
  celery_task_id = some "c1";
  status = "running";
  attempt = 1;
  created_at = 3;
  started_at = some 5;
  finished_at = none;
  error_code = none;
  error_message = none;
  claim_token = some "t1";
  broker_generation = none;
}

abbrev one_running : TaskStorage
one_running = record {
  rows = (1, running) ∷ [];
  by_celery = ("c1", 1) ∷ [];
  next_id = 2;
  observed_broker_epoch = none;
  pending_cleanup = [];
}

-- its reservation of one call
abbrev reservation : Owner
reservation = record {
  workspace_id = 1;
  period_start = 0;
  operation_type = "llm";
  status = reserved;
  estimate = 90;
  settled_cost = 0;
}

abbrev reserved_once : UsageStorage
reserved_once = record no_usage {
  owned = ("c1", reservation) ∷ [];
  reservations = ((1, 0), none_reserved) ∷ [];
  owned_units = ("c1", 1) ∷ [];
}

abbrev stores : Stores
stores = record { runs = empty; tasks = one_running; usage = reserved_once }

abbrev lost : Failure
lost = record {
  celery_task_id = "c1";
  token = "t1";
  error_code = "worker_lost";
  error_message = "the worker is gone";
  run = none;
  expected_stages = [];
  billing_outcome = some unknown;
}

abbrev failed_stores : Stores
failed_stores = record {
  runs = empty;
  tasks = write 1 (failed_row 9 lost running) one_running;
  usage = (settle_by (some unknown) "c1" reserved_once).1;
}

fails : fail_claimed_and_cancel_quota 9 lost stores ≡ (ok true, failed_stores)
unfolding fail_claimed_and_cancel_quota settle_by settle_owned ◌+ℤ◌
fails = refl

fail_claimed_and_cancel_quota-once_example :
    (id : ℕ)
    × (row : TaskRow)
    × (row_id_of "c1" one_running.by_celery ≡ some id)
    × (Dict.get id one_running.rows ≡ some row)
    × (row.status ≡ "running")
    × (row.claim_token ≡ some "t1")
    × (failed_stores.tasks
        ≡ write id
            (record row {
              status = "failed";
              claim_token = none;
              finished_at = some 9;
              error_code = some "worker_lost";
              error_message = some "the worker is gone";
            })
            one_running)
    × Settled (some unknown) "c1" reserved_once failed_stores.usage
    × RunFailed 9 none [] empty failed_stores.runs
    × (fail_claimed_and_cancel_quota 12 lost failed_stores ≡ (ok false, failed_stores))
fail_claimed_and_cancel_quota-once_example =
    fail_claimed_and_cancel_quota-once 9 12 lost lost stores failed_stores fails refl

-- a task that has run for longer than the threshold is listed
stuck : list_stuck_tasks 20 10 one_running ≡ running ∷ []
unfolding list_stuck_tasks
stuck = refl
