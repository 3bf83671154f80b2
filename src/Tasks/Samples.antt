-- ===== src/Tasks/Samples.antt =====
-- The storage of tasks at concrete inputs.
use short_form_studio.Prelude.{
  String, ◌≡◌, ◌≢◌, refl, eq_iff, Bool, true, false, Option, none, some, List, [], ◌∷◌,
}
use short_form_studio.Prelude.Checked.{Result, err}
use short_form_studio.Prelude.Dict
use short_form_studio.Errors.{Error, value_error, text}
use short_form_studio.Run.Stage.{stage_value, RunStage, script_generating, idea_ready}
use short_form_studio.Run.Row.{RunRow, Update, to_current_stage}
use short_form_studio.Run.Storage.{RunStorage, empty}
use short_form_studio.Run.Storage as Storage
use short_form_studio.Run.Operations as Operations
use short_form_studio.Run.ServiceOther.{new_row}
use short_form_studio.Tasks.Row.{write, TaskRow, TaskStorage, no_tasks, row_id_of}
use short_form_studio.Tasks.Storage.{NewTask, create_task}
use short_form_studio.Tasks.Claims.{finish_if_claimed, Claim, claim_running}
use short_form_studio.Tasks.Kept.{Preserves, Fresh}
use short_form_studio.Tasks.Sequences.{
  TaskOp, creating, finishing, promoting, perform_all, perform_all-Preserves, no_tasks-Fresh,
}
use short_form_studio.Tasks.Fencing.{HeldAt}
use short_form_studio.Tasks.Finish.{finish_if_claimed-once}
use short_form_studio.Tasks.Exclusive.{claim_running-exclusive}
use short_form_studio.Tasks.Ownership.{
  transition_run_and_create_pending, rollback_run_if_task_owner,
}
use short_form_studio.Tasks.Atomic.{SameRows, transition_run_and_create_pending-atomic}

-- a task of run 1, whose Celery id is `celery`
abbrev script_task : String → NewTask
script_task celery = record {
  run_id = 1;
  task_type = "generate_script";
  celery_task_id = some celery;
  status = some "pending";
  claim_token = none;
  started_at = none;
  broker_generation = none;
}

abbrev one_task : TaskStorage
one_task = perform_all (creating 5 (script_task "c1") ∷ []) no_tasks

one_task-Fresh : Fresh one_task
one_task-Fresh =
    (perform_all-Preserves (creating 5 (script_task "c1") ∷ []) no_tasks no_tasks-Fresh).0

abbrev promoted : List TaskOp
promoted = promoting "c1" ∷ creating 6 (script_task "c2") ∷ []

perform_all-Preserves_example :
    Fresh (perform_all promoted one_task) × Preserves one_task (perform_all promoted one_task)
perform_all-Preserves_example = perform_all-Preserves promoted one_task one_task-Fresh

abbrev by_t1 : Claim
by_t1 = record {
  expected_claim_token = none;
  claim_token = some "t1";
  started_at = some (some 7);
  attempt = none;
}

abbrev claimed_row : TaskRow
claimed_row = record {
  id = 1;
  run_id = 1;
  task_type = "generate_script";
  celery_task_id = some "c1";
  status = "running";
  attempt = 1;
  created_at = 5;
  started_at = some 7;
  finished_at = none;
  error_code = none;
  error_message = none;
  claim_token = some "t1";
  broker_generation = none;
}

abbrev after_claim : TaskStorage
after_claim = (claim_running 1 by_t1 one_task).1

claims : claim_running 1 by_t1 one_task ≡ (some claimed_row, after_claim)
unfolding claim_running perform_all create_task Dict.put
claims = refl

-- another worker tries to finish with its own token
abbrev rivals : List TaskOp
rivals = finishing 8 "c1" "t2" "success" none none ∷ creating 9 (script_task "c1") ∷ []

abbrev mine : String
mine = "t1"

abbrev theirs : String
theirs = "t2"

tokens_differ : mine ≢ theirs
tokens_differ e = let same : false ≡ true = (eq_iff mine theirs).1 e in cc

claim_running-exclusive_example :
    HeldAt "t1" 1 (perform_all rivals after_claim)
    × ((c' : Claim)
        → claim_running 1 c' (perform_all rivals after_claim)
          ≡ (none, perform_all rivals after_claim))
claim_running-exclusive_example =
    claim_running-exclusive "t1" 1 by_t1 one_task after_claim claimed_row rivals one_task-Fresh refl
      claims (tokens_differ, (tt, tt))

abbrev any : String → Bool
any json = true

abbrev one_run : RunStage → RunStorage
one_run stage =
    Operations.perform_all
      (Operations.creating 5 (new_row any 3 none stage "running" none none "plain") ∷ []) empty

-- the pending task cannot be created, since a task of its Celery id is running
abbrev generating : List Update
generating = to_current_stage (some "SCRIPT_GENERATING") ∷ []

abbrev refusal : Result Error (Bool × Option RunRow)
refusal = err (value_error (text "Pending task ownership already exists"))

abbrev restored_runs : RunStorage
restored_runs =
    (transition_run_and_create_pending 9 1 generating ("IDEA_READY" ∷ []) (script_task "c1") none []
      (one_run idea_ready, after_claim)).1.0

transition_refused :
    transition_run_and_create_pending 9 1 generating
      ("IDEA_READY" ∷ [])
      (script_task "c1")
      none
      []
      (one_run idea_ready, after_claim)
    ≡ (refusal, (restored_runs, after_claim))
unfolding transition_run_and_create_pending Operations.perform_all Storage.create_run claim_running
    perform_all create_task Dict.put Dict.get stage_value
transition_refused = refl

transition_run_and_create_pending-atomic_example :
    SameRows (one_run idea_ready) restored_runs × (after_claim ≡ after_claim)
transition_run_and_create_pending-atomic_example =
    transition_run_and_create_pending-atomic 9 1 generating ("IDEA_READY" ∷ []) none []
      (one_run idea_ready) (script_task "c1") after_claim after_claim refusal restored_runs refl
      transition_refused

abbrev failed_runs : RunStorage
failed_runs =
    (rollback_run_if_task_owner 9 "c1" 1 ("generate_script" ∷ []) ("SCRIPT_GENERATING" ∷ []) []
      (one_run script_generating, after_claim)).1

claimed_there : Dict.get 1 after_claim.rows ≡ some claimed_row
unfolding claim_running perform_all create_task Dict.put
claimed_there = refl

claim_held : HeldAt "t1" 1 after_claim
claim_held = record {
  row = claimed_row;
  here = claimed_there;
  held = record { running = refl; by_token = refl; clean = refl };
}

celery_there : row_id_of "c1" after_claim.by_celery ≡ some 1
unfolding perform_all claim_running create_task row_id_of
celery_there = refl

finish_if_claimed-once_example :
    (row : TaskRow) × (finish_if_claimed 9 "c1" "t1" "success" none none after_claim
      ≡ (some row, write 1 row after_claim))
    × (row.status ≡ "success")
    × (row.claim_token ≡ none)
    × (finish_if_claimed 10 "c1" "t1" "failed" none none (write 1 row after_claim)
        ≡ (none, write 1 row after_claim))
finish_if_claimed-once_example =
    finish_if_claimed-once "t1" "c1" 1 9 "success" none none after_claim claim_held celery_there 10
      "failed" none none
