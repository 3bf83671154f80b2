-- ===== src/Tasks/Sequences.antt =====
-- Any sequence of operations on tasks: what it keeps.
use short_form_studio.Prelude.{ℕ, String, Option, List, [], ◌∷◌}
use short_form_studio.Prelude.Dict
use short_form_studio.Tasks.Row.{TaskStorage, no_tasks}
use short_form_studio.Tasks.Storage.{
  NewTask, Changes, create_task, update_task_status, update_task_status_if_running,
  update_task_status_if_pending, update_task_status_if_active,
}
use short_form_studio.Tasks.Claims.{
  Claim, claim_running, finish_if_claimed, claim_reconciliation, finish_reconciliation,
  release_reconciliation,
}
use short_form_studio.Tasks.Broker.{
  promote_pending_to_queued, set_observed_broker_epoch, complete_broker_cleanup,
}
use short_form_studio.Tasks.Kept.{Preserves, Preserves-trans, Fresh, Safe, unchanged}
use short_form_studio.Tasks.Steps.{
  create_task-Safe, update_task_status-Safe, update_task_status_if_running-Safe,
  update_task_status_if_pending-Safe, update_task_status_if_active-Safe,
}
use short_form_studio.Tasks.ClaimSteps.{
  claim_running-Safe, finish_if_claimed-Safe, claim_reconciliation-Safe, finish_reconciliation-Safe,
  release_reconciliation-Safe, promote_pending_to_queued-Safe, set_observed_broker_epoch-Safe,
  complete_broker_cleanup-Safe,
}

-- the operations that change the storage, with the clock where they read it
pub data TaskOp : Type 0 where
  creating : ℕ → NewTask → TaskOp
  updating updating_if_running : ℕ → String → Changes → TaskOp
  updating_if_pending : ℕ → String → Option ℕ → Option String → Option String → TaskOp
  updating_if_active : String → String → Option ℕ → Option String → Option String → TaskOp
  claiming : ℕ → Claim → TaskOp
  finishing : ℕ → String → String → String → Option String → Option String → TaskOp
  claiming_cleanup : ℕ → ℕ → String → ℕ → TaskOp
  finishing_cleanup : String → String → String → String → TaskOp
  releasing_cleanup : String → String → TaskOp
  promoting : String → TaskOp
  observing : String → Option String → List String → TaskOp
  completing : String → TaskOp

unfoldable pub perform : TaskOp → TaskStorage → TaskStorage
perform (creating now new) s = (create_task now new s).1
perform (updating id status c) s = (update_task_status id status c s).1
perform (updating_if_running id status c) s = (update_task_status_if_running id status c s).1
perform (updating_if_pending id status finished code message) s =
    (update_task_status_if_pending id status finished code message s).1
perform (updating_if_active celery status finished code message) s =
    (update_task_status_if_active celery status finished code message s).1
perform (claiming id c) s = (claim_running id c s).1
perform (finishing now celery token status code message) s =
    (finish_if_claimed now celery token status code message s).1
perform (claiming_cleanup now id token lease) s = (claim_reconciliation now id token lease s).1
perform (finishing_cleanup celery token code message) s =
    (finish_reconciliation celery token code message s).1
perform (releasing_cleanup celery token) s = (release_reconciliation celery token s).1
perform (promoting celery) s = (promote_pending_to_queued celery s).1
perform (observing epoch expected generations) s =
    (set_observed_broker_epoch epoch expected generations s).1
perform (completing generation) s = (complete_broker_cleanup generation s).1

unfoldable pub perform_all : List TaskOp → TaskStorage → TaskStorage
unfolding perform
perform_all [] s = s
perform_all (op ∷ ops) s = perform_all ops (perform op s)

pub perform-Safe : (op : TaskOp) (s : TaskStorage) → Safe s (perform op s)
unfolding perform
perform-Safe (creating now new) s = create_task-Safe now new s
perform-Safe (updating id status c) s = update_task_status-Safe id status c s
perform-Safe (updating_if_running id status c) s = update_task_status_if_running-Safe id status c s
perform-Safe (updating_if_pending id status finished code message) s =
    update_task_status_if_pending-Safe id status finished code message s
perform-Safe (updating_if_active celery status finished code message) s =
    update_task_status_if_active-Safe celery status finished code message s
perform-Safe (claiming id c) s = claim_running-Safe id c s
perform-Safe (finishing now celery token status code message) s =
    finish_if_claimed-Safe now celery token status code message s
perform-Safe (claiming_cleanup now id token lease) s =
    claim_reconciliation-Safe now id token lease s
perform-Safe (finishing_cleanup celery token code message) s =
    finish_reconciliation-Safe celery token code message s
perform-Safe (releasing_cleanup celery token) s = release_reconciliation-Safe celery token s
perform-Safe (promoting celery) s = promote_pending_to_queued-Safe celery s
perform-Safe (observing epoch expected generations) s =
    set_observed_broker_epoch-Safe epoch expected generations s
perform-Safe (completing generation) s = complete_broker_cleanup-Safe generation s

-- Over any sequence of operations on tasks, where only given ids have rows: that stays so, each row stays under
-- its id with its run, type and Celery id, and a row with status "success" has that status at the end.
pub perform_all-Preserves :
    (ops : List TaskOp) (s : TaskStorage)
    → Fresh s
    → Fresh (perform_all ops s) × Preserves s (perform_all ops s)
unfolding perform_all
perform_all-Preserves [] s f = unchanged s f
perform_all-Preserves (op ∷ ops) s f =
    let (fresh, kept) = perform-Safe op s f in
    let (fresh', kept') = perform_all-Preserves ops (perform op s) fresh in
    (fresh', Preserves-trans kept kept')

pub no_tasks-Fresh : Fresh no_tasks
unfolding Dict.get
no_tasks-Fresh k row h = absurd (cc)
