-- ===== src/Tasks/Storage.antt =====
-- packages/creator-service/creator_service/memory_task_tracking_storage.py: `create_task` and the
-- updates of a task's status.
use short_form_studio.Prelude.{
  ℕ, ◌+◌, String, Bool, not, ◌||◌, ◌&&◌, Option, none, some, List, [], ◌∷◌, str_eq, if◌then◌else◌,
}
use short_form_studio.Prelude.Dict
use short_form_studio.Run.Storage.{mem_text}
use short_form_studio.Tasks.Row.{
  TaskRow, TaskStorage, row_id_of, put_row_id, mem_option, cleanup_codes, active, guarded,
  guarded_celery,
}

-- the row that `create_task` is given: `none` stands for a key that it does not have
pub record NewTask : Type 0 where
  pub run_id : ℕ
  pub task_type : String
  pub celery_task_id : Option String
  pub status : Option String
  pub claim_token : Option String
  pub started_at : Option ℕ
  pub broker_generation : Option String

abbrev pub get_or {ℓ} : {A : Type ℓ} → A → Option A → A
get_or default none = default
get_or default (some x) = x

-- the keyword arguments: of the times, whether they are given at all
pub record Changes : Type 0 where
  pub started_at : Option (Option ℕ)
  pub finished_at : Option (Option ℕ)
  pub attempt : Option ℕ
  pub error_code : Option String
  pub error_message : Option String

-- the existing row is not taken over
unfoldable pub is_held : TaskRow → Bool
unfolding mem_text mem_option
is_held row =
    mem_text row.status ("success" ∷ "running" ∷ []) || mem_option row.error_code cleanup_codes

abbrev pub regenerated : NewTask → TaskRow → TaskRow
regenerated new row = record row {
  broker_generation = elim new.broker_generation [ none ↦ row.broker_generation | some g ↦ some g ];
}

-- the existing row of the same Celery id, with the incoming status
unfoldable pub taken_over : NewTask → TaskRow → TaskRow
taken_over new old =
    let row = regenerated new (record old { status = get_or "queued" new.status }) in
    if str_eq row.status "queued"
    then record row {
      claim_token = none;
      attempt = row.attempt + 1;
      started_at = none;
      finished_at = none;
      error_code = none;
      error_message = none;
    }
    else if str_eq row.status "running"
    then record row {
      claim_token = new.claim_token;
      started_at = new.started_at;
      finished_at = none;
      error_code = none;
      error_message = none;
    }
    else row

unfoldable pub saved_task : ℕ → ℕ → NewTask → TaskRow
saved_task now id new = record {
  id = id;
  run_id = new.run_id;
  task_type = new.task_type;
  celery_task_id = new.celery_task_id;
  status = get_or "queued" new.status;
  attempt = 1;
  created_at = now;
  started_at = new.started_at;
  finished_at = none;
  error_code = none;
  error_message = none;
  claim_token = new.claim_token;
  broker_generation = new.broker_generation;
}

abbrev pub put_celery : Option String → ℕ → List (String × ℕ) → List (String × ℕ)
put_celery none id index = index
put_celery (some c) id index = put_row_id c id index

unfoldable pub add_task : ℕ → NewTask → TaskStorage → Option TaskRow × TaskStorage
unfolding saved_task put_row_id Dict.put
add_task now new s = (
  some (saved_task now s.next_id new),
  record s {
    rows = Dict.put s.next_id (saved_task now s.next_id new) s.rows;
    by_celery = put_celery new.celery_task_id s.next_id s.by_celery;
    next_id = s.next_id + 1;
  },
)

-- the row id of the row's Celery id, if it has one
abbrev pub existing_id : NewTask → TaskStorage → Option ℕ
existing_id new s = elim new.celery_task_id [ none ↦ none | some c ↦ row_id_of c s.by_celery ]

abbrev pub create_at : ℕ → NewTask → Option ℕ → TaskStorage → Option TaskRow × TaskStorage
create_at now new none s = add_task now new s
create_at now new (some k) s = guarded k (λ row. not (is_held row)) (taken_over new) s

unfoldable pub create_task : ℕ → NewTask → TaskStorage → Option TaskRow × TaskStorage
unfolding row_id_of add_task guarded is_held taken_over
create_task now new s = create_at now new (existing_id new s) s

-- the fields that the keyword arguments set
unfoldable pub changed : String → Changes → TaskRow → TaskRow
changed status c row = record row {
  status = status;
  started_at = get_or row.started_at c.started_at;
  finished_at = get_or row.finished_at c.finished_at;
  attempt = get_or row.attempt c.attempt;
  error_code = c.error_code;
  error_message = c.error_message;
}

unfoldable pub update_task_status :
    ℕ → String → Changes → TaskStorage → Option TaskRow × TaskStorage
unfolding guarded changed
update_task_status task_id status c s =
    guarded task_id
      (λ row.
        not (str_eq row.status "success")
        && not (str_eq status "running" && str_eq row.status "running"))
      (changed status c) s

unfoldable pub update_task_status_if_running :
    ℕ → String → Changes → TaskStorage → Option TaskRow × TaskStorage
unfolding guarded changed
update_task_status_if_running task_id status c s =
    guarded task_id (λ row. str_eq row.status "running") (changed status c) s

-- the fields of an update that ends the task
unfoldable pub ended : String → Option ℕ → Option String → Option String → TaskRow → TaskRow
ended status finished_at error_code error_message row = record row {
  status = status;
  finished_at = finished_at;
  error_code = error_code;
  error_message = error_message;
}

unfoldable pub update_task_status_if_pending :
    ℕ
    → String
    → Option ℕ
    → Option String
    → Option String
    → TaskStorage
    → Option TaskRow × TaskStorage
unfolding guarded ended
update_task_status_if_pending task_id status finished_at error_code error_message s =
    guarded task_id (λ row. str_eq row.status "pending")
      (ended status finished_at error_code error_message) s

abbrev pub released : TaskRow → TaskRow
released row = record row { claim_token = none }

unfoldable pub update_task_status_if_active :
    String
    → String
    → Option ℕ
    → Option String
    → Option String
    → TaskStorage
    → Option TaskRow × TaskStorage
unfolding guarded_celery mem_text ended
update_task_status_if_active celery_task_id status finished_at error_code error_message s =
    guarded_celery celery_task_id (λ row. mem_text row.status active)
      (λ row. released (ended status finished_at error_code error_message row)) s
