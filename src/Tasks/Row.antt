-- ===== src/Tasks/Row.antt =====
-- packages/creator-service/creator_service/memory_task_tracking_storage.py: the rows of
-- `InMemoryTaskTrackingStorage`, and its two dictionaries.
use short_form_studio.Prelude.{
  ℕ, String, Bool, true, false, Option, none, some, List, [], ◌∷◌, str_eq, if◌then◌else◌,
}
use short_form_studio.Prelude.Dict
use short_form_studio.Run.Storage.{mem_text}

pub record TaskRow : Type 0 where
  pub id : ℕ
  pub run_id : ℕ
  pub task_type : String
  pub celery_task_id : Option String
  pub status : String
  pub attempt : ℕ
  pub created_at : ℕ
  pub started_at : Option ℕ
  pub finished_at : Option ℕ
  pub error_code : Option String
  pub error_message : Option String
  pub claim_token : Option String
  pub broker_generation : Option String

pub record TaskStorage : Type 0 where
  -- `_rows`
  pub rows : List (ℕ × TaskRow)
  -- `_rows_by_celery_task_id`
  pub by_celery : List (String × ℕ)
  pub next_id : ℕ
  pub observed_broker_epoch : Option String
  -- a set: each generation once
  pub pending_cleanup : List String

-- `__init__`
abbrev pub no_tasks : TaskStorage
no_tasks = record {
  rows = [];
  by_celery = [];
  next_id = 1;
  observed_broker_epoch = none;
  pending_cleanup = [];
}

-- `_rows_by_celery_task_id.get(celery_task_id)`
unfoldable pub row_id_of : String → List (String × ℕ) → Option ℕ
row_id_of key [] = none
row_id_of key ((k, id) ∷ rest) = if str_eq k key then some id else row_id_of key rest

-- `_rows_by_celery_task_id[celery_task_id] = id`
unfoldable pub put_row_id : String → ℕ → List (String × ℕ) → List (String × ℕ)
put_row_id key id [] = (key, id) ∷ []
put_row_id key id ((k, old) ∷ rest) =
    if str_eq k key then (key, id) ∷ rest else (k, old) ∷ put_row_id key id rest

-- value in {...}, for a value that may be None
unfoldable pub mem_option : Option String → List String → Bool
unfolding mem_text
mem_option none texts = false
mem_option (some x) texts = mem_text x texts

-- the error codes of a row that the reconciler or the broker's recovery holds
abbrev pub cleanup_pending : List String
cleanup_pending =
    "reconciler_pending_cleanup" ∷ "reconciler_stuck_cleanup" ∷ "broker_recovery_cleanup" ∷ []

abbrev pub cleanup_codes : List String
cleanup_codes =
    "reconciler_pending_cleanup" ∷ "reconciler_stuck_cleanup" ∷ "reconciler_cleanup_claimed"
    ∷ "broker_recovery_cleanup" ∷ "broker_message_lost" ∷ []

abbrev pub active : List String
active = "pending" ∷ "queued" ∷ "running" ∷ []

-- value == text, for a value that may be None
unfoldable pub is_text : Option String → String → Bool
is_text none t = false
is_text (some x) t = str_eq x t

-- a == b
unfoldable pub same_option : Option String → Option String → Bool
same_option none none = true
same_option (some x) (some y) = str_eq x y
same_option _ _ = false

abbrev pub write : ℕ → TaskRow → TaskStorage → TaskStorage
write k row s = record s { rows = Dict.put k row s.rows }

-- the shape of the operations on one row: read it, ask a test of it, and change it
abbrev pub guarded_row :
    ℕ
    → (TaskRow → Bool)
    → (TaskRow → TaskRow)
    → Option TaskRow
    → TaskStorage
    → Option TaskRow × TaskStorage
guarded_row k test change none s = (none, s)
guarded_row k test change (some row) s =
    if test row then (some (change row), write k (change row) s) else (none, s)

unfoldable pub guarded :
    ℕ → (TaskRow → Bool) → (TaskRow → TaskRow) → TaskStorage → Option TaskRow × TaskStorage
unfolding Dict.get Dict.put
guarded k test change s = guarded_row k test change (Dict.get k s.rows) s

-- the same for the row of a Celery id; the dictionary has ids of rows only
abbrev pub guarded_id :
    Option ℕ → (TaskRow → Bool) → (TaskRow → TaskRow) → TaskStorage → Option TaskRow × TaskStorage
guarded_id none test change s = (none, s)
guarded_id (some k) test change s = guarded k test change s

unfoldable pub guarded_celery :
    String → (TaskRow → Bool) → (TaskRow → TaskRow) → TaskStorage → Option TaskRow × TaskStorage
unfolding row_id_of guarded
guarded_celery celery_task_id test change s =
    guarded_id (row_id_of celery_task_id s.by_celery) test change s
