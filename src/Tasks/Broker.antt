-- ===== src/Tasks/Broker.antt =====
-- packages/creator-service/creator_service/memory_task_tracking_storage.py: the epochs of the broker, the lists of
-- tasks, and the promotion of a pending task.
use short_form_studio.Prelude.{
  ℕ, ◌==◌, String, Bool, true, false, not, ◌||◌, ◌&&◌, Option, none, some, List, [], ◌∷◌, str_eq,
  if◌then◌else◌,
}
use short_form_studio.Run.Storage.{mem_text}
use short_form_studio.Tasks.Row.{
  TaskRow, TaskStorage, row_id_of, active, is_text, same_option, guarded, guarded_id,
}

-- the first row of this Celery id, with its key
unfoldable pub find_celery : String → List (ℕ × TaskRow) → Option (ℕ × TaskRow)
unfolding is_text
find_celery celery_task_id [] = none
find_celery celery_task_id ((k, row) ∷ rest) =
    if is_text row.celery_task_id celery_task_id
    then some (k, row)
    else find_celery celery_task_id rest

abbrev pub second {ℓ κ} : {A : Type ℓ} {B : Type κ} → Option (A × B) → Option B
second none = none
second (some (a, b)) = some b

abbrev pub first {ℓ κ} : {A : Type ℓ} {B : Type κ} → Option (A × B) → Option A
first none = none
first (some (a, b)) = some a

unfoldable pub get_by_celery_id : String → TaskStorage → Option TaskRow
unfolding find_celery
get_by_celery_id celery_task_id s = second (find_celery celery_task_id s.rows)

-- the id by the dictionary, and else by the rows
abbrev pub id_or_search : String → Option ℕ → TaskStorage → Option ℕ
id_or_search celery_task_id none s = first (find_celery celery_task_id s.rows)
id_or_search celery_task_id (some k) s = some k

unfoldable pub promote_pending_to_queued : String → TaskStorage → Option TaskRow × TaskStorage
unfolding row_id_of find_celery guarded
promote_pending_to_queued celery_task_id s =
    guarded_id (id_or_search celery_task_id (row_id_of celery_task_id s.by_celery) s)
      (λ row. str_eq row.status "pending") (λ row. record row { status = "queued" }) s

-- row["celery_task_id"], where it is a text that is not empty
abbrev pub non_empty : Option String → List String → List String
non_empty none rest = rest
non_empty (some c) rest = if str_eq c "" then rest else c ∷ rest

unfoldable pub active_ids : ℕ → List (ℕ × TaskRow) → List String
unfolding mem_text
active_ids run_id [] = []
active_ids run_id ((k, row) ∷ rest) =
    let others = active_ids run_id rest in
    if row.run_id == run_id && mem_text row.status active
    then non_empty row.celery_task_id others
    else others

unfoldable pub get_active_celery_ids : ℕ → TaskStorage → List String
unfolding active_ids
get_active_celery_ids run_id s = active_ids run_id s.rows

-- the first epoch is given to the active rows that have none
unfoldable pub assign_epoch : String → List (ℕ × TaskRow) → List (ℕ × TaskRow)
unfolding mem_text
assign_epoch epoch [] = []
assign_epoch epoch ((k, row) ∷ rest) =
    (
      k,
      if mem_text row.status active
          then record row {
            broker_generation = elim row.broker_generation [ none ↦ some epoch | some g ↦ some g ];
          }
          else row,
    )
    ∷ assign_epoch epoch rest

-- set.update(generation for generation in generations if generation != epoch)
unfoldable pub add_generations : String → List String → List String → List String
unfolding mem_text
add_generations epoch [] pending = pending
add_generations epoch (g ∷ rest) pending =
    let more = if str_eq g epoch || mem_text g pending then pending else g ∷ pending in
    add_generations epoch rest more

-- `set_observed_broker_epoch`, by the epoch observed before
abbrev pub set_epoch :
    String → Option String → List String → Option String → TaskStorage → Bool × TaskStorage
set_epoch epoch (some expected) generations none s = (false, s)
set_epoch epoch none generations none s =
    (true, record s { rows = assign_epoch epoch s.rows; observed_broker_epoch = some epoch })
set_epoch epoch expected generations (some observed) s =
    if not (same_option (some observed) expected) then (false, s) else (
      true,
      record s {
        pending_cleanup =
            if same_option (some epoch) expected
            then s.pending_cleanup
            else add_generations epoch (observed ∷ generations) s.pending_cleanup;
        observed_broker_epoch = some epoch;
      },
    )

unfoldable pub set_observed_broker_epoch :
    String → Option String → List String → TaskStorage → Bool × TaskStorage
unfolding assign_epoch add_generations same_option
set_observed_broker_epoch epoch expected generations s =
    set_epoch epoch expected generations s.observed_broker_epoch s

-- row.get("broker_generation") == generation, of an active row
unfoldable pub has_active : String → List (ℕ × TaskRow) → Bool
unfolding is_text mem_text
has_active generation [] = false
has_active generation ((k, row) ∷ rest) =
    (is_text row.broker_generation generation && mem_text row.status active)
    || has_active generation rest

-- set.discard(generation)
unfoldable pub discard : String → List String → List String
discard generation [] = []
discard generation (g ∷ rest) =
    let others = discard generation rest in if str_eq g generation then others else g ∷ others

unfoldable pub complete_broker_cleanup : String → TaskStorage → Bool × TaskStorage
unfolding has_active discard
complete_broker_cleanup generation s =
    if has_active generation s.rows
    then (false, s)
    else (true, record s { pending_cleanup = discard generation s.pending_cleanup })
