-- ===== src/Tasks/Lists.antt =====
-- packages/creator-service/creator_service/memory_task_tracking_storage.py: the lists that the
-- reconciler, the broker's recovery and the API read.
use Prim.Native.String.{compare}
use Prim.Native.Nat.{Ordering}
use short_form_studio.Prelude.{
  ℕ, ◌+◌, ltb, leb, ◌==◌, String, Bool, true, false, ◌&&◌, ◌||◌, Option, none, some, List, [], ◌∷◌,
  str_eq, if◌then◌else◌,
}
use short_form_studio.Run.Storage.{mem_text}
use short_form_studio.Tasks.Row.{TaskRow, TaskStorage, mem_option}

module _ {ℓ} {A : Type ℓ} (goes_before : A → A → Bool) where
  unfoldable pub insert_sorted : A → List A → List A
  insert_sorted a [] = a ∷ []
  insert_sorted a (b ∷ rest) =
      let after = insert_sorted a rest in if goes_before a b then a ∷ (b ∷ rest) else b ∷ after

  -- a stable sort, as Python's
  unfoldable pub sort_rows : List A → List A
  unfolding insert_sorted
  sort_rows [] = []
  sort_rows (a ∷ rest) = insert_sorted a (sort_rows rest)

unfoldable pub rows_where : (TaskRow → Bool) → List (ℕ × TaskRow) → List TaskRow
rows_where test [] = []
rows_where test ((k, row) ∷ rest) =
    let others = rows_where test rest in if test row then row ∷ others else others

abbrev pub newer : TaskRow → TaskRow → Bool
newer a b = leb b.id a.id

unfoldable pub list_by_run : ℕ → TaskStorage → List TaskRow
unfolding sort_rows rows_where
list_by_run run_id s = sort_rows newer (rows_where (λ row. row.run_id == run_id) s.rows)

-- a time that is set and more than `seconds` before `now`
abbrev pub older_than : ℕ → ℕ → Option ℕ → Bool
older_than now seconds none = false
older_than now seconds (some at) = ltb (at + seconds) now

-- `row.get("started_at") or datetime.min`
abbrev pub or_min : Option ℕ → ℕ
or_min none = 0
or_min (some at) = at

abbrev pub started_first : TaskRow → TaskRow → Bool
started_first a b = leb (or_min a.started_at) (or_min b.started_at)

unfoldable pub is_stuck : ℕ → ℕ → TaskRow → Bool
is_stuck now seconds row = str_eq row.status "running" && older_than now seconds row.started_at

unfoldable pub list_stuck_tasks : ℕ → ℕ → TaskStorage → List TaskRow
unfolding sort_rows rows_where is_stuck
list_stuck_tasks now seconds s = sort_rows started_first (rows_where (is_stuck now seconds) s.rows)

abbrev pub created_first : TaskRow → TaskRow → Bool
created_first a b = leb a.created_at b.created_at

unfoldable pub is_stale : ℕ → ℕ → TaskRow → Bool
is_stale now seconds row = str_eq row.status "pending" && ltb (row.created_at + seconds) now

unfoldable pub list_stale_pending_tasks : ℕ → ℕ → TaskStorage → List TaskRow
unfolding sort_rows rows_where is_stale
list_stale_pending_tasks now seconds s =
    sort_rows created_first (rows_where (is_stale now seconds) s.rows)

unfoldable pub awaits_cleanup : ℕ → ℕ → TaskRow → Bool
unfolding mem_option
awaits_cleanup now lease row =
    str_eq row.status "failed"
    && (mem_option row.error_code (
          "reconciler_pending_cleanup" ∷ "reconciler_stuck_cleanup" ∷ "broker_recovery_cleanup"
          ∷ [])
        || mem_option row.error_code ("reconciler_cleanup_claimed" ∷ [])
          && older_than now lease row.finished_at)

-- the rows that have no end come last
abbrev pub finished_first : TaskRow → TaskRow → Bool
finished_first a b = times_in_order a.finished_at b.finished_at
  where
    times_in_order : Option ℕ → Option ℕ → Bool
    times_in_order (some x) (some y) = leb x y
    times_in_order (some x) none = true
    times_in_order none (some y) = false
    times_in_order none none = true

unfoldable pub list_reconciliation_pending_tasks : ℕ → ℕ → TaskStorage → List TaskRow
unfolding sort_rows rows_where awaits_cleanup
list_reconciliation_pending_tasks now lease s =
    sort_rows finished_first (rows_where (awaits_cleanup now lease) s.rows)

unfoldable pub list_broker_recovery_tasks : TaskStorage → List TaskRow
unfolding sort_rows rows_where mem_text
list_broker_recovery_tasks s =
    sort_rows created_first
      (rows_where (λ row. mem_text row.status ("pending" ∷ "queued" ∷ "running" ∷ [])) s.rows)

abbrev pub text_first : String → String → Bool
text_first a b = elim (compare a b) [ Ordering.gt ↦ false | _ ↦ true ]

unfoldable pub list_pending_broker_cleanup_generations : TaskStorage → List String
unfolding sort_rows
list_pending_broker_cleanup_generations s = sort_rows text_first s.pending_cleanup
