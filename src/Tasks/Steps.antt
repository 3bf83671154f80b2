-- ===== src/Tasks/Steps.antt =====
-- The operations of `InMemoryTaskTrackingStorage` in any order: what they keep.
use short_form_studio.Prelude.{
  ℕ, ◌<◌, String, ◌≡◌, refl, subst, Bool, true, false, not, ◌||◌, ◌&&◌, Option, none, some, [], ◌∷◌,
  inl, inr, str_eq, arith, Bool-cases,
}
use short_form_studio.Prelude.Dict
use short_form_studio.Prelude.Dict.{get-put, put-cases}
use short_form_studio.Run.Storage.{mem_text}
use short_form_studio.Tasks.Row.{TaskRow, TaskStorage, mem_option, active, cleanup_codes}
use short_form_studio.Tasks.Storage.{
  NewTask, Changes, is_held, taken_over, saved_task, add_task, get_or, released, existing_id,
  create_at, create_task, changed, update_task_status, update_task_status_if_running, ended,
  update_task_status_if_pending, update_task_status_if_active,
}
use short_form_studio.Tasks.Kept.{Keeps, Keeps-refl, Safe, guarded-Safe, guarded_celery-Safe}

-- a change of a row that is no success, of other fields than its run, type and Celery id
pub of_unfinished :
    (row row' : TaskRow)
    → row'.run_id ≡ row.run_id
    → row'.task_type ≡ row.task_type
    → row'.celery_task_id ≡ row.celery_task_id
    → (row.status ≡ "success" → ⊥)
    → Keeps row row'
of_unfinished row row' r t c unfinished = record {
  same_run = r;
  same_type = t;
  same_celery = c;
  final = λ h. absurd (unfinished h);
}

-- a test of the status that a success does not pass
pub no_success :
    (test : String → Bool)
    → test "success" ≡ false
    → (status : String) → test status ≡ true
    → status ≡ "success"
    → ⊥
no_success test fails status passes h =
    let passes' : test "success" ≡ true = subst (λ x. test x ≡ true) h passes in cc

not_held : (row : TaskRow) → not (is_held row) ≡ true → row.status ≡ "success" → ⊥
unfolding is_held mem_text
not_held row =
    no_success
      (λ x.
        not (mem_text x ("success" ∷ "running" ∷ []) || mem_option row.error_code cleanup_codes))
      refl row.status

taken_over-Keeps :
    (new : NewTask) (row : TaskRow) → not (is_held row) ≡ true → Keeps row (taken_over new row)
unfolding taken_over
taken_over-Keeps new row h = elim (Bool-cases (str_eq (get_or "queued" new.status) "queued")) [
  | inl e ↦ rw e (of_unfinished row _ refl refl refl (not_held row h))
  | inr e ↦ rw e (elim (Bool-cases (str_eq (get_or "queued" new.status) "running")) [
    | inl r ↦ rw r (of_unfinished row _ refl refl refl (not_held row h))
    | inr r ↦ rw r (of_unfinished row _ refl refl refl (not_held row h))
  ])
]

pub add_task-Safe : (now : ℕ) (new : NewTask) (s : TaskStorage) → Safe s (add_task now new s).1
unfolding add_task
add_task-Safe now new s f = (
  λ k row h. elim (put-cases s.next_id k (saved_task now s.next_id new) row s.rows h) [
    | inl (e, same) ↦ omega (arith, e)
    | inr old ↦ omega (arith, f k row old)
  ],
  record {
    ids = λ k lt. omega (arith, lt);
    rows = λ k row h. (row, kept_behind k row h (f k row h), Keeps-refl row);
  },
)
  where
    kept_behind :
        (k : ℕ) (row : TaskRow)
        → Dict.get k s.rows ≡ some row
        → k < s.next_id
        → Dict.get k (Dict.put s.next_id (saved_task now s.next_id new) s.rows) ≡ some row
    kept_behind k row h lt =
        ground (arith, get-put s.next_id k (saved_task now s.next_id new) s.rows)

pub create_task-Safe :
    (now : ℕ) (new : NewTask) (s : TaskStorage) → Safe s (create_task now new s).1
unfolding create_task
create_task-Safe now new s = at (existing_id new s)
  where
    at : (m : Option ℕ) → Safe s (create_at now new m s).1
    at none = add_task-Safe now new s
    at (some k) =
        guarded-Safe k (λ row. not (is_held row)) (taken_over new) s (taken_over-Keeps new)

-- A change that does not touch a success, through each of the tests.
pub unfinished_test :
    (test : String → Bool) (change : TaskRow → TaskRow)
    → test "success" ≡ false
    → ((row : TaskRow) → (change row).run_id ≡ row.run_id)
    → ((row : TaskRow) → (change row).task_type ≡ row.task_type)
    → ((row : TaskRow) → (change row).celery_task_id ≡ row.celery_task_id)
    → (row : TaskRow) → test row.status ≡ true
    → Keeps row (change row)
unfinished_test test change fails r t c row passes =
    of_unfinished row (change row) (r row) (t row) (c row) (no_success test fails row.status passes)

pub update_task_status-Safe :
    (task_id : ℕ) (status : String) (c : Changes) (s : TaskStorage)
    → Safe s (update_task_status task_id status c s).1
unfolding update_task_status changed
update_task_status-Safe task_id status c s = guarded-Safe task_id _ (changed status c) s (
    unfinished_test
      (λ x. not (str_eq x "success") && not (str_eq status "running" && str_eq x "running"))
      (changed status c) refl (λ row. refl) (λ row. refl) (λ row. refl))

pub update_task_status_if_running-Safe :
    (task_id : ℕ) (status : String) (c : Changes) (s : TaskStorage)
    → Safe s (update_task_status_if_running task_id status c s).1
unfolding update_task_status_if_running changed
update_task_status_if_running-Safe task_id status c s =
    guarded-Safe task_id _ (changed status c) s (
      unfinished_test (λ x. str_eq x "running") (changed status c) refl (λ row. refl) (λ row. refl)
        (λ row. refl))

pub update_task_status_if_pending-Safe :
    (task_id : ℕ) (status : String) (finished : Option ℕ) (code message : Option String)
    (s : TaskStorage)
    → Safe s (update_task_status_if_pending task_id status finished code message s).1
unfolding update_task_status_if_pending ended
update_task_status_if_pending-Safe task_id status finished code message s =
    guarded-Safe task_id _ (ended status finished code message) s (
      unfinished_test (λ x. str_eq x "pending") (ended status finished code message) refl
        (λ row. refl) (λ row. refl) (λ row. refl))

pub update_task_status_if_active-Safe :
    (celery_task_id status : String) (finished : Option ℕ) (code message : Option String)
    (s : TaskStorage)
    → Safe s (update_task_status_if_active celery_task_id status finished code message s).1
unfolding update_task_status_if_active ended mem_text
update_task_status_if_active-Safe celery_task_id status finished code message s =
    guarded_celery-Safe celery_task_id _ (λ row. released (ended status finished code message row))
      s
      (unfinished_test (λ x. mem_text x active)
        (λ row. released (ended status finished code message row)) refl (λ row. refl) (λ row. refl)
        (λ row. refl))
