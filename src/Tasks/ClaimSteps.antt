-- ===== src/Tasks/ClaimSteps.antt =====
-- The claims of tasks and the broker's operations, and all operations in any order: what they keep.
use short_form_studio.Prelude.{
  ℕ, ◌==◌, String, ◌≡◌, refl, ap, Bool, true, ◌&&◌, Option, none, some, List, [], ◌∷◌, inl, inr,
  str_eq, if◌then◌else◌, arith, Bool-cases, some-injective,
}
use short_form_studio.Prelude.Dict
use short_form_studio.Prelude.Dict.{get-put, put-cases}
use short_form_studio.Run.Storage.{mem_text}
use short_form_studio.Tasks.Row.{TaskRow, TaskStorage, row_id_of, active, same_option}
use short_form_studio.Tasks.Storage.{released, ended}
use short_form_studio.Tasks.Claims.{
  Claim, may_claim, claimed, claim_running, is_claimed_by, finish_if_claimed, may_reconcile,
  reconciling, claim_reconciliation, reconciles, finish_reconciliation, unreconciled,
  release_reconciliation,
}
use short_form_studio.Tasks.Broker.{
  promote_pending_to_queued, id_or_search, assign_epoch, set_epoch, set_observed_broker_epoch,
  has_active, complete_broker_cleanup,
}
use short_form_studio.Tasks.Kept.{
  Keeps, Keeps-refl, Safe, unchanged, guarded-Safe, guarded_celery-Safe, guarded_id-Safe,
}
use short_form_studio.Tasks.Steps.{of_unfinished, no_success, unfinished_test}

and_left : (a b : Bool) → a && b ≡ true → a ≡ true
and_left a b h = ground (arith, h)

pub claim_running-Safe :
    (task_id : ℕ) (c : Claim) (s : TaskStorage) → Safe s (claim_running task_id c s).1
unfolding claim_running may_claim claimed mem_text
claim_running-Safe task_id c s = guarded-Safe task_id (may_claim c) (claimed c) s λ row h.
    of_unfinished row (claimed c row) refl refl refl (
      no_success (λ x. mem_text x ("pending" ∷ "queued" ∷ "failed" ∷ [])) refl row.status
        (and_left _ _ (and_left _ _ h)))

pub finish_if_claimed-Safe :
    (now : ℕ) (celery_task_id token status : String) (code message : Option String)
    (s : TaskStorage)
    → Safe s (finish_if_claimed now celery_task_id token status code message s).1
unfolding finish_if_claimed is_claimed_by ended
finish_if_claimed-Safe now celery_task_id token status code message s =
    guarded_celery-Safe celery_task_id (is_claimed_by token)
      (λ row. released (ended status (some now) code message row)) s
      λ row h.
        of_unfinished row (released (ended status (some now) code message row)) refl refl refl
          (no_success (λ x. str_eq x "running") refl row.status (and_left _ _ h))

pub claim_reconciliation-Safe :
    (now task_id : ℕ) (token : String) (lease : ℕ) (s : TaskStorage)
    → Safe s (claim_reconciliation now task_id token lease s).1
unfolding claim_reconciliation reconciling
claim_reconciliation-Safe now task_id token lease s =
    guarded-Safe task_id (may_reconcile now lease) (reconciling now token) s
      λ row h. record { same_run = refl; same_type = refl; same_celery = refl; final = λ e. e }

pub finish_reconciliation-Safe :
    (celery_task_id token code message : String) (s : TaskStorage)
    → Safe s (finish_reconciliation celery_task_id token code message s).1
unfolding finish_reconciliation
finish_reconciliation-Safe celery_task_id token code message s =
    guarded_celery-Safe celery_task_id (reconciles token) _ s
      λ row h. record { same_run = refl; same_type = refl; same_celery = refl; final = λ e. e }

pub release_reconciliation-Safe :
    (celery_task_id token : String) (s : TaskStorage)
    → Safe s (release_reconciliation celery_task_id token s).1
unfolding release_reconciliation unreconciled
release_reconciliation-Safe celery_task_id token s =
    guarded_celery-Safe celery_task_id _ unreconciled s
      λ row h. record { same_run = refl; same_type = refl; same_celery = refl; final = λ e. e }

pub promote_pending_to_queued-Safe :
    (celery_task_id : String) (s : TaskStorage)
    → Safe s (promote_pending_to_queued celery_task_id s).1
unfolding promote_pending_to_queued
promote_pending_to_queued-Safe celery_task_id s =
    guarded_id-Safe (id_or_search celery_task_id (row_id_of celery_task_id s.by_celery) s) _ _ s (
      unfinished_test (λ x. str_eq x "pending") (λ row. record row { status = "queued" }) refl
        (λ row. refl) (λ row. refl) (λ row. refl))

-- the row of the first epoch
abbrev pub in_epoch : String → TaskRow → TaskRow
in_epoch epoch row =
    if mem_text row.status active
    then record row {
      broker_generation = elim row.broker_generation [ none ↦ some epoch | some g ↦ some g ];
    }
    else row

pub get-assign_epoch :
    (epoch : String) (k : ℕ) (rows : List (ℕ × TaskRow)) (row : TaskRow)
    → Dict.get k rows ≡ some row
    → Dict.get k (assign_epoch epoch rows) ≡ some (in_epoch epoch row)
unfolding assign_epoch Dict.get
get-assign_epoch epoch k [] row h = absurd (cc)
get-assign_epoch epoch k ((j, x) ∷ rest) row h = elim (Bool-cases (j == k)) [
  | inl e ↦ rw e (ap (λ r. some (in_epoch epoch r)) (some-injective x row (rw e at h)))
  | inr e ↦ rw e (get-assign_epoch epoch k rest row (rw e at h))
]

assign_epoch-given :
    (epoch : String) (k : ℕ) (rows : List (ℕ × TaskRow)) (row : TaskRow)
    → Dict.get k (assign_epoch epoch rows) ≡ some row
    → (old : TaskRow) × (Dict.get k rows ≡ some old)
unfolding assign_epoch Dict.get
assign_epoch-given epoch k [] row h = absurd (cc)
assign_epoch-given epoch k ((j, x) ∷ rest) row h = elim (Bool-cases (j == k)) [
  | inl e ↦ rw e (x, refl)
  | inr e ↦ rw e (assign_epoch-given epoch k rest row (rw e at h))
]

in_epoch-Keeps : (epoch : String) (row : TaskRow) → Keeps row (in_epoch epoch row)
in_epoch-Keeps epoch row = elim (Bool-cases (mem_text row.status active)) [
  | inl e ↦ rw e (record { same_run = refl; same_type = refl; same_celery = refl; final = λ h. h })
  | inr e ↦ rw e (Keeps-refl row)
]

pub set_observed_broker_epoch-Safe :
    (epoch : String) (expected : Option String) (generations : List String) (s : TaskStorage)
    → Safe s (set_observed_broker_epoch epoch expected generations s).1
unfolding set_observed_broker_epoch
set_observed_broker_epoch-Safe epoch expected generations s =
    by_observed expected s.observed_broker_epoch
  where
    by_observed :
        (expected observed : Option String)
        → Safe s (set_epoch epoch expected generations observed s).1
    by_observed (some e) none = unchanged s
    by_observed none none = λ f. (
      λ k row h. let (old, there) = assign_epoch-given epoch k s.rows row h in f k old there,
      record {
        ids = λ k h. h;
        rows = λ k row h.
            (in_epoch epoch row, get-assign_epoch epoch k s.rows row h, in_epoch-Keeps epoch row);
      },
    )
    by_observed expected (some observed) =
        elim (Bool-cases (same_option (some observed) expected)) [
          | inl e ↦
              rw e (λ f. (f, record { ids = λ k h. h; rows = λ k row h. (row, h, Keeps-refl row) }))
          | inr e ↦ rw e (unchanged s)
        ]

pub complete_broker_cleanup-Safe :
    (generation : String) (s : TaskStorage) → Safe s (complete_broker_cleanup generation s).1
unfolding complete_broker_cleanup
complete_broker_cleanup-Safe generation s = elim (Bool-cases (has_active generation s.rows)) [
  | inl e ↦ rw e (unchanged s)
  | inr e ↦ rw e (λ f. (f, record { ids = λ k h. h; rows = λ k row h. (row, h, Keeps-refl row) }))
]
