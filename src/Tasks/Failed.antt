-- ===== src/Tasks/Failed.antt =====
-- packages/creator-service/creator_service/memory_task_tracking_storage.py: a task is failed, and its
-- reservation settled, once.
use short_form_studio.Prelude.{
  ℕ, String, ◌≡◌, refl, sym, subst, ◌∙◌, ap, Bool, true, false, Option, none, some, List, [], ◌∷◌, inl, inr, Bool-cases,
  arith, str_eq, eq_iff,
}
use short_form_studio.Prelude.Checked.{Result, ok, err}
use short_form_studio.Prelude.Dict
use short_form_studio.Prelude.Dict.{get-put}
use short_form_studio.Timeline.Valid.{and_true}
use short_form_studio.Errors.{Error}
use short_form_studio.Run.Row.{to_current_stage, to_status}
use short_form_studio.Run.Storage.{RunStorage, conditional_update_run}
use short_form_studio.Tasks.Row.{TaskRow, TaskStorage, row_id_of, write, is_text}
use short_form_studio.Tasks.Claims.{is_claimed_by}
use short_form_studio.Usage.Rows.{UsageStorage}
use short_form_studio.Usage.Owned.{Answer, cancel_owned, settle_owned, finalize_revoked_owned}
use short_form_studio.Tasks.Failing.{
  BillingOutcome, not_started, accounted, unknown, Failure, Stores, settle_by, failed_row, fail_run, fail_task, after_run, fail_row, fail_found,
  fail_claimed_and_cancel_quota,
}

-- what a call that answers True has found and written
pub record Failed (now : ℕ) (f : Failure) (s t : Stores) : Type 0 where
  pub id : ℕ
  pub row : TaskRow
  pub id_found : row_id_of f.celery_task_id s.tasks.by_celery ≡ some id
  pub row_found : Dict.get id s.tasks.rows ≡ some row
  pub claimed : is_claimed_by f.token row ≡ true
  pub tasks_after : t.tasks ≡ write id (failed_row now f row) s.tasks
  pub usage_after : t.usage ≡ (settle_by f.billing_outcome f.celery_task_id s.usage).1
  pub runs_after : t.runs ≡ (fail_run now f f.run s.runs).1

module _ (now : ℕ) (f : Failure) (s t : Stores) where
  task-Failed :
      (k : ℕ) (row : TaskRow) (runs : RunStorage) (settled : Answer Bool)
      → fail_task now f k row runs s.tasks settled ≡ (ok true, t)
      → (t.tasks ≡ write k (failed_row now f row) s.tasks) × (t.usage ≡ settled.1) × (t.runs ≡ runs)
  task-Failed k row runs (err raised, usage) h = cc
  task-Failed k row runs (ok b, usage) h =
      let e = sym (ap (λ p. p.1) h) in
      (ap (λ u. u.tasks) e, ap (λ u. u.usage) e, ap (λ u. u.runs) e)

  run-Failed :
      (k : ℕ) (row : TaskRow) (moved : Result Error (Unit {0}) × RunStorage)
      → after_run now f k row s.tasks s.usage moved ≡ (ok true, t)
      → (t.tasks ≡ write k (failed_row now f row) s.tasks)
        × (t.usage ≡ (settle_by f.billing_outcome f.celery_task_id s.usage).1)
        × (t.runs ≡ moved.1)
  run-Failed k row (err raised, runs) h = cc
  run-Failed k row (ok u, runs) h =
      task-Failed k row runs (settle_by f.billing_outcome f.celery_task_id s.usage) h

  row-Failed :
      (k : ℕ) (m : Option TaskRow)
      → row_id_of f.celery_task_id s.tasks.by_celery ≡ some k
      → Dict.get k s.tasks.rows ≡ m
      → fail_row now f k m s ≡ (ok true, t)
      → Failed now f s t
  row-Failed k none e g h = cc
  row-Failed k (some row) e g h = elim (Bool-cases (is_claimed_by f.token row)) [
    | inl claimed ↦
        let done = run-Failed k row (fail_run now f f.run s.runs) (rw claimed at h) in
        record {
          id = k;
          row = row;
          id_found = e;
          row_found = g;
          claimed = claimed;
          tasks_after = done.0;
          usage_after = done.1;
          runs_after = done.2;
        }
    | inr other ↦ let h' = rw other at h in cc
  ]

  pub fail_claimed_and_cancel_quota-Failed :
      fail_claimed_and_cancel_quota now f s ≡ (ok true, t) → Failed now f s t
  unfolding fail_claimed_and_cancel_quota
  fail_claimed_and_cancel_quota-Failed h =
      by_id (row_id_of f.celery_task_id s.tasks.by_celery) refl h
    where
      by_id :
          (m : Option ℕ)
          → row_id_of f.celery_task_id s.tasks.by_celery ≡ m
          → fail_found now f m s ≡ (ok true, t)
          → Failed now f s t
      by_id none e h = cc
      by_id (some k) e h = row-Failed k (Dict.get k s.tasks.rows) e refl h

get-write : (k : ℕ) (row : TaskRow) (s : TaskStorage) → Dict.get k (write k row s).rows ≡ some row
get-write k row s = ground (arith, get-put k k row s.rows)

not_claimed :
    (token : String) (now : ℕ) (f : Failure) (row : TaskRow)
    → is_claimed_by token (failed_row now f row) ≡ false
unfolding is_claimed_by
not_claimed token now f row = refl

is_claimed_by-running :
    (token : String) (row : TaskRow)
    → is_claimed_by token row ≡ true
    → (row.status ≡ "running") × (row.claim_token ≡ some token)
unfolding is_claimed_by is_text
is_claimed_by-running token row h =
    let (running, held) = and_true (str_eq row.status "running") (is_text row.claim_token token) h in
    ((eq_iff row.status "running").0 running, is_text-some row.claim_token held)
  where
    is_text-some : (m : Option String) → is_text m token ≡ true → m ≡ some token
    is_text-some none k = cc
    is_text-some (some x) k = ap some ((eq_iff x token).0 k)

-- the settlement of a reservation that belongs to a billing outcome
abbrev pub Settled : Option BillingOutcome → String → UsageStorage → UsageStorage → Type 0
Settled none owner_id u u' = u' ≡ (finalize_revoked_owned owner_id u).1
Settled (some not_started) owner_id u u' = u' ≡ (cancel_owned owner_id u).1
Settled (some accounted) owner_id u u' = u' ≡ (settle_owned owner_id false u).1
Settled (some unknown) owner_id u u' = u' ≡ (settle_owned owner_id true u).1

-- a run that is given has been asked to move to FAILED, unless it has ended, from one of the stages
abbrev pub RunFailed : ℕ → Option ℕ → List String → RunStorage → RunStorage → Type 0
RunFailed now none stages runs runs' = runs' ≡ runs
RunFailed now (some run_id) stages runs runs' =
    runs'
    ≡ (conditional_update_run now run_id
      (to_current_stage (some "FAILED") ∷ to_status "failed" ∷ [])
      stages none ("failed" ∷ "cancelled" ∷ "completed" ∷ []) runs).1

settle_by-Settled :
    (outcome : Option BillingOutcome) (owner_id : String) (u : UsageStorage)
    → Settled outcome owner_id u (settle_by outcome owner_id u).1
unfolding settle_by
settle_by-Settled none owner_id u = refl
settle_by-Settled (some not_started) owner_id u = refl
settle_by-Settled (some accounted) owner_id u = refl
settle_by-Settled (some unknown) owner_id u = refl

fail_run-RunFailed :
    (now : ℕ) (f : Failure) (m : Option ℕ) (runs : RunStorage)
    → RunFailed now m f.expected_stages runs (fail_run now f m runs).1
fail_run-RunFailed now f none runs = refl
fail_run-RunFailed now f (some run_id) runs = refl

-- Where `fail_claimed_and_cancel_quota` answers True, the task of the Celery id was running under the
-- token, and its row is now that row with status failed, without a token, ended at the time of the call,
-- with the code and the message given; no other task has changed. The reservation was settled by the
-- operation of the billing outcome: cancelled where no call was made, settled where the calls are accounted
-- for, settled as unknown where they may be billed, and by its attempts where no outcome is given. A run that
-- is given was asked to move to FAILED, if it stood at an expected stage and has not ended. A second call
-- for the same Celery id, whatever its token, run and billing outcome, answers False and changes neither a
-- run nor a task nor the ledger: no reservation is settled twice.
pub fail_claimed_and_cancel_quota-once :
    (now now' : ℕ) (f again : Failure) (s t : Stores)
    → fail_claimed_and_cancel_quota now f s ≡ (ok true, t)
    → again.celery_task_id ≡ f.celery_task_id
    → (id : ℕ) × (row : TaskRow)
      × (row_id_of f.celery_task_id s.tasks.by_celery ≡ some id)
      × (Dict.get id s.tasks.rows ≡ some row)
      × (row.status ≡ "running")
      × (row.claim_token ≡ some f.token)
      × (t.tasks
          ≡ write id
              (record row {
                status = "failed";
                claim_token = none;
                finished_at = some now;
                error_code = some f.error_code;
                error_message = some f.error_message;
              })
              s.tasks)
      × Settled f.billing_outcome f.celery_task_id s.usage t.usage
      × RunFailed now f.run f.expected_stages s.runs t.runs
      × (fail_claimed_and_cancel_quota now' again t ≡ (ok false, t))
unfolding fail_claimed_and_cancel_quota
fail_claimed_and_cancel_quota-once now now' f again s t h same =
    let d = fail_claimed_and_cancel_quota-Failed now f s t h in
    let (running, held) = is_claimed_by-running f.token d.row d.claimed in
    let after : Dict.get d.id t.tasks.rows ≡ some (failed_row now f d.row) =
      ap (λ u. Dict.get d.id u.rows) d.tasks_after
      ∙ get-write d.id (failed_row now f d.row) s.tasks in
    let found : row_id_of again.celery_task_id t.tasks.by_celery ≡ some d.id =
      ap (λ c. row_id_of c t.tasks.by_celery) same
      ∙ ap (λ u. row_id_of f.celery_task_id u.by_celery) d.tasks_after
      ∙ d.id_found in
    (
      d.id,
      d.row,
      d.id_found,
      d.row_found,
      running,
      held,
      d.tasks_after,
      subst (Settled f.billing_outcome f.celery_task_id s.usage) (sym d.usage_after)
          (settle_by-Settled f.billing_outcome f.celery_task_id s.usage),
      subst (RunFailed now f.run f.expected_stages s.runs) (sym d.runs_after)
          (fail_run-RunFailed now f f.run s.runs),
      ap (λ m. fail_found now' again m t) found
          ∙ ap (λ m. fail_row now' again d.id m t) after
          ∙ refused d.id d.row,
    )
  where
    refused :
        (id : ℕ) (row : TaskRow)
        → fail_row now' again id (some (failed_row now f row)) t ≡ (ok false, t)
    refused id row = rw (not_claimed again.token now f row) refl
