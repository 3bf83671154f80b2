-- ===== src/Tasks/Claims.antt =====
-- packages/creator-service/creator_service/memory_task_tracking_storage.py: the claims of tasks by
-- workers, and of failed tasks by the reconciler.
use short_form_studio.Prelude.{
  ℕ, ◌+◌, ltb, String, Bool, false, not, ◌||◌, ◌&&◌, Option, none, some, [], ◌∷◌, str_eq,
  if◌then◌else◌,
}
use short_form_studio.Run.Storage.{mem_text}
use short_form_studio.Tasks.Row.{
  TaskRow, TaskStorage, mem_option, cleanup_codes, cleanup_pending, is_text, same_option, guarded,
  guarded_celery,
}
use short_form_studio.Tasks.Storage.{get_or, ended, released}

-- the keyword arguments of `claim_running`
pub record Claim : Type 0 where
  pub expected_claim_token : Option String
  pub claim_token : Option String
  pub started_at : Option (Option ℕ)
  pub attempt : Option ℕ

unfoldable pub may_claim : Claim → TaskRow → Bool
unfolding mem_text mem_option same_option
may_claim c row =
    mem_text row.status ("pending" ∷ "queued" ∷ "failed" ∷ [])
    && same_option row.claim_token c.expected_claim_token
    && not (mem_option row.error_code cleanup_codes)

unfoldable pub claimed : Claim → TaskRow → TaskRow
claimed c row = record row {
  status = "running";
  claim_token = c.claim_token;
  started_at = get_or row.started_at c.started_at;
  finished_at = none;
  error_code = none;
  error_message = none;
  attempt = get_or row.attempt c.attempt;
}

unfoldable pub claim_running : ℕ → Claim → TaskStorage → Option TaskRow × TaskStorage
unfolding guarded may_claim claimed
claim_running task_id c s = guarded task_id (may_claim c) (claimed c) s

unfoldable pub is_claimed_by : String → TaskRow → Bool
unfolding is_text
is_claimed_by token row = str_eq row.status "running" && is_text row.claim_token token

unfoldable pub finish_if_claimed :
    ℕ
    → String
    → String
    → String
    → Option String
    → Option String
    → TaskStorage
    → Option TaskRow × TaskStorage
unfolding guarded_celery is_claimed_by ended
finish_if_claimed now celery_task_id token status error_code error_message s =
    guarded_celery celery_task_id (is_claimed_by token)
      (λ row. released (ended status (some now) error_code error_message row)) s

-- finished_at < now - lease_seconds
abbrev pub before_lease : ℕ → ℕ → Option ℕ → Bool
before_lease now lease none = false
before_lease now lease (some finished) = ltb (finished + lease) now

unfoldable pub may_reconcile : ℕ → ℕ → TaskRow → Bool
unfolding is_text mem_option
may_reconcile now lease row =
    str_eq row.status "failed"
    && (mem_option row.error_code cleanup_pending
        || (is_text row.error_code "reconciler_cleanup_claimed"
            && before_lease now lease row.finished_at))

-- the marker is kept as the message, unless the row has been claimed before
unfoldable pub reconciling : ℕ → String → TaskRow → TaskRow
unfolding is_text
reconciling now token row = record row {
  error_message =
      if is_text row.error_code "reconciler_cleanup_claimed"
      then row.error_message
      else row.error_code;
  error_code = some "reconciler_cleanup_claimed";
  claim_token = some token;
  finished_at = some now;
}

unfoldable pub claim_reconciliation :
    ℕ → ℕ → String → ℕ → TaskStorage → Option TaskRow × TaskStorage
unfolding guarded may_reconcile reconciling
claim_reconciliation now task_id token lease s =
    guarded task_id (may_reconcile now lease) (reconciling now token) s

unfoldable pub reconciles : String → TaskRow → Bool
unfolding is_text
reconciles token row =
    is_text row.error_code "reconciler_cleanup_claimed" && is_text row.claim_token token

unfoldable pub finish_reconciliation :
    String → String → String → String → TaskStorage → Option TaskRow × TaskStorage
unfolding guarded_celery reconciles
finish_reconciliation celery_task_id token error_code error_message s =
    guarded_celery celery_task_id (reconciles token)
      (λ row. record row {
        error_code = some error_code;
        error_message = some error_message;
        claim_token = none;
      })
      s

unfoldable pub unreconciled : TaskRow → TaskRow
unreconciled row = record row {
  error_code = row.error_message;
  error_message = some "Cleanup retry required";
  claim_token = none;
}

unfoldable pub release_reconciliation : String → String → TaskStorage → Option TaskRow × TaskStorage
unfolding guarded_celery reconciles mem_option unreconciled
release_reconciliation celery_task_id token s =
    guarded_celery celery_task_id
      (λ row. reconciles token row && mem_option row.error_message cleanup_pending) unreconciled s
