-- ===== src/Tasks/Cleanup.antt =====
-- The reconciler's claims: a lease, and a marker that a release brings back.
use short_form_studio.Prelude.{
  ℕ, ◌+◌, ◌≤◌, String, ◌≡◌, refl, ap, subst, true, false, ◌&&◌, Option, none, some, str_eq, eq_iff,
  arith, Bool-cases, inl, inr,
}
use short_form_studio.Prelude.Dict
use short_form_studio.Prelude.Dict.{get-put}
use short_form_studio.Run.Storage.{mem_text}
use short_form_studio.Tasks.Row.{
  TaskRow, TaskStorage, row_id_of, mem_option, is_text, cleanup_pending, write, guarded,
  guarded_celery,
}
use short_form_studio.Tasks.Claims.{
  may_reconcile, reconciling, claim_reconciliation, reconciles, unreconciled,
  release_reconciliation,
}

-- the marker of a claim is none of the markers that can be claimed
marked_unclaimed :
    (code : Option String)
    → mem_option code cleanup_pending ≡ true
    → is_text code "reconciler_cleanup_claimed" ≡ false
unfolding mem_option mem_text is_text
marked_unclaimed none h = refl
marked_unclaimed (some x) h = elim (Bool-cases (str_eq x "reconciler_cleanup_claimed")) [
  | inr e ↦ e
  | inl e ↦
      let fails : mem_text "reconciler_cleanup_claimed" cleanup_pending ≡ true =
        subst (λ y. mem_text y cleanup_pending ≡ true) ((eq_iff x "reconciler_cleanup_claimed").0 e)
          h in
      absurd (cc)
]

module _ (now k lease : ℕ) (token : String) (row : TaskRow) (s : TaskStorage)
    (here : Dict.get k s.rows ≡ some row) (may : may_reconcile now lease row ≡ true) where
  claimed_storage :
      claim_reconciliation now k token lease s
      ≡ (some (reconciling now token row), write k (reconciling now token row) s)
  unfolding claim_reconciliation guarded
  claimed_storage = rw (here, may) refl

  claimed_row :
      Dict.get k (Dict.put k (reconciling now token row) s.rows) ≡ some (reconciling now token row)
  claimed_row = ground (arith, get-put k k (reconciling now token row) s.rows)

  still_leased :
      (later : ℕ)
      → later ≤ now + lease
      → may_reconcile later lease (reconciling now token row) ≡ false
  unfolding may_reconcile reconciling mem_option mem_text is_text
  still_leased later in_lease = ground (arith, in_lease)

  second_refused :
      (later : ℕ) (other : String)
      → may_reconcile later lease (reconciling now token row) ≡ false
      → claim_reconciliation later k other lease (write k (reconciling now token row) s)
        ≡ (none, write k (reconciling now token row) s)
  unfolding claim_reconciliation guarded
  second_refused later other refused = rw (claimed_row, refused) refl

  -- A failed task that the reconciler has claimed cannot be claimed again, with whatever token, until the
  -- lease is over.
  pub claim_reconciliation-leased :
      (later : ℕ) (other : String)
      → later ≤ now + lease
      → claim_reconciliation later k other lease (claim_reconciliation now k token lease s).1
        ≡ (none, (claim_reconciliation now k token lease s).1)
  claim_reconciliation-leased later other in_lease =
      rw claimed_storage (second_refused later other (still_leased later in_lease))

  marker_kept :
      mem_option row.error_code cleanup_pending ≡ true
      → (reconciling now token row).error_message ≡ row.error_code
  unfolding reconciling
  marker_kept marked = rw (marked_unclaimed row.error_code marked)

  has_token : reconciles token (reconciling now token row) ≡ true
  unfolding reconciles is_text reconciling
  has_token = (eq_iff token token).1 refl

  releasable :
      mem_option row.error_code cleanup_pending ≡ true
      → (reconciles token (reconciling now token row)
          && mem_option (reconciling now token row).error_message cleanup_pending)
        ≡ true
  releasable marked = rw (has_token, marker_kept marked, marked) refl

  marker_back :
      mem_option row.error_code cleanup_pending ≡ true
      → unreconciled (reconciling now token row) ≡ record row {
        error_code = row.error_code;
        error_message = some "Cleanup retry required";
        claim_token = none;
        finished_at = some now;
      }
  unfolding unreconciled reconciling
  marker_back marked = rw (marked_unclaimed row.error_code marked)

  -- A release gives a task that was claimed at a cleanup marker this marker again, and takes the token away.
  pub release-claim_reconciliation :
      (celery : String)
      → row_id_of celery s.by_celery ≡ some k
      → mem_option row.error_code cleanup_pending ≡ true
      → (release_reconciliation celery token (claim_reconciliation now k token lease s).1).0
        ≡ some (record row {
          error_code = row.error_code;
          error_message = some "Cleanup retry required";
          claim_token = none;
          finished_at = some now;
        })
  unfolding release_reconciliation guarded_celery guarded
  release-claim_reconciliation celery id marked =
      rw (claimed_storage, id, claimed_row, releasable marked) (ap some (marker_back marked))
