-- ===== src/Tasks/Exclusive.antt =====
-- Claims exclude one another, and only the holder's token ends a claim, other than a forced change of the status.
use short_form_studio.Prelude.{
  ℕ, String, ◌≡◌, ◌≢◌, refl, ap, subst, Option, none, some, List, [], ◌∷◌, arith, Bool-cases, inl,
  inr,
}
use short_form_studio.Prelude.Dict
use short_form_studio.Prelude.Dict.{get-put}
use short_form_studio.Run.Storage.{mem_text}
use short_form_studio.Tasks.Row.{TaskRow, TaskStorage, is_text, guarded, guarded_row}
use short_form_studio.Tasks.Storage.{update_task_status_if_pending}
use short_form_studio.Tasks.Claims.{
  Claim, may_claim, claimed, claim_running, may_reconcile, claim_reconciliation, reconciles,
  finish_reconciliation, release_reconciliation,
}
use short_form_studio.Tasks.Kept.{Fresh}
use short_form_studio.Tasks.Sequences.{
  TaskOp, creating, updating, updating_if_running, updating_if_pending, updating_if_active,
  claiming, finishing, claiming_cleanup, finishing_cleanup, releasing_cleanup, promoting, observing,
  completing, perform, perform_all, perform-Safe,
}
use short_form_studio.Tasks.Fencing.{
  HeldAt, guarded-HeldAt, guarded_celery-HeldAt, creating-HeldAt, promoting-HeldAt,
  finishing-HeldAt, observing-HeldAt, completing-HeldAt,
}

-- what another worker, the reconciler or the broker's recovery does with claims and tokens of their own; a forced
-- change of the status is none of it
abbrev pub IsRival : String → TaskOp → Type 0
IsRival token (updating id status c) = ⊥
IsRival token (updating_if_running id status c) = ⊥
IsRival token (updating_if_active celery status finished code message) = ⊥
IsRival token (finishing now celery other status code message) = token ≢ other
IsRival token _ = Unit

abbrev pub AreRivals : String → List TaskOp → Type 0
AreRivals token [] = Unit
AreRivals token (op ∷ ops) = IsRival token op × AreRivals token ops

module _ (token : String) (k : ℕ) where
  rival-HeldAt :
      (op : TaskOp) (s : TaskStorage)
      → IsRival token op
      → Fresh s
      → HeldAt token k s
      → HeldAt token k (perform op s)
  unfolding perform claim_running may_claim mem_text claim_reconciliation may_reconcile
      finish_reconciliation release_reconciliation reconciles is_text update_task_status_if_pending
  rival-HeldAt (creating now new) s r f h = creating-HeldAt token k now new s f h
  rival-HeldAt (updating id status c) s r f h = absurd r
  rival-HeldAt (updating_if_running id status c) s r f h = absurd r
  rival-HeldAt (updating_if_active celery status finished code message) s r f h = absurd r
  rival-HeldAt (updating_if_pending id status finished code message) s r f h =
      guarded-HeldAt token k id _ _ s (λ row held. rw held.running refl) h
  rival-HeldAt (claiming id c) s r f h =
      guarded-HeldAt token k id (may_claim c) (claimed c) s (λ row held. rw held.running refl) h
  rival-HeldAt (finishing now celery other status code message) s r f h =
      finishing-HeldAt token k now celery other status code message s r h
  rival-HeldAt (claiming_cleanup now id other lease) s r f h =
      guarded-HeldAt token k id (may_reconcile now lease) _ s (λ row held. rw held.running refl) h
  rival-HeldAt (finishing_cleanup celery other code message) s r f h =
      guarded_celery-HeldAt token k celery (reconciles other) _ s (λ row held. rw held.clean refl) h
  rival-HeldAt (releasing_cleanup celery other) s r f h =
      guarded_celery-HeldAt token k celery _ _ s (λ row held. rw held.clean refl) h
  rival-HeldAt (promoting celery) s r f h = promoting-HeldAt token k celery s h
  rival-HeldAt (observing epoch expected generations) s r f h =
      observing-HeldAt token k epoch expected generations s h
  rival-HeldAt (completing generation) s r f h = completing-HeldAt token k generation s h

  rivals-HeldAt :
      (ops : List TaskOp) (s : TaskStorage)
      → AreRivals token ops
      → Fresh s
      → HeldAt token k s
      → HeldAt token k (perform_all ops s)
  unfolding perform_all
  rivals-HeldAt [] s r f h = h
  rivals-HeldAt (op ∷ ops) s (r, rs) f h =
      rivals-HeldAt ops (perform op s) rs (perform-Safe op s f).0 (rival-HeldAt op s r f h)

  -- what a claim that succeeds has written
  claim_running-HeldAt :
      (c : Claim) (s s' : TaskStorage) (row : TaskRow)
      → c.claim_token ≡ some token
      → claim_running k c s ≡ (some row, s')
      → HeldAt token k s'
  unfolding claim_running guarded claimed
  claim_running-HeldAt c s s' row by h = on_row (Dict.get k s.rows) refl h
    where
      on_row :
          (m : Option TaskRow)
          → Dict.get k s.rows ≡ m
          → guarded_row k (may_claim c) (claimed c) m s ≡ (some row, s')
          → HeldAt token k s'
      on_row none e h = absurd (cc)
      on_row (some old) e h = elim (Bool-cases (may_claim c old)) [
        | inr t ↦ absurd (ground (arith, t, h))
        | inl t ↦ subst (HeldAt token k) (ap (λ p. p.1) (rw t at h)) (record {
          row = claimed c old;
          here = ground (arith, get-put k k (claimed c old) s.rows);
          held = record { running = refl; by_token = by; clean = refl };
        })
      ]

  -- no claim of a row that is held succeeds
  claim_running-refused :
      (c : Claim) (s : TaskStorage) → HeldAt token k s → claim_running k c s ≡ (none, s)
  unfolding claim_running guarded may_claim mem_text
  claim_running-refused c s h = rw (h.here, h.held.running) refl

  -- After a claim of a task with a token has succeeded, through any operations of others, which have
  -- tokens of their own and force no status: the row stays running with that token, and every further claim
  -- of the task is refused, with nothing changed.
  pub claim_running-exclusive :
      (c : Claim) (s s' : TaskStorage) (row : TaskRow) (ops : List TaskOp)
      → Fresh s
      → c.claim_token ≡ some token
      → claim_running k c s ≡ (some row, s')
      → AreRivals token ops
      → HeldAt token k (perform_all ops s')
        × ((c' : Claim) → claim_running k c' (perform_all ops s') ≡ (none, perform_all ops s'))
  claim_running-exclusive c s s' row ops f by h r =
      let after : Fresh s' =
        subst Fresh (ap (λ p. p.1) h) (unfold perform in (perform-Safe (claiming k c) s f).0) in
      let held = rivals-HeldAt ops s' r after (claim_running-HeldAt c s s' row by h) in
      (held, λ c'. claim_running-refused c' (perform_all ops s') held)
