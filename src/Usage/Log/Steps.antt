-- ===== src/Usage/Log/Steps.antt =====
-- packages/creator-service/creator_service/usage_service.py: each operation adds at most one event, under
-- an idempotency key that had none.
use short_form_studio.Prelude.{
  ℕ, String, ◌≡◌, refl, ◌∙◌, not, ◌||◌, Option, none, some, inl, inr, Bool-cases, ltb, str_eq,
}
use short_form_studio.Prelude.Keyed
use short_form_studio.Prelude.Keyed.{Key, nat_key, text_key, pair_key}
use short_form_studio.Usage.Rows.{
  Clock, Entry, Event, Owner, OwnerStatus, reserved, consumed, settled, billable_unknown, cancelled,
  UsageStorage,
}
use short_form_studio.Usage.Events.{existing_event, record_event, record_over, add_event, is_number}
use short_form_studio.Usage.Admit.{put_owner}
use short_form_studio.Usage.Owned.{
  units_left, take_units, account, attempt_key, use_unit, record_new, record_over_event,
  record_by_status, record_over_owner, record_owned_event, known_attempt,
}
use short_form_studio.Usage.Log.Same.{
  log, take_units-log, cancel_owned-log, settle_owned-log, finalize_revoked_owned-log,
  authorize_owned_attempt-log,
}
use short_form_studio.Usage.Log.Reservations.{
  set_workspace_quota-log, try_reserve_quota-log, try_reserve_owned-log, readmit_owned-log,
  decrement_reservation-log,
}
use short_form_studio.Usage.Sequences.{
  UsageOp, recording, setting_quota, reserving, admitting, cancelling, settling, finalizing,
  readmitting, recording_owned, authorizing, releasing, perform,
}
use short_form_studio.Usage.Owners.Steps.{after-leaves}

pub data LogStep (s t : UsageStorage) : Type 0 where
  same : log t ≡ log s → LogStep s t
  adds :
      (c : Clock) (e : Entry)
      → existing_event e.idempotency_key s ≡ none
      → log t ≡ log (add_event c e s)
      → LogStep s t

pub record_event-LogStep :
    (c : Clock) (e : Entry) (s : UsageStorage) → LogStep s (record_event c e s).1
unfolding record_event
record_event-LogStep c e s = at (existing_event e.idempotency_key s) refl
  where
    at :
        (m : Option Event)
        → existing_event e.idempotency_key s ≡ m
        → LogStep s (record_over m c e s).1
    at none h = adds c e h refl
    at (some old) h = same refl

account-log : (m : Option (String × String)) (s : UsageStorage) → log (account m s) ≡ log s
account-log none s = refl
account-log (some key) s = refl

use_unit-log :
    (k : String) (o : Owner) (left : ℕ) (s : UsageStorage) → log (use_unit k o left s).1 ≡ log s
use_unit-log k o left s = elim (Bool-cases (ltb 0 left)) [
  | inl e ↦ rw e (
      after-leaves (λ t. log t ≡ log s) (take_units o 1 s) _ (take_units-log o 1 s)
        (take_units-log o 1 s))
  | inr e ↦ rw e refl
]

pub record_new-log :
    (c : Clock) (e : Entry) (k : String) (o : Owner) (s : UsageStorage)
    → log (record_new c e k o s).1 ≡ log (record_event c e s).1
unfolding put_owner
record_new-log c e k o s =
    after-leaves (λ t. log t ≡ log (record_event c e s).1) (use_unit k o (units_left k s₂) s₂) _
      used used
  where
    s₂ : UsageStorage
    s₂ = account (attempt_key k e.reservation_attempt_id) (record_event c e s).1

    used : log (use_unit k o (units_left k s₂) s₂).1 ≡ log (record_event c e s).1
    used =
        use_unit-log k o (units_left k s₂) s₂
        ∙ account-log (attempt_key k e.reservation_attempt_id) (record_event c e s).1

LogStep-log : (s t u : UsageStorage) → LogStep s t → log u ≡ log t → LogStep s u
LogStep-log s t u (same h) e = same (e ∙ h)
LogStep-log s t u (adds c entry fresh h) e = adds c entry fresh (e ∙ h)

pub record_owned_event-LogStep :
    (c : Clock) (e : Entry) (k : String) (s : UsageStorage)
    → LogStep s (record_owned_event c e k s).1
unfolding record_owned_event
record_owned_event-LogStep c e k s = at (Keyed.get k s.owned)
  where
    event : (m : Option Event) (o : Owner) → LogStep s (record_over_event m c e k o s).1
    event (some old) o = same refl
    event none o = elim (Bool-cases (known_attempt (attempt_key k e.reservation_attempt_id) s)) [
      | inl known ↦ rw known (
          LogStep-log s (record_event c e s).1 (record_new c e k o s).1 (record_event-LogStep c e s)
            (record_new-log c e k o s))
      | inr unknown ↦ rw unknown (same refl)
    ]

    by_status : (st : OwnerStatus) (o : Owner) → LogStep s (record_by_status st c e k o s).1
    by_status cancelled o = same refl
    by_status reserved o = event (existing_event e.idempotency_key s) o
    by_status consumed o = event (existing_event e.idempotency_key s) o
    by_status settled o = event (existing_event e.idempotency_key s) o
    by_status billable_unknown o = event (existing_event e.idempotency_key s) o

    at : (m : Option Owner) → LogStep s (record_over_owner m c e k s).1
    at none = same refl
    at (some o) =
        elim (Bool-cases (
          not (is_number e.workspace_id o.workspace_id)
          || not (str_eq e.operation_type o.operation_type))) [
            | inl bad ↦ rw bad (same refl)
            | inr good ↦ rw good (by_status o.status o)
          ]

pub perform-LogStep : (op : UsageOp) (s : UsageStorage) → LogStep s (perform op s)
unfolding perform
perform-LogStep (recording c e) s = record_event-LogStep c e s
perform-LogStep (setting_quota c w q) s = same (set_workspace_quota-log c w q s)
perform-LogStep (reserving c w operation k) s = same (try_reserve_quota-log c w operation k s)
perform-LogStep (admitting c r) s = same (try_reserve_owned-log c r s)
perform-LogStep (cancelling k) s = same (cancel_owned-log k s)
perform-LogStep (settling k flag) s = same (settle_owned-log k flag s)
perform-LogStep (finalizing k) s = same (finalize_revoked_owned-log k s)
perform-LogStep (readmitting c k budget) s = same (readmit_owned-log c k budget s)
perform-LogStep (recording_owned c e k) s = record_owned_event-LogStep c e k s
perform-LogStep (authorizing k attempt cost) s = same (authorize_owned_attempt-log k attempt cost s)
perform-LogStep (releasing c w operation n) s = same (decrement_reservation-log c w operation n s)
