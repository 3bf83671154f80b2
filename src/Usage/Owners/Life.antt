-- ===== src/Usage/Owners/Life.antt =====
-- packages/creator-service/creator_service/usage_service.py: the life of an owner through any sequence
-- of operations.
use short_form_studio.Prelude.{String, ◌≡◌, refl, Bool, true, false, not, List, [], ◌∷◌, str_eq}
use short_form_studio.Prelude.Keyed.{text_key}
use short_form_studio.Usage.Rows.{UsageStorage}
use short_form_studio.Usage.Sequences.{
  UsageOp, recording, setting_quota, reserving, admitting, cancelling, settling, finalizing,
  readmitting, recording_owned, authorizing, releasing, perform, perform_all, settles_not,
}
use short_form_studio.Usage.Owners.Steps.{
  OwnerStep, step-weaken, stays, OwnerPath, here, step, view,
}
use short_form_studio.Usage.Owners.Admissions.{
  record_event-Step, set_workspace_quota-Step, try_reserve_quota-Step, try_reserve_owned-Step,
}
use short_form_studio.Usage.Owners.Settlements.{
  cancel_owned-Step, settle_owned-Step, finalize_revoked_owned-Step, settle_owned-other,
  finalize_revoked_owned-other,
}
use short_form_studio.Usage.Owners.Charges.{authorize_owned_attempt-Step, record_owned_event-Step}
use short_form_studio.Usage.Owners.Readmissions.{readmit_owned-Step, decrement_reservation-Step}

not-true : (b : Bool) → not b ≡ true → b ≡ false
not-true false h = refl
not-true true h = cc

-- An operation that does not settle the owner takes it by a step that is no settlement.
pub perform-unsettled :
    (op : UsageOp) (j : String) (s : UsageStorage)
    → settles_not j op ≡ true
    → OwnerStep false (view j s) (view j (perform op s))
unfolding perform
perform-unsettled (recording c e) j s n = record_event-Step c e j s
perform-unsettled (setting_quota c w q) j s n = set_workspace_quota-Step c w q j s
perform-unsettled (reserving c w operation k) j s n = try_reserve_quota-Step c w operation k j s
perform-unsettled (admitting c r) j s n = try_reserve_owned-Step c r j s
perform-unsettled (cancelling k) j s n = cancel_owned-Step k j s
perform-unsettled (settling k flag) j s n =
    rw (settle_owned-other k j s (not-true (str_eq k j) n) flag) (stays (view j s))
perform-unsettled (finalizing k) j s n =
    rw (finalize_revoked_owned-other k j s (not-true (str_eq k j) n)) (stays (view j s))
perform-unsettled (readmitting c k budget) j s n = readmit_owned-Step c k budget j s
perform-unsettled (recording_owned c e k) j s n = record_owned_event-Step c e k j s
perform-unsettled (authorizing k attempt cost) j s n =
    authorize_owned_attempt-Step k attempt cost j s
perform-unsettled (releasing c w operation n) j s m = decrement_reservation-Step c w operation n j s

pub perform-OwnerStep :
    (op : UsageOp) (j : String) (s : UsageStorage)
    → OwnerStep true (view j s) (view j (perform op s))
unfolding perform
perform-OwnerStep (settling k flag) j s = settle_owned-Step k j s flag
perform-OwnerStep (finalizing k) j s = finalize_revoked_owned-Step k j s
perform-OwnerStep (recording c e) j s =
    step-weaken false _ _ (perform-unsettled (recording c e) j s refl)
perform-OwnerStep (setting_quota c w q) j s =
    step-weaken false _ _ (perform-unsettled (setting_quota c w q) j s refl)
perform-OwnerStep (reserving c w operation k) j s =
    step-weaken false _ _ (perform-unsettled (reserving c w operation k) j s refl)
perform-OwnerStep (admitting c r) j s =
    step-weaken false _ _ (perform-unsettled (admitting c r) j s refl)
perform-OwnerStep (cancelling k) j s =
    step-weaken false _ _ (perform-unsettled (cancelling k) j s refl)
perform-OwnerStep (readmitting c k budget) j s =
    step-weaken false _ _ (perform-unsettled (readmitting c k budget) j s refl)
perform-OwnerStep (recording_owned c e k) j s =
    step-weaken false _ _ (perform-unsettled (recording_owned c e k) j s refl)
perform-OwnerStep (authorizing k attempt cost) j s =
    step-weaken false _ _ (perform-unsettled (authorizing k attempt cost) j s refl)
perform-OwnerStep (releasing c w operation n) j s =
    step-weaken false _ _ (perform-unsettled (releasing c w operation n) j s refl)

-- Whatever operations the storage performs on all its dictionaries, each owner, seen alone with the
-- cost of its authorised attempts, moves by the steps of OwnerStep only: it is admitted once, a
-- cancellation needs it reserved, a settlement needs it reserved or consumed, a readmission and an
-- attempt need it reserved or consumed, the attempts stay within the estimate, and a charge needs it not
-- cancelled.
pub perform_all-OwnerPath :
    (ops : List UsageOp) (owner_id : String) (s : UsageStorage)
    → OwnerPath (view owner_id s) (view owner_id (perform_all ops s))
unfolding perform_all
perform_all-OwnerPath [] k s = here (view k s)
perform_all-OwnerPath (op ∷ ops) k s =
    step (perform-OwnerStep op k s) (perform_all-OwnerPath ops k (perform op s))
