-- ===== src/Usage/Sequences.antt =====
-- packages/creator-service/creator_service/usage_service.py: any sequence of operations on
-- `InMemoryUsageStorage`.
use short_form_studio.Prelude.{ℕ, String, Bool, true, not, ◌&&◌, Option, List, [], ◌∷◌, str_eq}
use short_form_studio.Usage.Rows.{Clock, Entry, QuotaValues, UsageStorage}
use short_form_studio.Usage.Events.{record_event, set_workspace_quota}
use short_form_studio.Usage.Admit.{Request, try_reserve_quota, try_reserve_owned}
use short_form_studio.Usage.Owned.{
  cancel_owned, settle_owned, finalize_revoked_owned, authorize_owned_attempt, record_owned_event,
}
use short_form_studio.Usage.Release.{readmit_owned, decrement_reservation}

-- the operations that change the storage, with the clock where they read it
pub data UsageOp : Type 0 where
  recording : Clock → Entry → UsageOp
  setting_quota : Clock → ℕ → QuotaValues → UsageOp
  reserving : Clock → ℕ → String → Option String → UsageOp
  admitting : Clock → Request → UsageOp
  cancelling : String → UsageOp
  settling : String → Bool → UsageOp
  finalizing : String → UsageOp
  readmitting : Clock → String → Option ℕ → UsageOp
  recording_owned : Clock → Entry → String → UsageOp
  authorizing : String → String → ℕ → UsageOp
  releasing : Clock → ℕ → String → ℕ → UsageOp

unfoldable pub perform : UsageOp → UsageStorage → UsageStorage
perform (recording c e) s = (record_event c e s).1
perform (setting_quota c w q) s = (set_workspace_quota c w q s).1
perform (reserving c w operation owner_id) s = (try_reserve_quota c w operation owner_id s).1
perform (admitting c r) s = (try_reserve_owned c r s).1
perform (cancelling k) s = (cancel_owned k s).1
perform (settling k flag) s = (settle_owned k flag s).1
perform (finalizing k) s = (finalize_revoked_owned k s).1
perform (readmitting c k budget) s = (readmit_owned c k budget s).1
perform (recording_owned c e k) s = (record_owned_event c e k s).1
perform (authorizing k attempt cost) s = (authorize_owned_attempt k attempt cost s).1
perform (releasing c w operation n) s = decrement_reservation c w operation n s

unfoldable pub perform_all : List UsageOp → UsageStorage → UsageStorage
unfolding perform
perform_all [] s = s
perform_all (op ∷ ops) s = perform_all ops (perform op s)

-- no operation of the list settles the owner `k`
abbrev pub settles_not : String → UsageOp → Bool
settles_not k (settling j flag) = not (str_eq j k)
settles_not k (finalizing j) = not (str_eq j k)
settles_not k _ = true

unfoldable pub without_settlement : String → List UsageOp → Bool
without_settlement k [] = true
without_settlement k (op ∷ ops) = settles_not k op && without_settlement k ops
