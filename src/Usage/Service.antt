-- ===== src/Usage/Service.antt =====
-- packages/creator-service/creator_service/usage_service.py: `UsageService`.
use short_form_studio.Prelude.{
  ℕ, leb, String, ◌==◌, Bool, true, false, not, ◌||◌, ◌&&◌, Option, none, some, if◌then◌else◌,
  str_eq,
}
use short_form_studio.Prelude.Checked.{Result, ok, err, ◌>>=◌, ◌>>◌, require}
use short_form_studio.Errors.{Error, model_error}
use short_form_studio.Usage.Rows.{
  Clock, Amount, amount, money, Entry, Event, QuotaValues, Quota, quotas_default, UsageStorage,
}
use short_form_studio.Usage.Events.{
  record_event, get_workspace_quota, set_workspace_quota, quota_or_default,
}
use short_form_studio.Usage.Admit.{try_reserve_owned, try_reserve_quota}
use short_form_studio.Usage.Owned.{
  Answer, authorize_owned_attempt, settle_owned, record_owned_event,
}
use short_form_studio.Usage.Release.{readmit_owned, decrement_reservation}
use short_form_studio.Usage.Summary.{
  UsageEvent, event_of_row, get_monthly_summary, quota_exceeded_reason,
}

-- the environment: BILLABLE_PROVIDER_CALLS_ENABLED, and GLOBAL_MONTHLY_ESTIMATED_BUDGET_USD where
-- it is set and not empty
pub record Environment : Type 0 where
  pub billable_enabled : Bool
  pub global_budget : Option Amount

-- MAX_ESTIMATED_COST_USD
unfoldable pub max_estimated_cost : String → Option Amount
max_estimated_cost operation =
    if str_eq operation "llm" || str_eq operation "render"
    then some (amount 100000)
    else if str_eq operation "image_gen"
    then some (amount 2000000)
    else if str_eq operation "tts"
    then some (amount 1000000)
    else if str_eq operation "stt"
    then some (amount 250000)
    else none

abbrev pub money_option : Option Amount → Result Error (Option ℕ)
money_option none = ok none
money_option (some raw) = money raw >>= λ value. ok (some value)

-- `WorkspaceQuota.from_row`
unfoldable pub quota_of_row : Quota → Result Error Quota
quota_of_row q = require (leb 1 q.id && leb 1 q.workspace_id) model_error >> ok q

unfoldable pub get_quota : Clock → ℕ → UsageStorage → Answer Quota
unfolding get_workspace_quota set_workspace_quota quota_of_row
get_quota c w s =
    let (row, s') = quota_or_default c w quotas_default (get_workspace_quota w s) s in
    (quota_of_row row, s')

-- the rest of a method, where what came before did not raise
abbrev pub then_with : {A B : Type 0} → Answer A → (A → UsageStorage → Answer B) → Answer B
then_with (ok value, s) next = next value s
then_with (err raised, s) next = (err raised, s)

abbrev pub reserve_with :
    Clock
    → ℕ
    → String
    → String
    → ℕ
    → ℕ
    → Quota
    → Result Error (Option ℕ)
    → UsageStorage
    → Answer Bool
reserve_with c w operation owner_id estimate units quota (err raised) s = (err raised, s)
reserve_with c w operation owner_id estimate units quota (ok budget) s =
    try_reserve_owned c
      (record {
        workspace_id = w;
        operation_type = operation;
        owner_id = owner_id;
        estimated_cost_usd = estimate;
        monthly_cost_usd = quota.values.monthly_cost_usd;
        global_monthly_cost_usd = budget;
        units = units;
      })
      s

abbrev pub reserve_priced :
    Environment → Clock → ℕ → String → String → ℕ → Result Error ℕ → UsageStorage → Answer Bool
reserve_priced env c w operation owner_id units (err raised) s = (ok false, s)
reserve_priced env c w operation owner_id units (ok estimate) s =
    if estimate == 0 || units == 0
    then (ok false, s)
    else then_with (get_quota c w s) λ quota s'.
      reserve_with c w operation owner_id estimate units quota (money_option env.global_budget) s'

abbrev pub raw_estimate : String → Option Amount → Option Amount
raw_estimate operation none = max_estimated_cost operation
raw_estimate operation (some raw) = some raw

abbrev pub reserve_raw :
    Environment → Clock → ℕ → String → String → ℕ → Option Amount → UsageStorage → Answer Bool
reserve_raw env c w operation owner_id units none s = (ok false, s)
reserve_raw env c w operation owner_id units (some raw) s =
    reserve_priced env c w operation owner_id units (money raw) s

unfoldable pub reserve_owned :
    Environment → Clock → ℕ → String → String → Option Amount → ℕ → UsageStorage → Answer Bool
unfolding money max_estimated_cost get_quota try_reserve_owned
reserve_owned env c w operation owner_id estimated units s =
    if not env.billable_enabled
    then (ok false, s)
    else reserve_raw env c w operation owner_id units (raw_estimate operation estimated) s

unfoldable pub settle_owned_unknown : String → UsageStorage → Answer Bool
unfolding settle_owned
settle_owned_unknown owner_id s = settle_owned owner_id true s

abbrev pub authorize_priced : String → String → Result Error ℕ → UsageStorage → Bool × UsageStorage
authorize_priced owner_id attempt_id (err raised) s = (false, s)
authorize_priced owner_id attempt_id (ok estimate) s =
    if estimate == 0 then (false, s) else authorize_owned_attempt owner_id attempt_id estimate s

unfoldable pub authorize_attempt :
    Environment → String → String → Amount → UsageStorage → Bool × UsageStorage
unfolding money authorize_owned_attempt
authorize_attempt env owner_id attempt_id estimated s =
    if not env.billable_enabled
    then (false, s)
    else authorize_priced owner_id attempt_id (money estimated) s

abbrev pub readmit_with : Clock → String → Result Error (Option ℕ) → UsageStorage → Answer Bool
readmit_with c owner_id (err raised) s = (err raised, s)
readmit_with c owner_id (ok budget) s = readmit_owned c owner_id budget s

unfoldable pub readmit : Environment → Clock → String → UsageStorage → Answer Bool
unfolding money readmit_owned
readmit env c owner_id s =
    if not env.billable_enabled
    then (ok false, s)
    else readmit_with c owner_id (money_option env.global_budget) s

abbrev pub record_row : Clock → Entry → Option String → UsageStorage → Answer Event
record_row c e none s = let (row, s') = record_event c e s in (ok row, s')
record_row c e (some owner_id) s = record_owned_event c e owner_id s

-- the release of a unit that no owner holds
abbrev pub release_unowned : Clock → Entry → Option ℕ → Option String → UsageStorage → UsageStorage
release_unowned c e (some w) none s = decrement_reservation c w e.operation_type 1 s
release_unowned c e _ _ s = s

unfoldable pub record_usage : Clock → Entry → Option String → UsageStorage → Answer UsageEvent
unfolding record_event record_owned_event decrement_reservation event_of_row
record_usage c e owner_id s =
    then_with (record_row c e owner_id s)
      λ row s'. (event_of_row row, release_unowned c e e.workspace_id owner_id s')

abbrev pub quota_exceeded : String
quota_exceeded = "Quota exceeded"

-- `reason or "Quota exceeded"`
abbrev pub reason_or : Option String → String
reason_or none = quota_exceeded
reason_or (some reason) = reason

abbrev pub check_reserved : Bool × UsageStorage → Option String → Answer (Bool × String)
check_reserved (true, s) reason = (ok (true, "ok"), s)
check_reserved (false, s) reason = (ok (false, reason_or reason), s)

abbrev pub check_reason : Clock → ℕ → String → Option String → UsageStorage → Answer (Bool × String)
check_reason c w operation (some reason) s = (ok (false, reason), s)
check_reason c w operation none s = check_reserved (try_reserve_quota c w operation none s) none

unfoldable pub check_quota : Clock → ℕ → String → UsageStorage → Answer (Bool × String)
unfolding get_monthly_summary get_quota quota_exceeded_reason try_reserve_quota
check_quota c w operation s =
    let summary = get_monthly_summary c w s in
    then_with (get_quota c w s) λ quota s'.
      check_reason c w operation (quota_exceeded_reason summary quota.values operation) s'

unfoldable pub check_quota_reason : Clock → ℕ → String → UsageStorage → Answer (Option String)
unfolding get_monthly_summary get_quota quota_exceeded_reason
check_quota_reason c w operation s =
    let summary = get_monthly_summary c w s in
    then_with (get_quota c w s)
      λ quota s'. (ok (quota_exceeded_reason summary quota.values operation), s')

-- the keyword arguments of `set_quota`
pub record QuotaChange : Type 0 where
  pub monthly_llm_calls : Option ℕ
  pub monthly_image_generations : Option ℕ
  pub monthly_tts_requests : Option ℕ
  pub monthly_cost_usd : Option ℕ

abbrev pub or_current : Option ℕ → ℕ → ℕ
or_current none current = current
or_current (some value) current = value

abbrev pub changed_values : QuotaChange → QuotaValues → QuotaValues
changed_values d q = record {
  monthly_llm_calls = or_current d.monthly_llm_calls q.monthly_llm_calls;
  monthly_image_generations = or_current d.monthly_image_generations q.monthly_image_generations;
  monthly_tts_requests = or_current d.monthly_tts_requests q.monthly_tts_requests;
  monthly_cost_usd = or_current d.monthly_cost_usd q.monthly_cost_usd;
}

unfoldable pub set_quota : Clock → ℕ → QuotaChange → UsageStorage → Answer Quota
unfolding get_quota set_workspace_quota quota_of_row
set_quota c w d s = then_with (get_quota c w s) λ quota s'.
    let (row, s₂) = set_workspace_quota c w (changed_values d quota.values) s' in
    (quota_of_row row, s₂)
