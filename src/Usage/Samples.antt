-- ===== src/Usage/Samples.antt =====
-- The ledger of usage at concrete inputs.
use short_form_studio.Prelude.{◌+◌, ◌≤◌, ◌≡◌, refl, true, false, none, some, List, [], ◌∷◌}
use short_form_studio.Prelude.Int.{pos, negsuc, ◌+ℤ◌, ◌-ℤ◌, ◌≤ℤ◌}
use short_form_studio.Prelude.Checked.{Result, ok}
use short_form_studio.Prelude.Keyed
use short_form_studio.Prelude.Keyed.{Key, text_key, nat_key, pair_key}
use short_form_studio.Errors.{Error}
use short_form_studio.Usage.Rows.{
  Clock, Entry, Event, Quota, quotas_default, Owner, reserved, cancelled, Bucket, llm_bucket,
  image_bucket, tts_bucket, bucket_of, limit_of, units_of, UsageStorage, no_usage,
}
use short_form_studio.Usage.Events.{
  add_event, set_workspace_quota, get_workspace_quota, list_by_workspace,
}
use short_form_studio.Usage.Admit.{
  Request, try_reserve_owned, reserved_row, listed_units, settled_workspace, reserved_workspace,
  settled_global, reserved_global, used_since,
}
use short_form_studio.Usage.Owned.{
  authorized, authorize_owned_attempt, cancel_owned, record_owned_event, settle_owned,
}
use short_form_studio.Usage.Release.{decrement_reservation}
use short_form_studio.Usage.Sequences.{
  UsageOp, setting_quota, cancelling, settling, recording_owned, authorizing, releasing,
  without_settlement, perform_all,
}
use short_form_studio.Usage.Summary.{get_monthly_summary, audio_count}
use short_form_studio.Usage.Bounds.{WithinBudget, try_reserve_owned-within_budgets}
use short_form_studio.Usage.Owners.Steps.{OwnerPath, view}
use short_form_studio.Usage.Owners.Life.{perform_all-OwnerPath}
use short_form_studio.Usage.Owners.Final.{cancel_owned-final}
use short_form_studio.Usage.Owners.Authorized.{authorized-within_estimate}
use short_form_studio.Usage.Log.Kept.{record_owned_event-once}
use short_form_studio.Usage.Agree.{get_monthly_summary-agrees}

abbrev clock : Clock
clock = record { now = 45; period_start = 40 }

-- three images for the workspace 1, with an estimate of 90 micro-dollars
abbrev request : Request
request = record {
  workspace_id = 1;
  operation_type = "image_gen";
  owner_id = "task";
  estimated_cost_usd = 90;
  monthly_cost_usd = 100;
  global_monthly_cost_usd = some 1000;
  units = 3;
}

-- an image that was made in the attempt "a"
abbrev image : Entry
image = record {
  workspace_id = some 1;
  project_id = none;
  run_id = some 7;
  provider = "stability";
  model_key = "sd3-medium";
  operation_type = "image_gen";
  input_tokens = none;
  output_tokens = none;
  image_count = some 1;
  audio_seconds = none;
  estimated_cost_usd = some 25;
  cost_config_version = none;
  idempotency_key = some "first";
  reservation_attempt_id = some "a";
}

abbrev quota_set : List UsageOp
quota_set = setting_quota clock 1 quotas_default ∷ []

abbrev stored : UsageStorage
stored = perform_all quota_set no_usage

abbrev holding : UsageStorage
holding = (try_reserve_owned clock request stored).1

admitted_request : try_reserve_owned clock request stored ≡ (ok true, holding)
unfolding perform_all try_reserve_owned set_workspace_quota ◌+ℤ◌
admitted_request = refl

try_reserve_owned-within_budgets_example :
    (settled_workspace 1 40 holding + reserved_workspace 1 40 holding ≤ 100)
    × WithinBudget (some 1000) (settled_global 40 holding + reserved_global 40 holding)
    × ((quota : Quota) × (b : Bucket) × (get_workspace_quota 1 holding ≡ some quota)
        × (bucket_of "image_gen" ≡ some b)
        × (pos (listed_units b "image_gen" (list_by_workspace 1 40 holding))
              +ℤ units_of b (reserved_row (1, 40) holding)
            ≤ℤ pos (limit_of b quota.values)))
unfolding perform_all Keyed.get set_workspace_quota
try_reserve_owned-within_budgets_example =
    try_reserve_owned-within_budgets clock request stored holding refl admitted_request

abbrev attempts : List UsageOp
attempts =
    authorizing "task" "a" 40
    ∷ recording_owned clock image "task"
    ∷ authorizing "task" "b" 50
    ∷ authorizing "task" "c" 1
    ∷ settling "another" true
    ∷ []

authorized-within_estimate_example :
    (o : Owner) × (Keyed.get "task" (perform_all attempts holding).owned ≡ some o)
    × (o.estimate ≡ 90)
    × (authorized "task" (perform_all attempts holding) ≤ 90)
unfolding perform_all Keyed.get set_workspace_quota without_settlement
authorized-within_estimate_example =
    authorized-within_estimate quota_set clock request holding attempts refl admitted_request refl

-- the estimate is used up by the attempts "a" and "b"; "c" is refused
all_authorized : authorized "task" (perform_all attempts holding) ≡ 90
unfolding perform_all authorized settle_owned authorize_owned_attempt record_owned_event
    try_reserve_owned set_workspace_quota ◌+ℤ◌ add_event
all_authorized = refl

perform_all-OwnerPath_example :
    OwnerPath (view "task" holding) (view "task" (perform_all attempts holding))
perform_all-OwnerPath_example = perform_all-OwnerPath attempts "task" holding

abbrev without_task : UsageStorage
without_task = (cancel_owned "task" holding).1

cancelled_task : cancel_owned "task" holding ≡ (ok true, without_task)
unfolding perform_all try_reserve_owned cancel_owned set_workspace_quota ◌+ℤ◌
cancelled_task = refl

cancel_owned-final_example :
    (o : Owner) × (Keyed.get "task" holding.owned ≡ some o)
    × (o.status ≡ reserved)
    × (Keyed.get "task" (perform_all attempts without_task).owned
        ≡ some (record o { status = cancelled }))
    × (authorized "task" (perform_all attempts without_task) ≡ authorized "task" holding)
cancel_owned-final_example = cancel_owned-final "task" holding without_task attempts cancelled_task

abbrev one_attempt : UsageStorage
one_attempt = perform_all (authorizing "task" "a" 40 ∷ []) holding

abbrev made : Result Error Event × UsageStorage
made = record_owned_event clock image "task" one_attempt

abbrev image_event : Event
image_event = record { id = 1; created_at = 45; entry = image }

recorded_image : record_owned_event clock image "task" one_attempt ≡ (ok image_event, made.1)
unfolding perform_all record_owned_event authorize_owned_attempt try_reserve_owned
    set_workspace_quota ◌+ℤ◌ add_event
recorded_image = refl

record_owned_event-once_example :
    (record_owned_event clock image "task" (perform_all attempts made.1)).1
    ≡ perform_all attempts made.1
record_owned_event-once_example =
    record_owned_event-once clock clock image "task" "first" image_event one_attempt made.1 attempts
      refl recorded_image

get_monthly_summary-agrees_example :
    ((get_monthly_summary clock 1 made.1).total_estimated_cost_usd ≡ settled_workspace 1 40 made.1)
    × ((get_monthly_summary clock 1 made.1).total_llm_calls ≡ used_since llm_bucket 1 40 made.1)
    × ((get_monthly_summary clock 1 made.1).total_image_generations
        ≡ used_since image_bucket 1 40 made.1)
    × (audio_count (get_monthly_summary clock 1 made.1) ≡ used_since tts_bucket 1 40 made.1)
get_monthly_summary-agrees_example = get_monthly_summary-agrees clock 1 made.1

-- A release counts the reserved owners and not their units, so it takes units that an owner holds:
-- the counter falls below zero when this owner is cancelled.
units_below_zero :
    units_of image_bucket (
      reserved_row
        (1, 40)
        (perform_all (releasing clock 1 "image_gen" 2 ∷ cancelling "task" ∷ []) holding))
    ≡ negsuc 1
unfolding perform_all reserved_row cancel_owned decrement_reservation try_reserve_owned
    set_workspace_quota ◌+ℤ◌ ◌-ℤ◌
units_below_zero = refl

-- A late event opens a settled owner again, and gives its unit back a second time.
abbrev late : Entry
late = record image { idempotency_key = some "late"; estimated_cost_usd = some 15 }

reopened :
    units_of image_bucket (
      reserved_row
        (1, 40)
        (perform_all (settling "task" false ∷ recording_owned clock late "task" ∷ []) one_attempt))
    ≡ negsuc 0
unfolding perform_all reserved_row settle_owned record_owned_event authorize_owned_attempt
    try_reserve_owned set_workspace_quota ◌+ℤ◌ add_event
reopened = refl
