-- ===== src/Usage/Summary.antt =====
-- packages/creator-service/creator_service/usage_service.py: `get_monthly_summary` and
-- `_quota_exceeded_reason`, with `UsageEvent` and `UsageSummary` of models/usage.py.
use short_form_studio.Prelude.{
  ℕ, ◌+◌, ltb, leb, String, string_length, Bool, true, ◌&&◌, Option, none, some, List, [], ◌∷◌,
  if◌then◌else◌, str_eq,
}
use short_form_studio.Prelude.Checked.{Result, ok, err, ◌>>◌, require}
use short_form_studio.Prelude.Keyed
use short_form_studio.Prelude.Keyed.{Key, text_key}
use short_form_studio.Errors.{Error, model_error}
use short_form_studio.Usage.Rows.{Clock, Event, QuotaValues, UsageStorage, is_audio}
use short_form_studio.Usage.Events.{list_by_workspace, list_by_run}
use short_form_studio.Usage.Admit.{cost_of}
use short_form_studio.Run.Storage.{mem_text}

pub record UsageEvent : Type 0 where
  pub id : ℕ
  pub workspace_id : Option ℕ
  pub project_id : Option ℕ
  pub run_id : Option ℕ
  pub provider : String
  pub model_key : String
  pub operation_type : String
  pub input_tokens : Option ℕ
  pub output_tokens : Option ℕ
  pub image_count : Option ℕ
  pub audio_seconds : Option ℕ
  pub estimated_cost_usd : Option ℕ
  pub created_at : ℕ

abbrev pub usage_event : Event → UsageEvent
usage_event a = record {
  id = a.id;
  workspace_id = a.entry.workspace_id;
  project_id = a.entry.project_id;
  run_id = a.entry.run_id;
  provider = a.entry.provider;
  model_key = a.entry.model_key;
  operation_type = a.entry.operation_type;
  input_tokens = a.entry.input_tokens;
  output_tokens = a.entry.output_tokens;
  image_count = a.entry.image_count;
  audio_seconds = a.entry.audio_seconds;
  estimated_cost_usd = a.entry.estimated_cost_usd;
  created_at = a.created_at;
}

-- Field(default=None, ge=1)
abbrev pub ge_one : Option ℕ → Bool
ge_one none = true
ge_one (some n) = leb 1 n

abbrev pub fields_valid : UsageEvent → Bool
fields_valid u =
    leb 1 u.id
    && ge_one u.workspace_id
    && ge_one u.project_id
    && ge_one u.run_id
    && leb (string_length u.provider) 50
    && leb (string_length u.model_key) 100
    && mem_text u.operation_type ("llm" ∷ "image_gen" ∷ "tts" ∷ "stt" ∷ "render" ∷ [])

-- `UsageEvent.from_row`
unfoldable pub event_of_row : Event → Result Error UsageEvent
unfolding mem_text
event_of_row a = require (fields_valid (usage_event a)) model_error >> ok (usage_event a)

unfoldable pub events_of_rows : List Event → Result Error (List UsageEvent)
unfolding event_of_row
events_of_rows [] = ok []
events_of_rows (a ∷ rest) = elim (event_of_row a) [
  | err raised ↦ err raised
  | ok u ↦ elim (events_of_rows rest) [ err raised ↦ err raised | ok us ↦ ok (u ∷ us) ]
]

unfoldable pub list_run_events : ℕ → Option ℕ → UsageStorage → Result Error (List UsageEvent)
unfolding list_by_run events_of_rows
list_run_events run_id workspace_id s = events_of_rows (list_by_run run_id workspace_id s)

-- `UsageSummary`, less the period
pub record Summary : Type 0 where
  pub total_llm_calls : ℕ
  pub total_image_generations : ℕ
  pub total_tts_seconds : ℕ
  pub total_estimated_cost_usd : ℕ
  pub by_provider : List (String × ℕ)
  pub by_operation : List (String × ℕ)

abbrev pub empty_summary : Summary
empty_summary = record {
  total_llm_calls = 0;
  total_image_generations = 0;
  total_tts_seconds = 0;
  total_estimated_cost_usd = 0;
  by_provider = [];
  by_operation = [];
}

abbrev pub count_or_zero : Option ℕ → ℕ
count_or_zero none = 0
count_or_zero (some n) = n

-- d[key] = d.get(key, 0) + n
unfoldable pub add_at : String → ℕ → List (String × ℕ) → List (String × ℕ)
unfolding Keyed.get Keyed.put
add_at key n d = Keyed.put key (count_or_zero (Keyed.get key d) + n) d

-- str(row.get("provider") or "unknown")
abbrev pub provider_of : Event → String
provider_of a = if str_eq a.entry.provider "" then "unknown" else a.entry.provider

abbrev pub image_total : Event → ℕ
image_total a =
    if ltb 0 (count_or_zero a.entry.image_count) then count_or_zero a.entry.image_count else 1

-- one turn of the loop
unfoldable pub count_event : Event → Summary → Summary
unfolding add_at
count_event a t =
    let operation = a.entry.operation_type in
    record {
      total_llm_calls = if str_eq operation "llm" then t.total_llm_calls + 1 else t.total_llm_calls;
      total_image_generations =
          if str_eq operation "image_gen"
          then t.total_image_generations + image_total a
          else t.total_image_generations;
      total_tts_seconds =
          if str_eq operation "tts"
          then t.total_tts_seconds + count_or_zero a.entry.audio_seconds
          else t.total_tts_seconds;
      total_estimated_cost_usd = t.total_estimated_cost_usd + cost_of a;
      by_provider = add_at (provider_of a) (cost_of a) t.by_provider;
      by_operation = add_at operation 1 t.by_operation;
    }

unfoldable pub summarise : List Event → Summary → Summary
unfolding count_event
summarise [] t = t
summarise (a ∷ rest) t = summarise rest (count_event a t)

unfoldable pub get_monthly_summary : Clock → ℕ → UsageStorage → Summary
unfolding list_by_workspace summarise
get_monthly_summary c w s = summarise (list_by_workspace w c.period_start s) empty_summary

unfoldable pub audio_count : Summary → ℕ
unfolding Keyed.get
audio_count t =
    count_or_zero (Keyed.get "tts" t.by_operation)
    + count_or_zero (Keyed.get "stt" t.by_operation)
    + count_or_zero (Keyed.get "render" t.by_operation)

unfoldable pub quota_exceeded_reason : Summary → QuotaValues → String → Option String
unfolding is_audio audio_count
quota_exceeded_reason t q operation =
    if leb q.monthly_cost_usd t.total_estimated_cost_usd
    then some "Monthly cost quota exceeded"
    else if str_eq operation "llm" && leb q.monthly_llm_calls t.total_llm_calls
    then some "Monthly LLM call quota exceeded"
    else if str_eq operation "image_gen"
        && leb q.monthly_image_generations t.total_image_generations
    then some "Monthly image generation quota exceeded"
    else if is_audio operation && leb q.monthly_tts_requests (audio_count t)
    then some "Monthly audio/render request quota exceeded"
    else none
