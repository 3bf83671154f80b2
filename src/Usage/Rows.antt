-- ===== src/Usage/Rows.antt =====
-- packages/creator-service/creator_service/usage_service.py: the rows and dictionaries of
-- `InMemoryUsageStorage`, and amounts of money. An amount is a number of micro-dollars.
use short_form_studio.Prelude.{
  ℕ, ◌*◌, String, ◌==◌, Bool, true, false, ◌||◌, Option, none, some, List, [], ◌∷◌, if◌then◌else◌,
  str_eq,
}
use short_form_studio.Prelude.Int.{ℤ, pos}
use short_form_studio.Prelude.Checked.{Result, ok, err, ◌>>◌, reject}
use short_form_studio.Errors.{Error, value_error, text}
use short_form_studio.Run.Storage.{mem_text}

-- What the text of a value says as a `Decimal`: nothing, an infinity or NaN, less than zero, or
-- an amount.
pub data Amount : Type 0 where
  malformed not_finite negative : Amount
  amount : ℕ → Amount

unfoldable pub money : Amount → Result Error ℕ
money malformed = err (value_error (text "must be a finite monetary value"))
money not_finite = err (value_error (text "must be a finite non-negative monetary value"))
money negative = err (value_error (text "must be a finite non-negative monetary value"))
money (amount micro) = ok micro

-- `ReservationQuote.bounded`; `units` is None where the bound is missing
unfoldable pub bounded : ℕ → Option ℕ → ℕ → ℕ → Result Error ℕ
unfolding money
bounded unit_cost none attempts deliveries =
    err (value_error (text "units must have a positive finite bound"))
bounded unit_cost (some units) attempts deliveries =
    reject (units == 0) (value_error (text "units must have a positive finite bound"))
    >> (reject (attempts == 0 || deliveries == 0)
          (value_error (text "attempt and delivery bounds must be positive"))
        >> money (amount (unit_cost * units * attempts * deliveries)))

-- the clock: now, and the first instant of its month
pub record Clock : Type 0 where
  pub now : ℕ
  pub period_start : ℕ

-- the row given to `record_event`; a cost is none or an amount
pub record Entry : Type 0 where
  pub workspace_id : Option ℕ
  pub project_id : Option ℕ
  pub run_id : Option ℕ
  pub provider : String
  pub model_key : String
  pub operation_type : String
  pub input_tokens : Option ℕ
  pub output_tokens : Option ℕ
  pub image_count : Option ℕ
  pub audio_seconds : Option ℕ
  pub estimated_cost_usd : Option ℕ
  pub cost_config_version : Option String
  pub idempotency_key : Option String
  pub reservation_attempt_id : Option String

pub record Event : Type 0 where
  pub id : ℕ
  pub created_at : ℕ
  pub entry : Entry

pub record QuotaValues : Type 0 where
  pub monthly_llm_calls : ℕ
  pub monthly_image_generations : ℕ
  pub monthly_tts_requests : ℕ
  pub monthly_cost_usd : ℕ

pub record Quota : Type 0 where
  pub id : ℕ
  pub workspace_id : ℕ
  pub values : QuotaValues
  pub created_at : ℕ
  pub updated_at : ℕ

-- QUOTAS
abbrev pub quotas_default : QuotaValues
quotas_default = record {
  monthly_llm_calls = 1000;
  monthly_image_generations = 200;
  monthly_tts_requests = 3600;
  monthly_cost_usd = 50000000;
}

-- the keys of a dictionary of reserved units
pub data Bucket : Type 0 where
  llm_bucket image_bucket tts_bucket : Bucket

-- The counters are integers: the source subtracts without a test.
pub record Reserved : Type 0 where
  pub llm : ℤ
  pub image_gen : ℤ
  pub tts_requests : ℤ

abbrev pub none_reserved : Reserved
none_reserved = record { llm = pos 0; image_gen = pos 0; tts_requests = pos 0 }

abbrev pub units_of : Bucket → Reserved → ℤ
units_of llm_bucket r = r.llm
units_of image_bucket r = r.image_gen
units_of tts_bucket r = r.tts_requests

abbrev pub set_units : Bucket → ℤ → Reserved → Reserved
set_units llm_bucket n r = record r { llm = n }
set_units image_bucket n r = record r { image_gen = n }
set_units tts_bucket n r = record r { tts_requests = n }

unfoldable pub is_audio : String → Bool
unfolding mem_text
is_audio operation = mem_text operation ("tts" ∷ "stt" ∷ "render" ∷ [])

-- "tts_requests" if operation_type in {"tts", "stt", "render"} else operation_type, looked up
unfoldable pub bucket_of : String → Option Bucket
unfolding is_audio
bucket_of operation =
    if is_audio operation || str_eq operation "tts_requests"
    then some tts_bucket
    else if str_eq operation "llm"
    then some llm_bucket
    else if str_eq operation "image_gen"
    then some image_bucket
    else none

abbrev pub limit_of : Bucket → QuotaValues → ℕ
limit_of llm_bucket q = q.monthly_llm_calls
limit_of image_bucket q = q.monthly_image_generations
limit_of tts_bucket q = q.monthly_tts_requests

pub data OwnerStatus : Type 0 where
  reserved consumed billable_unknown settled cancelled : OwnerStatus

-- status in {"reserved", "consumed"}
abbrev pub is_open : OwnerStatus → Bool
is_open reserved = true
is_open consumed = true
is_open _ = false

-- status in {"reserved", "consumed", "billable_unknown"}
abbrev pub holds_money : OwnerStatus → Bool
holds_money reserved = true
holds_money consumed = true
holds_money billable_unknown = true
holds_money _ = false

abbrev pub is_reserved : OwnerStatus → Bool
is_reserved reserved = true
is_reserved _ = false

-- a value of `_owned`
pub record Owner : Type 0 where
  pub workspace_id : ℕ
  pub period_start : ℕ
  pub operation_type : String
  pub status : OwnerStatus
  pub estimate : ℕ
  pub settled_cost : ℕ

pub record UsageStorage : Type 0 where
  pub events : List (ℕ × Event)
  pub events_by_idempotency_key : List (String × Event)
  pub quotas : List (ℕ × Quota)
  pub reservations : List ((ℕ × ℕ) × Reserved)
  pub owned : List (String × Owner)
  pub owned_attempts : List ((String × String) × ℕ)
  pub accounted_attempts : List (String × String)
  pub owned_units : List (String × ℕ)
  pub next_event_id : ℕ
  pub next_quota_id : ℕ

abbrev pub no_usage : UsageStorage
no_usage = record {
  events = [];
  events_by_idempotency_key = [];
  quotas = [];
  reservations = [];
  owned = [];
  owned_attempts = [];
  accounted_attempts = [];
  owned_units = [];
  next_event_id = 1;
  next_quota_id = 1;
}
