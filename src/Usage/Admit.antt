-- ===== src/Usage/Admit.antt =====
-- packages/creator-service/creator_service/usage_service.py: `try_reserve_quota` and
-- `try_reserve_owned`, the two ways in which units of a quota are reserved.
use short_form_studio.Prelude.{
  ℕ, ◌+◌, ◌-◌, ltb, leb, String, ◌==◌, Bool, true, false, ◌||◌, ◌&&◌, Option, none, some, List, [],
  ◌∷◌, if◌then◌else◌, str_eq,
}
use short_form_studio.Prelude.Int.{ℤ, pos, ◌+ℤ◌, ltb_ℤ, leb_ℤ}
use short_form_studio.Prelude.Checked.{Result, ok, err}
use short_form_studio.Prelude.Keyed
use short_form_studio.Prelude.Keyed.{Key, nat_key, text_key, pair_key, total}
use short_form_studio.Errors.{Error, key_error, of_id}
use short_form_studio.Usage.Rows.{
  Clock, Event, QuotaValues, Quota, Owner, OwnerStatus, reserved, is_reserved, holds_money,
  UsageStorage, Reserved, none_reserved, Bucket, llm_bucket, image_bucket, tts_bucket, units_of,
  set_units, bucket_of, limit_of, is_audio, quotas_default,
}
use short_form_studio.Usage.Events.{
  in_workspace_since, list_by_workspace, quota_or_default, get_workspace_quota, set_workspace_quota,
}

-- the units that an event uses of a bucket, in `try_reserve_quota`
abbrev pub image_units : Option ℕ → ℕ
image_units none = 1
image_units (some n) = if ltb 0 n then n else 1

unfoldable pub event_units : Bucket → Event → ℕ
unfolding is_audio
event_units llm_bucket a = if str_eq a.entry.operation_type "llm" then 1 else 0
event_units image_bucket a =
    if str_eq a.entry.operation_type "image_gen" then image_units a.entry.image_count else 0
event_units tts_bucket a = if is_audio a.entry.operation_type then 1 else 0

unfoldable pub used_since : Bucket → ℕ → ℕ → UsageStorage → ℕ
unfolding event_units
used_since b workspace_id since s =
    total (λ k a. if in_workspace_since workspace_id since a then event_units b a else 0) s.events

abbrev pub row_or_zeros : Option Reserved → Reserved
row_or_zeros none = none_reserved
row_or_zeros (some r) = r

unfoldable pub reserved_row : ℕ × ℕ → UsageStorage → Reserved
unfolding Keyed.get
reserved_row key s = row_or_zeros (Keyed.get key s.reservations)

-- self._reservations.setdefault(key, ...)
unfoldable pub with_row : ℕ × ℕ → UsageStorage → UsageStorage
unfolding reserved_row Keyed.put
with_row key s = record s { reservations = Keyed.put key (reserved_row key s) s.reservations }

unfoldable pub add_units : ℕ × ℕ → Bucket → ℤ → UsageStorage → UsageStorage
unfolding reserved_row Keyed.put
add_units key b n s =
    let r = reserved_row key s in
    record s { reservations = Keyed.put key (set_units b (units_of b r +ℤ n) r) s.reservations }

unfoldable pub put_owner : String → Owner → UsageStorage → UsageStorage
unfolding Keyed.put
put_owner owner_id o s = record s { owned = Keyed.put owner_id o s.owned }

-- the owner that an admission writes
abbrev pub new_owner : ℕ → ℕ → String → ℕ → Owner
new_owner workspace_id period operation estimate = record {
  workspace_id = workspace_id;
  period_start = period;
  operation_type = operation;
  status = reserved;
  estimate = estimate;
  settled_cost = 0;
}

abbrev pub put_new : Option String → Owner → UsageStorage → UsageStorage
put_new none o s = s
put_new (some owner_id) o s = put_owner owner_id o s

abbrev pub quota_bucket : String → Option Bucket
quota_bucket operation =
    if str_eq operation "llm"
    then some llm_bucket
    else if str_eq operation "image_gen"
    then some image_bucket
    else if is_audio operation
    then some tts_bucket
    else none

-- usage + reserved[bucket] >= quota
abbrev pub is_full : Clock → ℕ → QuotaValues → Bucket → UsageStorage → Bool
is_full c w quota b s =
    leb_ℤ (pos (limit_of b quota))
      (pos (used_since b w c.period_start s) +ℤ units_of b (reserved_row (w, c.period_start) s))

abbrev pub reserve_one :
    Clock
    → ℕ
    → String
    → Option String
    → QuotaValues
    → Option Bucket
    → UsageStorage
    → Bool × UsageStorage
reserve_one c w operation owner_id quota none s = (true, s)
reserve_one c w operation owner_id quota (some b) s =
    if is_full c w quota b s then (false, s) else (
      true,
      put_new owner_id (new_owner w c.period_start operation 0)
          (add_units (w, c.period_start) b (pos 1) s),
    )

abbrev pub same_reservation : ℕ → String → Owner → Bool
same_reservation w operation o =
    o.workspace_id == w && str_eq o.operation_type operation && is_reserved o.status

unfoldable pub owner_of : Option String → UsageStorage → Option Owner
unfolding Keyed.get
owner_of none s = none
owner_of (some owner_id) s = Keyed.get owner_id s.owned

abbrev pub try_reserve_new : Clock → ℕ → String → Option String → UsageStorage → Bool × UsageStorage
try_reserve_new c w operation owner_id s =
    let (quota, s') = quota_or_default c w quotas_default (get_workspace_quota w s) s in
    reserve_one c w operation owner_id quota.values (quota_bucket operation)
      (with_row (w, c.period_start) s')

abbrev pub try_reserve_over :
    Option Owner → Clock → ℕ → String → Option String → UsageStorage → Bool × UsageStorage
try_reserve_over none c w operation owner_id s = try_reserve_new c w operation owner_id s
try_reserve_over (some o) c w operation owner_id s = (same_reservation w operation o, s)

unfoldable pub try_reserve_quota :
    Clock → ℕ → String → Option String → UsageStorage → Bool × UsageStorage
unfolding owner_of is_audio reserved_row with_row add_units put_owner used_since get_workspace_quota
    set_workspace_quota
try_reserve_quota c w operation owner_id s =
    try_reserve_over (owner_of owner_id s) c w operation owner_id s

-- `estimated_cost_usd or 0` of an event
abbrev pub cost_of : Event → ℕ
cost_of a = elim a.entry.estimated_cost_usd [ none ↦ 0 | some cost ↦ cost ]

unfoldable pub settled_workspace : ℕ → ℕ → UsageStorage → ℕ
settled_workspace w since s =
    total (λ k a. if in_workspace_since w since a then cost_of a else 0) s.events

unfoldable pub settled_global : ℕ → UsageStorage → ℕ
settled_global since s = total (λ k a. if leb since a.created_at then cost_of a else 0) s.events

-- max(estimate - settled, 0)
abbrev pub residual : Owner → ℕ
residual o = o.estimate - o.settled_cost

abbrev pub held_workspace : ℕ → ℕ → String → Owner → ℕ
held_workspace w period k o =
    if o.workspace_id == w && o.period_start == period && holds_money o.status
    then residual o
    else 0

abbrev pub held_global : ℕ → String → Owner → ℕ
held_global period k o = if o.period_start == period && holds_money o.status then residual o else 0

unfoldable pub reserved_workspace : ℕ → ℕ → UsageStorage → ℕ
reserved_workspace w period s = total (held_workspace w period) s.owned

unfoldable pub reserved_global : ℕ → UsageStorage → ℕ
reserved_global period s = total (held_global period) s.owned

-- some budget that `cost` more would pass
abbrev pub over_global : ℕ → Option ℕ → ℕ → UsageStorage → Bool
over_global period none cost s = false
over_global period (some budget) cost s =
    ltb budget (settled_global period s + reserved_global period s + cost)

abbrev pub over_workspace : ℕ → ℕ → ℕ → ℕ → UsageStorage → Bool
over_workspace w period budget cost s =
    ltb budget (settled_workspace w period s + reserved_workspace w period s + cost)

-- the units that the listed events use, in `try_reserve_owned`
abbrev pub image_count_or_1 : Option ℕ → ℕ
image_count_or_1 none = 1
image_count_or_1 (some n) = if n == 0 then 1 else n

unfoldable pub listed_units : Bucket → String → List Event → ℕ
unfolding is_audio
listed_units b operation [] = 0
listed_units image_bucket operation (a ∷ rest) =
    (if str_eq a.entry.operation_type operation then image_count_or_1 a.entry.image_count else 0)
    + listed_units image_bucket operation rest
listed_units llm_bucket operation (a ∷ rest) =
    (if str_eq a.entry.operation_type operation then 1 else 0)
    + listed_units llm_bucket operation rest
listed_units tts_bucket operation (a ∷ rest) =
    (if str_eq a.entry.operation_type operation || is_audio a.entry.operation_type then 1 else 0)
    + listed_units tts_bucket operation rest

abbrev pub put_units : String → ℕ → UsageStorage → UsageStorage
put_units owner_id n s = record s { owned_units = Keyed.put owner_id n s.owned_units }

-- used + reserved[bucket] + units > quota
abbrev pub no_room : Clock → ℕ → String → ℕ → Quota → Bucket → UsageStorage → Bool
no_room c w operation units quota b s = ltb_ℤ (pos (limit_of b quota.values)) (
    pos (listed_units b operation (list_by_workspace w c.period_start s))
    +ℤ units_of b (reserved_row (w, c.period_start) s)
    +ℤ pos units)

abbrev pub admitted : Clock → ℕ → String → String → ℕ → ℕ → Bucket → UsageStorage → UsageStorage
admitted c w operation owner_id estimate units b s =
    put_owner owner_id (new_owner w c.period_start operation estimate) (
      put_units owner_id units
        (add_units (w, c.period_start) b (pos units) (with_row (w, c.period_start) s)))

-- the admission proper, with the quota and the bucket
abbrev pub admit :
    Clock → ℕ → String → String → ℕ → ℕ → Quota → Bucket → UsageStorage → Bool × UsageStorage
admit c w operation owner_id estimate units quota b s =
    if no_room c w operation units quota b s
    then (false, with_row (w, c.period_start) s)
    else (true, admitted c w operation owner_id estimate units b s)

abbrev pub admit_over :
    Clock
    → ℕ
    → String
    → String
    → ℕ
    → ℕ
    → Option Quota
    → Option Bucket
    → UsageStorage
    → Result Error Bool × UsageStorage
admit_over c w operation owner_id estimate units none b s = (ok false, s)
admit_over c w operation owner_id estimate units (some quota) none s =
    (err (key_error (of_id "" operation)), s)
admit_over c w operation owner_id estimate units (some quota) (some b) s =
    let (answer, s') = admit c w operation owner_id estimate units quota b s in (ok answer, s')

abbrev pub same_owned : ℕ → String → Owner → Bool
same_owned w operation o =
    o.workspace_id == w
    && str_eq o.operation_type operation
    && (elim o.status [ reserved ↦ true | OwnerStatus.consumed ↦ true | _ ↦ false ])

-- the arguments of `try_reserve_owned`
pub record Request : Type 0 where
  pub workspace_id : ℕ
  pub operation_type : String
  pub owner_id : String
  pub estimated_cost_usd : ℕ
  pub monthly_cost_usd : ℕ
  pub global_monthly_cost_usd : Option ℕ
  pub units : ℕ

abbrev pub try_admit : Clock → Request → UsageStorage → Result Error Bool × UsageStorage
try_admit c r s =
    if over_workspace r.workspace_id c.period_start r.monthly_cost_usd r.estimated_cost_usd s
      || over_global c.period_start r.global_monthly_cost_usd r.estimated_cost_usd s
    then (ok false, s)
    else admit_over c r.workspace_id r.operation_type r.owner_id r.estimated_cost_usd r.units
        (get_workspace_quota r.workspace_id s) (bucket_of r.operation_type) s

abbrev pub try_reserve_owned_over :
    Option Owner → Clock → Request → UsageStorage → Result Error Bool × UsageStorage
try_reserve_owned_over none c r s = try_admit c r s
try_reserve_owned_over (some o) c r s = (ok (same_owned r.workspace_id r.operation_type o), s)

unfoldable pub try_reserve_owned : Clock → Request → UsageStorage → Result Error Bool × UsageStorage
unfolding Keyed.get Keyed.put settled_workspace settled_global reserved_workspace reserved_global
    listed_units list_by_workspace reserved_row with_row add_units put_owner bucket_of
    get_workspace_quota
try_reserve_owned c r s = try_reserve_owned_over (Keyed.get r.owner_id s.owned) c r s
