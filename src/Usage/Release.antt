-- ===== src/Usage/Release.antt =====
-- packages/creator-service/creator_service/usage_service.py: `readmit_owned`, which moves a
-- reservation to the current month, and `_decrement_reservation`.
use short_form_studio.Prelude.{
  ℕ, ◌+◌, String, ◌==◌, Bool, true, false, not, ◌||◌, ◌&&◌, Option, none, some, List, [], ◌∷◌,
  if◌then◌else◌, str_eq,
}
use short_form_studio.Prelude.Int.{pos, ◌+ℤ◌, ◌-ℤ◌, ltb_ℤ, max_ℤ}
use short_form_studio.Prelude.Checked.{ok, err}
use short_form_studio.Prelude.Keyed
use short_form_studio.Prelude.Keyed.{Key, nat_key, text_key, pair_key, total}
use short_form_studio.Errors.{key_error, of_id}
use short_form_studio.Usage.Rows.{
  Clock, Event, Quota, Owner, is_open, is_reserved, UsageStorage, Reserved, Bucket, llm_bucket,
  image_bucket, tts_bucket, units_of, set_units, bucket_of, limit_of, is_audio,
}
use short_form_studio.Usage.Events.{list_by_workspace, get_workspace_quota}
use short_form_studio.Usage.Admit.{
  over_workspace, over_global, image_count_or_1, reserved_row, with_row, add_units, put_owner,
  residual, quota_bucket, settled_workspace, settled_global, reserved_workspace, reserved_global,
}
use short_form_studio.Usage.Owned.{Answer, units_left}

-- the units that the listed events use, in `readmit_owned`
abbrev pub readmit_units_of : Bucket → Event → ℕ
readmit_units_of llm_bucket a = if str_eq a.entry.operation_type "llm" then 1 else 0
readmit_units_of image_bucket a =
    if str_eq a.entry.operation_type "image_gen" then image_count_or_1 a.entry.image_count else 0
readmit_units_of tts_bucket a = if is_audio a.entry.operation_type then 1 else 0

unfoldable pub readmit_units : Bucket → List Event → ℕ
unfolding is_audio
readmit_units b [] = 0
readmit_units b (a ∷ rest) = readmit_units_of b a + readmit_units b rest

-- previous_usage[bucket] = max(previous_usage[bucket] - units, 0), where there is one
abbrev pub give_back_over : ℕ × ℕ → Bucket → ℕ → Option Reserved → UsageStorage → UsageStorage
give_back_over key b n none s = s
give_back_over key b n (some r) s = record s {
  reservations =
      Keyed.put key (set_units b (max_ℤ (units_of b r -ℤ pos n) (pos 0)) r) s.reservations;
}

unfoldable pub give_back : ℕ × ℕ → Bucket → ℕ → UsageStorage → UsageStorage
unfolding Keyed.get Keyed.put
give_back key b n s = give_back_over key b n (Keyed.get key s.reservations) s

-- usage[bucket] + current_usage[bucket] + units > quota
abbrev pub no_room_to_move : Clock → String → Owner → Quota → Bucket → UsageStorage → Bool
no_room_to_move c owner_id o quota b s = ltb_ℤ (pos (limit_of b quota.values)) (
    pos (readmit_units b (list_by_workspace o.workspace_id c.period_start s))
    +ℤ units_of b (reserved_row (o.workspace_id, c.period_start) s)
    +ℤ pos (units_left owner_id s))

abbrev pub move_units : Clock → String → Owner → Quota → Option Bucket → UsageStorage → Answer Bool
move_units c owner_id o quota none s = (err (key_error (of_id "" o.operation_type)), s)
move_units c owner_id o quota (some b) s =
    if no_room_to_move c owner_id o quota b s then (ok false, s) else (
      ok true,
      add_units (o.workspace_id, c.period_start) b (pos (units_left owner_id s))
          (give_back (o.workspace_id, o.period_start) b (units_left owner_id s) s),
    )

abbrev pub move_reserved : Clock → String → Owner → Quota → UsageStorage → Answer Bool
move_reserved c owner_id o quota s =
    if is_reserved o.status
    then move_units c owner_id o quota (bucket_of o.operation_type)
        (with_row (o.workspace_id, c.period_start) s)
    else (ok true, s)

abbrev pub put_moved : Clock → String → Owner → Answer Bool → Answer Bool
put_moved c owner_id o (ok true, s) =
    (ok true, put_owner owner_id (record o { period_start = c.period_start }) s)
put_moved c owner_id o other = other

abbrev pub readmit_quota :
    Clock → String → Option ℕ → Owner → Option Quota → UsageStorage → Answer Bool
readmit_quota c owner_id global_budget o none s = (ok false, s)
readmit_quota c owner_id global_budget o (some quota) s =
    if over_workspace o.workspace_id c.period_start quota.values.monthly_cost_usd (residual o) s
      || over_global c.period_start global_budget (residual o) s
    then (ok false, s)
    else put_moved c owner_id o (move_reserved c owner_id o quota s)

abbrev pub readmit_over : Clock → String → Option ℕ → Option Owner → UsageStorage → Answer Bool
readmit_over c owner_id global_budget none s = (ok false, s)
readmit_over c owner_id global_budget (some o) s =
    if not (is_open o.status)
    then (ok false, s)
    else if o.period_start == c.period_start
    then (ok true, s)
    else readmit_quota c owner_id global_budget o (get_workspace_quota o.workspace_id s) s

unfoldable pub readmit_owned : Clock → String → Option ℕ → UsageStorage → Answer Bool
unfolding Keyed.get Keyed.put settled_workspace settled_global reserved_workspace reserved_global
    readmit_units list_by_workspace reserved_row with_row add_units give_back put_owner bucket_of
    get_workspace_quota units_left
readmit_owned c owner_id global_budget s =
    readmit_over c owner_id global_budget (Keyed.get owner_id s.owned) s

-- the reserved owners of a kind of operation, which `_decrement_reservation` counts
abbrev pub same_kind : String → String → Bool
same_kind operation op =
    if str_eq operation "llm" || str_eq operation "image_gen"
    then str_eq op operation
    else is_audio op

unfoldable pub reserved_owners : ℕ → ℕ → String → UsageStorage → ℕ
unfolding is_audio
reserved_owners w period operation s =
    total
      (λ k o.
        if o.workspace_id == w
          && o.period_start == period
          && is_reserved o.status
          && same_kind operation o.operation_type
        then 1
        else 0)
      s.owned

abbrev pub decrement_row : ℕ × ℕ → Bucket → ℕ → ℕ → Option Reserved → UsageStorage → UsageStorage
decrement_row key b n owners none s = s
decrement_row key b n owners (some r) s = record s {
  reservations =
      Keyed.put key (set_units b (max_ℤ (pos owners) (units_of b r -ℤ pos n)) r) s.reservations;
}

abbrev pub decrement_bucket : Clock → ℕ → String → ℕ → Option Bucket → UsageStorage → UsageStorage
decrement_bucket c w operation n none s = s
decrement_bucket c w operation n (some b) s =
    if n == 0
    then s
    else decrement_row (w, c.period_start) b n (reserved_owners w c.period_start operation s)
        (Keyed.get (w, c.period_start) s.reservations) s

-- `release_reservation` and `cancel_reservation` are this; a negative number of units counts as 0
unfoldable pub decrement_reservation : Clock → ℕ → String → ℕ → UsageStorage → UsageStorage
unfolding Keyed.get Keyed.put reserved_owners is_audio
decrement_reservation c w operation n s =
    decrement_bucket c w operation n (quota_bucket operation) s
