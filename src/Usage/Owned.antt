-- ===== src/Usage/Owned.antt =====
-- packages/creator-service/creator_service/usage_service.py: the owner of a reservation after its
-- admission: `_finish_owned`, `cancel_owned`, `settle_owned`, `finalize_revoked_owned`,
-- `record_owned_event` and `authorize_owned_attempt`.
use short_form_studio.Prelude.{
  ℕ, ◌+◌, ◌-◌, ltb, String, ◌==◌, Bool, true, false, not, ◌||◌, ◌&&◌, Option, none, some, List, [],
  ◌∷◌, if◌then◌else◌, str_eq,
}
use short_form_studio.Prelude.Int.{sub_ℕ}
use short_form_studio.Prelude.Checked.{Result, ok, err}
use short_form_studio.Prelude.Keyed
use short_form_studio.Prelude.Keyed.{Key, nat_key, text_key, pair_key, total, member}
use short_form_studio.Errors.{Error, key_error, value_error, of_id, text}
use short_form_studio.Usage.Rows.{
  Clock, Entry, Event, Owner, OwnerStatus, reserved, consumed, billable_unknown, settled, cancelled,
  is_open, is_reserved, UsageStorage, Reserved, Bucket, bucket_of,
}
use short_form_studio.Usage.Events.{existing_event, record_event, is_number}
use short_form_studio.Usage.Admit.{add_units, put_owner, put_units, cost_of}

-- what a method answers or raises, and the storage that it leaves
abbrev pub Answer : Type 0 → Type 0
Answer A = Result Error A × UsageStorage

-- `_owned_units.get(owner_id, 1)`
unfoldable pub units_left : String → UsageStorage → ℕ
unfolding Keyed.get
units_left owner_id s = elim (Keyed.get owner_id s.owned_units) [ none ↦ 1 | some n ↦ n ]

-- self._reservations[(workspace_id, period_start)][bucket] -= n
abbrev pub take_units_over :
    Owner → ℕ → Option Reserved → Option Bucket → UsageStorage → Answer (Unit {0})
take_units_over o n none b s = (err (key_error (text "reservations")), s)
take_units_over o n (some r) none s = (err (key_error (of_id "" o.operation_type)), s)
take_units_over o n (some r) (some b) s =
    (ok tt, add_units (o.workspace_id, o.period_start) b (sub_ℕ 0 n) s)

unfoldable pub take_units : Owner → ℕ → UsageStorage → Answer (Unit {0})
unfolding Keyed.get Keyed.put add_units bucket_of
take_units o n s =
    take_units_over o n (Keyed.get (o.workspace_id, o.period_start) s.reservations)
      (bucket_of o.operation_type) s

-- what follows only where a call did not raise
abbrev pub after : {A : Type 0} → Answer (Unit {0}) → (UsageStorage → Answer A) → Answer A
after (ok _, s) next = next s
after (err raised, s) next = (err raised, s)

abbrev pub finish_over : String → OwnerStatus → Option Owner → UsageStorage → Answer Bool
finish_over owner_id status none s = (ok false, s)
finish_over owner_id status (some o) s =
    if not (is_reserved o.status)
    then (ok false, s)
    else after (take_units o (units_left owner_id s) s)
        λ s'. (ok true, put_owner owner_id (record o { status = status }) s')

unfoldable pub finish_owned : String → OwnerStatus → UsageStorage → Answer Bool
unfolding Keyed.get Keyed.put take_units units_left put_owner
finish_owned owner_id status s = finish_over owner_id status (Keyed.get owner_id s.owned) s

abbrev pub cancel_over : String → Option Owner → UsageStorage → Answer Bool
cancel_over owner_id none s = (ok false, s)
cancel_over owner_id (some o) s = finish_owned owner_id cancelled s

unfoldable pub cancel_owned : String → UsageStorage → Answer Bool
unfolding Keyed.get finish_owned
cancel_owned owner_id s = cancel_over owner_id (Keyed.get owner_id s.owned) s

-- the cost of the attempts that no event has accounted for
unfoldable pub unaccounted : String → UsageStorage → ℕ
unaccounted owner_id s =
    total
      (λ key cost.
        if str_eq key.0 owner_id && not (member key s.accounted_attempts) then cost else 0)
      s.owned_attempts

abbrev pub is_over : OwnerStatus → Bool
is_over settled = true
is_over cancelled = true
is_over billable_unknown = true
is_over _ = false

abbrev pub settled_owner : Owner → Bool → ℕ → Owner
settled_owner o billable_unknown_flag unknown = record o {
  status = if billable_unknown_flag || ltb 0 unknown then billable_unknown else settled;
  estimate = if billable_unknown_flag then o.estimate else o.settled_cost + unknown;
}

abbrev pub finish_first : String → OwnerStatus → OwnerStatus → UsageStorage → Answer (Unit {0})
finish_first owner_id reserved final s =
    let (answer, s') = finish_owned owner_id final s in
    (elim answer [ ok _ ↦ ok tt | err raised ↦ err raised ], s')
finish_first owner_id _ final s = (ok tt, s)

abbrev pub settle_with : String → Bool → ℕ → Owner → UsageStorage → Answer Bool
settle_with owner_id flag unknown o s =
    if is_over o.status
    then (ok false, s)
    else if not flag && is_reserved o.status && unknown == 0
    then (ok false, s)
    else after (finish_first owner_id o.status (settled_owner o flag unknown).status s)
        λ s'. (ok true, put_owner owner_id (settled_owner o flag unknown) s')

abbrev pub settle_over : String → Bool → Option Owner → UsageStorage → Answer Bool
settle_over owner_id flag none s = (ok false, s)
settle_over owner_id flag (some o) s = settle_with owner_id flag (unaccounted owner_id s) o s

unfoldable pub settle_owned : String → Bool → UsageStorage → Answer Bool
unfolding Keyed.get Keyed.put put_owner finish_owned unaccounted
settle_owned owner_id flag s = settle_over owner_id flag (Keyed.get owner_id s.owned) s

-- any(key[0] == owner_id for key in self._owned_attempts)
unfoldable pub has_attempt : String → List ((String × String) × ℕ) → Bool
has_attempt owner_id [] = false
has_attempt owner_id ((key, cost) ∷ rest) = str_eq key.0 owner_id || has_attempt owner_id rest

unfoldable pub finalize_revoked_owned : String → UsageStorage → Answer Bool
unfolding has_attempt settle_owned cancel_owned
finalize_revoked_owned owner_id s =
    if has_attempt owner_id s.owned_attempts
    then settle_owned owner_id false s
    else cancel_owned owner_id s

abbrev pub reservation_owner_over : String → Option Owner → Result Error (Option String)
reservation_owner_over task_id none = ok none
reservation_owner_over task_id (some o) = elim o.status [
  | cancelled ↦ err (value_error (text "Cancelled reservation owner"))
  | _ ↦ ok (some task_id)
]

unfoldable pub reservation_owner_id : String → UsageStorage → Result Error (Option String)
unfolding Keyed.get
reservation_owner_id task_id s = reservation_owner_over task_id (Keyed.get task_id s.owned)

-- the cost of all attempts of an owner
abbrev pub attempt_cost : String → String × String → ℕ → ℕ
attempt_cost owner_id key cost = if str_eq key.0 owner_id then cost else 0

unfoldable pub authorized : String → UsageStorage → ℕ
authorized owner_id s = total (attempt_cost owner_id) s.owned_attempts

unfoldable pub put_attempt : String × String → ℕ → UsageStorage → UsageStorage
unfolding Keyed.put
put_attempt key cost s = record s { owned_attempts = Keyed.put key cost s.owned_attempts }

abbrev pub authorize_new : String → String → ℕ → Owner → UsageStorage → Bool × UsageStorage
authorize_new owner_id attempt_id cost o s =
    if ltb o.estimate (authorized owner_id s + cost)
    then (false, s)
    else (true, put_attempt (owner_id, attempt_id) cost s)

abbrev pub authorize_over :
    String → String → ℕ → Option ℕ → Owner → UsageStorage → Bool × UsageStorage
authorize_over owner_id attempt_id cost none o s = authorize_new owner_id attempt_id cost o s
authorize_over owner_id attempt_id cost (some existing) o s = (existing == cost, s)

abbrev pub authorize_open : String → String → ℕ → Option Owner → UsageStorage → Bool × UsageStorage
authorize_open owner_id attempt_id cost none s = (false, s)
authorize_open owner_id attempt_id cost (some o) s =
    if not (is_open o.status)
    then (false, s)
    else authorize_over owner_id attempt_id cost (Keyed.get (owner_id, attempt_id) s.owned_attempts)
        o s

unfoldable pub authorize_owned_attempt : String → String → ℕ → UsageStorage → Bool × UsageStorage
unfolding Keyed.get authorized put_attempt
authorize_owned_attempt owner_id attempt_id cost s =
    authorize_open owner_id attempt_id cost (Keyed.get owner_id s.owned) s

abbrev pub account : Option (String × String) → UsageStorage → UsageStorage
account none s = s
account (some key) s = record s {
  accounted_attempts =
      if member key s.accounted_attempts then s.accounted_attempts else key ∷ s.accounted_attempts;
}

abbrev pub attempt_key : String → Option String → Option (String × String)
attempt_key owner_id none = none
attempt_key owner_id (some attempt_id) = some (owner_id, attempt_id)

-- the reservation gives one unit back, where some are left
abbrev pub use_unit : String → Owner → ℕ → UsageStorage → Answer (Unit {0})
use_unit owner_id o left s =
    if ltb 0 left
    then after (take_units o 1 s) (λ s'. (ok tt, put_units owner_id (left - 1) s'))
    else (ok tt, s)

abbrev pub charged : Owner → ℕ → ℕ → Owner
charged o left cost = record o {
  status = if left - 1 == 0 then consumed else reserved;
  settled_cost = o.settled_cost + cost;
}

abbrev pub record_new : Clock → Entry → String → Owner → UsageStorage → Answer Event
record_new c e owner_id o s =
    let (saved, s₁) = record_event c e s in
    let s₂ = account (attempt_key owner_id e.reservation_attempt_id) s₁ in
    let left = units_left owner_id s₂ in
    after (use_unit owner_id o left s₂)
      λ s₃. (ok saved, put_owner owner_id (charged o left (cost_of saved)) s₃)

-- a test that the attempt of the row has been authorised
abbrev pub known_attempt : Option (String × String) → UsageStorage → Bool
known_attempt none s = true
known_attempt (some key) s = elim (Keyed.get key s.owned_attempts) [ none ↦ false | some _ ↦ true ]

abbrev pub record_over_event :
    Option Event → Clock → Entry → String → Owner → UsageStorage → Answer Event
record_over_event (some old) c e owner_id o s = (ok old, s)
record_over_event none c e owner_id o s =
    if known_attempt (attempt_key owner_id e.reservation_attempt_id) s
    then record_new c e owner_id o s
    else (err (value_error (text "Usage event references unknown provider attempt")), s)

abbrev pub record_by_status :
    OwnerStatus → Clock → Entry → String → Owner → UsageStorage → Answer Event
record_by_status cancelled c e owner_id o s =
    (err (value_error (text "Cancelled reservation owner")), s)
record_by_status _ c e owner_id o s =
    record_over_event (existing_event e.idempotency_key s) c e owner_id o s

abbrev pub record_over_owner : Option Owner → Clock → Entry → String → UsageStorage → Answer Event
record_over_owner none c e owner_id s = (err (value_error (text "Unknown reservation owner")), s)
record_over_owner (some o) c e owner_id s =
    if not (is_number e.workspace_id o.workspace_id)
      || not (str_eq e.operation_type o.operation_type)
    then (err (value_error (text "Usage event owner mismatch")), s)
    else record_by_status o.status c e owner_id o s

unfoldable pub record_owned_event : Clock → Entry → String → UsageStorage → Answer Event
unfolding Keyed.get Keyed.put record_event existing_event take_units units_left put_owner
record_owned_event c e owner_id s = record_over_owner (Keyed.get owner_id s.owned) c e owner_id s
