-- ===== src/Usage/Owners/Admissions.antt =====
-- packages/creator-service/creator_service/usage_service.py: what events, quotas and admissions do
-- to an owner.
use short_form_studio.Prelude.{
  ℕ, String, ◌≡◌, refl, false, Option, none, some, inl, inr, Bool-cases,
}
use short_form_studio.Prelude.Int.{pos}
use short_form_studio.Prelude.Keyed
use short_form_studio.Prelude.Keyed.{Key, nat_key, text_key, pair_key, total, put-put}
use short_form_studio.Usage.Rows.{
  Clock, Entry, Event, QuotaValues, Quota, Owner, UsageStorage, Bucket, bucket_of, quotas_default,
}
use short_form_studio.Usage.Events.{
  record_event, record_over, existing_event, add_event, set_workspace_quota, quota_or_default,
  get_workspace_quota,
}
use short_form_studio.Usage.Admit.{
  with_row, add_units, put_units, put_new, new_owner, quota_bucket, reserve_one, try_reserve_over,
  try_reserve_quota, owner_of, Request, no_room, admit, admit_over, try_reserve_owned_over,
  try_reserve_owned,
}
use short_form_studio.Usage.Owned.{authorized}
use short_form_studio.Usage.Owners.Steps.{
  OwnerStep, stays, admits, view, Same, Same-Step, put_owner-Step, if-leaves,
}

pub record_event-Same : (c : Clock) (e : Entry) (s : UsageStorage) → Same s (record_event c e s).1
unfolding record_event add_event
record_event-Same c e s = at (existing_event e.idempotency_key s)
  where
    at : (m : Option Event) → Same s (record_over m c e s).1
    at none = (refl, refl)
    at (some old) = (refl, refl)

pub record_event-Step :
    (c : Clock) (e : Entry) (j : String) (s : UsageStorage)
    → OwnerStep false (view j s) (view j (record_event c e s).1)
record_event-Step c e j s = Same-Step j s (record_event c e s).1 (record_event-Same c e s)

set_workspace_quota-Same :
    (c : Clock) (w : ℕ) (q : QuotaValues) (s : UsageStorage)
    → Same s (set_workspace_quota c w q s).1
unfolding set_workspace_quota
set_workspace_quota-Same c w q s = (refl, refl)

pub set_workspace_quota-Step :
    (c : Clock) (w : ℕ) (q : QuotaValues) (j : String) (s : UsageStorage)
    → OwnerStep false (view j s) (view j (set_workspace_quota c w q s).1)
set_workspace_quota-Step c w q j s =
    Same-Step j s (set_workspace_quota c w q s).1 (set_workspace_quota-Same c w q s)

quota_or_default-Same :
    (c : Clock) (w : ℕ) (q : QuotaValues) (m : Option Quota) (s : UsageStorage)
    → Same s (quota_or_default c w q m s).1
quota_or_default-Same c w q none s = set_workspace_quota-Same c w q s
quota_or_default-Same c w q (some quota) s = (refl, refl)

-- an owner that is not known is admitted, where the name is given
put_new-Step :
    (owner_id : Option String) (w period : ℕ) (operation : String) (j : String) (s t : UsageStorage)
    → owner_of owner_id s ≡ none
    → Same s t
    → OwnerStep false (view j s) (view j (put_new owner_id (new_owner w period operation 0) t))
unfolding owner_of
put_new-Step none w period operation j s t h same = Same-Step j s t same
put_new-Step (some k) w period operation j s t h same =
    put_owner-Step k j (new_owner w period operation 0) s t same
      (rw h (admits w period operation 0 (authorized k s)))

reserve_one-Step :
    (c : Clock) (w : ℕ) (operation : String) (owner_id : Option String) (q : QuotaValues)
    (b : Option Bucket) (j : String) (s t : UsageStorage)
    → owner_of owner_id s ≡ none
    → Same s t
    → OwnerStep false (view j s) (view j (reserve_one c w operation owner_id q b t).1)
unfolding add_units
reserve_one-Step c w operation owner_id q none j s t h same = Same-Step j s t same
reserve_one-Step c w operation owner_id q (some b) j s t h same =
    if-leaves (λ u. OwnerStep false (view j s) (view j u)) _ _ _ (λ e. Same-Step j s t same)
      (λ e.
        put_new-Step owner_id w c.period_start operation j s
          (add_units (w, c.period_start) b (pos 1) t) h same)

pub try_reserve_quota-Step :
    (c : Clock) (w : ℕ) (operation : String) (owner_id : Option String) (j : String)
    (s : UsageStorage)
    → OwnerStep false (view j s) (view j (try_reserve_quota c w operation owner_id s).1)
unfolding try_reserve_quota with_row
try_reserve_quota-Step c w operation owner_id j s = at (owner_of owner_id s) refl
  where
    at :
        (m : Option Owner)
        → owner_of owner_id s ≡ m
        → OwnerStep false (view j s) (view j (try_reserve_over m c w operation owner_id s).1)
    at none e =
        reserve_one-Step c w operation owner_id
          (quota_or_default c w quotas_default (get_workspace_quota w s) s).0.values
          (quota_bucket operation) j s
          (with_row (w, c.period_start)
            (quota_or_default c w quotas_default (get_workspace_quota w s) s).1)
          e (quota_or_default-Same c w quotas_default (get_workspace_quota w s) s)
    at (some o) e = stays (view j s)

admit-Step :
    (c : Clock) (r : Request) (q : Quota) (b : Bucket) (j : String) (s : UsageStorage)
    → Keyed.get r.owner_id s.owned ≡ none
    → OwnerStep false (view j s) (
        view j
          (admit c r.workspace_id r.operation_type r.owner_id r.estimated_cost_usd r.units q b s).1)
unfolding with_row add_units authorized
admit-Step c r q b j s h =
    elim (Bool-cases (no_room c r.workspace_id r.operation_type r.units q b s)) [
      | inl e ↦ rw e (stays (view j s))
      | inr e ↦ rw e (
          put_owner-Step r.owner_id j
            (new_owner r.workspace_id c.period_start r.operation_type r.estimated_cost_usd) s
            (put_units r.owner_id r.units (
              add_units (r.workspace_id, c.period_start) b (pos r.units)
                (with_row (r.workspace_id, c.period_start) s)))
            (refl, refl)
            (rw h (
              admits r.workspace_id c.period_start r.operation_type r.estimated_cost_usd
                (authorized r.owner_id s))))
    ]

admit_over-Step :
    (c : Clock) (r : Request) (q : Option Quota) (b : Option Bucket) (j : String) (s : UsageStorage)
    → Keyed.get r.owner_id s.owned ≡ none
    → OwnerStep false (view j s) (
        view j
          (admit_over c r.workspace_id r.operation_type r.owner_id r.estimated_cost_usd r.units q b
            s).1)
admit_over-Step c r none b j s h = stays (view j s)
admit_over-Step c r (some q) none j s h = stays (view j s)
admit_over-Step c r (some q) (some b) j s h = admit-Step c r q b j s h

pub try_reserve_owned-Step :
    (c : Clock) (r : Request) (j : String) (s : UsageStorage)
    → OwnerStep false (view j s) (view j (try_reserve_owned c r s).1)
unfolding try_reserve_owned
try_reserve_owned-Step c r j s = at (Keyed.get r.owner_id s.owned) refl
  where
    at :
        (m : Option Owner)
        → Keyed.get r.owner_id s.owned ≡ m
        → OwnerStep false (view j s) (view j (try_reserve_owned_over m c r s).1)
    at none e =
        if-leaves (λ u. OwnerStep false (view j s) (view j u)) _ _ _ (λ over. stays (view j s))
          (λ fits.
            admit_over-Step c r (get_workspace_quota r.workspace_id s) (bucket_of r.operation_type)
              j s e)
    at (some o) e = stays (view j s)
