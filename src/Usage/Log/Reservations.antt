-- ===== src/Usage/Log/Reservations.antt =====
-- packages/creator-service/creator_service/usage_service.py: the operations on quotas and reservations
-- leave the events as they are.
use short_form_studio.Prelude.{
  ℕ, String, ◌==◌, ◌≡◌, refl, ◌∙◌, Bool, true, false, ◌||◌, Option, none, some, inl, inr,
  Bool-cases,
}
use short_form_studio.Prelude.Int.{pos}
use short_form_studio.Prelude.Checked.{ok, err}
use short_form_studio.Prelude.Keyed
use short_form_studio.Prelude.Keyed.{Key, nat_key, text_key, pair_key}
use short_form_studio.Usage.Rows.{
  Clock, QuotaValues, Quota, quotas_default, Owner, is_open, is_reserved, Reserved, Bucket,
  bucket_of, UsageStorage,
}
use short_form_studio.Usage.Events.{set_workspace_quota, quota_or_default, get_workspace_quota}
use short_form_studio.Usage.Admit.{
  put_owner, add_units, with_row, put_new, new_owner, quota_bucket, reserve_one, try_reserve_over,
  try_reserve_quota, owner_of, no_room, is_full, admit, admit_over, over_workspace, over_global,
  Request, try_reserve_owned_over, try_reserve_owned, residual,
}
use short_form_studio.Usage.Owned.{Answer, units_left}
use short_form_studio.Usage.Release.{
  give_back_over, give_back, no_room_to_move, move_units, move_reserved, put_moved, readmit_quota,
  readmit_over, readmit_owned, reserved_owners, decrement_row, decrement_bucket,
  decrement_reservation,
}
use short_form_studio.Usage.Log.Same.{log}

pub set_workspace_quota-log :
    (c : Clock) (w : ℕ) (q : QuotaValues) (s : UsageStorage)
    → log (set_workspace_quota c w q s).1 ≡ log s
unfolding set_workspace_quota
set_workspace_quota-log c w q s = refl

quota_or_default-log :
    (c : Clock) (w : ℕ) (q : QuotaValues) (m : Option Quota) (s : UsageStorage)
    → log (quota_or_default c w q m s).1 ≡ log s
quota_or_default-log c w q none s = set_workspace_quota-log c w q s
quota_or_default-log c w q (some quota) s = refl

reserve_one-log :
    (c : Clock) (w : ℕ) (operation : String) (owner_id : Option String) (q : QuotaValues)
    (b : Option Bucket) (s : UsageStorage)
    → log (reserve_one c w operation owner_id q b s).1 ≡ log s
unfolding add_units put_owner
reserve_one-log c w operation owner_id q none s = refl
reserve_one-log c w operation owner_id q (some b) s = elim (Bool-cases (is_full c w q b s)) [
  | inl e ↦ rw e refl
  | inr e ↦ rw e (at owner_id)
]
  where
    at :
        (m : Option String)
        → log (
            put_new m
              (new_owner w c.period_start operation 0)
              (add_units (w, c.period_start) b (pos 1) s))
          ≡ log s
    at none = refl
    at (some k) = refl

pub try_reserve_quota-log :
    (c : Clock) (w : ℕ) (operation : String) (owner_id : Option String) (s : UsageStorage)
    → log (try_reserve_quota c w operation owner_id s).1 ≡ log s
unfolding try_reserve_quota with_row
try_reserve_quota-log c w operation owner_id s = at (owner_of owner_id s)
  where
    stored : Quota × UsageStorage
    stored = quota_or_default c w quotas_default (get_workspace_quota w s) s

    at : (m : Option Owner) → log (try_reserve_over m c w operation owner_id s).1 ≡ log s
    at none =
        reserve_one-log c w operation owner_id stored.0.values (quota_bucket operation)
          (with_row (w, c.period_start) stored.1)
        ∙ quota_or_default-log c w quotas_default (get_workspace_quota w s) s
    at (some o) = refl

admit-log :
    (c : Clock) (r : Request) (q : Quota) (b : Bucket) (s : UsageStorage)
    → log (admit c r.workspace_id r.operation_type r.owner_id r.estimated_cost_usd r.units q b s).1
      ≡ log s
unfolding with_row add_units put_owner
admit-log c r q b s = elim (Bool-cases (no_room c r.workspace_id r.operation_type r.units q b s)) [
  | inl e ↦ rw e refl
  | inr e ↦ rw e refl
]

admit_over-log :
    (c : Clock) (r : Request) (q : Option Quota) (b : Option Bucket) (s : UsageStorage)
    → log
        (admit_over c r.workspace_id r.operation_type r.owner_id r.estimated_cost_usd r.units q b
          s).1
      ≡ log s
admit_over-log c r none b s = refl
admit_over-log c r (some q) none s = refl
admit_over-log c r (some q) (some b) s = admit-log c r q b s

pub try_reserve_owned-log :
    (c : Clock) (r : Request) (s : UsageStorage) → log (try_reserve_owned c r s).1 ≡ log s
unfolding try_reserve_owned
try_reserve_owned-log c r s = at (Keyed.get r.owner_id s.owned)
  where
    at : (m : Option Owner) → log (try_reserve_owned_over m c r s).1 ≡ log s
    at none =
        elim (Bool-cases (
          over_workspace r.workspace_id c.period_start r.monthly_cost_usd r.estimated_cost_usd s
          || over_global c.period_start r.global_monthly_cost_usd r.estimated_cost_usd s)) [
            | inl e ↦ rw e refl
            | inr e ↦ rw e (
                admit_over-log c r (get_workspace_quota r.workspace_id s)
                  (bucket_of r.operation_type) s)
          ]
    at (some o) = refl

give_back-log :
    (key : ℕ × ℕ) (b : Bucket) (n : ℕ) (s : UsageStorage) → log (give_back key b n s) ≡ log s
unfolding give_back
give_back-log key b n s = at (Keyed.get key s.reservations)
  where
    at : (m : Option Reserved) → log (give_back_over key b n m s) ≡ log s
    at none = refl
    at (some r) = refl

move_units-log :
    (c : Clock) (k : String) (o : Owner) (q : Quota) (b : Option Bucket) (s : UsageStorage)
    → log (move_units c k o q b s).1 ≡ log s
unfolding add_units
move_units-log c k o q none s = refl
move_units-log c k o q (some b) s = elim (Bool-cases (no_room_to_move c k o q b s)) [
  | inl e ↦ rw e refl
  | inr e ↦ rw e (give_back-log (o.workspace_id, o.period_start) b (units_left k s) s)
]

move_reserved-log :
    (c : Clock) (k : String) (o : Owner) (q : Quota) (s : UsageStorage)
    → log (move_reserved c k o q s).1 ≡ log s
unfolding with_row
move_reserved-log c k o q s = elim (Bool-cases (is_reserved o.status)) [
  | inl e ↦ rw e (
      move_units-log c k o q (bucket_of o.operation_type)
        (with_row (o.workspace_id, c.period_start) s))
  | inr e ↦ rw e refl
]

put_moved-log :
    (c : Clock) (k : String) (o : Owner) (a : Answer Bool) → log (put_moved c k o a).1 ≡ log a.1
unfolding put_owner
put_moved-log c k o (ok true, s) = refl
put_moved-log c k o (ok false, s) = refl
put_moved-log c k o (err raised, s) = refl

pub readmit_owned-log :
    (c : Clock) (k : String) (budget : Option ℕ) (s : UsageStorage)
    → log (readmit_owned c k budget s).1 ≡ log s
unfolding readmit_owned
readmit_owned-log c k budget s = at (Keyed.get k s.owned)
  where
    quota : (m : Option Quota) (o : Owner) → log (readmit_quota c k budget o m s).1 ≡ log s
    quota none o = refl
    quota (some q) o =
        elim (Bool-cases (
          over_workspace o.workspace_id c.period_start q.values.monthly_cost_usd (residual o) s
          || over_global c.period_start budget (residual o) s)) [
            | inl over ↦ rw over refl
            | inr fits ↦
                rw fits
                  (put_moved-log c k o (move_reserved c k o q s) ∙ move_reserved-log c k o q s)
          ]

    at : (m : Option Owner) → log (readmit_over c k budget m s).1 ≡ log s
    at none = refl
    at (some o) = elim (Bool-cases (is_open o.status)) [
      | inr over ↦ rw over refl
      | inl open_ ↦ elim (Bool-cases (o.period_start == c.period_start)) [
        | inl same ↦ rw (open_, same) refl
        | inr other ↦ rw (open_, other) (quota (get_workspace_quota o.workspace_id s) o)
      ]
    ]

decrement_bucket-log :
    (c : Clock) (w : ℕ) (operation : String) (n : ℕ) (b : Option Bucket) (s : UsageStorage)
    → log (decrement_bucket c w operation n b s) ≡ log s
decrement_bucket-log c w operation n none s = refl
decrement_bucket-log c w operation n (some b) s = elim (Bool-cases (n == 0)) [
  | inl e ↦ rw e refl
  | inr e ↦ rw e (at (Keyed.get (w, c.period_start) s.reservations))
]
  where
    at :
        (m : Option Reserved)
        → log (
            decrement_row
              (w, c.period_start)
              b
              n
              (reserved_owners w c.period_start operation s)
              m
              s)
          ≡ log s
    at none = refl
    at (some r) = refl

pub decrement_reservation-log :
    (c : Clock) (w : ℕ) (operation : String) (n : ℕ) (s : UsageStorage)
    → log (decrement_reservation c w operation n s) ≡ log s
unfolding decrement_reservation
decrement_reservation-log c w operation n s =
    decrement_bucket-log c w operation n (quota_bucket operation) s
