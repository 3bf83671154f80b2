-- ===== src/Usage/Log/Same.antt =====
-- packages/creator-service/creator_service/usage_service.py: the operations of `InMemoryUsageStorage`
-- that record no event leave the events as they are.
use short_form_studio.Prelude.{
  ℕ, ◌+◌, String, ◌==◌, ◌≡◌, refl, Bool, false, not, ◌&&◌, Option, none, some, List, inl, inr,
  Bool-cases, ltb,
}
use short_form_studio.Prelude.Keyed
use short_form_studio.Prelude.Keyed.{Key, nat_key, text_key, pair_key}
use short_form_studio.Usage.Rows.{
  Event, Owner, OwnerStatus, reserved, consumed, settled, billable_unknown, cancelled, is_open,
  is_reserved, Reserved, Bucket, bucket_of, UsageStorage,
}
use short_form_studio.Usage.Admit.{put_owner, add_units}
use short_form_studio.Usage.Owned.{
  units_left, take_units_over, take_units, finish_over, finish_owned, cancel_over, cancel_owned,
  is_over, settled_owner, finish_first, settle_with, settle_over, settle_owned, has_attempt,
  unaccounted, finalize_revoked_owned, put_attempt, authorized, authorize_over, authorize_open,
  authorize_owned_attempt,
}
use short_form_studio.Usage.Owners.Steps.{after-leaves}

-- what the storage knows of events
abbrev pub log : UsageStorage → List (ℕ × Event) × (List (String × Event) × ℕ)
log s = (s.events, (s.events_by_idempotency_key, s.next_event_id))

pub take_units-log : (o : Owner) (n : ℕ) (s : UsageStorage) → log (take_units o n s).1 ≡ log s
unfolding take_units add_units
take_units-log o n s =
    at (Keyed.get (o.workspace_id, o.period_start) s.reservations) (bucket_of o.operation_type)
  where
    at : (r : Option Reserved) (b : Option Bucket) → log (take_units_over o n r b s).1 ≡ log s
    at none b = refl
    at (some r) none = refl
    at (some r) (some b) = refl

finish_owned-log :
    (k : String) (status : OwnerStatus) (s : UsageStorage) → log (finish_owned k status s).1 ≡ log s
unfolding finish_owned put_owner
finish_owned-log k status s = at (Keyed.get k s.owned)
  where
    at : (m : Option Owner) → log (finish_over k status m s).1 ≡ log s
    at none = refl
    at (some o) = elim (Bool-cases (is_reserved o.status)) [
      | inl e ↦ rw e (
          after-leaves (λ t. log t ≡ log s) (take_units o (units_left k s) s) _
            (take_units-log o (units_left k s) s) (take_units-log o (units_left k s) s))
      | inr e ↦ rw e refl
    ]

pub cancel_owned-log : (k : String) (s : UsageStorage) → log (cancel_owned k s).1 ≡ log s
unfolding cancel_owned
cancel_owned-log k s = at (Keyed.get k s.owned)
  where
    at : (m : Option Owner) → log (cancel_over k m s).1 ≡ log s
    at none = refl
    at (some o) = finish_owned-log k cancelled s

finish_first-log :
    (k : String) (st final : OwnerStatus) (s : UsageStorage)
    → log (finish_first k st final s).1 ≡ log s
finish_first-log k reserved final s = finish_owned-log k final s
finish_first-log k consumed final s = refl
finish_first-log k settled final s = refl
finish_first-log k cancelled final s = refl
finish_first-log k billable_unknown final s = refl

settle_with-log :
    (k : String) (flag : Bool) (unknown : ℕ) (o : Owner) (s : UsageStorage)
    → log (settle_with k flag unknown o s).1 ≡ log s
unfolding put_owner
settle_with-log k flag unknown o s = elim (Bool-cases (is_over o.status)) [
  | inl over ↦ rw over refl
  | inr open_ ↦ elim (Bool-cases (not flag && is_reserved o.status && unknown == 0)) [
    | inl nothing ↦ rw (open_, nothing) refl
    | inr something ↦
        rw (open_, something)
          (after-leaves (λ t. log t ≡ log s)
            (finish_first k o.status (settled_owner o flag unknown).status s) _
            (finish_first-log k o.status (settled_owner o flag unknown).status s)
            (finish_first-log k o.status (settled_owner o flag unknown).status s))
  ]
]

pub settle_owned-log :
    (k : String) (flag : Bool) (s : UsageStorage) → log (settle_owned k flag s).1 ≡ log s
unfolding settle_owned
settle_owned-log k flag s = at (Keyed.get k s.owned)
  where
    at : (m : Option Owner) → log (settle_over k flag m s).1 ≡ log s
    at none = refl
    at (some o) = settle_with-log k flag (unaccounted k s) o s

pub finalize_revoked_owned-log :
    (k : String) (s : UsageStorage) → log (finalize_revoked_owned k s).1 ≡ log s
unfolding finalize_revoked_owned
finalize_revoked_owned-log k s = elim (Bool-cases (has_attempt k s.owned_attempts)) [
  | inl e ↦ rw e (settle_owned-log k false s)
  | inr e ↦ rw e (cancel_owned-log k s)
]

pub authorize_owned_attempt-log :
    (k attempt : String) (cost : ℕ) (s : UsageStorage)
    → log (authorize_owned_attempt k attempt cost s).1 ≡ log s
unfolding authorize_owned_attempt put_attempt
authorize_owned_attempt-log k attempt cost s = at (Keyed.get k s.owned)
  where
    tried : (o : Owner) (m : Option ℕ) → log (authorize_over k attempt cost m o s).1 ≡ log s
    tried o none = elim (Bool-cases (ltb o.estimate (authorized k s + cost))) [
      | inl over ↦ rw over refl
      | inr fits ↦ rw fits refl
    ]
    tried o (some c) = refl

    at : (m : Option Owner) → log (authorize_open k attempt cost m s).1 ≡ log s
    at none = refl
    at (some o) = elim (Bool-cases (is_open o.status)) [
      | inl open_ ↦ rw open_ (tried o (Keyed.get (k, attempt) s.owned_attempts))
      | inr over ↦ rw over refl
    ]
