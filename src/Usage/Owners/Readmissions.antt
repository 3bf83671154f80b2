-- ===== src/Usage/Owners/Readmissions.antt =====
-- packages/creator-service/creator_service/usage_service.py: what readmissions and releases do to an
-- owner.
use short_form_studio.Prelude.{
  ℕ, String, ◌==◌, ◌≡◌, refl, Bool, true, false, ◌||◌, Option, none, some, inl, inr, Bool-cases,
}
use short_form_studio.Prelude.Checked.{ok, err}
use short_form_studio.Prelude.Keyed
use short_form_studio.Prelude.Keyed.{
  Key, nat_key, text_key, pair_key, total, put-put, total-put_new, same_refl,
}
use short_form_studio.Usage.Rows.{
  Clock, Quota, Owner, is_open, is_reserved, UsageStorage, Reserved, Bucket, bucket_of,
}
use short_form_studio.Usage.Events.{get_workspace_quota}
use short_form_studio.Usage.Admit.{
  with_row, add_units, over_workspace, over_global, residual, quota_bucket,
}
use short_form_studio.Usage.Owned.{Answer, units_left, authorized}
use short_form_studio.Usage.Release.{
  no_room_to_move, give_back_over, give_back, reserved_owners, move_units, move_reserved, put_moved,
  readmit_quota, readmit_over, readmit_owned, decrement_row, decrement_bucket,
  decrement_reservation,
}
use short_form_studio.Usage.Owners.Steps.{
  OwnerStep, stays, moves, view, Same, Same-Step, put_owner-Step,
}

give_back-Same :
    (key : ℕ × ℕ) (b : Bucket) (n : ℕ) (s : UsageStorage) → Same s (give_back key b n s)
unfolding give_back
give_back-Same key b n s = at (Keyed.get key s.reservations)
  where
    at : (m : Option Reserved) → Same s (give_back_over key b n m s)
    at none = (refl, refl)
    at (some r) = (refl, refl)

-- the units move, and nothing else does
move_units-Same :
    (c : Clock) (k : String) (o : Owner) (q : Quota) (b : Option Bucket) (s : UsageStorage)
    → Same s (move_units c k o q b s).1
unfolding add_units
move_units-Same c k o q none s = (refl, refl)
move_units-Same c k o q (some b) s = elim (Bool-cases (no_room_to_move c k o q b s)) [
  | inl e ↦ rw e (refl, refl)
  | inr e ↦ rw e (give_back-Same (o.workspace_id, o.period_start) b (units_left k s) s)
]

move_reserved-Same :
    (c : Clock) (k : String) (o : Owner) (q : Quota) (s : UsageStorage)
    → Same s (move_reserved c k o q s).1
unfolding with_row
move_reserved-Same c k o q s = elim (Bool-cases (is_reserved o.status)) [
  | inl e ↦ rw e (
      move_units-Same c k o q (bucket_of o.operation_type)
        (with_row (o.workspace_id, c.period_start) s))
  | inr e ↦ rw e (refl, refl)
]

pub readmit_owned-Step :
    (c : Clock) (k : String) (budget : Option ℕ) (j : String) (s : UsageStorage)
    → OwnerStep false (view j s) (view j (readmit_owned c k budget s).1)
unfolding readmit_owned
readmit_owned-Step c k budget j s = at (Keyed.get k s.owned) refl
  where
    P : UsageStorage → Type 0
    P t = OwnerStep false (view j s) (view j t)

    moved :
        (o : Owner) (a : Answer Bool)
        → Keyed.get k s.owned ≡ some o
        → is_open o.status ≡ true
        → Same s a.1
        → P (put_moved c k o a).1
    moved o (ok true, t) h open_ same =
        put_owner-Step k j (record o { period_start = c.period_start }) s t same
          (rw h (moves o (authorized k s) c.period_start open_))
    moved o (ok false, t) h open_ same = Same-Step j s t same
    moved o (err raised, t) h open_ same = Same-Step j s t same

    quota :
        (m : Option Quota) (o : Owner)
        → Keyed.get k s.owned ≡ some o
        → is_open o.status ≡ true
        → P (readmit_quota c k budget o m s).1
    quota none o h open_ = stays (view j s)
    quota (some q) o h open_ =
        elim (Bool-cases (
          over_workspace o.workspace_id c.period_start q.values.monthly_cost_usd (residual o) s
          || over_global c.period_start budget (residual o) s)) [
            | inl over ↦ rw over (stays (view j s))
            | inr fits ↦
                rw fits (moved o (move_reserved c k o q s) h open_ (move_reserved-Same c k o q s))
          ]

    at : (m : Option Owner) → Keyed.get k s.owned ≡ m → P (readmit_over c k budget m s).1
    at none h = stays (view j s)
    at (some o) h = elim (Bool-cases (is_open o.status)) [
      | inr over ↦ rw over (stays (view j s))
      | inl open_ ↦ elim (Bool-cases (o.period_start == c.period_start)) [
        | inl same ↦ rw (open_, same) (stays (view j s))
        | inr other ↦ rw (open_, other) (quota (get_workspace_quota o.workspace_id s) o h open_)
      ]
    ]

decrement_bucket-Same :
    (c : Clock) (w : ℕ) (operation : String) (n : ℕ) (b : Option Bucket) (s : UsageStorage)
    → Same s (decrement_bucket c w operation n b s)
decrement_bucket-Same c w operation n none s = (refl, refl)
decrement_bucket-Same c w operation n (some b) s = elim (Bool-cases (n == 0)) [
  | inl e ↦ rw e (refl, refl)
  | inr e ↦ rw e (at (Keyed.get (w, c.period_start) s.reservations))
]
  where
    at :
        (m : Option Reserved)
        → Same s (
            decrement_row
              (w, c.period_start)
              b
              n
              (reserved_owners w c.period_start operation s)
              m
              s)
    at none = (refl, refl)
    at (some r) = (refl, refl)

pub decrement_reservation-Step :
    (c : Clock) (w : ℕ) (operation : String) (n : ℕ) (j : String) (s : UsageStorage)
    → OwnerStep false (view j s) (view j (decrement_reservation c w operation n s))
unfolding decrement_reservation
decrement_reservation-Step c w operation n j s =
    Same-Step j s (decrement_bucket c w operation n (quota_bucket operation) s)
      (decrement_bucket-Same c w operation n (quota_bucket operation) s)
