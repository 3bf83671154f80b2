-- ===== src/Usage/Owners/Charges.antt =====
-- packages/creator-service/creator_service/usage_service.py: what attempts and the events of an owner do to
-- it.
use native.Mathlib.Nat.{add-zero}
use short_form_studio.Prelude.{
  ℕ, ◌+◌, ◌≤◌, ltb, String, ◌≡◌, refl, subst, ◌∙◌, true, false, not, ◌||◌, Option, none, some, inl,
  inr, Bool-cases, arith, str_eq,
}
use short_form_studio.Prelude.Keyed
use short_form_studio.Prelude.Keyed.{
  Key, nat_key, text_key, pair_key, total, put-put, total-put_new, same_refl,
}
use short_form_studio.Usage.Rows.{
  Clock, Entry, Event, Owner, OwnerStatus, reserved, consumed, settled, billable_unknown, cancelled,
  is_open, UsageStorage,
}
use short_form_studio.Usage.Events.{record_event, existing_event, is_number}
use short_form_studio.Usage.Admit.{cost_of}
use short_form_studio.Usage.Owned.{
  units_left, authorized, attempt_cost, authorize_over, authorize_new, authorize_open,
  authorize_owned_attempt, put_attempt, account, attempt_key, use_unit, charged, record_new,
  record_over_event, record_by_status, record_over_owner, record_owned_event, known_attempt,
  take_units,
}
use short_form_studio.Usage.Owners.Admissions.{record_event-Same}
use short_form_studio.Usage.Owners.Steps.{
  OwnerStep, stays, charges, authorizes, view, Same, Same-Step, put_owner-Step, take_units-Same,
  after-leaves,
}

authorized-put_attempt :
    (k attempt : String) (cost : ℕ) (j : String) (s : UsageStorage)
    → Keyed.get (k, attempt) s.owned_attempts ≡ none
    → authorized j (put_attempt (k, attempt) cost s)
      ≡ authorized j s + attempt_cost j (k, attempt) cost
unfolding authorized put_attempt
authorized-put_attempt k attempt cost j s h =
    total-put_new (attempt_cost j) (k, attempt) cost s.owned_attempts h

put_attempt-Step :
    (k attempt : String) (cost : ℕ) (o : Owner) (j : String) (s : UsageStorage)
    → Keyed.get k s.owned ≡ some o
    → is_open o.status ≡ true
    → Keyed.get (k, attempt) s.owned_attempts ≡ none
    → authorized k s + cost ≤ o.estimate
    → OwnerStep false (view j s) (view j (put_attempt (k, attempt) cost s))
unfolding put_attempt
put_attempt-Step k attempt cost o j s e open_ fresh fits = elim (Bool-cases (str_eq k j)) [
  | inl same ↦
      let k_is_j : k ≡ j = (text_key.same_iff k j).0 same in
      subst (λ i. OwnerStep false (view i s) (view i (put_attempt (k, attempt) cost s))) k_is_j
        (rw (authorized-put_attempt k attempt cost k s fresh, same_refl k, e)
          (authorizes o (authorized k s) cost open_ fits))
  | inr other ↦
      rw (authorized-put_attempt k attempt cost j s fresh, other, add-zero) (stays (view j s))
]

pub authorize_owned_attempt-Step :
    (k attempt : String) (cost : ℕ) (j : String) (s : UsageStorage)
    → OwnerStep false (view j s) (view j (authorize_owned_attempt k attempt cost s).1)
unfolding authorize_owned_attempt
authorize_owned_attempt-Step k attempt cost j s = at (Keyed.get k s.owned) refl
  where
    P : UsageStorage → Type 0
    P t = OwnerStep false (view j s) (view j t)

    new :
        (o : Owner)
        → Keyed.get k s.owned ≡ some o
        → is_open o.status ≡ true
        → Keyed.get (k, attempt) s.owned_attempts ≡ none
        → P (authorize_new k attempt cost o s).1
    new o e open_ fresh = elim (Bool-cases (ltb o.estimate (authorized k s + cost))) [
      | inl over ↦ rw over (stays (view j s))
      | inr fits ↦ rw fits (put_attempt-Step k attempt cost o j s e open_ fresh (ground arith))
    ]

    tried :
        (o : Owner) (m : Option ℕ)
        → Keyed.get k s.owned ≡ some o
        → is_open o.status ≡ true
        → Keyed.get (k, attempt) s.owned_attempts ≡ m
        → P (authorize_over k attempt cost m o s).1
    tried o none e open_ fresh = new o e open_ fresh
    tried o (some c) e open_ fresh = stays (view j s)

    at : (m : Option Owner) → Keyed.get k s.owned ≡ m → P (authorize_open k attempt cost m s).1
    at none e = stays (view j s)
    at (some o) e = elim (Bool-cases (is_open o.status)) [
      | inl open_ ↦ rw open_ (tried o (Keyed.get (k, attempt) s.owned_attempts) e open_ refl)
      | inr over ↦ rw over (stays (view j s))
    ]

Same-trans : (s t u : UsageStorage) → Same s t → Same t u → Same s u
Same-trans s t u f g = (g.0 ∙ f.0, g.1 ∙ f.1)

account-Same : (m : Option (String × String)) (s : UsageStorage) → Same s (account m s)
account-Same none s = (refl, refl)
account-Same (some key) s = (refl, refl)

use_unit-Same :
    (k : String) (o : Owner) (left : ℕ) (s : UsageStorage) → Same s (use_unit k o left s).1
use_unit-Same k o left s = elim (Bool-cases (ltb 0 left)) [
  | inl e ↦
      rw e
        (after-leaves (Same s) (take_units o 1 s) _ (take_units-Same o 1 s) (take_units-Same o 1 s))
  | inr e ↦ rw e (refl, refl)
]

record_new-Step :
    (c : Clock) (e : Entry) (k : String) (o : Owner) (j : String) (s : UsageStorage)
    → Keyed.get k s.owned ≡ some o
    → (o.status ≡ cancelled → ⊥)
    → OwnerStep false (view j s) (view j (record_new c e k o s).1)
record_new-Step c e k o j s found charged_ =
    after-leaves (λ t. OwnerStep false (view j s) (view j t)) (use_unit k o left s₂) _
      (Same-Step j s s₃ same)
      (put_owner-Step k j (charged o left (cost_of (record_event c e s).0)) s s₃ same
        (rw found (charges o (authorized k s) left (cost_of (record_event c e s).0) charged_)))
  where
    s₂ : UsageStorage
    s₂ = account (attempt_key k e.reservation_attempt_id) (record_event c e s).1

    left : ℕ
    left = units_left k s₂

    s₃ : UsageStorage
    s₃ = (use_unit k o left s₂).1

    same : Same s s₃
    same = Same-trans s (record_event c e s).1 s₃ (record_event-Same c e s) (
        Same-trans (record_event c e s).1 s₂ s₃
          (account-Same (attempt_key k e.reservation_attempt_id) (record_event c e s).1)
          (use_unit-Same k o left s₂))

pub record_owned_event-Step :
    (c : Clock) (e : Entry) (k j : String) (s : UsageStorage)
    → OwnerStep false (view j s) (view j (record_owned_event c e k s).1)
unfolding record_owned_event
record_owned_event-Step c e k j s = at (Keyed.get k s.owned) refl
  where
    P : UsageStorage → Type 0
    P t = OwnerStep false (view j s) (view j t)

    event :
        (m : Option Event) (o : Owner)
        → Keyed.get k s.owned ≡ some o
        → (o.status ≡ cancelled → ⊥)
        → P (record_over_event m c e k o s).1
    event (some old) o h charged_ = stays (view j s)
    event none o h charged_ =
        elim (Bool-cases (known_attempt (attempt_key k e.reservation_attempt_id) s)) [
          | inl known ↦ rw known (record_new-Step c e k o j s h charged_)
          | inr unknown ↦ rw unknown (stays (view j s))
        ]

    by_status :
        (st : OwnerStatus) (o : Owner)
        → Keyed.get k s.owned ≡ some o
        → o.status ≡ st
        → P (record_by_status st c e k o s).1
    by_status cancelled o h same = stays (view j s)
    by_status reserved o h same = event (existing_event e.idempotency_key s) o h (λ x. cc)
    by_status consumed o h same = event (existing_event e.idempotency_key s) o h (λ x. cc)
    by_status settled o h same = event (existing_event e.idempotency_key s) o h (λ x. cc)
    by_status billable_unknown o h same = event (existing_event e.idempotency_key s) o h (λ x. cc)

    at : (m : Option Owner) → Keyed.get k s.owned ≡ m → P (record_over_owner m c e k s).1
    at none h = stays (view j s)
    at (some o) h =
        elim (Bool-cases (
          not (is_number e.workspace_id o.workspace_id)
          || not (str_eq e.operation_type o.operation_type))) [
            | inl bad ↦ rw bad (stays (view j s))
            | inr good ↦ rw good (by_status o.status o h refl)
          ]
