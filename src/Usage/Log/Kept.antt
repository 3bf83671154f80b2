-- ===== src/Usage/Log/Kept.antt =====
-- packages/creator-service/creator_service/usage_service.py: an event with an idempotency key is recorded
-- and charged once.
use short_form_studio.Prelude.{
  String, ◌≡◌, refl, sym, subst, ◌∙◌, ap, not, ◌||◌, Option, none, some, List, [], ◌∷◌, inl, inr,
  Bool-cases, str_eq,
}
use short_form_studio.Prelude.Checked.{ok, err, ok-injective}
use short_form_studio.Prelude.Keyed
use short_form_studio.Prelude.Keyed.{Key, text_key, get-put_self, get-put_ne}
use short_form_studio.Usage.Rows.{
  Clock, Entry, Event, Owner, OwnerStatus, reserved, consumed, settled, billable_unknown, cancelled,
  UsageStorage,
}
use short_form_studio.Usage.Events.{
  existing_event, record_event, record_over, add_event, by_key, saved_event, is_number,
}
use short_form_studio.Usage.Owned.{
  Answer, after, use_unit, units_left, account, record_new, record_over_event, record_by_status,
  record_over_owner, record_owned_event, known_attempt, attempt_key,
}
use short_form_studio.Usage.Sequences.{UsageOp, perform, perform_all}
use short_form_studio.Usage.Log.Same.{log}
use short_form_studio.Usage.Log.Steps.{LogStep, same, adds, perform-LogStep, record_new-log}

log-existing :
    (key : String) (s t : UsageStorage)
    → log t ≡ log s
    → existing_event (some key) t ≡ existing_event (some key) s
unfolding existing_event
log-existing key s t e = ap (λ l. Keyed.get key l.1.0) e

-- an event is added under a key that had none, so what another key finds stays
add_event-existing :
    (c : Clock) (e : Entry) (m : Option String) (key : String) (a : Event) (s : UsageStorage)
    → e.idempotency_key ≡ m
    → existing_event m s ≡ none
    → existing_event (some key) s ≡ some a
    → existing_event (some key) (add_event c e s) ≡ some a
unfolding existing_event add_event
add_event-existing c e none key a s h fresh found =
    subst (λ m. Keyed.get key (by_key m (saved_event c e s) s.events_by_idempotency_key) ≡ some a)
      (sym h) found
add_event-existing c e (some k) key a s h fresh found = elim (Bool-cases (text_key.same k key)) [
  | inl same_key ↦
      let k_is_key : k ≡ key = (text_key.same_iff k key).0 same_key in
      let fresh' : Keyed.get key s.events_by_idempotency_key ≡ none = rw k_is_key at fresh in cc
  | inr other ↦
      subst (λ m. Keyed.get key (by_key m (saved_event c e s) s.events_by_idempotency_key) ≡ some a)
        (sym h) (get-put_ne k key (saved_event c e s) s.events_by_idempotency_key other ∙ found)
]

step-existing :
    (key : String) (a : Event) (s t : UsageStorage)
    → LogStep s t
    → existing_event (some key) s ≡ some a
    → existing_event (some key) t ≡ some a
step-existing key a s t (same e) h = log-existing key s t e ∙ h
step-existing key a s t (adds c e fresh grown) h =
    log-existing key (add_event c e s) t grown
    ∙ add_event-existing c e e.idempotency_key key a s refl fresh h

pub perform_all-existing :
    (key : String) (a : Event) (ops : List UsageOp) (s : UsageStorage)
    → existing_event (some key) s ≡ some a
    → existing_event (some key) (perform_all ops s) ≡ some a
unfolding perform_all
perform_all-existing key a [] s h = h
perform_all-existing key a (op ∷ ops) s h =
    perform_all-existing key a ops (perform op s)
      (step-existing key a s (perform op s) (perform-LogStep op s) h)

added :
    (c : Clock) (e : Entry) (key : String) (s : UsageStorage)
    → e.idempotency_key ≡ some key
    → existing_event (some key) (add_event c e s) ≡ some (saved_event c e s)
unfolding existing_event add_event
added c e key s h =
    subst
      (λ m.
        Keyed.get key (by_key m (saved_event c e s) s.events_by_idempotency_key)
        ≡ some (saved_event c e s))
      (sym h) (get-put_self key (saved_event c e s) s.events_by_idempotency_key)

record_event-existing :
    (c : Clock) (e : Entry) (key : String) (s : UsageStorage)
    → e.idempotency_key ≡ some key
    → existing_event (some key) (record_event c e s).1 ≡ some (record_event c e s).0
unfolding record_event
record_event-existing c e key s h = at (existing_event e.idempotency_key s) refl
  where
    at :
        (m : Option Event)
        → existing_event e.idempotency_key s ≡ m
        → existing_event (some key) (record_over m c e s).1 ≡ some (record_over m c e s).0
    at none found = added c e key s h
    at (some old) found = subst (λ k. existing_event k s ≡ some old) h found

-- What an owned event leaves when it returns, under its key.
module _ (c : Clock) (e : Entry) (k key : String) (s : UsageStorage)
    (h : e.idempotency_key ≡ some key) where
  call-answer :
      (o : Owner) (call : Answer (Unit {0})) (next : UsageStorage → Answer Event) (b : Event)
      → ((u : UsageStorage) → (next u).0 ≡ ok b)
      → (a : Event) (t : UsageStorage) → after call next ≡ (ok a, t)
      → b ≡ a
  call-answer o (err raised, u) next b answers a t g = cc
  call-answer o (ok _, u) next b answers a t g =
      ok-injective b a (sym (answers u) ∙ ap (λ p. p.0) g)

  record_new-existing :
      (o : Owner) (a : Event) (t : UsageStorage)
      → record_new c e k o s ≡ (ok a, t)
      → existing_event (some key) t ≡ some a
  record_new-existing o a t g =
      subst (λ u. existing_event (some key) u ≡ some a) (ap (λ p. p.1) g)
        (log-existing key (record_event c e s).1 (record_new c e k o s).1 (record_new-log c e k o s)
          ∙ record_event-existing c e key s h
          ∙ ap some (
              call-answer o (use_unit k o (units_left k s₂) s₂) _ (record_event c e s).0 (λ u. refl)
                a t g))
    where
      s₂ : UsageStorage
      s₂ = account (attempt_key k e.reservation_attempt_id) (record_event c e s).1

  event-existing :
      (m : Option Event) (o : Owner) (a : Event) (t : UsageStorage)
      → existing_event e.idempotency_key s ≡ m
      → record_over_event m c e k o s ≡ (ok a, t)
      → existing_event (some key) t ≡ some a
  event-existing (some old) o a t found g =
      let found' : existing_event (some key) s ≡ some old = rw h at found in
      subst (λ u. existing_event (some key) u ≡ some a) (ap (λ p. p.1) g)
        (found' ∙ ap some (ok-injective old a (ap (λ p. p.0) g)))
  event-existing none o a t found g =
      elim (Bool-cases (known_attempt (attempt_key k e.reservation_attempt_id) s)) [
        | inl known ↦ record_new-existing o a t (rw known at g)
        | inr unknown ↦ let g' = rw unknown at g in cc
      ]

  status-existing :
      (st : OwnerStatus) (o : Owner) (a : Event) (t : UsageStorage)
      → record_by_status st c e k o s ≡ (ok a, t)
      → existing_event (some key) t ≡ some a
  status-existing cancelled o a t g = cc
  status-existing reserved o a t g =
      event-existing (existing_event e.idempotency_key s) o a t refl g
  status-existing consumed o a t g =
      event-existing (existing_event e.idempotency_key s) o a t refl g
  status-existing settled o a t g = event-existing (existing_event e.idempotency_key s) o a t refl g
  status-existing billable_unknown o a t g =
      event-existing (existing_event e.idempotency_key s) o a t refl g

  owner-existing :
      (m : Option Owner) (a : Event) (t : UsageStorage)
      → record_over_owner m c e k s ≡ (ok a, t)
      → existing_event (some key) t ≡ some a
  owner-existing none a t g = cc
  owner-existing (some o) a t g =
      elim (Bool-cases (
        not (is_number e.workspace_id o.workspace_id)
        || not (str_eq e.operation_type o.operation_type))) [
          | inl bad ↦ let g' = rw bad at g in cc
          | inr good ↦ status-existing o.status o a t (rw good at g)
        ]

  record_owned_event-existing :
      (a : Event) (t : UsageStorage)
      → record_owned_event c e k s ≡ (ok a, t)
      → existing_event (some key) t ≡ some a
  unfolding record_owned_event
  record_owned_event-existing a t g = owner-existing (Keyed.get k s.owned) a t g

-- where the key has its event, nothing is charged
module _ (c : Clock) (e : Entry) (k : String) (s : UsageStorage) (a : Event)
    (h : existing_event e.idempotency_key s ≡ some a) where
  status-unchanged : (st : OwnerStatus) (o : Owner) → (record_by_status st c e k o s).1 ≡ s
  status-unchanged cancelled o = refl
  status-unchanged reserved o = rw h refl
  status-unchanged consumed o = rw h refl
  status-unchanged settled o = rw h refl
  status-unchanged billable_unknown o = rw h refl

  record_owned_event-unchanged : (record_owned_event c e k s).1 ≡ s
  unfolding record_owned_event
  record_owned_event-unchanged = at (Keyed.get k s.owned)
    where
      at : (m : Option Owner) → (record_over_owner m c e k s).1 ≡ s
      at none = refl
      at (some o) =
          elim (Bool-cases (
            not (is_number e.workspace_id o.workspace_id)
            || not (str_eq e.operation_type o.operation_type))) [
              | inl bad ↦ rw bad refl
              | inr good ↦ rw good (status-unchanged o.status o)
            ]

-- An event of an owner that carries an idempotency key and has been recorded and charged: when it is
-- delivered again, after any operations and whatever the clock, the delivery changes nothing: no
-- second event, no second charge, no second unit.
pub record_owned_event-once :
    (c c' : Clock) (e : Entry) (owner_id key : String) (a : Event) (s t : UsageStorage)
    (between : List UsageOp)
    → e.idempotency_key ≡ some key
    → record_owned_event c e owner_id s ≡ (ok a, t)
    → (record_owned_event c' e owner_id (perform_all between t)).1 ≡ perform_all between t
record_owned_event-once c c' e k key a s t between h g =
    record_owned_event-unchanged c' e k (perform_all between t) a (
      rw h (perform_all-existing key a between t (record_owned_event-existing c e k key s h a t g)))

-- Two entries that carry one idempotency key, recorded one after the other with any operations in
-- between: the second call answers the event of the first and changes nothing.
pub record_event-once :
    (c c' : Clock) (e e' : Entry) (key : String) (between : List UsageOp) (s : UsageStorage)
    → e.idempotency_key ≡ some key
    → e'.idempotency_key ≡ some key
    → record_event c' e' (perform_all between (record_event c e s).1)
      ≡ ((record_event c e s).0, perform_all between (record_event c e s).1)
unfolding record_event
record_event-once c c' e e' key between s h h' =
    rw
      (
        h',
        perform_all-existing key (record_event c e s).0 between (record_event c e s).1
            (record_event-existing c e key s h),
      )
      refl
