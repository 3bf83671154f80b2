-- ===== src/Usage/Owners/Steps.antt =====
-- packages/creator-service/creator_service/usage_service.py: the life of one owner of a
-- reservation, as a relation between what is known of it before and after an operation.
use short_form_studio.Prelude.{
  ℕ, ◌+◌, ◌≤◌, String, ◌≡◌, refl, subst, ap₂, Bool, true, false, Option, none, some, inl, inr,
  Bool-cases, if◌then◌else◌,
}
use short_form_studio.Prelude.Checked.{ok, err}
use short_form_studio.Prelude.Keyed
use short_form_studio.Prelude.Keyed.{
  Key, nat_key, text_key, pair_key, total, get-put_self, get-put_ne,
}
use short_form_studio.Usage.Rows.{
  Owner, cancelled, is_open, is_reserved, UsageStorage, Reserved, Bucket, bucket_of,
}
use short_form_studio.Usage.Admit.{new_owner, add_units, put_owner}
use short_form_studio.Usage.Owned.{
  Answer, is_over, settled_owner, charged, authorized, attempt_cost, take_units, take_units_over,
  after,
}

-- an owner: its row, and the cost of the attempts that are authorised for it
abbrev pub OwnerView : Type 0
OwnerView = Option Owner × ℕ

abbrev pub view : String → UsageStorage → OwnerView
view owner_id s = (Keyed.get owner_id s.owned, authorized owner_id s)

-- The rules of the ledger for one owner. The first argument says whether it may be settled.
pub data OwnerStep : Bool → OwnerView → OwnerView → Type 0 where
  stays : {any : Bool} (v : OwnerView) → OwnerStep any v v
  admits :
      {any : Bool} (w period : ℕ) (operation : String) (estimate cost : ℕ)
      → OwnerStep any (none, cost) (some (new_owner w period operation estimate), cost)
  cancels :
      {any : Bool} (o : Owner) (cost : ℕ)
      → is_reserved o.status ≡ true
      → OwnerStep any (some o, cost) (some (record o { status = cancelled }), cost)
  settles :
      (o : Owner) (cost : ℕ) (flag : Bool) (unknown : ℕ)
      → is_over o.status ≡ false
      → OwnerStep true (some o, cost) (some (settled_owner o flag unknown), cost)
  moves :
      {any : Bool} (o : Owner) (cost period : ℕ)
      → is_open o.status ≡ true
      → OwnerStep any (some o, cost) (some (record o { period_start = period }), cost)
  charges :
      {any : Bool} (o : Owner) (cost left spent : ℕ)
      → (o.status ≡ cancelled → ⊥)
      → OwnerStep any (some o, cost) (some (charged o left spent), cost)
  authorizes :
      {any : Bool} (o : Owner) (cost more : ℕ)
      → is_open o.status ≡ true
      → cost + more ≤ o.estimate
      → OwnerStep any (some o, cost) (some o, cost + more)

pub step-weaken : (any : Bool) (u v : OwnerView) → OwnerStep any u v → OwnerStep true u v
step-weaken any u v (stays _) = stays _
step-weaken any u v (admits w period operation estimate cost) =
    admits w period operation estimate cost
step-weaken any u v (cancels o cost r) = cancels o cost r
step-weaken any u v (settles o cost flag unknown r) = settles o cost flag unknown r
step-weaken any u v (moves o cost period r) = moves o cost period r
step-weaken any u v (charges o cost left spent r) = charges o cost left spent r
step-weaken any u v (authorizes o cost more r fits) = authorizes o cost more r fits

-- any number of steps
pub data OwnerPath : OwnerView → OwnerView → Type 0 where
  here : (v : OwnerView) → OwnerPath v v
  step : {u v w : OwnerView} → OwnerStep true u v → OwnerPath v w → OwnerPath u w

-- nothing about the owners has changed
abbrev pub Same : UsageStorage → UsageStorage → Type 0
Same s t = (t.owned ≡ s.owned) × (t.owned_attempts ≡ s.owned_attempts)

pub Same-view : (k : String) (s t : UsageStorage) → Same s t → view k t ≡ view k s
unfolding authorized
Same-view k s t same =
    ap₂ (λ owned attempts. (Keyed.get k owned, total (attempt_cost k) attempts)) same.0 same.1

pub Same-Step :
    {any : Bool} (k : String) (s t : UsageStorage) → Same s t → OwnerStep any (view k s) (view k t)
Same-Step k s t same = rw (Same-view k s t same) (stays (view k s))

pub put_owner-Step :
    {any : Bool} (k j : String) (o : Owner) (s t : UsageStorage)
    → Same s t
    → OwnerStep any (view k s) (some o, authorized k s)
    → OwnerStep any (view j s) (view j (put_owner k o t))
unfolding put_owner authorized
put_owner-Step {any} k j o s t same move = elim (Bool-cases (text_key.same k j)) [
  | inl e ↦
      let k_is_j : k ≡ j = (text_key.same_iff k j).0 e in
      subst (λ i. OwnerStep any (view i s) (view i (put_owner k o t))) k_is_j
        (rw (get-put_self k o t.owned, same.1) move)
  | inr e ↦ rw (get-put_ne k j o t.owned e, same.0, same.1) (stays (view j s))
]

pub put_owner-other :
    (k j : String) (o : Owner) (s t : UsageStorage)
    → text_key.same k j ≡ false
    → Same s t
    → view j (put_owner k o t) ≡ view j s
unfolding put_owner authorized
put_owner-other k j o s t e same = rw (get-put_ne k j o t.owned e, same.0, same.1) refl

pub take_units-Same : (o : Owner) (n : ℕ) (s : UsageStorage) → Same s (take_units o n s).1
unfolding take_units add_units
take_units-Same o n s =
    at (Keyed.get (o.workspace_id, o.period_start) s.reservations) (bucket_of o.operation_type)
  where
    at : (r : Option Reserved) (b : Option Bucket) → Same s (take_units_over o n r b s).1
    at none b = (refl, refl)
    at (some r) none = (refl, refl)
    at (some r) (some b) = (refl, refl)

pub after-leaves :
    {A : Type 0} (P : UsageStorage → Type 0) (call : Answer (Unit {0}))
    (next : UsageStorage → Answer A)
    → P call.1
    → P (next call.1).1
    → P (after call next).1
after-leaves P (ok u, s) next h k = k
after-leaves P (err raised, s) next h k = h

-- a property of what a conditional leaves, with the test known in each branch
pub if-leaves :
    {A : Type 0} (P : UsageStorage → Type 0) (test : Bool) (x y : A × UsageStorage)
    → (test ≡ true → P x.1)
    → (test ≡ false → P y.1)
    → P (if test then x else y).1
if-leaves P true x y h k = h refl
if-leaves P false x y h k = k refl
