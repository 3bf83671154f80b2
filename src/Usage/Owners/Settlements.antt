-- ===== src/Usage/Owners/Settlements.antt =====
-- packages/creator-service/creator_service/usage_service.py: what cancellations and settlements do to
-- an owner.
use short_form_studio.Prelude.{
  ℕ, String, ◌==◌, ◌≡◌, refl, sym, subst, Bool, true, false, not, ◌&&◌, Option, none, some, inl,
  inr, Bool-cases,
}
use short_form_studio.Prelude.Checked.{ok, err}
use short_form_studio.Prelude.Keyed
use short_form_studio.Prelude.Keyed.{Key, nat_key, text_key, pair_key, total, put-put}
use short_form_studio.Usage.Rows.{
  Owner, OwnerStatus, reserved, consumed, settled, billable_unknown, cancelled, is_reserved,
  UsageStorage,
}
use short_form_studio.Usage.Admit.{put_owner}
use short_form_studio.Usage.Owned.{
  Answer, units_left, after, finish_owned, cancel_over, cancel_owned, unaccounted, is_over,
  settled_owner, finish_first, settle_with, settle_over, settle_owned, finalize_revoked_owned,
  has_attempt, authorized, take_units,
}
use short_form_studio.Usage.Owners.Steps.{
  OwnerStep, cancels, settles, view, step-weaken, Same, Same-view, Same-Step, put_owner-Step,
  put_owner-other, take_units-Same, after-leaves,
}

-- The settlement writes the owner over what `_finish_owned` has written.
put_owner-put_owner :
    (k : String) (a b : Owner) (t : UsageStorage)
    → put_owner k b (put_owner k a t) ≡ put_owner k b t
unfolding put_owner
put_owner-put_owner k a b t = rw (put-put k a b t.owned) refl

-- What a storage may be after an operation on the owner `k`: the owners as they were, or this one
-- after a step of its life.
module _ (k : String) (s : UsageStorage) (P : UsageStorage → Type 0)
    (keep : (t : UsageStorage) → Same s t → P t)
    (put : (o : Owner) (t : UsageStorage)
      → Same s t
      → OwnerStep false (view k s) (some o, authorized k s)
      → P (put_owner k o t)) where
  finish_cancelled :
      (o : Owner)
      → Keyed.get k s.owned ≡ some o
      → is_reserved o.status ≡ true
      → P (finish_owned k cancelled s).1
  unfolding finish_owned
  finish_cancelled o found open_ =
      rw (found, open_)
        (after-leaves P (take_units o (units_left k s) s) _ (keep t same) (
          put (record o { status = cancelled }) t same
            (rw found (cancels o (authorized k s) open_))))
    where
      t : UsageStorage
      t = (take_units o (units_left k s) s).1

      same : Same s t
      same = take_units-Same o (units_left k s) s

  finish_not_reserved :
      (o : Owner)
      → Keyed.get k s.owned ≡ some o
      → is_reserved o.status ≡ false
      → P (finish_owned k cancelled s).1
  unfolding finish_owned
  finish_not_reserved o found over = rw (found, over) (keep s (refl, refl))

  cancel_owned-leaves : P (cancel_owned k s).1
  unfolding cancel_owned
  cancel_owned-leaves = at (Keyed.get k s.owned) refl
    where
      at : (m : Option Owner) → Keyed.get k s.owned ≡ m → P (cancel_over k m s).1
      at none e = keep s (refl, refl)
      at (some o) e = elim (Bool-cases (is_reserved o.status)) [
        | inl r ↦ finish_cancelled o e r
        | inr r ↦ finish_not_reserved o e r
      ]

-- The same, where the owner may be settled.
module _ (k : String) (s : UsageStorage) (P : UsageStorage → Type 0)
    (keep : (t : UsageStorage) → Same s t → P t)
    (put : (o : Owner) (t : UsageStorage)
      → Same s t
      → OwnerStep true (view k s) (some o, authorized k s)
      → P (put_owner k o t)) where
  settle_with-leaves :
      (flag : Bool) (unknown : ℕ) (o : Owner)
      → Keyed.get k s.owned ≡ some o
      → P (settle_with k flag unknown o s).1
  unfolding finish_owned
  settle_with-leaves flag unknown o e = elim (Bool-cases (is_over o.status)) [
    | inl over ↦ rw over (keep s (refl, refl))
    | inr open_ ↦ elim (Bool-cases (not flag && is_reserved o.status && unknown == 0)) [
      | inl nothing ↦ rw (open_, nothing) (keep s (refl, refl))
      | inr something ↦ rw (open_, something) (by_status o.status refl open_)
    ]
  ]
    where
      o' : Owner
      o' = settled_owner o flag unknown

      move : is_over o.status ≡ false → OwnerStep true (view k s) (some o', authorized k s)
      move open_ = rw e (settles o (authorized k s) flag unknown open_)

      finished :
          is_over o.status ≡ false
          → (call : Answer (Unit {0})) → Same s call.1
          → P
              (after
                (let (answer, s₁) =
                    after call (λ t. (ok true, put_owner k (record o { status = o'.status }) t)) in
                  (elim answer [ ok _ ↦ ok tt | err raised ↦ err raised ], s₁))
                (λ t. (ok true, put_owner k o' t))).1
      finished open_ (err raised, t) same = keep t same
      finished open_ (ok u, t) same =
          subst P (sym (put_owner-put_owner k (record o { status = o'.status }) o' t))
            (put o' t same (move open_))

      by_status :
          (st : OwnerStatus)
          → o.status ≡ st
          → is_over o.status ≡ false
          → P (after (finish_first k st o'.status s) (λ t. (ok true, put_owner k o' t))).1
      by_status reserved h open_ =
          subst
            (λ call.
              P
                (after
                  (let (answer, s₁) = call in
                    (elim answer [ ok _ ↦ ok tt | err raised ↦ err raised ], s₁))
                  (λ t. (ok true, put_owner k o' t))).1)
            (sym reserved_call)
            (finished open_ (take_units o (units_left k s) s)
              (take_units-Same o (units_left k s) s))
        where
          reserved_call :
              finish_owned k o'.status s
              ≡ after
                  (take_units o (units_left k s) s)
                  (λ t. (ok true, put_owner k (record o { status = o'.status }) t))
          reserved_call = rw (e, h) refl
      by_status consumed h open_ = put o' s (refl, refl) (move open_)
      by_status settled h open_ = cc
      by_status cancelled h open_ = cc
      by_status billable_unknown h open_ = cc

  settle_owned-leaves : (flag : Bool) → P (settle_owned k flag s).1
  unfolding settle_owned
  settle_owned-leaves flag = at (Keyed.get k s.owned) refl
    where
      at : (m : Option Owner) → Keyed.get k s.owned ≡ m → P (settle_over k flag m s).1
      at none e = keep s (refl, refl)
      at (some o) e = settle_with-leaves flag (unaccounted k s) o e

  finalize_revoked_owned-leaves : P (finalize_revoked_owned k s).1
  unfolding finalize_revoked_owned
  finalize_revoked_owned-leaves = elim (Bool-cases (has_attempt k s.owned_attempts)) [
    | inl e ↦ rw e (settle_owned-leaves false)
    | inr e ↦
        rw e (
          cancel_owned-leaves k s P keep λ o t same move. put o t same (step-weaken false _ _ move))
  ]

module _ (k j : String) (s : UsageStorage) where
  put-Step :
      {any : Bool} (o : Owner) (t : UsageStorage)
      → Same s t
      → OwnerStep any (view k s) (some o, authorized k s)
      → OwnerStep any (view j s) (view j (put_owner k o t))
  put-Step o t = put_owner-Step k j o s t

  pub cancel_owned-Step : OwnerStep false (view j s) (view j (cancel_owned k s).1)
  cancel_owned-Step =
      cancel_owned-leaves k s (λ t. OwnerStep false (view j s) (view j t)) (Same-Step j s) put-Step

  pub settle_owned-Step :
      (flag : Bool) → OwnerStep true (view j s) (view j (settle_owned k flag s).1)
  settle_owned-Step =
      settle_owned-leaves k s (λ t. OwnerStep true (view j s) (view j t)) (Same-Step j s) put-Step

  pub finalize_revoked_owned-Step :
      OwnerStep true (view j s) (view j (finalize_revoked_owned k s).1)
  finalize_revoked_owned-Step =
      finalize_revoked_owned-leaves k s (λ t. OwnerStep true (view j s) (view j t)) (Same-Step j s)
        put-Step

  -- Another owner is left as it is.
  module _ (other : text_key.same k j ≡ false) where
    put-other :
        (o : Owner) (t : UsageStorage)
        → Same s t
        → OwnerStep true (view k s) (some o, authorized k s)
        → view j (put_owner k o t) ≡ view j s
    put-other o t same move = put_owner-other k j o s t other same

    pub settle_owned-other : (flag : Bool) → view j (settle_owned k flag s).1 ≡ view j s
    settle_owned-other =
        settle_owned-leaves k s (λ t. view j t ≡ view j s) (Same-view j s) put-other

    pub finalize_revoked_owned-other : view j (finalize_revoked_owned k s).1 ≡ view j s
    finalize_revoked_owned-other =
        finalize_revoked_owned-leaves k s (λ t. view j t ≡ view j s) (Same-view j s) put-other
