-- ===== src/Usage/Owners/Final.antt =====
-- packages/creator-service/creator_service/usage_service.py: a cancelled owner stays as it is.
use short_form_studio.Prelude.{
  String, ◌≡◌, refl, sym, subst, ◌∙◌, ap, true, Option, none, some, List, inl, inr, Bool-cases,
}
use short_form_studio.Prelude.Checked.{ok, err}
use short_form_studio.Prelude.Keyed
use short_form_studio.Prelude.Keyed.{Key, text_key, get-put_self}
use short_form_studio.Usage.Rows.{
  Owner, OwnerStatus, cancelled, reserved, is_reserved, UsageStorage,
}
use short_form_studio.Usage.Admit.{put_owner}
use short_form_studio.Usage.Owned.{
  Answer, authorized, units_left, take_units, after, cancel_over, cancel_owned, finish_owned,
}
use short_form_studio.Usage.Sequences.{UsageOp, perform_all}
use short_form_studio.Usage.Owners.Steps.{
  OwnerView, OwnerStep, stays, admits, cancels, settles, moves, charges, authorizes, OwnerPath,
  here, step, Same, view, take_units-Same,
}
use short_form_studio.Usage.Owners.Life.{perform_all-OwnerPath}

-- a known owner whose status is "cancelled"
abbrev pub Cancelled : OwnerView → Type 0
Cancelled (none, cost) = ⊥
Cancelled (some o, cost) = o.status ≡ cancelled

step-same : (u v : OwnerView) → OwnerStep true u v → Cancelled u → v ≡ u
step-same u v (stays _) h = refl
step-same u v (admits w period operation estimate cost) h = absurd h
step-same u v (cancels o cost r) h = let r' = rw h at r in cc
step-same u v (settles o cost flag unknown r) h = let r' = rw h at r in cc
step-same u v (moves o cost period r) h = let r' = rw h at r in cc
step-same u v (charges o cost left spent r) h = absurd (r h)
step-same u v (authorizes o cost more r fits) h = let r' = rw h at r in cc

path-same : (u v : OwnerView) → OwnerPath u v → Cancelled u → v ≡ u
path-same u v (here _) h = refl
path-same u v (step {v = w} first rest) h =
    let e = step-same u w first h in path-same w v rest (subst Cancelled (sym e) h) ∙ e

-- what a successful cancellation leaves
module _ (k : String) (s t : UsageStorage) where
  from_call :
      (o : Owner) (call : Answer (Unit {0}))
      → Same s call.1
      → after call (λ t'. (ok true, put_owner k (record o { status = cancelled }) t'))
        ≡ (ok true, t)
      → view k t ≡ (some (record o { status = cancelled }), authorized k s)
  unfolding put_owner authorized
  from_call o (err raised, s') same h = cc
  from_call o (ok u, s') same h =
      let e : t ≡ put_owner k (record o { status = cancelled }) s' = sym (ap (λ p. p.1) h) in
      rw (e, get-put_self k (record o { status = cancelled }) s'.owned, same.1) refl

  cancel_owned-view :
      cancel_owned k s ≡ (ok true, t)
      → (o : Owner) × (Keyed.get k s.owned ≡ some o)
        × (is_reserved o.status ≡ true)
        × (view k t ≡ (some (record o { status = cancelled }), authorized k s))
  unfolding cancel_owned finish_owned
  cancel_owned-view h = at (Keyed.get k s.owned) refl h
    where
      at :
          (m : Option Owner)
          → Keyed.get k s.owned ≡ m
          → cancel_over k m s ≡ (ok true, t)
          → (o : Owner) × (Keyed.get k s.owned ≡ some o)
            × (is_reserved o.status ≡ true)
            × (view k t ≡ (some (record o { status = cancelled }), authorized k s))
      at none e g = cc
      at (some o) e g = elim (Bool-cases (is_reserved o.status)) [
        | inl r ↦
            let g' = rw (e, r) at g in
            (
              o,
              e,
              r,
              from_call o (take_units o (units_left k s) s) (take_units-Same o (units_left k s) s)
                  g',
            )
        | inr r ↦ let g' = rw (e, r) at g in cc
      ]

-- An owner that `cancel_owned` has cancelled was reserved; through any later operations its row is
-- the row that it had, cancelled, and the cost of its authorised attempts does not change.
pub cancel_owned-final :
    (owner_id : String) (s t : UsageStorage) (later : List UsageOp)
    → cancel_owned owner_id s ≡ (ok true, t)
    → (o : Owner) × (Keyed.get owner_id s.owned ≡ some o)
      × (o.status ≡ reserved)
      × (Keyed.get owner_id (perform_all later t).owned ≡ some (record o { status = cancelled }))
      × (authorized owner_id (perform_all later t) ≡ authorized owner_id s)
cancel_owned-final k s t later h =
    let (o, found, was_reserved, e) = cancel_owned-view k s t h in
    let same =
      path-same (view k t) (view k (perform_all later t)) (perform_all-OwnerPath later k t)
        (subst Cancelled (sym e) refl)
      ∙ e in
    (o, found, reserved_of o.status was_reserved, ap (λ v. v.0) same, ap (λ v. v.1) same)
  where
    reserved_of : (st : OwnerStatus) → is_reserved st ≡ true → st ≡ reserved
    reserved_of reserved r = refl
    reserved_of _ r = cc
