-- ===== src/Usage/Owners/Authorized.antt =====
-- packages/creator-service/creator_service/usage_service.py: the attempts of an owner stay within the
-- estimate that it was admitted with.
use short_form_studio.Prelude.{
  ℕ, ◌≤◌, String, ◌≡◌, refl, subst, ap, Bool, true, false, ◌&&◌, none, some, List, [], ◌∷◌, arith,
}
use short_form_studio.Prelude.Checked.{ok}
use short_form_studio.Prelude.Keyed
use short_form_studio.Prelude.Keyed.{Key, text_key, get-put_self}
use short_form_studio.Usage.Rows.{Clock, Owner, UsageStorage, no_usage}
use short_form_studio.Usage.Admit.{
  Request, new_owner, with_row, add_units, put_owner, try_reserve_owned,
}
use short_form_studio.Usage.Admitted.{Admission, try_reserve_owned-Admission}
use short_form_studio.Usage.Owned.{authorized}
use short_form_studio.Usage.Sequences.{
  UsageOp, perform, perform_all, settles_not, without_settlement,
}
use short_form_studio.Usage.Owners.Steps.{
  OwnerView, OwnerStep, stays, admits, cancels, settles, moves, charges, authorizes, OwnerPath,
  here, step, view,
}
use short_form_studio.Usage.Owners.Life.{perform-unsettled, perform_all-OwnerPath}

-- No attempt is authorised for an owner that is not known.
abbrev pub NoneYet : OwnerView → Type 0
NoneYet (none, cost) = cost ≡ 0
NoneYet (some o, cost) = Unit

step-NoneYet : (u v : OwnerView) → OwnerStep true u v → NoneYet u → NoneYet v
step-NoneYet u v (stays _) h = h
step-NoneYet u v (admits w period operation estimate cost) h = tt
step-NoneYet u v (cancels o cost r) h = tt
step-NoneYet u v (settles o cost flag unknown r) h = tt
step-NoneYet u v (moves o cost period r) h = tt
step-NoneYet u v (charges o cost left spent r) h = tt
step-NoneYet u v (authorizes o cost more r fits) h = tt

path-NoneYet : (u v : OwnerView) → OwnerPath u v → NoneYet u → NoneYet v
path-NoneYet u v (here _) h = h
path-NoneYet u v (step {v = w} first rest) h = path-NoneYet w v rest (step-NoneYet u w first h)

no_usage-NoneYet : (k : String) → NoneYet (view k no_usage)
unfolding Keyed.get authorized
no_usage-NoneYet k = refl

-- a known owner with the estimate `limit`, and attempts within it
abbrev pub WithinLimit : ℕ → OwnerView → Type 0
WithinLimit limit (none, cost) = ⊥
WithinLimit limit (some o, cost) = (o.estimate ≡ limit) × (cost ≤ limit)

step-WithinLimit :
    (limit : ℕ) (any : Bool) (u v : OwnerView)
    → any ≡ false
    → OwnerStep any u v
    → WithinLimit limit u
    → WithinLimit limit v
step-WithinLimit limit any u v n (stays _) h = h
step-WithinLimit limit any u v n (admits w period operation estimate cost) h = absurd h
step-WithinLimit limit any u v n (cancels o cost r) h = h
step-WithinLimit limit any u v n (settles o cost flag unknown r) h = cc
step-WithinLimit limit any u v n (moves o cost period r) h = h
step-WithinLimit limit any u v n (charges o cost left spent r) h = h
step-WithinLimit limit any u v n (authorizes o cost more r fits) h = (h.0, rw h.0 at fits)

perform_all-WithinLimit :
    (limit : ℕ) (ops : List UsageOp) (k : String) (s : UsageStorage)
    → without_settlement k ops ≡ true
    → WithinLimit limit (view k s)
    → WithinLimit limit (view k (perform_all ops s))
unfolding perform_all without_settlement
perform_all-WithinLimit limit [] k s n h = h
perform_all-WithinLimit limit (op ∷ ops) k s n h =
    let both = and_true (settles_not k op) (without_settlement k ops) n in
    perform_all-WithinLimit limit ops k (perform op s) both.1 (
      step-WithinLimit limit false (view k s) (view k (perform op s)) refl
        (perform-unsettled op k s both.0) h)
  where
    and_true : (a b : Bool) → (a && b) ≡ true → (a ≡ true) × (b ≡ true)
    and_true true b h = (refl, h)
    and_true false b h = cc

Admission-view :
    (c : Clock) (r : Request) (s t : UsageStorage)
    → Admission c r s t
    → view r.owner_id t ≡ (
      some (new_owner r.workspace_id c.period_start r.operation_type r.estimated_cost_usd),
      authorized r.owner_id s,
    )
unfolding with_row add_units put_owner authorized
Admission-view c r s t a = rw a.written (
    ap (λ o. (o, authorized r.owner_id s))
      (get-put_self r.owner_id
        (new_owner r.workspace_id c.period_start r.operation_type r.estimated_cost_usd) s.owned))

-- From an empty ledger, after any operations, `try_reserve_owned` admits an owner that is not known
-- yet; then, through any operations other than the settlement of this owner, it keeps the estimate
-- that it was admitted with, and all the attempts authorised for it together cost no more.
pub authorized-within_estimate :
    (before : List UsageOp) (c : Clock) (r : Request) (t : UsageStorage) (later : List UsageOp)
    → Keyed.get r.owner_id (perform_all before no_usage).owned ≡ none
    → try_reserve_owned c r (perform_all before no_usage) ≡ (ok true, t)
    → without_settlement r.owner_id later ≡ true
    → (o : Owner) × (Keyed.get r.owner_id (perform_all later t).owned ≡ some o)
      × (o.estimate ≡ r.estimated_cost_usd)
      × (authorized r.owner_id (perform_all later t) ≤ r.estimated_cost_usd)
authorized-within_estimate before c r t later fresh admitted_ unsettled =
    known (view k (perform_all later t)) refl (
      perform_all-WithinLimit r.estimated_cost_usd later k t unsettled (
        rw (Admission-view c r s t (try_reserve_owned-Admission c r s t fresh admitted_))
          (refl, omega (arith, none_yet))))
  where
    k : String
    k = r.owner_id

    s : UsageStorage
    s = perform_all before no_usage

    none_yet : authorized k s ≡ 0
    none_yet =
        subst (λ m. NoneYet (m, authorized k s)) fresh
          (path-NoneYet (view k no_usage) (view k s) (perform_all-OwnerPath before k no_usage)
            (no_usage-NoneYet k))

    known :
        (v : OwnerView)
        → view k (perform_all later t) ≡ v
        → WithinLimit r.estimated_cost_usd v
        → (o : Owner) × (Keyed.get k (perform_all later t).owned ≡ some o)
          × (o.estimate ≡ r.estimated_cost_usd)
          × (authorized k (perform_all later t) ≤ r.estimated_cost_usd)
    known (none, cost) e h = absurd h
    known (some o, cost) e h =
        let cost_is : authorized k (perform_all later t) ≡ cost = ap (λ v. v.1) e in
        (o, ap (λ v. v.0) e, h.0, omega (arith, cost_is, h.1))
