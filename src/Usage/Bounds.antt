-- ===== src/Usage/Bounds.antt =====
-- packages/creator-service/creator_service/usage_service.py: an admission keeps the workspace, and all
-- workspaces together, within their budgets, and the workspace within its quota.
use short_form_studio.Prelude.{
  ℕ, ◌+◌, ◌≤◌, ◌≡◌, refl, ◌∙◌, ap, true, false, Option, none, some, arith,
}
use short_form_studio.Prelude.Int.{ℤ, pos, ◌+ℤ◌, ◌≤ℤ◌, ltb_ℤ→le, int_laws}
use short_form_studio.Prelude.Checked.{ok}
use short_form_studio.Prelude.Keyed
use short_form_studio.Prelude.Keyed.{
  Key, nat_key, text_key, pair_key, total, total-put_new, get-put_self,
}
use short_form_studio.Usage.Rows.{
  Clock, Quota, UsageStorage, Reserved, Bucket, llm_bucket, image_bucket, tts_bucket, units_of,
  set_units, bucket_of, limit_of,
}
use short_form_studio.Usage.Events.{get_workspace_quota, list_by_workspace}
use short_form_studio.Usage.Admit.{
  Request, row_or_zeros, over_global, with_row, add_units, put_owner, new_owner, reserved_row,
  settled_workspace, settled_global, reserved_workspace, reserved_global, held_workspace,
  held_global, listed_units, try_reserve_owned,
}
use short_form_studio.Usage.Admitted.{Admission, try_reserve_owned-Admission}

-- where there is a budget, an amount is within it
abbrev pub WithinBudget : Option ℕ → ℕ → Type 0
WithinBudget none amount = Unit
WithinBudget (some budget) amount = amount ≤ budget

units_of-set_units : (b : Bucket) (n : ℤ) (r : Reserved) → units_of b (set_units b n r) ≡ n
units_of-set_units llm_bucket n r = refl
units_of-set_units image_bucket n r = refl
units_of-set_units tts_bucket n r = refl

reserved_row-with_row :
    (key : ℕ × ℕ) (s : UsageStorage) → reserved_row key (with_row key s) ≡ reserved_row key s
unfolding reserved_row with_row
reserved_row-with_row key s = ap row_or_zeros (get-put_self key (reserved_row key s) s.reservations)

units-add_units :
    (key : ℕ × ℕ) (b : Bucket) (n : ℤ) (s : UsageStorage)
    → units_of b (reserved_row key (add_units key b n s)) ≡ units_of b (reserved_row key s) +ℤ n
unfolding reserved_row add_units
units-add_units key b n s =
    let r = reserved_row key s in
    ap (λ m. units_of b (row_or_zeros m))
      (get-put_self key (set_units b (units_of b r +ℤ n) r) s.reservations)
    ∙ units_of-set_units b (units_of b r +ℤ n) r

module _ (c : Clock) (r : Request) (s t : UsageStorage) (a : Admission c r s t) where
  units-admitted :
      units_of a.bucket (reserved_row (r.workspace_id, c.period_start) t)
      ≡ units_of a.bucket (reserved_row (r.workspace_id, c.period_start) s) +ℤ pos r.units
  unfolding reserved_row put_owner
  units-admitted = rw a.written (
      units-add_units (r.workspace_id, c.period_start) a.bucket (pos r.units)
        (with_row (r.workspace_id, c.period_start) s)
      ∙ ap (λ row. units_of a.bucket row +ℤ pos r.units)
          (reserved_row-with_row (r.workspace_id, c.period_start) s))

  listed-admitted :
      listed_units a.bucket r.operation_type (list_by_workspace r.workspace_id c.period_start t)
      ≡ listed_units a.bucket r.operation_type (list_by_workspace r.workspace_id c.period_start s)
  unfolding put_owner add_units with_row list_by_workspace
  listed-admitted = rw a.written refl

  quota-admitted : get_workspace_quota r.workspace_id t ≡ some a.quota
  unfolding put_owner add_units with_row get_workspace_quota
  quota-admitted = rw a.written a.quota_found

  -- the new owner holds its whole estimate
  module _ (fresh : Keyed.get r.owner_id s.owned ≡ none) where
    held_workspace-admitted :
        settled_workspace r.workspace_id c.period_start t
          + reserved_workspace r.workspace_id c.period_start t
        ≡ settled_workspace r.workspace_id c.period_start s
          + reserved_workspace r.workspace_id c.period_start s
          + r.estimated_cost_usd
    unfolding put_owner add_units with_row settled_workspace reserved_workspace
    held_workspace-admitted = rw a.written (
        ground (
          arith,
          total-put_new (held_workspace r.workspace_id c.period_start) r.owner_id
              (new_owner r.workspace_id c.period_start r.operation_type r.estimated_cost_usd)
              s.owned fresh,
        ))

    held_global-admitted :
        settled_global c.period_start t + reserved_global c.period_start t
        ≡ settled_global c.period_start s + reserved_global c.period_start s + r.estimated_cost_usd
    unfolding put_owner add_units with_row settled_global reserved_global
    held_global-admitted = rw a.written (
        ground (
          arith,
          total-put_new (held_global c.period_start) r.owner_id
              (new_owner r.workspace_id c.period_start r.operation_type r.estimated_cost_usd)
              s.owned fresh,
        ))

  room_left :
      pos (
          listed_units a.bucket r.operation_type
            (list_by_workspace r.workspace_id c.period_start t))
        +ℤ units_of a.bucket (reserved_row (r.workspace_id, c.period_start) t)
      ≤ℤ pos (limit_of a.bucket a.quota.values)
  room_left =
      rw (listed-admitted, units-admitted)
        (omega (
          int_laws,
          ltb_ℤ→le (pos (limit_of a.bucket a.quota.values))
              (pos (
                  listed_units a.bucket r.operation_type
                    (list_by_workspace r.workspace_id c.period_start s))
                +ℤ units_of a.bucket (reserved_row (r.workspace_id, c.period_start) s)
                +ℤ pos r.units)
              a.room,
        ))

  workspace_budget-kept :
      Keyed.get r.owner_id s.owned ≡ none
      → settled_workspace r.workspace_id c.period_start t
          + reserved_workspace r.workspace_id c.period_start t
        ≤ r.monthly_cost_usd
  workspace_budget-kept fresh = ground (arith, held_workspace-admitted fresh, a.fits_workspace)

global_budget-kept :
    (period cost : ℕ) (budget : Option ℕ) (s t : UsageStorage)
    → over_global period budget cost s ≡ false
    → settled_global period t + reserved_global period t
      ≡ settled_global period s + reserved_global period s + cost
    → WithinBudget budget (settled_global period t + reserved_global period t)
global_budget-kept period cost none s t h e = tt
global_budget-kept period cost (some budget) s t h e = ground arith

-- When `try_reserve_owned` admits an owner that it did not know, then afterwards, in the month of the
-- clock: what the workspace has spent and what its owners hold is within the monthly budget; what
-- all workspaces have spent and hold is within the global budget, where there is one; and the
-- workspace has a quota, and the units used by its events and the units reserved in the bucket of the
-- operation are together within the limit for that bucket.
pub try_reserve_owned-within_budgets :
    (c : Clock) (r : Request) (s t : UsageStorage)
    → Keyed.get r.owner_id s.owned ≡ none
    → try_reserve_owned c r s ≡ (ok true, t)
    → (settled_workspace r.workspace_id c.period_start t
          + reserved_workspace r.workspace_id c.period_start t
        ≤ r.monthly_cost_usd)
      × WithinBudget r.global_monthly_cost_usd
          (settled_global c.period_start t + reserved_global c.period_start t)
      × ((quota : Quota) × (b : Bucket) × (get_workspace_quota r.workspace_id t ≡ some quota)
          × (bucket_of r.operation_type ≡ some b)
          × (pos (
                  listed_units b r.operation_type
                    (list_by_workspace r.workspace_id c.period_start t))
                +ℤ units_of b (reserved_row (r.workspace_id, c.period_start) t)
              ≤ℤ pos (limit_of b quota.values)))
try_reserve_owned-within_budgets c r s t fresh h =
    let a = try_reserve_owned-Admission c r s t fresh h in
    (
      workspace_budget-kept c r s t a fresh,
      global_budget-kept c.period_start r.estimated_cost_usd r.global_monthly_cost_usd s t
          a.fits_global (held_global-admitted c r s t a fresh),
      (a.quota, a.bucket, quota-admitted c r s t a, a.bucket_found, room_left c r s t a),
    )
