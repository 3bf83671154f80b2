-- ===== src/Usage/Admitted.antt =====
-- packages/creator-service/creator_service/usage_service.py: what an admission by `try_reserve_owned`
-- has tested and written.
use short_form_studio.Prelude.{
  ◌≡◌, refl, sym, ap, true, false, ◌||◌, Option, none, some, inl, inr, Bool-cases, or_false,
}
use short_form_studio.Prelude.Checked.{ok}
use short_form_studio.Prelude.Keyed
use short_form_studio.Prelude.Keyed.{Key, text_key}
use short_form_studio.Usage.Rows.{Clock, Quota, UsageStorage, Bucket, bucket_of}
use short_form_studio.Usage.Events.{get_workspace_quota}
use short_form_studio.Usage.Admit.{
  Request, over_workspace, over_global, no_room, admitted, admit_over, try_admit, try_reserve_owned,
}

pub record Admission (c : Clock) (r : Request) (s t : UsageStorage) : Type 0 where
  pub quota : Quota
  pub bucket : Bucket
  pub quota_found : get_workspace_quota r.workspace_id s ≡ some quota
  pub bucket_found : bucket_of r.operation_type ≡ some bucket
  pub room : no_room c r.workspace_id r.operation_type r.units quota bucket s ≡ false
  pub fits_workspace :
      over_workspace r.workspace_id c.period_start r.monthly_cost_usd r.estimated_cost_usd s ≡ false
  pub fits_global :
      over_global c.period_start r.global_monthly_cost_usd r.estimated_cost_usd s ≡ false
  pub written :
      t
      ≡ admitted c r.workspace_id r.operation_type r.owner_id r.estimated_cost_usd r.units bucket s

module _ (c : Clock) (r : Request) (s t : UsageStorage) where
  at_quota :
      (q : Option Quota) (b : Option Bucket)
      → get_workspace_quota r.workspace_id s ≡ q
      → bucket_of r.operation_type ≡ b
      → over_workspace r.workspace_id c.period_start r.monthly_cost_usd r.estimated_cost_usd s
        ≡ false
      → over_global c.period_start r.global_monthly_cost_usd r.estimated_cost_usd s ≡ false
      → admit_over c r.workspace_id r.operation_type r.owner_id r.estimated_cost_usd r.units q b s
        ≡ (ok true, t)
      → Admission c r s t
  at_quota none b hq hb fw fg h = cc
  at_quota (some q) none hq hb fw fg h = cc
  at_quota (some q) (some b) hq hb fw fg h =
      elim (Bool-cases (no_room c r.workspace_id r.operation_type r.units q b s)) [
        | inl e ↦ let h' = rw e at h in cc
        | inr e ↦
            let h' = rw e at h in
            record {
              quota = q;
              bucket = b;
              quota_found = hq;
              bucket_found = hb;
              room = e;
              fits_workspace = fw;
              fits_global = fg;
              written = sym (ap (λ p. p.1) h');
            }
      ]

  -- An owner that was not known is admitted only after all the tests.
  pub try_reserve_owned-Admission :
      Keyed.get r.owner_id s.owned ≡ none
      → try_reserve_owned c r s ≡ (ok true, t)
      → Admission c r s t
  unfolding try_reserve_owned
  try_reserve_owned-Admission fresh h = at (rw fresh at h)
    where
      at : try_admit c r s ≡ (ok true, t) → Admission c r s t
      at g =
          elim (Bool-cases (
            over_workspace r.workspace_id c.period_start r.monthly_cost_usd r.estimated_cost_usd s
            || over_global c.period_start r.global_monthly_cost_usd r.estimated_cost_usd s)) [
              | inl e ↦ let g' = rw e at g in cc
              | inr e ↦
                  let fits = or_false _ _ e in
                  at_quota (get_workspace_quota r.workspace_id s) (bucket_of r.operation_type) refl
                    refl fits.0 fits.1 (rw e at g)
            ]
