-- ===== src/Run/Succeeds.antt =====
-- `advance_stage` succeeds where nobody interferes.
use short_form_studio.Prelude.{
  ℕ, String, ◌≡◌, refl, Bool, true, false, ◌&&◌, Option, some, List, [], ◌∷◌, ==_iff, leb,
}
use short_form_studio.Prelude.Checked.{ok}
use short_form_studio.Run.Stage.{RunStage, stage_value}
use short_form_studio.Run.Graph.{◌⟶◌, parse_stage-stage_value}
use short_form_studio.Run.Row.{RunRow, Update, touch, to_current_stage, all_updatable}
use short_form_studio.Run.PipelineRun.{
  from_row, row_valid, mapped, stage_valid, status_valid, defaults_valid, preset_valid,
  stage_valid-stage_value,
}
use short_form_studio.Run.Storage as Storage
use short_form_studio.Run.Storage.{RunStorage, store, update_found, stale}
use short_form_studio.Run.Operations.{RunOp, perform_all}
use short_form_studio.Run.Service.{
  Others, missing, get_run, found, to_stage, permitted_target, save, save_checked, advance_checked,
  advance_stage,
}

-- one of the tests is replaced by another that passes
replaced_test :
    (a b c d e f g h c' : Bool)
    → c' ≡ true
    → (a && b && c && d && e && f && g && h) ≡ true
    → (a && b && c' && d && e && f && g && h) ≡ true
replaced_test true true true d e f g h c' p q = rw p q
replaced_test true true false d e f g h c' p q = absurd (cc)
replaced_test true false c d e f g h c' p q = absurd (cc)
replaced_test false b c d e f g h c' p q = absurd (cc)

abbrev pub at_stage : RunStage → List Update
at_stage t = to_current_stage (some (stage_value t)) ∷ []

touched-valid :
    (valid : String → Bool) (now : ℕ) (row : RunRow) (t : RunStage)
    → row_valid valid row ≡ true
    → row_valid valid (touch now row (at_stage t)) ≡ true
unfolding row_valid touch
touched-valid valid now row t h =
    replaced_test (leb 1 row.id) (leb 1 row.project_id) (stage_valid row.current_stage)
      (status_valid row.status) (stage_valid row.review_stage) (stage_valid row.restart_from)
      (defaults_valid valid row.model_defaults_json) (preset_valid row.style_preset)
      (stage_valid (some (stage_value t))) (stage_valid-stage_value t) h

from_row-valid :
    (valid : String → Bool) (row : RunRow)
    → row_valid valid row ≡ true
    → from_row valid row ≡ ok (mapped row)
unfolding from_row
from_row-valid valid row h = rw h

module _ (valid : String → Bool) (later : List RunOp) (now run_id : ℕ) (w : Option ℕ)
    (s : RunStorage) (row : RunRow) (current target : RunStage)
    (here : Storage.get_run run_id w s ≡ some row) (row_ok : row_valid valid row ≡ true)
    (at : row.current_stage ≡ some (stage_value current)) (may : current ⟶ target) where
  abbrev undisturbed : Others
  undisturbed = record { meanwhile = []; later = later }

  finds : found valid (missing run_id) run_id w s ≡ ok (mapped row)
  unfolding found get_run
  finds = rw (here, from_row-valid valid row row_ok)

  current_of : (mapped row).current_stage ≡ some current
  unfolding mapped
  current_of = rw (at, parse_stage-stage_value current)

  permits : permitted_target valid run_id (mapped row) (stage_value target) ≡ ok target
  unfolding permitted_target to_stage
  permits = rw (parse_stage-stage_value target, current_of, may)

  checks : advance_checked valid run_id (stage_value target) w s ≡ ok (mapped row, at_stage target)
  unfolding advance_checked
  checks = rw (finds, permits)

  not_stale : stale (some (mapped row).version) row ≡ false
  unfolding stale mapped
  not_stale = rw ((==_iff row.version row.version).1 refl)

  writes : Storage.update_run now run_id (at_stage target) w (some (mapped row).version) s ≡ (
    ok (some (touch now row (at_stage target))),
    store run_id (touch now row (at_stage target)) s,
  )
  unfolding Storage.update_run update_found all_updatable
  writes = rw (here, not_stale)

  saves : save valid undisturbed now run_id w s (mapped row, at_stage target) ≡ (
    ok (mapped (touch now row (at_stage target))),
    store run_id (touch now row (at_stage target)) s,
  )
  unfolding save perform_all
  saves = rw (
    writes,
    from_row-valid valid (touch now row (at_stage target))
        (touched-valid valid now row target row_ok),
  )

  -- Where the run is there, its row is valid and at a stage from which the transition to the target is permitted,
  -- and nobody writes between the read and the write, `advance_stage` returns the run at the target, and
  -- only this row of the storage is written.
  pub advance_stage-succeeds :
      advance_stage valid undisturbed now run_id (stage_value target) w s ≡ (
        ok (mapped (touch now row (at_stage target))),
        store run_id (touch now row (at_stage target)) s,
      )
  unfolding advance_stage save_checked
  advance_stage-succeeds = rw (checks, saves)
