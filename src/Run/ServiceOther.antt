-- ===== src/Run/ServiceOther.antt =====
-- packages/creator-service/creator_service/run_service.py: the methods of `RunService` that create, delete or complete a run, and the one
-- that goes back.
use short_form_studio.Prelude.{
  ℕ, String, Bool, true, false, Option, none, some, [], ◌∷◌, str_eq, if◌then◌else◌,
}
use short_form_studio.Prelude.Checked.{Result, ok, err, ◌>>=◌}
use short_form_studio.Errors.{Error, conflict, value_error, of_id, of_number}
use short_form_studio.Run.Stage.{RunStage, stage_value, stage_back}
use short_form_studio.Run.Row.{RunRow, to_current_stage, to_status, to_finished_at}
use short_form_studio.Run.PipelineRun.{PipelineRun, from_row}
use short_form_studio.Run.Storage as Storage
use short_form_studio.Run.Storage.{RunStorage}
use short_form_studio.Run.Operations.{perform_all}
use short_form_studio.Run.Service.{Others, Answer, to_stage, has, found, missing_value}

module _ (valid : String → Bool) where
  -- the row that `create_run` hands to the storage, which gives it its id and times
  abbrev pub new_row :
      ℕ → Option ℕ → RunStage → String → Option String → Option String → String → RunRow
  new_row project_id w stage status model_defaults metadata style_preset = record {
    id = 0;
    project_id = project_id;
    workspace_id = w;
    current_stage = some (stage_value stage);
    status = status;
    review_stage = none;
    restart_from = none;
    model_defaults_json = model_defaults;
    metadata_json = metadata;
    style_preset = some style_preset;
    started_at = none;
    finished_at = none;
    created_at = 0;
    updated_at = 0;
    version = 0;
  }

  abbrev pub created_answer : Result Error RunRow × RunStorage → Answer
  created_answer (err e, s) = (err e, s)
  created_answer (ok row, s) = (from_row valid row, s)

  abbrev pub create_at : ℕ → (RunStage → RunRow) → Result Error RunStage → RunStorage → Answer
  create_at now row (err e) s = (err e, s)
  create_at now row (ok stage) s = created_answer (Storage.create_run now (row stage) s)

  unfoldable pub create_run :
      ℕ
      → ℕ
      → Option String
      → String
      → Option String
      → String
      → String
      → Option ℕ
      → RunStorage
      → Answer
  unfolding to_stage Storage.create_run from_row
  create_run now project_id model_defaults style_preset metadata current_stage status w s =
      create_at now
        (λ stage. new_row project_id w stage status model_defaults metadata style_preset)
        (to_stage current_stage (value_error (of_id "Invalid stage" current_stage))) s

  abbrev pub cancelled_answer : ℕ → Result Error (Option RunRow) × RunStorage → Answer
  cancelled_answer run_id (err e, s) = (err e, s)
  cancelled_answer run_id (ok none, s) = (err (missing_value run_id), s)
  cancelled_answer run_id (ok (some row), s) = (from_row valid row, s)

  unfoldable pub cancel_run : ℕ → ℕ → ℕ → RunStorage → Answer
  unfolding Storage.update_run from_row
  cancel_run now run_id workspace_id s =
      cancelled_answer run_id
        (Storage.update_run now run_id (to_status "cancelled" ∷ []) (some workspace_id) none s)

  unfoldable pub back_checked : ℕ → Option ℕ → RunStorage → Result Error (RunStage × RunStage)
  unfolding found stage_back
  back_checked run_id w s = do
    run ← found valid (missing_value run_id) run_id w s
    current ← has (value_error (of_number "Run has no current stage" run_id)) run.current_stage
    target ←
        has (value_error (of_id "Cannot go back from stage" (stage_value current)))
          (stage_back current)
    ok (current, target)

  abbrev pub back_answer : ℕ → RunStage → Result Error (Bool × Option RunRow) × RunStorage → Answer
  back_answer run_id current (err e, s) = (err e, s)
  back_answer run_id current (ok (_, none), s) = (err (missing_value run_id), s)
  back_answer run_id current (ok (false, some row), s) =
      (err (conflict (of_id "Stage conflict: expected" (stage_value current))), s)
  back_answer run_id current (ok (true, some row), s) = (from_row valid row, s)

  abbrev pub back_to :
      Others → ℕ → ℕ → Option ℕ → Result Error (RunStage × RunStage) → RunStorage → Answer
  back_to o now run_id w (err e) s = (err e, s)
  back_to o now run_id w (ok (current, target)) s = back_answer run_id current (
      Storage.conditional_update_run now run_id (to_current_stage (some (stage_value target)) ∷ [])
        (stage_value current ∷ []) w [] (perform_all o.meanwhile s))

  unfoldable pub go_back : Others → ℕ → ℕ → Option ℕ → RunStorage → Answer
  unfolding back_checked Storage.conditional_update_run from_row perform_all
  go_back o now run_id w s = back_to o now run_id w (back_checked run_id w s) s

  abbrev pub delete_found :
      Others → ℕ → Option ℕ → Result Error PipelineRun → RunStorage → Result Error Bool × RunStorage
  delete_found o run_id w (err e) s = (err e, s)
  delete_found o run_id w (ok run) s =
      let (deleted, after) = Storage.delete_run run_id w (perform_all o.meanwhile s) in
      (ok deleted, after)

  unfoldable pub delete_run : Others → ℕ → Option ℕ → RunStorage → Result Error Bool × RunStorage
  unfolding found Storage.delete_run perform_all
  delete_run o run_id w s =
      delete_found o run_id w (found valid (missing_value run_id) run_id w s) s

  abbrev pub completed_answer : ℕ → Result Error (Option RunRow) × RunStorage → Answer
  completed_answer run_id (err e, s) = (err e, s)
  completed_answer run_id (ok none, s) =
      (err (value_error (of_number "Run version conflict" run_id)), s)
  completed_answer run_id (ok (some row), s) = (from_row valid row, s)

  abbrev pub complete_found :
      Others → ℕ → ℕ → Option ℕ → Result Error PipelineRun → RunStorage → Answer
  complete_found o now run_id w (err e) s = (err e, s)
  complete_found o now run_id w (ok run) s =
      if str_eq run.status "completed"
      then (ok run, s)
      else completed_answer run_id (
          Storage.update_run now run_id (to_status "completed" ∷ to_finished_at (some now) ∷ []) w
            (some run.version) (perform_all o.meanwhile s))

  unfoldable pub mark_completed : Others → ℕ → ℕ → Option ℕ → RunStorage → Answer
  unfolding found Storage.update_run from_row perform_all
  mark_completed o now run_id w s =
      complete_found o now run_id w (found valid (missing_value run_id) run_id w s) s

  abbrev pub merged_answer : Result Error RunRow × RunStorage → Answer
  merged_answer (err e, s) = (err e, s)
  merged_answer (ok row, s) = (from_row valid row, s)

  abbrev pub merge_found :
      Others
      → ℕ
      → ℕ
      → (Option String → String)
      → Option ℕ
      → Result Error PipelineRun
      → RunStorage
      → Answer
  merge_found o now run_id merge w (err e) s = (err e, s)
  merge_found o now run_id merge w (ok run) s =
      merged_answer (Storage.merge_model_defaults now run_id merge w (perform_all o.meanwhile s))

  unfoldable pub update_model_defaults :
      Others → ℕ → ℕ → (Option String → String) → Option ℕ → RunStorage → Answer
  unfolding found Storage.merge_model_defaults from_row perform_all
  update_model_defaults o now run_id merge w s =
      merge_found o now run_id merge w (found valid (missing_value run_id) run_id w s) s
