-- ===== src/Run/Review/Approve.antt =====
-- packages/creator-service/creator_service/stage_review_service.py: `approve_and_advance`. What the
-- storage of reviews raises is an argument, and so are the storage operations of others at each of the awaits.
use short_form_studio.Prelude.{
  ℕ, String, Bool, true, false, Option, none, some, List, [], ◌∷◌, if◌then◌else◌,
}
use short_form_studio.Prelude.Checked.{Result, ok, err, ◌>>=◌, ◌>>◌, require}
use short_form_studio.Errors.{Error, value_error, runtime_error, of_id, of_number}
use short_form_studio.Run.Stage.{RunStage, stage_value, can_transition}
use short_form_studio.Run.Row.{
  RunRow, Update, to_current_stage, to_review_stage, to_restart_from, to_model_defaults_json,
  to_metadata_json, to_style_preset, to_status, to_started_at, to_finished_at, to_column,
}
use short_form_studio.Run.PipelineRun.{PipelineRun}
use short_form_studio.Run.Storage.{RunStorage, conditional_update_run, is_empty}
use short_form_studio.Run.Operations.{RunOp, perform_all}
use short_form_studio.Run.Service.{to_stage, get_run, found, missing_value}
use short_form_studio.Run.Review.Rows.{Approval, ReviewStorage, create_review}
use short_form_studio.Run.Review.Rows as Rows

-- what other tasks do before the update, and between it and what follows
pub record Between : Type 0 where
  pub meanwhile : List RunOp
  pub during : List RunOp

abbrev pub State : Type 0
State = RunStorage × ReviewStorage

-- the review stage and the target, by a permitted transition
unfoldable pub check_approval : String → String → Result Error (RunStage × RunStage)
unfolding Rows.to_review_stage to_stage can_transition
check_approval stage_name target_stage = do
  stage ← Rows.to_review_stage stage_name
  target ← to_stage target_stage (value_error (of_id "Invalid target stage" target_stage))
  require (can_transition stage target)
        (value_error (of_id "Cannot transition to" (stage_value target)))
      >> ok (stage, target)

abbrev pub text_of : Option RunStage → Option String
text_of none = none
text_of (some s) = some (stage_value s)

module _ (valid : String → Bool) (metadata_text : Option String → Option String) where
  -- the value of the run's attribute of this name; a run has none named model_defaults_json
  unfoldable pub original_value : PipelineRun → Update → Update
  original_value run (to_current_stage v) = to_current_stage (text_of run.current_stage)
  original_value run (to_review_stage v) = to_review_stage (text_of run.review_stage)
  original_value run (to_restart_from v) = to_restart_from (text_of run.restart_from)
  original_value run (to_model_defaults_json v) = to_model_defaults_json none
  original_value run (to_metadata_json v) = to_metadata_json (metadata_text run.metadata)
  original_value run (to_style_preset v) = to_style_preset run.style_preset
  original_value run (to_status v) = to_status run.status
  original_value run (to_started_at v) = to_started_at run.started_at
  original_value run (to_finished_at v) = to_finished_at run.finished_at
  original_value run (to_column name) = to_column name

  unfoldable pub original_values : PipelineRun → List Update → List Update
  unfolding original_value
  original_values run [] = []
  original_values run (u ∷ rest) = original_value run u ∷ original_values run rest

  abbrev pub originals_of : List Update → Option PipelineRun → List Update
  originals_of extra none = []
  originals_of extra (some run) = original_values run extra

  -- the values before the update, read if there are extra updates
  unfoldable pub read_originals :
      ℕ → Option ℕ → List Update → RunStorage → Result Error (List Update)
  unfolding get_run original_values
  read_originals run_id w extra runs =
      if is_empty extra
      then ok []
      else get_run valid run_id w runs >>= λ run. ok (originals_of extra run)

  abbrev pub rolled_back :
      ℕ
      → Error
      → ReviewStorage
      → Result Error (Bool × Option RunRow) × RunStorage
      → Result Error PipelineRun × State
  rolled_back run_id exception reviews (err e, runs) = (err e, (runs, reviews))
  rolled_back run_id exception reviews (ok (false, row), runs) =
      (err (runtime_error (of_number "Stage rollback failed" run_id)), (runs, reviews))
  rolled_back run_id exception reviews (ok (true, row), runs) = (err exception, (runs, reviews))

  -- the review is recorded, or the run rolled back
  abbrev pub record_or_roll_back :
      Option Error
      → ℕ
      → Approval
      → RunStage × RunStage
      → List Update
      → Option ℕ
      → RunStorage
      → ReviewStorage
      → Result Error PipelineRun × State
  record_or_roll_back none now a moves originals w runs reviews = (
    found valid (missing_value a.run_id) a.run_id w runs,
    (runs, (create_review now a reviews).1),
  )
  record_or_roll_back (some exception) now a (stage, target) originals w runs reviews =
      rolled_back a.run_id exception reviews (
        conditional_update_run now a.run_id
          (to_current_stage (some (stage_value stage)) ∷ originals) (stage_value target ∷ []) w
          ("cancelled" ∷ []) runs)

  abbrev pub after_update :
      Between
      → Option Error
      → ℕ
      → Approval
      → RunStage × RunStage
      → List Update
      → Option ℕ
      → ReviewStorage
      → Result Error (Bool × Option RunRow) × RunStorage
      → Result Error PipelineRun × State
  after_update o fault now a moves originals w reviews (err e, runs) = (err e, (runs, reviews))
  after_update o fault now a moves originals w reviews (ok (false, none), runs) =
      (err (missing_value a.run_id), (runs, reviews))
  after_update o fault now a moves originals w reviews (ok (false, some row), runs) =
      (err (value_error (of_id "Stage conflict: expected" a.stage_name)), (runs, reviews))
  after_update o fault now a moves originals w reviews (ok (true, row), runs) =
      record_or_roll_back fault now a moves originals w (perform_all o.during runs) reviews

  abbrev pub advance_with :
      Between
      → Option Error
      → ℕ
      → Approval
      → RunStage × RunStage
      → List Update
      → Option ℕ
      → Result Error (List Update)
      → State
      → Result Error PipelineRun × State
  advance_with o fault now a moves extra w (err e) (runs, reviews) = (err e, (runs, reviews))
  advance_with o fault now a (stage, target) extra w (ok originals) (runs, reviews) =
      after_update o fault now a (stage, target) originals w reviews
        (conditional_update_run now a.run_id (to_current_stage (some (stage_value target)) ∷ extra)
          (stage_value stage ∷ []) w ("cancelled" ∷ []) (perform_all o.meanwhile runs))

  abbrev pub approve_checked :
      Between
      → Option Error
      → ℕ
      → Approval
      → List Update
      → Option ℕ
      → Result Error (RunStage × RunStage)
      → State
      → Result Error PipelineRun × State
  approve_checked o fault now a extra w (err e) s = (err e, s)
  approve_checked o fault now a extra w (ok moves) (runs, reviews) =
      advance_with o fault now a moves extra w (read_originals a.run_id w extra runs)
        (runs, reviews)

  unfoldable pub approve_and_advance :
      Between
      → Option Error
      → ℕ
      → Approval
      → String
      → List Update
      → Option ℕ
      → State
      → Result Error PipelineRun × State
  unfolding check_approval read_originals conditional_update_run create_review found perform_all
  approve_and_advance o fault now a target_stage extra w s =
      approve_checked o fault now a extra w (check_approval a.stage_name target_stage) s
