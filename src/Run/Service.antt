-- ===== src/Run/Service.antt =====
-- packages/creator-service/creator_service/run_service.py: `RunService` over the in-memory storage. A method awaits
-- between its read and its write, so what other tasks do to the storage there is a sequence of operations.
use short_form_studio.Prelude.{ℕ, String, Bool, Option, none, some, List, [], ◌∷◌, str_eq, ◌||◌}
use short_form_studio.Prelude.Checked.{Result, ok, err, ◌>>=◌, ◌>>◌, require, reject}
use short_form_studio.Errors.{
  Error, not_found, validation, conflict, value_error, text, of_id, of_number,
}
use short_form_studio.Run.Stage.{
  RunStage, stage_value, parse_stage, mem_stage, generating_stages, stage_before_generating,
  can_transition,
}
use short_form_studio.Run.Row.{RunRow, Update, to_current_stage, to_restart_from, to_status}
use short_form_studio.Run.PipelineRun.{PipelineRun, from_row}
use short_form_studio.Run.Storage as Storage
use short_form_studio.Run.Storage.{RunStorage}
use short_form_studio.Run.Operations.{RunOp, perform_all}

-- what other tasks do between the read and the write, and between a refused write and the next read
pub record Others : Type 0 where
  pub meanwhile : List RunOp
  pub later : List RunOp

abbrev pub Answer : Type 0
Answer = Result Error PipelineRun × RunStorage

-- a value that must be there
abbrev pub has : Error → Option RunStage → Result Error RunStage
has exception none = err exception
has exception (some s) = ok s

-- RunStage(value), or the exception
unfoldable pub to_stage : String → Error → Result Error RunStage
unfolding parse_stage
to_stage value exception = has exception (parse_stage value)

abbrev pub missing : ℕ → Error
missing run_id = not_found (of_number "Run not found" run_id)

abbrev pub missing_value : ℕ → Error
missing_value run_id = value_error (of_number "Run not found" run_id)

module _ (valid : String → Bool) where
  abbrev pub some_run : Option RunRow → Result Error (Option PipelineRun)
  some_run none = ok none
  some_run (some row) = from_row valid row >>= λ run. ok (some run)

  unfoldable pub get_run : ℕ → Option ℕ → RunStorage → Result Error (Option PipelineRun)
  unfolding Storage.get_run from_row
  get_run run_id w s = some_run (Storage.get_run run_id w s)

  abbrev pub present : Error → Option PipelineRun → Result Error PipelineRun
  present exception none = err exception
  present exception (some run) = ok run

  -- run = await self.get_run(...); if run is None: raise exception
  unfoldable pub found : Error → ℕ → Option ℕ → RunStorage → Result Error PipelineRun
  unfolding get_run
  found exception run_id w s = get_run run_id w s >>= λ answer. present exception answer

  -- if row is None: read again, for the kind of failure
  unfoldable pub refused : Option ℕ → ℕ → RunStorage → Answer
  unfolding found
  refused w run_id s = (
    found (missing run_id) run_id w s >>= λ latest.
        err (conflict (of_number "Run has stale version" run_id)),
    s,
  )

  abbrev pub answer_of :
      Option ℕ → ℕ → List RunOp → Result Error (Option RunRow) × RunStorage → Answer
  answer_of w run_id later (err e, s) = (err e, s)
  answer_of w run_id later (ok none, s) = refused w run_id (perform_all later s)
  answer_of w run_id later (ok (some row), s) = (from_row valid row, s)

  -- row = await self.storage.update_run(..., expected_version=run.version), and what follows
  unfoldable pub save : Others → ℕ → ℕ → Option ℕ → RunStorage → PipelineRun × List Update → Answer
  unfolding Storage.update_run refused from_row perform_all
  save o now run_id w s (run, updates) =
      answer_of w run_id o.later
        (Storage.update_run now run_id updates w (some run.version) (perform_all o.meanwhile s))

  -- a method that raises where its checks do, and saves otherwise
  unfoldable pub save_checked :
      Others → ℕ → ℕ → Option ℕ → RunStorage → Result Error (PipelineRun × List Update) → Answer
  unfolding save
  save_checked o now run_id w s (err e) = (err e, s)
  save_checked o now run_id w s (ok checked) = save o now run_id w s checked

  -- the checks of `restart_run` and of `advance_stage`
  unfoldable pub permitted_target : ℕ → PipelineRun → String → Result Error RunStage
  unfolding to_stage can_transition
  permitted_target run_id run stage_name = do
    target ← to_stage stage_name (validation (of_id "Invalid stage" stage_name))
    current ← has (validation (of_number "Run has no current stage" run_id)) run.current_stage
    require (can_transition current target)
          (validation (of_id "Cannot transition to" (stage_value target)))
        >> ok target

  abbrev pub restart_updates : RunStage → List Update
  restart_updates target =
      to_restart_from (some (stage_value target))
      ∷ to_current_stage (some (stage_value target))
      ∷ []

  unfoldable pub restart_checked :
      ℕ → String → Option ℕ → RunStorage → Result Error (PipelineRun × List Update)
  unfolding found permitted_target
  restart_checked run_id from_stage w s = do
    run ← found (missing run_id) run_id w s
    target ← permitted_target run_id run from_stage
    ok (run, restart_updates target)

  unfoldable pub restart_run : Others → ℕ → ℕ → String → Option ℕ → RunStorage → Answer
  unfolding restart_checked save_checked
  restart_run o now run_id from_stage w s =
      save_checked o now run_id w s (restart_checked run_id from_stage w s)

  unfoldable pub advance_checked :
      ℕ → String → Option ℕ → RunStorage → Result Error (PipelineRun × List Update)
  unfolding found permitted_target
  advance_checked run_id target_stage w s = do
    run ← found (missing run_id) run_id w s
    target ← permitted_target run_id run target_stage
    ok (run, to_current_stage (some (stage_value target)) ∷ [])

  unfoldable pub advance_stage : Others → ℕ → ℕ → String → Option ℕ → RunStorage → Answer
  unfolding advance_checked save_checked
  advance_stage o now run_id target_stage w s =
      save_checked o now run_id w s (advance_checked run_id target_stage w s)

  -- the stage before `stage`, with the KeyError of a missing key, and the refusals of `stop_run`
  unfoldable pub stop_target : ℕ → Option RunStage → Result Error RunStage
  unfolding stage_before_generating
  stop_target run_id none =
      err (validation (of_number "Run can only stop during generating stages" run_id))
  stop_target run_id (some stage) =
      require (mem_stage stage generating_stages)
        (validation (of_number "Run can only stop during generating stages" run_id))
      >> has (value_error (text "KeyError")) (stage_before_generating stage)

  abbrev pub stop_updates : RunStage → List Update
  stop_updates rollback =
      to_status "cancelled" ∷ to_current_stage (some (stage_value rollback)) ∷ []

  unfoldable pub stop_checked : ℕ → Option ℕ → RunStorage → Result Error (PipelineRun × List Update)
  unfolding found stop_target
  stop_checked run_id w s = do
    run ← found (missing run_id) run_id w s
    reject (str_eq run.status "cancelled") (validation (of_number "Run is already stopped" run_id))
        >> (stop_target run_id run.current_stage >>= λ rollback. ok (run, stop_updates rollback))

  unfoldable pub stop_run : Others → ℕ → ℕ → Option ℕ → RunStorage → Answer
  unfolding stop_checked save_checked
  stop_run o now run_id w s = save_checked o now run_id w s (stop_checked run_id w s)

  unfoldable pub resume_checked :
      ℕ → Option ℕ → RunStorage → Result Error (PipelineRun × List Update)
  unfolding found
  resume_checked run_id w s = do
    run ← found (missing run_id) run_id w s
    require (str_eq run.status "cancelled" || str_eq run.status "failed")
          (validation (of_number "can only resume cancelled or failed runs" run_id))
        >> ok (run, to_status "running" ∷ [])

  unfoldable pub resume_run : Others → ℕ → ℕ → Option ℕ → RunStorage → Answer
  unfolding resume_checked save_checked
  resume_run o now run_id w s = save_checked o now run_id w s (resume_checked run_id w s)
