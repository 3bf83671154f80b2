-- ===== src/Run/Stop.antt =====
-- `stop_run` and `resume_run`: what a stopped run can still be given by a worker.
use short_form_studio.Prelude.{
  ℕ, String, ◌≡◌, refl, Bool, true, ◌||◌, Option, some, List, [], ◌∷◌, str_eq, map,
}
use short_form_studio.Prelude.Checked.{ok, bind-returns, require-returns}
use short_form_studio.Prelude.Dict
use short_form_studio.Run.Stage.{
  RunStage, stage_value, mem_stage, generating_stages, stage_before_generating,
}
use short_form_studio.Run.Row.{Update, to_status}
use short_form_studio.Run.PipelineRun.{PipelineRun}
use short_form_studio.Run.Storage.{RunStorage, conditional_update_run}
use short_form_studio.Run.Evolution.{IsWellFormed}
use short_form_studio.Run.Service.{Others, missing, found, stop_updates, resume_checked, resume_run}
use short_form_studio.Run.Commit.{Committed, save-Committed}
use short_form_studio.Run.Moves.{checked, checked_injective}

-- the values of the stages in which a worker generates
abbrev pub generating_values : List String
generating_values = map stage_value generating_stages

-- The run was generating, and now is cancelled at the stage before; updates that expect a generating
-- stage leave the storage as it is.
pub record Stopped (valid : String → Bool) (o : Others) (now run_id : ℕ) (run' : PipelineRun)
    (s after : RunStorage) : Type 0 where
  pub run : PipelineRun
  pub stage : RunStage
  pub rollback : RunStage
  pub was_at : run.current_stage ≡ some stage
  pub generating : mem_stage stage generating_stages ≡ true
  pub before : stage_before_generating stage ≡ some rollback
  pub committed : Committed valid o now run_id (stop_updates valid rollback) run run' s after
  pub refuses :
      (later : ℕ) (updates : List Update) (w : Option ℕ) (rejected : List String)
      → (conditional_update_run later run_id updates generating_values w rejected after).1 ≡ after

module _ (valid : String → Bool) (o : Others) (now run_id : ℕ) (w : Option ℕ) (s after : RunStorage)
    (run' : PipelineRun) where
  -- Where `resume_run` returns a run, that run was cancelled or failed, and only its status was written, to the
  -- row that was read: it is at the stage where it was stopped.
  pub resume_run-Committed :
      IsWellFormed s
      → resume_run valid o now run_id w s ≡ (ok run', after)
      → (run : PipelineRun) × ((str_eq run.status "cancelled" || str_eq run.status "failed") ≡ true)
        × Committed valid o now run_id (to_status "running" ∷ []) run run' s after
  unfolding resume_run resume_checked
  resume_run-Committed v h =
      let (run, written, passed, saved) =
        checked valid o now run_id w s after run' (resume_checked valid run_id w s) h in
      let (r, f, h₁) = bind-returns (found valid (missing run_id) run_id w s) _ passed in
      let (stopped, h₂) =
        require-returns (str_eq r.status "cancelled" || str_eq r.status "failed") _ _ h₁ in
      let (same_run, same_updates) = checked_injective h₂ in
      (
        r,
        stopped,
        save-Committed valid o now run_id w s after run' r (to_status "running" ∷ []) refl
            (missing run_id) v f (rw (← same_run, ← same_updates) at saved),
      )
