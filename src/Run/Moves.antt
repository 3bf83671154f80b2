-- ===== src/Run/Moves.antt =====
-- The moves of `RunService`: `restart_run`, `advance_stage`, `stop_run` and `resume_run`.
use short_form_studio.Prelude.{
  ℕ, String, ◌≡◌, refl, ap, ◌∙◌, subst, Bool, false, Option, none, some, List, [], ◌∷◌,
}
use short_form_studio.Prelude.Checked.{
  Result, ok, err, ◌>>=◌, bind-returns, require-returns, ok-injective,
}
use short_form_studio.Errors.{Error}
use short_form_studio.Run.Stage.{RunStage, stage_value, parse_stage, can_transition}
use short_form_studio.Run.Graph.{◌⟶◌}
use short_form_studio.Run.Row.{Update, to_current_stage}
use short_form_studio.Run.PipelineRun.{PipelineRun}
use short_form_studio.Run.Storage.{is_empty, RunStorage}
use short_form_studio.Run.Evolution.{IsWellFormed}
use short_form_studio.Run.Service.{
  Others, to_stage, has, missing, found, save, save_checked, permitted_target, restart_updates,
  restart_checked, restart_run, advance_checked, advance_stage,
}
use short_form_studio.Run.Commit.{Committed, save-Committed}

pub has-returns :
    (exception : Error) (found : Option RunStage) (s : RunStage)
    → has exception found ≡ ok s
    → found ≡ some s
has-returns exception none s h = absurd (cc)
has-returns exception (some t) s h = ap some (ok-injective t s h)

permitted_target-returns :
    (valid : String → Bool) (run_id : ℕ) (run : PipelineRun) (stage_name : String)
    (target : RunStage)
    → permitted_target valid run_id run stage_name ≡ ok target
    → (current : RunStage) × (parse_stage stage_name ≡ some target)
      × (run.current_stage ≡ some current)
      × (current ⟶ target)
unfolding permitted_target
permitted_target-returns valid run_id run stage_name target h =
    let (t, named, h₁) = bind-returns (to_stage stage_name _) _ h in
    let (current, at, h₂) = bind-returns (has _ run.current_stage) _ h₁ in
    let (may, h₃) = require-returns (can_transition current t) _ (ok t) h₂ in
    let same = ok-injective t target h₃ in
    (
      current,
      unfold to_stage in has-returns _ (parse_stage stage_name) target (named ∙ h₃),
      has-returns _ run.current_stage current at,
      subst (λ x. current ⟶ x) same may,
    )

pub checked_injective :
    {a b : PipelineRun} {x y : List Update}
    → ◌≡◌ {A = Result Error (PipelineRun × List Update)} (ok (a, x)) (ok (b, y))
    → (a ≡ b) × (x ≡ y)
checked_injective h = (cc, cc)

module _ (valid : String → Bool) (o : Others) (now run_id : ℕ) (w : Option ℕ) (s after : RunStorage)
    (run' : PipelineRun) where
  -- a method that returns a run has passed its checks and has saved
  pub checked :
      (checks : Result Error (PipelineRun × List Update))
      → save_checked valid o now run_id w s checks ≡ (ok run', after)
      → (run : PipelineRun) × (updates : List Update) × (checks ≡ ok (run, updates))
        × (save valid o now run_id w s (run, updates) ≡ (ok run', after))
  unfolding save_checked
  checked (err e) h = absurd (cc)
  checked (ok (run, updates)) h = (run, updates, refl, h)

  -- The run has moved by a permitted transition to the stage named: `run` is the run that was read, and
  -- `updates` of the new stage are what was written, to the row read.
  pub record Moved (stage_name : String) (updates : RunStage → List Update) : Type 0 where
    pub run : PipelineRun
    pub current : RunStage
    pub target : RunStage
    pub named : parse_stage stage_name ≡ some target
    pub was_at : run.current_stage ≡ some current
    pub permitted : current ⟶ target
    pub committed : Committed valid o now run_id (updates target) run run' s after

  abbrev checks_with : String → (RunStage → List Update) → Result Error (PipelineRun × List Update)
  checks_with stage_name updates = found valid (missing run_id) run_id w s >>= λ run.
      permitted_target valid run_id run stage_name >>= λ target. ok (run, updates target)

  moved :
      (stage_name : String) (updates : RunStage → List Update)
      → ((t : RunStage) → is_empty (updates t) ≡ false)
      → IsWellFormed s
      → save_checked valid o now run_id w s (checks_with stage_name updates) ≡ (ok run', after)
      → Moved stage_name updates
  moved stage_name updates some_updates v h =
      let (run, written, passed, saved) = checked (checks_with stage_name updates) h in
      let (r, f, h₁) = bind-returns (found valid (missing run_id) run_id w s) _ passed in
      let (target, t, h₂) = bind-returns (permitted_target valid run_id r stage_name) _ h₁ in
      let (current, named, at, may) = permitted_target-returns valid run_id r stage_name target t in
      let (same_run, same_updates) = checked_injective h₂ in
      record {
        run = r;
        current = current;
        target = target;
        named = named;
        was_at = at;
        permitted = may;
        committed =
            save-Committed valid o now run_id w s after run' r (updates target)
              (some_updates target) (missing run_id) v f (rw (← same_run, ← same_updates) at saved);
      }

  -- Where `advance_stage` returns a run, the stage named exists, and the run has moved to it from its stage
  -- by a permitted transition: only the stage was written, to the row that was read, whatever other tasks did meanwhile.
  pub advance_stage-Moved :
      (target_stage : String)
      → IsWellFormed s
      → advance_stage valid o now run_id target_stage w s ≡ (ok run', after)
      → Moved target_stage (λ t. to_current_stage (some (stage_value t)) ∷ [])
  unfolding advance_stage advance_checked
  advance_stage-Moved target_stage v h =
      moved target_stage (λ t. to_current_stage (some (stage_value t)) ∷ []) (λ t. refl) v h

  -- Where `restart_run` returns a run, the run has moved to the stage named by a permitted transition, and
  -- its column `restart_from` has that stage too.
  pub restart_run-Moved :
      (from_stage : String)
      → IsWellFormed s
      → restart_run valid o now run_id from_stage w s ≡ (ok run', after)
      → Moved from_stage (restart_updates valid)
  unfolding restart_run restart_checked
  restart_run-Moved from_stage v h = moved from_stage (restart_updates valid) (λ t. refl) v h
