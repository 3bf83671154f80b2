-- ===== src/Run/Back.antt =====
-- `go_back`: the stage that it leads to, and the run that it leaves from.
use short_form_studio.Prelude.{
  ℕ, String, ◌≡◌, refl, ap, Bool, true, false, Option, none, some, [], ◌∷◌, arith, Bool-cases,
  str_eq, eq_iff, inl, inr,
}
use short_form_studio.Prelude.Checked.{Result, ok, err, bind-returns}
use short_form_studio.Errors.{Error}
use short_form_studio.Run.Stage.{RunStage, stage_value, stage_back}
use short_form_studio.Run.Row.{RunRow, touch, to_current_stage}
use short_form_studio.Run.PipelineRun.{PipelineRun, from_row}
use short_form_studio.Run.Storage.{RunStorage, stage_expected, mem_text}
use short_form_studio.Run.Operations.{perform_all}
use short_form_studio.Run.Service.{Others, missing_value, found, has}
use short_form_studio.Run.ServiceOther.{back_checked, back_answer, back_to, go_back}
use short_form_studio.Run.Commit.{Wrote}
use short_form_studio.Run.Conditional.{conditional_update_run-Accepted}
use short_form_studio.Run.Moves.{has-returns}

expected_one :
    (at : Option String) (value : String) → stage_expected at (value ∷ []) ≡ true → at ≡ some value
unfolding stage_expected mem_text
expected_one none value h = absurd (cc)
expected_one (some x) value h = elim (Bool-cases (str_eq x value)) [
  | inl e ↦ ap some ((eq_iff x value).0 e)
  | inr e ↦ absurd (ground (arith, e, h))
]

-- The row that was written to stood at a stage that can be left backwards, and is at the stage behind it now.
pub record WentBack (valid : String → Bool) (now run_id : ℕ) (run' : PipelineRun)
    (s after : RunStorage) : Type 0 where
  pub row : RunRow
  pub current : RunStage
  pub target : RunStage
  pub behind : stage_back current ≡ some target
  pub was_at : row.current_stage ≡ some (stage_value current)
  pub wrote : Wrote now run_id (to_current_stage (some (stage_value target)) ∷ []) row s after
  pub returned :
      from_row valid (touch now row (to_current_stage (some (stage_value target)) ∷ [])) ≡ ok run'

module _ (valid : String → Bool) (o : Others) (now run_id : ℕ) (w : Option ℕ) (s after : RunStorage)
    (run' : PipelineRun) where
  back_checked-returns :
      (current target : RunStage)
      → back_checked valid run_id w s ≡ ok (current, target)
      → stage_back current ≡ some target
  unfolding back_checked
  back_checked-returns current target h =
      let (run, f, h₁) = bind-returns (found valid (missing_value run_id) run_id w s) _ h in
      let (c, at, h₂) = bind-returns (has _ run.current_stage) _ h₁ in
      let (t, back, h₃) = bind-returns (has _ (stage_back c)) _ h₂ in
      let (same_c, same_t) = pair_injective h₃ in
      rw (← same_c, ← same_t) (has-returns _ (stage_back c) t back)
    where
      pair_injective :
          {a b c d : RunStage}
          → ◌≡◌ {A = Result Error (RunStage × RunStage)} (ok (a, b)) (ok (c, d))
          → (a ≡ c) × (b ≡ d)
      pair_injective k = (cc, cc)

  back_row :
      (current : RunStage) (answer : Result Error (Bool × Option RunRow) × RunStorage)
      → back_answer valid run_id current answer ≡ (ok run', after)
      → (row' : RunRow) × (answer ≡ (ok (true, some row'), after)) × (from_row valid row' ≡ ok run')
  back_row current (err e, s') h = absurd (cc)
  back_row current (ok (true, none), s') h = absurd (cc)
  back_row current (ok (false, none), s') h = absurd (cc)
  back_row current (ok (false, some row'), s') h = absurd (cc)
  back_row current (ok (true, some row'), s') h =
      (row', ap (λ x. (ok (true, some row'), x)) (ap (λ p. p.1) h), ap (λ p. p.0) h)

  back_to-WentBack :
      (checks : Result Error (RunStage × RunStage))
      → back_checked valid run_id w s ≡ checks
      → back_to valid o now run_id w checks s ≡ (ok run', after)
      → WentBack valid now run_id run' (perform_all o.meanwhile s) after
  back_to-WentBack (err e) c h = absurd (cc)
  back_to-WentBack (ok (current, target)) c h =
      let (row', answered, returned) = back_row current _ h in
      let a =
        conditional_update_run-Accepted now run_id
          (to_current_stage (some (stage_value target)) ∷ []) (stage_value current ∷ []) w [] row'
          (perform_all o.meanwhile s) after refl answered in
      record {
        row = a.row;
        current = current;
        target = target;
        behind = back_checked-returns current target c;
        was_at = expected_one a.row.current_stage (stage_value current) a.expected;
        wrote = a.wrote;
        returned = rw (← a.same) returned;
      }

  -- Where `go_back` returns a run, its row stood, when it was written, at a review or setup stage that can be left
  -- backwards, and only the stage was written, to the one behind; other writes meanwhile are kept.
  pub go_back-WentBack :
      go_back valid o now run_id w s ≡ (ok run', after)
      → WentBack valid now run_id run' (perform_all o.meanwhile s) after
  unfolding go_back
  go_back-WentBack h = back_to-WentBack (back_checked valid run_id w s) refl h
