-- ===== src/Run/Conditional.antt =====
-- What a conditional update that succeeds has written, and `go_back`, which rests on it.
use short_form_studio.Prelude.{
  ℕ, String, ◌≡◌, refl, sym, Bool, true, false, Option, none, some, List, inl, inr, arith,
  Bool-cases,
}
use short_form_studio.Prelude.Checked.{Result, ok}
use short_form_studio.Errors.{Error}
use short_form_studio.Run.Row.{RunRow, Update, all_updatable, touch}
use short_form_studio.Run.Storage.{
  RunStorage, is_empty, store, get_run, conditional_update_run, conditional_visible,
  conditional_found, stage_expected, mem_text,
}
use short_form_studio.Run.Evolution.{get_run-found}
use short_form_studio.Run.Commit.{Wrote}

abbrev pub ConditionalAnswer : Type 0
ConditionalAnswer = (Bool × Option RunRow) × RunStorage

answer_injective :
    (a b : RunRow) (s after : RunStorage)
    → ◌≡◌ {A = ConditionalAnswer} ((true, some a), s) ((true, some b), after)
    → (a ≡ b) × (s ≡ after)
answer_injective a b s after h = (cc, cc)

module _ (now run_id : ℕ) (updates : List Update) (stages : List String) (w : Option ℕ)
    (rejected : List String) (row' : RunRow) (s after : RunStorage)
    (some_updates : is_empty updates ≡ false) where
  -- The row of the update was at an expected stage and had no rejected status.
  pub record Accepted : Type 0 where
    pub row : RunRow
    pub expected : stage_expected row.current_stage stages ≡ true
    pub not_rejected : mem_text row.status rejected ≡ false
    pub same : row' ≡ touch now row updates
    pub wrote : Wrote now run_id updates row s after

  accepted_visible :
      (m : Option RunRow)
      → get_run run_id w s ≡ m
      → conditional_visible now run_id updates stages rejected m s ≡ ((true, some row'), after)
      → Accepted
  unfolding conditional_found
  accepted_visible none e h = absurd (cc)
  accepted_visible (some row) e h = elim (Bool-cases (stage_expected row.current_stage stages)) [
    | inr n ↦ absurd (ground (arith, n, h))
    | inl n ↦ elim (Bool-cases (mem_text row.status rejected)) [
      | inl z ↦ absurd (ground (arith, n, z, h))
      | inr z ↦
          let (same, storage) =
            answer_injective (touch now row updates) row' (store run_id (touch now row updates) s)
              after (rw (n, z, some_updates) at h) in
          record {
            row = row;
            expected = n;
            not_rejected = z;
            same = sym same;
            wrote = record { was = get_run-found run_id w s row e; becomes = sym storage };
          }
    ]
  ]

  -- A conditional update that answers with success has written to a row at an expected stage.
  pub conditional_update_run-Accepted :
      conditional_update_run now run_id updates stages w rejected s ≡ (ok (true, some row'), after)
      → Accepted
  unfolding conditional_update_run
  conditional_update_run-Accepted h = elim (Bool-cases (all_updatable updates)) [
    | inr u ↦ absurd (ground (arith, u, h))
    | inl u ↦ accepted_visible (get_run run_id w s) refl (
        both (conditional_visible now run_id updates stages rejected (get_run run_id w s) s)
          (rw u at h))
  ]
    where
      both :
          (answer : ConditionalAnswer)
          → ◌≡◌ {A = Result Error (Bool × Option RunRow) × RunStorage}
              (ok answer.0, answer.1)
              (ok (true, some row'), after)
          → answer ≡ ((true, some row'), after)
      both (a, b) k = cc
