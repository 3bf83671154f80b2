-- ===== src/Tasks/Atomic.antt =====
-- A transition of a run with its pending task: both are written, or neither.
use short_form_studio.Prelude.{
  ℕ, ◌==◌, String, ◌≡◌, refl, sym, ap, ◌∙◌, subst, Bool, true, false, Option, none, some, List,
  arith, Bool-cases, Option-cases, ==_iff, inl, inr, ◌⊎◌,
}
use short_form_studio.Prelude.Checked.{Result, ok, err}
use short_form_studio.Prelude.Dict
use short_form_studio.Prelude.Dict.{get-put}
use short_form_studio.Errors.{Error}
use short_form_studio.Run.Row.{RunRow, Update, all_updatable, touch}
use short_form_studio.Run.Storage.{
  RunStorage, get_run, conditional_update_run, conditional_visible, conditional_found, store,
  mem_text, stage_expected, is_empty,
}
use short_form_studio.Run.Evolution.{get_run-found}
use short_form_studio.Tasks.Row.{TaskRow, TaskStorage, guarded, guarded_row}
use short_form_studio.Tasks.Storage.{NewTask, create_task, create_at, add_task, existing_id}
use short_form_studio.Tasks.Ownership.{
  restore, with_pending, after_transition, transition_run_and_create_pending,
}

-- the same rows under the same ids
abbrev pub SameRows : RunStorage → RunStorage → Type 0
SameRows runs runs' = (j : ℕ) → Dict.get j runs'.rows ≡ Dict.get j runs.rows

-- the transition was made
abbrev pub is_done : Result Error (Bool × Option RunRow) → Bool
is_done (err e) = false
is_done (ok (applied, row)) = applied

guarded-none :
    (k : ℕ) (test : TaskRow → Bool) (change : TaskRow → TaskRow) (s s' : TaskStorage)
    → guarded k test change s ≡ (none, s')
    → s' ≡ s
unfolding guarded
guarded-none k test change s s' = on_row (Dict.get k s.rows)
  where
    on_row : (m : Option TaskRow) → guarded_row k test change m s ≡ (none, s') → s' ≡ s
    on_row none h = sym (ap (λ p. p.1) h)
    on_row (some row) h = elim (Bool-cases (test row)) [
      | inl t ↦ absurd (ground (arith, t, h))
      | inr t ↦ sym (ap (λ p. p.1) (rw t at h))
    ]

create_task-none :
    (now : ℕ) (new : NewTask) (s s' : TaskStorage) → create_task now new s ≡ (none, s') → s' ≡ s
unfolding create_task add_task
create_task-none now new s s' = at (existing_id new s)
  where
    at : (m : Option ℕ) → create_at now new m s ≡ (none, s') → s' ≡ s
    at none h = absurd (cc)
    at (some k) h = guarded-none k _ _ s s' h

module _ (now run_id : ℕ) (updates : List Update) (stages : List String) (w : Option ℕ)
    (rejected : List String) (runs : RunStorage) where
  -- nothing was written, or the row that was read
  abbrev Touched : Result Error (Bool × Option RunRow) → RunStorage → Type 0
  Touched r after =
      (after ≡ runs)
      ⊎ ((is_done r ≡ true)
          × ((row : RunRow) × (get_run run_id w runs ≡ some row)
              × (row' : RunRow) × (after ≡ store run_id row' runs)))

  found-Touched :
      (row : RunRow)
      → get_run run_id w runs ≡ some row
      → Touched
          (ok (conditional_found now run_id updates stages rejected row runs).0)
          (conditional_found now run_id updates stages rejected row runs).1
  unfolding conditional_found
  found-Touched row e = elim (Bool-cases (stage_expected row.current_stage stages)) [
    | inr n ↦ rw n (inl refl)
    | inl n ↦ rw n (elim (Bool-cases (mem_text row.status rejected)) [
      | inl z ↦ rw z (inl refl)
      | inr z ↦ rw z (elim (Bool-cases (is_empty updates)) [
        | inl y ↦ rw y (inl refl)
        | inr y ↦ rw y (inr (refl, (row, e, touch now row updates, refl)))
      ])
    ])
  ]

  visible-Touched :
      (m : Option RunRow)
      → get_run run_id w runs ≡ m
      → Touched
          (ok (conditional_visible now run_id updates stages rejected m runs).0)
          (conditional_visible now run_id updates stages rejected m runs).1
  visible-Touched none e = inl refl
  visible-Touched (some row) e = found-Touched row e

  conditional-Touched :
      Touched
        (conditional_update_run now run_id updates stages w rejected runs).0
        (conditional_update_run now run_id updates stages w rejected runs).1
  unfolding conditional_update_run
  conditional-Touched = elim (Bool-cases (all_updatable updates)) [
    | inr e ↦ rw e (inl refl)
    | inl e ↦ rw e (visible-Touched (get_run run_id w runs) refl)
  ]

  -- putting the row back that was read
  restored :
      (row row' : RunRow)
      → get_run run_id w runs ≡ some row
      → SameRows runs (restore run_id (get_run run_id w runs) (store run_id row' runs))
  restored row row' e j = rw e (
      ground (
        arith,
        get-put run_id j row (Dict.put run_id row' runs.rows),
        get-put run_id j row' runs.rows,
        get_run-found run_id w runs row e,
        same_key j,
      ))
    where
      same_key : (j : ℕ) → (run_id == j) ≡ true → Dict.get j runs.rows ≡ some row
      same_key j same =
          subst (λ i. Dict.get i runs.rows ≡ some row) ((==_iff run_id j).0 same)
            (get_run-found run_id w runs row e)

  restored_unchanged : SameRows runs (restore run_id (get_run run_id w runs) runs)
  restored_unchanged j = elim (Option-cases (get_run run_id w runs)) [
    | inl e ↦ rw e
    | inr (row, e) ↦ rw e (elim (Bool-cases (run_id == j)) [
      | inl same ↦ ground (
        arith,
        get-put run_id j row runs.rows,
        same,
        subst (λ i. Dict.get i runs.rows ≡ some row) ((==_iff run_id j).0 same)
            (get_run-found run_id w runs row e),
      )
      | inr other ↦ ground (arith, get-put run_id j row runs.rows, other)
    ])
  ]

  module _ (task_row : NewTask) (tasks tasks' : TaskStorage)
      (r : Result Error (Bool × Option RunRow)) (runs' : RunStorage)
      (not_done : is_done r ≡ false) where
    same_as : (x : RunStorage) → x ≡ runs' → SameRows runs x → SameRows runs runs'
    same_as x p = subst (SameRows runs) p

    same_runs : (after : RunStorage) → after ≡ runs → after ≡ runs' → SameRows runs runs'
    same_runs after p q j = ap (λ (x : RunStorage). Dict.get j x.rows) (sym q ∙ p)

    undone_task :
        (row : Option RunRow) (after : RunStorage) (created : Option TaskRow × TaskStorage)
        → create_task now task_row tasks ≡ created
        → Touched (ok (true, row)) after
        → with_pending run_id (get_run run_id w runs) row after created ≡ (r, (runs', tasks'))
        → SameRows runs runs' × (tasks' ≡ tasks)
    undone_task row after (some pending, tasks₁) c t h = absurd (cc)
    undone_task row after (none, tasks₁) c t h = (
      elim t [
        | inl same ↦
            same_as (restore run_id (get_run run_id w runs) after) (ap (λ p. p.1.0) h)
              (rw same (restored_unchanged))
        | inr (_, (old, e, row', same)) ↦
            same_as (restore run_id (get_run run_id w runs) after) (ap (λ p. p.1.0) h)
              (rw same (restored old row' e))
      ],
      sym (ap (λ p. p.1.1) h) ∙ create_task-none now task_row tasks tasks₁ c,
    )

    undone :
        (answer : Result Error (Bool × Option RunRow) × RunStorage)
        → Touched answer.0 answer.1
        → after_transition now run_id (get_run run_id w runs) task_row tasks answer
          ≡ (r, (runs', tasks'))
        → SameRows runs runs' × (tasks' ≡ tasks)
    undone (err e, after) (inl same) h =
        (same_runs after same (ap (λ p. p.1.0) h), sym (ap (λ p. p.1.1) h))
    undone (err e, after) (inr (d, _)) h = absurd (cc)
    undone (ok (false, row), after) (inl same) h =
        (same_runs after same (ap (λ p. p.1.0) h), sym (ap (λ p. p.1.1) h))
    undone (ok (false, row), after) (inr (d, _)) h = absurd (cc)
    undone (ok (true, row), after) t h =
        undone_task row after (create_task now task_row tasks) refl t h

    -- Where a transition of a run with its pending task is not made, whether it raises or answers False, every row
    -- of a run is as it was, and so are the tasks: a run is never left at the new stage without its task.
    pub transition_run_and_create_pending-atomic :
        transition_run_and_create_pending now run_id updates stages task_row w rejected
            (runs, tasks)
          ≡ (r, (runs', tasks'))
        → SameRows runs runs' × (tasks' ≡ tasks)
    unfolding transition_run_and_create_pending
    transition_run_and_create_pending-atomic h =
        undone (conditional_update_run now run_id updates stages w rejected runs)
          conditional-Touched h
