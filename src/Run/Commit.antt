-- ===== src/Run/Commit.antt =====
-- Optimistic concurrency: what a save of `RunService` that succeeds has written, and on which row.
use short_form_studio.Prelude.{
  ℕ, ◌==◌, String, ◌≡◌, refl, sym, ap, subst, Bool, false, Option, none, some, List, inl, inr,
  arith, Bool-cases, Option-cases,
}
use short_form_studio.Prelude.Checked.{Result, ok, err, ◌>>=◌}
use short_form_studio.Prelude.Dict
use short_form_studio.Errors.{Error, conflict, of_number}
use short_form_studio.Run.Row.{RunRow, Update, all_updatable, touch}
use short_form_studio.Run.PipelineRun.{PipelineRun, from_row, from_row-returns, mapped}
use short_form_studio.Run.Storage as Storage
use short_form_studio.Run.Storage.{RunStorage, store, update_visible, update_found, stale, is_empty}
use short_form_studio.Run.Evolution.{Earlier, IsWellFormed, get_run-found}
use short_form_studio.Run.Operations.{perform_all, perform_all-Allowed}
use short_form_studio.Run.Service.{
  missing, Others, get_run, found, present, save, answer_of, refused,
}

-- `updates` were written to the row `row` of `s`, which the storage `after` has in its place
pub record Wrote (now run_id : ℕ) (updates : List Update) (row : RunRow) (s after : RunStorage)
    : Type 0 where
  pub was : Dict.get run_id s.rows ≡ some row
  pub becomes : after ≡ store run_id (touch now row updates) s

answer_injective :
    (a b : RunRow) (s after : RunStorage)
    → ◌≡◌ {A = Result Error (Option RunRow) × RunStorage} (ok (some a), s) (ok (some b), after)
    → (a ≡ b) × (s ≡ after)
answer_injective a b s after h = (cc, cc)

module _ (now run_id version : ℕ) (updates : List Update) (w : Option ℕ) (row' : RunRow)
    (s after : RunStorage) (some_updates : is_empty updates ≡ false) where
  abbrev Written : Type 0
  Written =
      (row : RunRow) × (row.version ≡ version)
      × (row' ≡ touch now row updates)
      × Wrote now run_id updates row s after

  written_visible :
      (m : Option RunRow)
      → Storage.get_run run_id w s ≡ m
      → update_visible now run_id updates (some version) m s ≡ (ok (some row'), after)
      → Written
  unfolding update_found stale
  written_visible none e h = absurd (cc)
  written_visible (some row) e h = elim (Bool-cases (row.version == version)) [
    | inr v ↦ absurd (ground (arith, v, h))
    | inl v ↦
        let (same, storage) =
          answer_injective (touch now row updates) row' (store run_id (touch now row updates) s)
            after (rw (v, some_updates) at h) in
        (
          row,
          ground (arith, v),
          sym same,
          record { was = get_run-found run_id w s row e; becomes = sym storage },
        )
  ]

  -- A versioned update that answers with a row has written to the row of that version.
  pub update_run-writes :
      Storage.update_run now run_id updates w (some version) s ≡ (ok (some row'), after) → Written
  unfolding Storage.update_run
  update_run-writes h = elim (Bool-cases (all_updatable updates)) [
    | inr u ↦ absurd (ground (arith, u, h))
    | inl u ↦ written_visible (Storage.get_run run_id w s) refl (rw u at h)
  ]

pub found-row :
    (valid : String → Bool) (exception : Error) (run_id : ℕ) (w : Option ℕ) (s : RunStorage)
    (run : PipelineRun)
    → found valid exception run_id w s ≡ ok run
    → (row : RunRow) × (Dict.get run_id s.rows ≡ some row) × (from_row valid row ≡ ok run)
unfolding found get_run
found-row valid exception run_id w s run h = elim (Option-cases (Storage.get_run run_id w s)) [
  | inl e ↦ absurd (ground (arith, e, h))
  | inr (row, e) ↦ (row, get_run-found run_id w s row e, read_row (from_row valid row) (rw e at h))
]
  where
    read_row :
        (read : Result Error PipelineRun)
        → (read >>= λ r. ok (some r)) >>= (λ answer. present valid exception answer) ≡ ok run
        → read ≡ ok run
    read_row (err x) k = k
    read_row (ok r) k = k

-- `updates` were written to the row of the run `run`, which nobody had changed since it was read in `s`,
-- and `run'` is the run of the new row
pub record Committed (valid : String → Bool) (o : Others) (now run_id : ℕ) (updates : List Update)
    (run run' : PipelineRun) (s after : RunStorage) : Type 0 where
  pub row : RunRow
  pub read : from_row valid row ≡ ok run
  pub unchanged : Dict.get run_id s.rows ≡ some row
  pub wrote : Wrote now run_id updates row (perform_all o.meanwhile s) after
  pub returned : from_row valid (touch now row updates) ≡ ok run'

module _ (valid : String → Bool) (o : Others) (now run_id : ℕ) (w : Option ℕ) (s after : RunStorage)
    (run' : PipelineRun) where
  module _ (run : PipelineRun) (updates : List Update)
      (some_updates : is_empty updates ≡ false) where
    saved_row :
        (answer : Result Error (Option RunRow) × RunStorage)
        → answer_of valid w run_id o.later answer ≡ (ok run', after)
        → (row' : RunRow) × (answer ≡ (ok (some row'), after)) × (from_row valid row' ≡ ok run')
    saved_row (err e, s') h = absurd (cc)
    saved_row (ok none, s') h = absurd (
        never_ok (found valid (missing run_id) run_id w (perform_all o.later s'))
          (unfold refused in ap (λ p. p.0) h))
      where
        never_ok :
            (latest : Result Error PipelineRun)
            → latest >>= (λ run. err (conflict (of_number "Run has stale version" run_id)))
              ≡ ok run'
            → ⊥
        never_ok (err x) k = cc
        never_ok (ok r) k = cc
    saved_row (ok (some row'), s') h =
        (row', ap (λ x. (ok (some row'), x)) (ap (λ p. p.1) h), ap (λ p. p.0) h)

    old_row :
        (old old' : RunRow)
        → Dict.get run_id s.rows ≡ some old
        → Dict.get run_id s.rows ≡ some old'
        → old' ≡ old
    old_row old old' p q = cc

    -- a row that has the version read is the row read
    read_again :
        (old row : RunRow)
        → Earlier old row
        → row.version ≡ run.version
        → from_row valid old ≡ ok run
        → old ≡ row
    unfolding mapped
    read_again old row (inl same) version read = same
    read_again old row (inr later) version read =
        let was : old.version ≡ run.version =
          ap (λ (r : PipelineRun). r.version) (from_row-returns valid old run read).1 in
        absurd (omega (arith, later, version, was))

    -- A save that succeeds writes to the row that was read: nobody has changed it in between.
    pub save-Committed :
        (exception : Error)
        → IsWellFormed s
        → found valid exception run_id w s ≡ ok run
        → save valid o now run_id w s (run, updates) ≡ (ok run', after)
        → Committed valid o now run_id updates run run' s after
    unfolding save
    save-Committed exception v f h =
        let (row', answered, returned) =
          saved_row
            (Storage.update_run now run_id updates w (some run.version) (perform_all o.meanwhile s))
            h in
        let (row, version, same, wrote) =
          update_run-writes now run_id run.version updates w row' (perform_all o.meanwhile s) after
            some_updates answered in
        let (old, stood, read) = found-row valid exception run_id w s run f in
        let (kept, evolves) = perform_all-Allowed o.meanwhile s v in
        let (old', stood', earlier) =
          evolves.rows run_id row wrote.was (v.given run_id old stood) in
        let same_row =
          read_again old row
            (subst (λ (x : RunRow). Earlier x row) (old_row old old' stood stood') earlier) version
            read in
        record {
          row = row;
          read = subst (λ (x : RunRow). from_row valid x ≡ ok run) same_row read;
          unchanged = subst (λ (x : RunRow). Dict.get run_id s.rows ≡ some x) same_row stood;
          wrote = wrote;
          returned = subst (λ (x : RunRow). from_row valid x ≡ ok run') same returned;
        }
