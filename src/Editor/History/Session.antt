-- ===== src/Editor/History/Session.antt =====
-- What holds of a history after any sequence of calls.
use short_form_studio.Prelude.{
  ℕ, ◌+◌, ◌≡◌, refl, ap, ◌∙◌, Bool-cases, List, [], ◌∷◌, arith, length, inl, inr, All, ◌==◌,
}
use short_form_studio.Prelude.Checked.{Result, ok, err, bind-returns, require-returns}
use short_form_studio.Errors.{Error}
use short_form_studio.Timeline.Segment.{Timeline}
use short_form_studio.Timeline.Valid.{IsValid, model_validate-IsValid}
use short_form_studio.Editor.Command.{EditorCommand}
use short_form_studio.Editor.Assets.{EditorAssetLookup}
use short_form_studio.Editor.Apply.{edit_segments, apply_editor_command}
use short_form_studio.Editor.History.Defs.{
  HistoryEntry, EditorHistory, init, snapshot, accept, finish, undo_to, redo_to, apply,
  fold_commands, apply_batch, apply_batch_if_generation, undo, redo, Call, do_apply, do_batch,
  do_proposal, do_undo, do_redo, call, run,
}

-- `t` is a valid version of the loaded timeline `base`
pub record IsVersion (base t : Timeline) : Type 0 where
  pub valid : IsValid t.segments
  pub same_id : t.id ≡ base.id
  pub same_project : t.project_id ≡ base.project_id
  pub same_revision : t.revision ≡ base.revision

-- An accepted command yields a valid timeline with the id, project and revision of its input.
pub apply_editor_command-IsVersion :
    (t u : Timeline) (command : EditorCommand) (workspace_id base_revision : ℕ)
    (lookup : EditorAssetLookup)
    → apply_editor_command t command workspace_id base_revision lookup ≡ ok u
    → (base_revision ≡ t.revision) × IsVersion t u
unfolding apply_editor_command
apply_editor_command-IsVersion t u command w base lookup h =
    let checked = require-returns (base == t.revision) _ _ h in
    let (segments, edited, validated) =
      bind-returns (edit_segments t command w lookup) _ checked.1 in
    let (same, valid) = model_validate-IsValid (record t { segments = segments }) u validated in
    (
      ground arith,
      record {
        valid = valid;
        same_id = ap (λ (x : Timeline). x.id) same;
        same_project = ap (λ (x : Timeline). x.project_id) same;
        same_revision = ap (λ (x : Timeline). x.revision) same;
      },
    )

IsVersion-trans : {a b c : Timeline} → IsVersion a b → IsVersion b c → IsVersion a c
IsVersion-trans p q = record {
  valid = q.valid;
  same_id = q.same_id ∙ p.same_id;
  same_project = q.same_project ∙ p.same_project;
  same_revision = q.same_revision ∙ p.same_revision;
}

-- the entries of the past, latest first: the one below n others has generation `first + n`
abbrev pub CountsDown : ℕ → List HistoryEntry → Type 0
CountsDown first [] = Unit
CountsDown first (entry ∷ rest) = (entry.generation ≡ first + length rest) × CountsDown first rest

-- the entries of the future, next first: they count up from `generation`
abbrev pub CountsUp : ℕ → List HistoryEntry → Type 0
CountsUp generation [] = Unit
CountsUp generation (entry ∷ rest) =
    (entry.generation ≡ generation + 1) × CountsUp (generation + 1) rest

abbrev pub EntryIsVersion : Timeline → HistoryEntry → Type 0
EntryIsVersion base entry = IsVersion base entry.timeline

-- a history of the loaded timeline `base`
pub record IsHistory (base : Timeline) (h : EditorHistory) : Type 0 where
  pub present : IsVersion base h.present
  pub past : All (EntryIsVersion base) h.past
  pub future : All (EntryIsVersion base) h.future
  pub numbered : h.generation ≡ base.revision + length h.past
  pub past_numbered : CountsDown base.revision h.past
  pub future_numbered : CountsUp h.generation h.future

accept-IsHistory :
    {base : Timeline} (h : EditorHistory) (t : Timeline)
    → IsHistory base h
    → IsVersion base t
    → IsHistory base (accept h t)
unfolding accept snapshot
accept-IsHistory h t v version = record {
  present = version;
  past = (v.present, v.past);
  future = tt;
  numbered = omega (arith, v.numbered);
  past_numbered = (v.numbered, v.past_numbered);
  future_numbered = tt;
}

finish-IsHistory :
    {base : Timeline} (h : EditorHistory) (r : Result Error Timeline)
    → IsHistory base h
    → ((t : Timeline) → r ≡ ok t → IsVersion base t)
    → IsHistory base (finish h r).1
finish-IsHistory h (ok t) v versions = accept-IsHistory h t v (versions t refl)
finish-IsHistory h (err e) v versions = v

fold_commands-IsVersion :
    {base : Timeline} (commands : List EditorCommand) (w : ℕ) (lookup : EditorAssetLookup)
    (working t : Timeline)
    → IsVersion base working
    → fold_commands working commands w lookup ≡ ok t
    → IsVersion base t
unfolding fold_commands
fold_commands-IsVersion {base} [] w lookup working t v h =
    let same : working ≡ t = ground arith in rw same at v
fold_commands-IsVersion (command ∷ commands) w lookup working t v h =
    let (next, applied, rest) =
      bind-returns (apply_editor_command working command w working.revision lookup) _ h in
    let step =
      apply_editor_command-IsVersion working next command w working.revision lookup applied in
    fold_commands-IsVersion commands w lookup next t (IsVersion-trans v step.1) rest

apply_batch-IsHistory :
    {base : Timeline} (commands : List EditorCommand) (h : EditorHistory)
    → IsHistory base h
    → IsHistory base (apply_batch commands h).1
unfolding apply_batch
apply_batch-IsHistory [] h v = v
apply_batch-IsHistory (c ∷ cs) h v =
    finish-IsHistory h _ v
      λ t p. fold_commands-IsVersion (c ∷ cs) h.workspace_id h.asset_lookup h.present t v.present p

undo_to-IsHistory :
    {base : Timeline} (entries : List HistoryEntry) (h : EditorHistory)
    → h.past ≡ entries
    → IsHistory base h
    → IsHistory base (undo_to entries h).1
unfolding snapshot
undo_to-IsHistory [] h e v = v
undo_to-IsHistory {base} (entry ∷ rest) h e v =
    let past : All (EntryIsVersion base) (entry ∷ rest) = rw e at v.past in
    let counts : CountsDown base.revision (entry ∷ rest) = rw e at v.past_numbered in
    let at_present : h.generation ≡ base.revision + length (entry ∷ rest) = rw e at v.numbered in
    let before : h.generation ≡ entry.generation + 1 = omega (arith, at_present, counts.0) in
    record {
      present = past.0;
      past = past.1;
      future = (v.present, v.future);
      numbered = counts.0;
      past_numbered = counts.1;
      future_numbered = (before, rw before at v.future_numbered);
    }

redo_to-IsHistory :
    {base : Timeline} (entries : List HistoryEntry) (h : EditorHistory)
    → h.future ≡ entries
    → IsHistory base h
    → IsHistory base (redo_to entries h).1
unfolding snapshot
redo_to-IsHistory [] h e v = v
redo_to-IsHistory {base} (entry ∷ rest) h e v =
    let future : All (EntryIsVersion base) (entry ∷ rest) = rw e at v.future in
    let counts : CountsUp h.generation (entry ∷ rest) = rw e at v.future_numbered in
    record {
      present = future.0;
      past = (v.present, v.past);
      future = future.1;
      numbered = omega (arith, counts.0, v.numbered);
      past_numbered = (v.numbered, v.past_numbered);
      future_numbered = rw counts.0 counts.1;
    }

call-IsHistory :
    {base : Timeline} (c : Call) (h : EditorHistory)
    → IsHistory base h
    → IsHistory base (call c h).1
unfolding call apply apply_batch_if_generation undo redo
call-IsHistory (do_apply command) h v =
    let version =
      λ (t : Timeline)
          (p : apply_editor_command h.present command h.workspace_id h.present.revision
              h.asset_lookup
            ≡ ok t).
        IsVersion-trans v.present
          (apply_editor_command-IsVersion h.present t command h.workspace_id h.present.revision
            h.asset_lookup p).1 in
    finish-IsHistory h
      (apply_editor_command h.present command h.workspace_id h.present.revision h.asset_lookup) v
      version
call-IsHistory (do_batch commands) h v = apply_batch-IsHistory commands h v
call-IsHistory (do_proposal commands generation) h v =
    elim (Bool-cases (generation == h.generation)) [
      | inl e ↦ rw e (apply_batch-IsHistory commands h v)
      | inr e ↦ rw e v
    ]
call-IsHistory do_undo h v = undo_to-IsHistory h.past h refl v
call-IsHistory do_redo h v = redo_to-IsHistory h.future h refl v

run_from-IsHistory :
    {base : Timeline} (cs : List Call) (h : EditorHistory)
    → IsHistory base h
    → IsHistory base (run cs h)
unfolding run
run_from-IsHistory [] h v = v
run_from-IsHistory (c ∷ cs) h v = run_from-IsHistory cs (call c h).1 (call-IsHistory c h v)

-- From a loaded timeline that is valid, after any sequence of calls, failing or not: the present
-- and every timeline on the undo and the redo stack are valid and have the loaded id, project and
-- revision; and the generation is the loaded revision plus the number of steps that can be undone,
-- with the entries of the two stacks numbered down and up from it one by one.
pub run-IsHistory :
    (base : Timeline) (workspace_id : ℕ) (lookup : EditorAssetLookup) (cs : List Call)
    → IsValid base.segments
    → IsHistory base (run cs (init base workspace_id lookup))
unfolding init
run-IsHistory base w lookup cs valid = run_from-IsHistory cs _ (record {
  present = record { valid = valid; same_id = refl; same_project = refl; same_revision = refl };
  past = tt;
  future = tt;
  numbered = omega arith;
  past_numbered = tt;
  future_numbered = tt;
})
