-- ===== src/Editor/Samples.antt =====
-- Runs of the editor on a small timeline, and each theorem at a concrete input.
use mathlib.Core.List.{Perm}
use short_form_studio.Prelude.{
  ℕ, ◌*◌, leb, ◌≡◌, refl, String, none, some, List, [], ◌∷◌, ◌++◌, map, arith, if◌then◌else◌, All,
  replicate, get_elem?,
}
use short_form_studio.Prelude.Int.{ℤ, pos, ◌+ℤ◌, ◌-ℤ◌}
use short_form_studio.Prelude.Checked.{ok, err}
use short_form_studio.Errors.{version_conflict, no_history, text}
use short_form_studio.Timeline.Segment.{MediaSegment, Timeline, model_validate}
use short_form_studio.Timeline.Valid.{IsValid, model_validate-IsValid}
use short_form_studio.Editor.Command.{
  EditorCommand, delete_segment, move_segment, resize_segment, gap,
}
use short_form_studio.Editor.Assets.{EditorAssetLookup, effective_source_duration}
use short_form_studio.Editor.Segments.{Segments, find_segment}
use short_form_studio.Editor.Cut.{apply_split, apply_delete}
use short_form_studio.Editor.Place.{apply_move, apply_resize}
use short_form_studio.Editor.Apply.{apply_editor_command}
use short_form_studio.Editor.Found.{IsAt}
use short_form_studio.Editor.SourceBounds.{Fits}
use short_form_studio.Editor.SourceBounds.Whole.{apply_editor_command-Fits}
use short_form_studio.Editor.Playback.{
  IsSplit, left_of, right_of, source_at, apply_split-IsSplit, split-source_at,
}
use short_form_studio.Editor.Moves.{IsContiguous, unplaced, get_id?, apply_move_layout}
use short_form_studio.Editor.History.Defs.{
  EditorHistory, init, apply, fold_commands, apply_batch, apply_batch_if_generation, undo, redo,
  Call, do_apply, do_undo, do_redo, call, run,
}
use short_form_studio.Editor.History.Undo.{undo-redo_inverse, call_error_unchanged}
use short_form_studio.Editor.History.Session.{IsHistory, run-IsHistory}
use short_form_studio.Editor.History.Replay.{
  applied, undone, AllAccepted, edits, SamePoint, run-undo_all, second_proposal_stale,
  generation_reused, apply_batch-eq-edits,
}

-- whole seconds
abbrev seconds : ℕ → ℤ
seconds n = pos (n * 1000000000)

abbrev clip : String → ℕ → ℤ → ℤ → MediaSegment
clip id asset_id start duration = record {
  id = id;
  scene_id = "scene-1";
  asset_id = asset_id;
  timeline_start_seconds = start;
  duration_seconds = duration;
  trim_start_seconds = none;
  trim_end_seconds = none;
  fit_mode = "cover";
  transition = none;
}

abbrev s1 : MediaSegment
s1 = clip "s1" 1 (seconds 0) (seconds 4)

abbrev s2 : MediaSegment
s2 = clip "s2" 2 (seconds 4) (seconds 3)

abbrev draft : Timeline
draft = record { id = "t1"; project_id = 7; revision = 3; segments = s1 ∷ s2 ∷ [] }

-- two videos of ten seconds
abbrev videos : EditorAssetLookup
videos asset_id workspace_id =
    if leb asset_id 2
    then some (record {
      id = asset_id;
      project_id = 7;
      media_type = "VIDEO";
      duration_seconds = seconds 10;
    })
    else none

draft_checks : model_validate draft ≡ ok draft
unfolding model_validate ◌+ℤ◌
draft_checks = refl

draft-IsValid : IsValid draft.segments
draft-IsValid = (model_validate-IsValid draft draft draft_checks).1

model_validate-IsValid_example : (draft ≡ draft) × IsValid draft.segments
model_validate-IsValid_example = model_validate-IsValid draft draft draft_checks

draft-Fits : All (Fits videos 1) draft.segments
unfolding ◌+ℤ◌
draft-Fits = (
  record { bound = λ asset e image. ground (arith, e) },
  (record { bound = λ asset e image. ground (arith, e) }, tt),
)

abbrev resized_draft : Timeline
resized_draft = record draft {
  segments = clip "s1" 1 (seconds 0) (seconds 6) ∷ clip "s2" 2 (seconds 6) (seconds 3) ∷ [];
}

resize_runs :
    apply_editor_command draft (resize_segment "s1" (seconds 6)) 1 3 videos ≡ ok resized_draft
unfolding apply_editor_command apply_resize effective_source_duration model_validate ◌+ℤ◌ ◌-ℤ◌
resize_runs = refl

apply_editor_command-Fits_example : All (Fits videos 1) resized_draft.segments
apply_editor_command-Fits_example =
    apply_editor_command-Fits videos 1 draft resized_draft (resize_segment "s1" (seconds 6)) 3
      draft-IsValid draft-Fits resize_runs

abbrev halves : Segments
halves = left_of (seconds 1) s1 ∷ right_of (seconds 1) s1 ∷ s2 ∷ []

split_runs : apply_split draft.segments "s1" (seconds 1) ≡ ok halves
unfolding apply_split find_segment ◌+ℤ◌ ◌-ℤ◌
split_runs = refl

apply_split-IsSplit_example :
    (target : MediaSegment) × (place : IsAt draft.segments "s1" target) × (halves
      ≡ place.before ++ (left_of (seconds 1) target ∷ right_of (seconds 1) target ∷ place.after))
    × IsSplit target (left_of (seconds 1) target) (right_of (seconds 1) target) (seconds 1)
apply_split-IsSplit_example =
    apply_split-IsSplit draft.segments "s1" (seconds 1) halves draft-IsValid.distinct split_runs

-- the split of the first segment of the draft, which has no trim start
split-source_at_example :
    (source_at (left_of (seconds 1) s1) (seconds 2) ≡ source_at s1 (seconds 2))
    × ((x : ℤ)
        → s1.trim_start_seconds ≡ some x
        → source_at (right_of (seconds 1) s1) (seconds 2) ≡ source_at s1 (seconds 2))
    × (s1.trim_start_seconds ≡ none
        → source_at (right_of (seconds 1) s1) (seconds 2)
            +ℤ (left_of (seconds 1) s1).duration_seconds
          ≡ source_at s1 (seconds 2))
split-source_at_example = split-source_at (seconds 1) (seconds 2) s1

abbrev moved : Segments
moved = clip "s2" 2 (seconds 0) (seconds 3) ∷ clip "s1" 1 (seconds 3) (seconds 4) ∷ []

move_runs : apply_move draft.segments "s1" 1 ≡ ok moved
unfolding apply_move ◌+ℤ◌
move_runs = refl

apply_move_layout_example :
    IsContiguous (pos 0) moved
    × (get_id? (get_elem? moved 1) ≡ some "s1")
    × Perm (map unplaced moved) (map unplaced draft.segments)
apply_move_layout_example =
    apply_move_layout draft.segments "s1" 1 moved draft-IsValid.distinct move_runs

abbrev opened : EditorHistory
opened = init draft 1 videos

abbrev resize : EditorCommand
resize = resize_segment "s1" (seconds 6)

resize_accepted : (apply resize opened).0 ≡ ok resized_draft
unfolding init apply apply_editor_command apply_resize effective_source_duration model_validate ◌+ℤ◌
    ◌-ℤ◌
resize_accepted = refl

undo-redo_inverse_example :
    ((undo (applied resize opened)).0 ≡ ok draft
      → (redo (undo (applied resize opened)).1).1 ≡ applied resize opened)
    × ((redo (applied resize opened)).0 ≡ ok draft
        → (undo (redo (applied resize opened)).1).1 ≡ applied resize opened)
undo-redo_inverse_example = undo-redo_inverse (applied resize opened) draft

call_error_unchanged_example : (call do_undo opened).1 ≡ opened
unfolding call init
call_error_unchanged_example =
    call_error_unchanged do_undo opened (no_history (text "nothing to undo")) refl

abbrev session : List Call
session = do_apply resize ∷ do_redo ∷ do_undo ∷ do_redo ∷ []

run-IsHistory_example : IsHistory draft (run session (init draft 1 videos))
run-IsHistory_example = run-IsHistory draft 1 videos session draft-IsValid

run-undo_all_example :
    SamePoint (run (replicate 1 do_undo) (run (edits (resize ∷ [])) opened)) opened
run-undo_all_example = run-undo_all (resize ∷ []) opened ((resized_draft, resize_accepted), tt)

batch_accepted : (apply_batch (resize ∷ []) opened).0 ≡ ok resized_draft
unfolding init apply_batch fold_commands apply_editor_command apply_resize effective_source_duration
    model_validate ◌+ℤ◌ ◌-ℤ◌
batch_accepted = refl

apply_batch-eq-edits_example :
    AllAccepted (resize ∷ []) opened × ((run (edits (resize ∷ [])) opened).present ≡ resized_draft)
apply_batch-eq-edits_example =
    apply_batch-eq-edits (resize ∷ []) opened resized_draft batch_accepted

proposal_accepted : (apply_batch_if_generation (resize ∷ []) 3 opened).0 ≡ ok resized_draft
unfolding init apply_batch_if_generation
proposal_accepted = batch_accepted

second_proposal_stale_example :
    apply_batch_if_generation
      (delete_segment "s2" gap ∷ [])
      3
      (apply_batch_if_generation (resize ∷ []) 3 opened).1
    ≡ (err (version_conflict 7 3 4), (apply_batch_if_generation (resize ∷ []) 3 opened).1)
second_proposal_stale_example =
    second_proposal_stale (resize ∷ []) (delete_segment "s2" gap ∷ []) 3 opened resized_draft
      proposal_accepted

abbrev shortened : Timeline
shortened = record draft { segments = s1 ∷ [] }

delete_accepted :
    (apply (delete_segment "s2" gap) (undone (applied resize opened))).0 ≡ ok shortened
unfolding init apply undo apply_editor_command apply_resize effective_source_duration model_validate
    ◌+ℤ◌ ◌-ℤ◌ apply_delete find_segment
delete_accepted = refl

generation_reused_example :
    let diverged = applied (delete_segment "s2" gap) (undone (applied resize opened)) in
    (diverged.present ≡ shortened)
    × (apply_batch_if_generation
          (move_segment "s1" 0 ∷ [])
          (applied resize opened).generation
          diverged
        ≡ apply_batch (move_segment "s1" 0 ∷ []) diverged)
generation_reused_example =
    generation_reused resize (delete_segment "s2" gap) opened resized_draft shortened
      (move_segment "s1" 0 ∷ []) resize_accepted delete_accepted
