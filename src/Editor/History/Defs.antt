-- ===== src/Editor/History/Defs.antt =====
-- packages/creator-service/creator_service/editor_history.py. Every method holds the one lock from
-- its first read to its last write, so a session is a sequence of whole calls (`run`); a call
-- returns its result and the history that it leaves. The lists `_past` and `_future` are kept with
-- their last entry first.
use short_form_studio.Prelude.{ℕ, ◌+◌, ◌==◌, List, [], ◌∷◌, if◌then◌else◌}
use short_form_studio.Prelude.Checked.{Result, ok, err, ◌>>=◌}
use short_form_studio.Errors.{Error, validation, no_history, version_conflict, text}
use short_form_studio.Timeline.Segment.{Timeline}
use short_form_studio.Editor.Command.{EditorCommand}
use short_form_studio.Editor.Assets.{EditorAssetLookup}
use short_form_studio.Editor.Apply.{apply_editor_command}

-- `_HistoryEntry`
pub record HistoryEntry : Type 0 where
  pub timeline : Timeline
  pub generation : ℕ

pub record EditorHistory : Type 0 where
  pub present : Timeline
  pub workspace_id : ℕ
  pub asset_lookup : EditorAssetLookup
  pub generation : ℕ
  pub past : List HistoryEntry
  pub future : List HistoryEntry

-- `__init__`
unfoldable pub init : Timeline → ℕ → EditorAssetLookup → EditorHistory
init timeline workspace_id asset_lookup = record {
  present = timeline;
  workspace_id = workspace_id;
  asset_lookup = asset_lookup;
  generation = timeline.revision;
  past = [];
  future = [];
}

-- `_snapshot`
unfoldable pub snapshot : EditorHistory → HistoryEntry
snapshot h = record { timeline = h.present; generation = h.generation }

-- what is written after a success: the snapshot, the new present, a cleared redo branch
unfoldable pub accept : EditorHistory → Timeline → EditorHistory
unfolding snapshot
accept h result = record h {
  present = result;
  generation = h.generation + 1;
  past = snapshot h ∷ h.past;
  future = [];
}

abbrev pub finish : EditorHistory → Result Error Timeline → Result Error Timeline × EditorHistory
finish h (ok result) = (ok result, accept h result)
finish h (err e) = (err e, h)

-- `apply`, by `_apply_unlocked`
unfoldable pub apply : EditorCommand → EditorHistory → Result Error Timeline × EditorHistory
unfolding accept
apply command h =
    finish h
      (apply_editor_command h.present command h.workspace_id h.present.revision h.asset_lookup)

-- the loop over the commands of a batch
unfoldable pub fold_commands :
    Timeline → List EditorCommand → ℕ → EditorAssetLookup → Result Error Timeline
fold_commands working [] workspace_id lookup = ok working
fold_commands working (command ∷ commands) workspace_id lookup =
    apply_editor_command working command workspace_id working.revision lookup >>= λ next.
    fold_commands next commands workspace_id lookup

-- `apply_batch`, by `_apply_batch_unlocked`
unfoldable pub apply_batch :
    List EditorCommand → EditorHistory → Result Error Timeline × EditorHistory
unfolding accept
apply_batch [] h = (err (validation (text "cannot apply an empty command batch")), h)
apply_batch (command ∷ commands) h =
    finish h (fold_commands h.present (command ∷ commands) h.workspace_id h.asset_lookup)

unfoldable pub apply_batch_if_generation :
    List EditorCommand → ℕ → EditorHistory → Result Error Timeline × EditorHistory
unfolding apply_batch
apply_batch_if_generation commands expected_generation h =
    if expected_generation == h.generation
    then apply_batch commands h
    else (err (version_conflict h.present.project_id expected_generation h.generation), h)

unfoldable pub capture : EditorHistory → Timeline × ℕ
capture h = (h.present, h.generation)

abbrev pub undo_to : List HistoryEntry → EditorHistory → Result Error Timeline × EditorHistory
undo_to [] h = (err (no_history (text "nothing to undo")), h)
undo_to (entry ∷ rest) h = (
  ok entry.timeline,
  record h {
    present = entry.timeline;
    generation = entry.generation;
    past = rest;
    future = snapshot h ∷ h.future;
  },
)

unfoldable pub undo : EditorHistory → Result Error Timeline × EditorHistory
unfolding snapshot
undo h = undo_to h.past h

abbrev pub redo_to : List HistoryEntry → EditorHistory → Result Error Timeline × EditorHistory
redo_to [] h = (err (no_history (text "nothing to redo")), h)
redo_to (entry ∷ rest) h = (
  ok entry.timeline,
  record h {
    present = entry.timeline;
    generation = entry.generation;
    past = snapshot h ∷ h.past;
    future = rest;
  },
)

unfoldable pub redo : EditorHistory → Result Error Timeline × EditorHistory
unfolding snapshot
redo h = redo_to h.future h

-- the calls that a session makes
pub data Call : Type 0 where
  do_apply : EditorCommand → Call
  do_batch : List EditorCommand → Call
  do_proposal : List EditorCommand → ℕ → Call
  do_undo do_redo : Call

unfoldable pub call : Call → EditorHistory → Result Error Timeline × EditorHistory
unfolding apply apply_batch_if_generation undo redo
call (do_apply command) h = apply command h
call (do_batch commands) h = apply_batch commands h
call (do_proposal commands generation) h = apply_batch_if_generation commands generation h
call do_undo h = undo h
call do_redo h = redo h

unfoldable pub run : List Call → EditorHistory → EditorHistory
run [] h = h
run (c ∷ cs) h = run cs (call c h).1
