-- ===== src/Editor/Apply.antt =====
-- packages/creator-service/creator_service/editor_command_applier.py: `apply_editor_command`.
use short_form_studio.Prelude.{ℕ, ◌==◌}
use short_form_studio.Prelude.Checked.{Result, err, ◌>>=◌, ◌>>◌, require}
use short_form_studio.Errors.{Error, validation, version_conflict, text}
use short_form_studio.Timeline.Segment.{Timeline, model_validate}
use short_form_studio.Editor.Command.{
  EditorCommand, trim_segment, split_segment, delete_segment, replace_asset, move_segment,
  resize_segment, set_transition,
}
use short_form_studio.Editor.Assets.{EditorAssetLookup}
use short_form_studio.Editor.Segments.{Segments}
use short_form_studio.Editor.Cut.{apply_trim, apply_split, apply_delete}
use short_form_studio.Editor.Replace.{apply_replace}
use short_form_studio.Editor.Place.{apply_move, apply_resize, apply_transition}

-- the dispatch on the command's class
unfoldable pub edit_segments :
    Timeline → EditorCommand → ℕ → EditorAssetLookup → Result Error Segments
edit_segments t (trim_segment id from to) workspace_id lookup =
    apply_trim t.segments id from to workspace_id lookup
edit_segments t (split_segment id at) workspace_id lookup = apply_split t.segments id at
edit_segments t (delete_segment id policy) workspace_id lookup = apply_delete t.segments id policy
edit_segments t (replace_asset id asset_id) workspace_id lookup =
    apply_replace t.segments id asset_id t.project_id workspace_id lookup
edit_segments t (move_segment id target_index) workspace_id lookup =
    apply_move t.segments id target_index
edit_segments t (resize_segment id duration) workspace_id lookup =
    apply_resize t.segments id duration workspace_id lookup
edit_segments t (set_transition id transition duration) workspace_id lookup =
    apply_transition t.segments id transition duration
edit_segments t _ workspace_id lookup =
    err (validation (text "command type is not applicable to the Timeline"))

unfoldable pub apply_editor_command :
    Timeline → EditorCommand → ℕ → ℕ → EditorAssetLookup → Result Error Timeline
unfolding edit_segments
apply_editor_command t command workspace_id base_revision lookup = do
  require (base_revision == t.revision) (version_conflict t.project_id base_revision t.revision)
  segments ← edit_segments t command workspace_id lookup
  model_validate (record t { segments = segments })
