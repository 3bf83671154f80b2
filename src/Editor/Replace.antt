-- ===== src/Editor/Replace.antt =====
-- packages/creator-service/creator_service/editor_command_applier.py: `_apply_replace`.
use short_form_studio.Prelude.{
  ℕ, ◌==◌, String, Bool, false, not, ◌||◌, ◌&&◌, Option, none, some, if◌then◌else◌,
}
use short_form_studio.Prelude.Int.{ℤ, pos, ◌+ℤ◌, ◌-ℤ◌, ltb_ℤ, eqb_ℤ, min_ℤ, max_ℤ}
use short_form_studio.Prelude.Checked.{Result, ok, err, ◌>>=◌, ◌>>◌, reject}
use short_form_studio.Errors.{Error, validation, text}
use short_form_studio.Timeline.Segment.{MediaSegment}
use short_form_studio.Editor.Assets.{
  EditorAssetRef, EditorAssetLookup, broad_kind, eqb_codes, is_image,
}
use short_form_studio.Editor.Segments.{Segments, millisecond, or_zero, update_id, find_segment}

-- `_apply_replace`: new is None or new.project_id != timeline.project_id
unfoldable pub replacement : ℕ → Option EditorAssetRef → Result Error EditorAssetRef
replacement project_id none = err (validation (text "replacement asset is unavailable"))
replacement project_id (some new) =
    if new.project_id == project_id
    then ok new
    else err (validation (text "replacement asset is unavailable"))

-- old is not None and the two kinds differ
abbrev pub incompatible : Option EditorAssetRef → EditorAssetRef → Bool
incompatible none new = false
incompatible (some old) new =
    not (eqb_codes (broad_kind old.media_type) (broad_kind new.media_type))

-- the window of the source that a non-image replacement leaves: (trim_start, window_end)
unfoldable pub replaced_start : MediaSegment → EditorAssetRef → ℤ
replaced_start target new =
    min_ℤ (or_zero target.trim_start_seconds) (max_ℤ (pos 0) (new.duration_seconds -ℤ millisecond))

unfoldable pub window_end : MediaSegment → ℤ → ℤ
window_end target trim_start = elim target.trim_end_seconds [
  | some end ↦ end
  | none ↦ trim_start +ℤ target.duration_seconds
]

unfoldable pub replaced_end : MediaSegment → EditorAssetRef → ℤ
unfolding replaced_start window_end
replaced_end target new = min_ℤ (window_end target (replaced_start target new)) new.duration_seconds

-- the test under which the window is written
unfoldable pub window_changes : MediaSegment → EditorAssetRef → Bool
unfolding replaced_end
window_changes target new =
    ltb_ℤ (replaced_end target new) (window_end target (replaced_start target new))
    || not (eqb_ℤ (or_zero target.trim_start_seconds) (replaced_start target new))
    || ltb_ℤ (replaced_end target new -ℤ replaced_start target new) target.duration_seconds

-- `update`, applied to the segment
unfoldable pub replaced : MediaSegment → EditorAssetRef → ℕ → MediaSegment → MediaSegment
unfolding window_changes
replaced target new asset_id s =
    if not (is_image new.media_type) && window_changes target new
    then record s {
      asset_id = asset_id;
      trim_start_seconds = some (replaced_start target new);
      trim_end_seconds = some (replaced_end target new);
      duration_seconds = replaced_end target new -ℤ replaced_start target new;
    }
    else record s { asset_id = asset_id }

unfoldable pub apply_replace :
    Segments → String → ℕ → ℕ → ℕ → EditorAssetLookup → Result Error Segments
unfolding update_id replacement replaced
apply_replace segments id asset_id project_id workspace_id lookup = do
  target ← find_segment segments id
  new ← replacement project_id (lookup asset_id workspace_id)
  reject (incompatible (lookup target.asset_id workspace_id) new)
      (validation (text "replacement asset media kind is incompatible"))
  ok (update_id id (replaced target new asset_id) segments)
