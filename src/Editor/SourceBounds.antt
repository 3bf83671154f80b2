-- ===== src/Editor/SourceBounds.antt =====
-- What a segment plays of its source, and the bound that every command keeps.
pub mod Cuts
pub mod Places
pub mod Whole
use short_form_studio.Prelude.{
  ℕ, ◌+◌, ◌==◌, String, ◌≡◌, refl, ap, ◌∙◌, sym, subst, Bool, true, false, not, ◌&&◌, ◌||◌, Option,
  none, some, List, [], ◌∷◌, ◌++◌, inl, inr, arith, Bool-cases, Option-cases, All, AllPairs,
  All-append, append-All, take, drop, take-append-drop, or_false, length, if◌then◌else◌,
}
use short_form_studio.Prelude.Int.{
  ℤ, pos, leb_ℤ, leb_ℤ→lt, ◌+ℤ◌, ◌-ℤ◌, ◌≤ℤ◌, ltb_ℤ, eqb_ℤ, int_laws, +ℤ_parts, -ℤ_parts, ltb_ℤ→le,
}
use short_form_studio.Prelude.Checked.{Result, ok, err, bind-returns, reject-returns, ok-injective}
use short_form_studio.Errors.{Error}
use short_form_studio.Timeline.Intervals.{tick}
use short_form_studio.Timeline.Segment.{MediaSegment, Timeline}
use short_form_studio.Timeline.Valid.{DifferentIds}
use short_form_studio.Editor.Command.{
  DeletePolicy, gap, ripple, SupportedTransition, EditorCommand, trim_segment, split_segment,
  delete_segment, replace_asset, move_segment, resize_segment, set_transition,
}
use short_form_studio.Editor.Assets.{
  EditorAssetRef, EditorAssetLookup, is_image, effective_source_duration,
}
use short_form_studio.Editor.Segments.{
  Segments, microsecond, millisecond, or_zero, update_id, find_segment, locate, end_of,
}
use short_form_studio.Editor.Cut.{
  exceeds, trimmed, apply_trim, left_half, right_half, shift_trim, split_target, apply_split,
  without_id, close_gap, by_policy, apply_delete,
}
use short_form_studio.Editor.Replace.{
  replacement, incompatible, replaced_start, window_end, replaced_end, window_changes, replaced,
  apply_replace,
}
use short_form_studio.Editor.Place.{
  resequence_from, resequence, reorder, apply_move, resized, resize_each, outgrows, apply_resize,
  with_transition, apply_transition,
}
use short_form_studio.Editor.Apply.{edit_segments}
use short_form_studio.Editor.Found.{
  IsAt, find_segment-IsAt, update_id-eq, replace_by_halves-eq, without_id-eq,
}
use short_form_studio.Editor.Located.{locate-IsAt, reorder-eq, shift_all, resize_each-middle}

-- `start` seconds into the source, `length` seconds fit, up to 1e-6 s
abbrev pub Within : ℤ → ℤ → EditorAssetRef → Type 0
Within start length asset = start +ℤ length ≤ℤ asset.duration_seconds +ℤ microsecond

module _ (lookup : EditorAssetLookup) (workspace_id : ℕ) where
  -- what the segment plays of its source ends before the source does, where it is no image
  pub record Fits (s : MediaSegment) : Type 0 where
    pub bound :
        (asset : EditorAssetRef)
        → lookup s.asset_id workspace_id ≡ some asset
        → is_image asset.media_type ≡ false
        → Within (or_zero s.trim_start_seconds) s.duration_seconds asset

  pub IsAt-Fits :
      (segments : Segments) (id : String) (target : MediaSegment) (at : IsAt segments id target)
      → All Fits segments
      → All Fits at.before × Fits target × All Fits at.after
  IsAt-Fits segments id target at fits =
      let whole : All Fits (at.before ++ (target ∷ at.after)) = subst (All Fits) at.split fits in
      let parts = append-All Fits at.before (target ∷ at.after) whole in
      (parts.0, parts.1.0, parts.1.1)

  pub update_id-Fits :
      (segments : Segments) (id : String) (f : MediaSegment → MediaSegment) (target : MediaSegment)
      (at : IsAt segments id target)
      → All Fits segments
      → Fits (f target)
      → All Fits (update_id id f segments)
  update_id-Fits segments id f target at fits new =
      let parts = IsAt-Fits segments id target at fits in
      rw (update_id-eq id f segments target at)
        (All-append Fits at.before (f target ∷ at.after) parts.0 (new, parts.2))

  pub source_of_target :
      (s : MediaSegment) (source : Option ℤ) (asset : EditorAssetRef)
      → effective_source_duration s workspace_id lookup ≡ ok source
      → lookup s.asset_id workspace_id ≡ some asset
      → is_image asset.media_type ≡ false
      → source ≡ some asset.duration_seconds
  unfolding effective_source_duration
  source_of_target s source asset h e image = ground arith

  -- `t` has the asset of `s`, and plays no later part of it
  pub shorter-Fits :
      (s t : MediaSegment)
      → t.asset_id ≡ s.asset_id
      → or_zero t.trim_start_seconds +ℤ t.duration_seconds
        ≤ℤ or_zero s.trim_start_seconds +ℤ s.duration_seconds
      → Fits s
      → Fits t
  shorter-Fits s t same le fits = record {
    bound = λ asset e image. omega (
      int_laws,
      le,
      fits.bound asset (subst (λ i. lookup i workspace_id ≡ some asset) same e) image,
    );
  }
