-- ===== src/Editor/Cut.antt =====
-- packages/creator-service/creator_service/editor_command_applier.py: `_apply_trim`,
-- `_apply_split` and `_apply_delete`. `model_copy(update=...)` is a record update: nothing is checked
-- until the new timeline is validated whole.
use Prim.Native.String.{◌++◌ as append}
use short_form_studio.Prelude.{
  ℕ, String, Bool, false, not, ◌||◌, Option, none, some, [], ◌∷◌, str_eq, if◌then◌else◌,
}
use short_form_studio.Prelude.Int.{ℤ, ◌+ℤ◌, ◌-ℤ◌, leb_ℤ, ltb_ℤ}
use short_form_studio.Prelude.Checked.{Result, ok, ◌>>=◌, ◌>>◌, reject}
use short_form_studio.Errors.{Error, validation, text}
use short_form_studio.Timeline.Intervals.{tick}
use short_form_studio.Timeline.Segment.{MediaSegment}
use short_form_studio.Editor.Command.{DeletePolicy, gap, ripple}
use short_form_studio.Editor.Assets.{EditorAssetLookup, effective_source_duration}
use short_form_studio.Editor.Segments.{Segments, microsecond, update_id, find_segment, end_of}

-- source is not None and end > source + 1e-6
abbrev pub exceeds : Option ℤ → ℤ → Bool
exceeds none end = false
exceeds (some source) end = ltb_ℤ (source +ℤ microsecond) end

unfoldable pub trimmed : ℤ → ℤ → MediaSegment → MediaSegment
trimmed from to s = record s {
  trim_start_seconds = some from;
  trim_end_seconds = some to;
  duration_seconds = to -ℤ from;
}

-- `_apply_trim`
unfoldable pub apply_trim :
    Segments → String → ℤ → ℤ → ℕ → EditorAssetLookup → Result Error Segments
unfolding update_id trimmed
apply_trim segments id from to workspace_id lookup = do
  target ← find_segment segments id
  reject (ltb_ℤ to from) (validation (text "trim_start_seconds must be <= trim_end_seconds"))
  source ← effective_source_duration target workspace_id lookup
  reject (exceeds source to) (validation (text "trim exceeds source duration"))
  ok (update_id id (trimmed from to) segments)

-- `trim_split`
abbrev pub shift_trim : Option ℤ → ℤ → Option ℤ
shift_trim none d = none
shift_trim (some x) d = some (x +ℤ d)

unfoldable pub left_half : ℤ → Option ℤ → MediaSegment → MediaSegment
left_half left_duration trim_split s = record s {
  id = append s.id ":a";
  duration_seconds = left_duration;
  trim_end_seconds = trim_split;
}

unfoldable pub right_half : ℤ → ℤ → Option ℤ → MediaSegment → MediaSegment
right_half at right_duration trim_split s = record s {
  id = append s.id ":b";
  timeline_start_seconds = at;
  duration_seconds = right_duration;
  trim_start_seconds = trim_split;
}

-- the loop that puts the two halves in the place of the segment
unfoldable pub replace_by_halves :
    String → (MediaSegment → MediaSegment) → (MediaSegment → MediaSegment) → Segments → Segments
replace_by_halves id left right [] = []
replace_by_halves id left right (s ∷ rest) =
    let others = replace_by_halves id left right rest in
    if not (str_eq s.id id) then s ∷ others else left s ∷ right s ∷ others

-- the two durations and `trim_split`, for the segment to be split
unfoldable pub split_target : String → ℤ → MediaSegment → Segments → Segments
unfolding replace_by_halves left_half right_half
split_target id at target segments =
    let left_duration = at -ℤ target.timeline_start_seconds in
    let right_duration = end_of target -ℤ at in
    let trim_split = shift_trim target.trim_start_seconds left_duration in
    replace_by_halves id (left_half left_duration trim_split)
      (right_half at right_duration trim_split) segments

-- `_apply_split`
unfoldable pub apply_split : Segments → String → ℤ → Result Error Segments
unfolding split_target
apply_split segments id at = do
  target ← find_segment segments id
  reject (leb_ℤ at (target.timeline_start_seconds +ℤ tick) || leb_ℤ (end_of target -ℤ tick) at)
      (validation (text "split must fall strictly inside the segment"))
  ok (split_target id at target segments)

-- [s for s in segments if s.id != id]
unfoldable pub without_id : String → Segments → Segments
without_id id [] = []
without_id id (s ∷ rest) =
    let others = without_id id rest in if str_eq s.id id then others else s ∷ others

-- the shift of what starts no earlier than the deleted segment
unfoldable pub close_gap : MediaSegment → Segments → Segments
close_gap target [] = []
close_gap target (s ∷ rest) =
    (if leb_ℤ target.timeline_start_seconds s.timeline_start_seconds
      then record s { timeline_start_seconds = s.timeline_start_seconds -ℤ target.duration_seconds }
      else s)
    ∷ close_gap target rest

abbrev pub by_policy : DeletePolicy → MediaSegment → Segments → Segments
by_policy gap target remaining = remaining
by_policy ripple target remaining = close_gap target remaining

-- `_apply_delete`
unfoldable pub apply_delete : Segments → String → DeletePolicy → Result Error Segments
unfolding without_id close_gap
apply_delete segments id policy = do
  target ← find_segment segments id
  ok (by_policy policy target (without_id id segments))
