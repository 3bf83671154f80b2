-- ===== src/Editor/Place.antt =====
-- packages/creator-service/creator_service/editor_command_applier.py: `_apply_move`,
-- `_apply_resize` and `_apply_transition`.
use short_form_studio.Prelude.{
  ℕ, suc, ◌+◌, ◌==◌, String, Bool, true, false, Option, none, some, [], ◌∷◌, ◌++◌, leb, ltb,
  if◌then◌else◌, length, take, drop,
}
use short_form_studio.Prelude.Int.{ℤ, pos, ◌+ℤ◌, ◌-ℤ◌, ltb_ℤ}
use short_form_studio.Prelude.Checked.{Result, ok, ◌>>=◌, ◌>>◌, reject}
use short_form_studio.Errors.{Error, validation, text}
use short_form_studio.Timeline.Segment.{MediaSegment}
use short_form_studio.Editor.Command.{SupportedTransition, transition_name}
use short_form_studio.Editor.Assets.{EditorAssetLookup, effective_source_duration}
use short_form_studio.Editor.Segments.{
  Segments, microsecond, or_zero, update_id, find_segment, locate,
}

-- the loop of `_resequence`
unfoldable pub resequence_from : ℤ → Segments → Segments
resequence_from cursor [] = []
resequence_from cursor (s ∷ rest) =
    record s { timeline_start_seconds = cursor }
    ∷ resequence_from (cursor +ℤ s.duration_seconds) rest

unfoldable pub resequence : Segments → Segments
unfolding resequence_from
resequence segments = resequence_from (pos 0) segments

-- without[:target_index] + [segments[from_index]] + without[target_index:]
unfoldable pub reorder : Segments → ℕ → MediaSegment → ℕ → Segments
reorder segments from_index s target_index =
    let without = take from_index segments ++ drop (suc from_index) segments in
    take target_index without ++ (s ∷ drop target_index without)

-- `_apply_move`
unfoldable pub apply_move : Segments → String → ℕ → Result Error Segments
unfolding locate reorder resequence
apply_move segments id target_index = do
  (from_index, s) ← locate segments id
  reject (leb (length segments) target_index) (validation (text "target index out of range"))
  ok (resequence (reorder segments from_index s target_index))

-- `resize_update`
unfoldable pub resized : ℤ → Option ℤ → MediaSegment → MediaSegment
resized duration source s = record s {
  duration_seconds = duration;
  trim_end_seconds = elim source [
    | none ↦ s.trim_end_seconds
    | some _ ↦ elim s.trim_end_seconds [
      | none ↦ none
      | some _ ↦ some (or_zero s.trim_start_seconds +ℤ duration)
    ]
  ];
}

-- the comprehension over enumerate(segments), from index `i`
unfoldable pub resize_each : ℕ → ℕ → MediaSegment → ℤ → Segments → Segments
resize_each i index new delta [] = []
resize_each i index new delta (s ∷ rest) =
    (if i == index
      then new
      else if ltb index i
      then record s { timeline_start_seconds = s.timeline_start_seconds +ℤ delta }
      else s)
    ∷ resize_each (i + 1) index new delta rest

-- duration > available + 1e-6, where the source is bounded
abbrev pub outgrows : MediaSegment → Option ℤ → ℤ → Bool
outgrows target none duration = false
outgrows target (some source) duration =
    ltb_ℤ (source -ℤ or_zero target.trim_start_seconds +ℤ microsecond) duration

-- `_apply_resize`
unfoldable pub apply_resize : Segments → String → ℤ → ℕ → EditorAssetLookup → Result Error Segments
unfolding locate resized resize_each
apply_resize segments id duration workspace_id lookup = do
  (index, target) ← locate segments id
  source ← effective_source_duration target workspace_id lookup
  reject (outgrows target source duration)
      (validation (text "resize exceeds remaining source duration"))
  ok (
      resize_each 0 index (resized duration source target) (duration -ℤ target.duration_seconds)
        segments)

abbrev pub is_some : Option ℤ → Bool
is_some none = false
is_some (some _) = true

unfoldable pub with_transition : SupportedTransition → MediaSegment → MediaSegment
with_transition transition s = record s { transition = some (transition_name transition) }

-- `_apply_transition`
unfoldable pub apply_transition :
    Segments → String → SupportedTransition → Option ℤ → Result Error Segments
unfolding update_id with_transition
apply_transition segments id transition duration = do
  reject (is_some duration)
      (validation (text "transition duration is not yet supported by the Timeline model"))
  _ ← find_segment segments id
  ok (update_id id (with_transition transition) segments)
