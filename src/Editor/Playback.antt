-- ===== src/Editor/Playback.antt =====
-- What a split shows: where the two halves stand, and which part of the source they play.
use short_form_studio.Prelude.{◌≡◌, refl, sym, ◌∙◌, String, none, some, ◌∷◌, ◌++◌, AllPairs}
use short_form_studio.Prelude.Int.{ℤ, pos, ◌+ℤ◌, ◌-ℤ◌, ◌<ℤ◌, int_laws}
use short_form_studio.Prelude.Checked.{ok, bind-returns, reject-returns, ok-injective}
use short_form_studio.Timeline.Segment.{MediaSegment}
use short_form_studio.Timeline.Valid.{DifferentIds}
use short_form_studio.Editor.Segments.{Segments, or_zero, find_segment, end_of}
use short_form_studio.Editor.Cut.{shift_trim, left_half, right_half, split_target, apply_split}
use short_form_studio.Editor.Found.{IsAt, find_segment-IsAt, replace_by_halves-eq}
use short_form_studio.Editor.SourceBounds.Cuts.{outside, strictly_inside}

-- the instant of its source that a segment shows at the timeline's instant `t`
abbrev pub source_at : MediaSegment → ℤ → ℤ
source_at s t = or_zero s.trim_start_seconds +ℤ (t -ℤ s.timeline_start_seconds)

-- the two segments that `_apply_split` puts in the place of `target`
abbrev pub left_of : ℤ → MediaSegment → MediaSegment
left_of at target =
    let d = at -ℤ target.timeline_start_seconds in
    left_half d (shift_trim target.trim_start_seconds d) target

abbrev pub right_of : ℤ → MediaSegment → MediaSegment
right_of at target =
    right_half at (end_of target -ℤ at)
      (shift_trim target.trim_start_seconds (at -ℤ target.timeline_start_seconds)) target

-- the left half stands at the start of the target and ends at `at`; the right half goes on to its end
pub record IsSplit (target left right : MediaSegment) (at : ℤ) : Type 0 where
  pub left_starts : left.timeline_start_seconds ≡ target.timeline_start_seconds
  pub left_ends : end_of left ≡ at
  pub right_starts : right.timeline_start_seconds ≡ at
  pub right_ends : end_of right ≡ end_of target
  pub left_lasts : pos 0 <ℤ left.duration_seconds
  pub right_lasts : pos 0 <ℤ right.duration_seconds

-- A split that is accepted replaces the one segment of that id, in its place in the list, by two
-- that cover the same stretch of the timeline, meet at the split and are not empty.
pub apply_split-IsSplit :
    (segments : Segments) (id : String) (at : ℤ) (r : Segments)
    → AllPairs DifferentIds segments
    → apply_split segments id at ≡ ok r
    → (target : MediaSegment) × (place : IsAt segments id target) × (r
        ≡ place.before ++ (left_of at target ∷ right_of at target ∷ place.after))
      × IsSplit target (left_of at target) (right_of at target) at
unfolding apply_split split_target
apply_split-IsSplit segments id at r distinct h =
    let (target, found, h1) = bind-returns (find_segment segments id) _ h in
    let (inside, h2) = reject-returns (outside target at) _ _ h1 in
    let place = find_segment-IsAt segments id target distinct found in
    let d = at -ℤ target.timeline_start_seconds in
    let trim_split = shift_trim target.trim_start_seconds d in
    let (lo, hi) = strictly_inside target at inside in
    (
      target,
      place,
      sym (ok-injective _ _ h2)
          ∙ replace_by_halves-eq id (left_half d trim_split)
              (right_half at (end_of target -ℤ at) trim_split) segments target place,
      unfold left_half right_half in
          (record {
            left_starts = refl;
            left_ends = omega int_laws;
            right_starts = refl;
            right_ends = omega int_laws;
            left_lasts = omega (int_laws, lo);
            right_lasts = omega (int_laws, hi);
          }),
    )

-- Both halves of a segment whose trim start is set show, at every instant, the instant of the
-- source that the segment showed. Where the trim start is not set (which means 0 everywhere else),
-- the left half does, and the right half starts the source over: at every instant it is behind by
-- the whole length of the left half.
pub split-source_at :
    (at t : ℤ) (target : MediaSegment)
    → (source_at (left_of at target) t ≡ source_at target t)
      × ((x : ℤ)
          → target.trim_start_seconds ≡ some x
          → source_at (right_of at target) t ≡ source_at target t)
      × (target.trim_start_seconds ≡ none
          → source_at (right_of at target) t +ℤ (left_of at target).duration_seconds
            ≡ source_at target t)
unfolding left_half right_half
split-source_at at t target = (refl, λ x e. rw e (omega int_laws), λ e. rw e (omega int_laws))
