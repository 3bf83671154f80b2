-- ===== src/Timeline/Segment.antt =====
-- packages/creator-domain/creator_domain/models/media_segment.py and timeline.py.
-- Seconds are whole numbers of nanoseconds (ℤ), so that 1e-9, 1e-6 and 1e-3 are exact.
use Prim.Native.String.{count}
use short_form_studio.Prelude.{
  ℕ, String, Bool, true, false, ◌&&◌, ◌||◌, Option, none, some, List, [], ◌∷◌, ◌++◌, leb, str_eq,
  if◌then◌else◌,
}
use short_form_studio.Prelude.Int.{ℤ, pos, ◌+ℤ◌, leb_ℤ, ltb_ℤ, max_ℤ}
use short_form_studio.Prelude.Checked.{Result, ok, err}
use short_form_studio.Errors.{Error, model_error}
use short_form_studio.Timeline.Intervals.{sort_by, overlap_free}

pub record MediaSegment : Type 0 where
  pub id : String
  pub scene_id : String
  pub asset_id : ℕ
  pub timeline_start_seconds : ℤ
  pub duration_seconds : ℤ
  pub trim_start_seconds : Option ℤ
  pub trim_end_seconds : Option ℤ
  pub fit_mode : String
  pub transition : Option String

abbrev pub start_of : MediaSegment → ℤ
start_of s = s.timeline_start_seconds

abbrev pub duration_of : MediaSegment → ℤ
duration_of s = s.duration_seconds

-- Field(min_length=lo, max_length=hi)
abbrev pub length_within : ℕ → ℕ → String → Bool
length_within lo hi s = leb lo (count s) && leb (count s) hi

-- Field(default=None, ge=0)
abbrev pub nonneg? : Option ℤ → Bool
nonneg? none = true
nonneg? (some x) = leb_ℤ (pos 0) x

-- Field(default=None, max_length=hi)
abbrev pub short? : ℕ → Option String → Bool
short? hi none = true
short? hi (some s) = leb (count s) hi

-- `_check_trims`
unfoldable pub trims_ordered : Option ℤ → Option ℤ → Bool
trims_ordered (some a) (some b) = leb_ℤ a b
trims_ordered _ _ = true

-- the field constraints and the validator of MediaSegment
unfoldable pub check_segment : MediaSegment → Bool
unfolding trims_ordered
check_segment s =
    length_within 1 100 s.id
    && length_within 1 100 s.scene_id
    && leb 1 s.asset_id
    && leb_ℤ (pos 0) s.timeline_start_seconds
    && ltb_ℤ (pos 0) s.duration_seconds
    && nonneg? s.trim_start_seconds
    && nonneg? s.trim_end_seconds
    && leb (count s.fit_mode) 50
    && short? 50 s.transition
    && trims_ordered s.trim_start_seconds s.trim_end_seconds

pub record Timeline : Type 0 where
  pub id : String
  pub project_id : ℕ
  pub revision : ℕ
  pub segments : List MediaSegment

unfoldable pub check_each : List MediaSegment → Bool
unfolding check_segment
check_each [] = true
check_each (s ∷ rest) = check_segment s && check_each rest

-- `x in seen`
unfoldable pub contains : String → List String → Bool
contains x [] = false
contains x (y ∷ ys) = str_eq x y || contains x ys

-- the loop over `seen`
unfoldable pub distinct_ids : List String → List MediaSegment → Bool
unfolding contains
distinct_ids seen [] = true
distinct_ids seen (s ∷ rest) = if contains s.id seen then false else distinct_ids (s.id ∷ seen) rest

-- `_check_segments`
unfoldable pub check_segments : List MediaSegment → Bool
unfolding distinct_ids sort_by overlap_free
check_segments segments =
    distinct_ids [] segments
    && overlap_free start_of duration_of (pos 0) (sort_by start_of segments)

-- Timeline.model_validate
unfoldable pub model_validate : Timeline → Result Error Timeline
unfolding check_each check_segments
model_validate t =
    if length_within 1 100 t.id
      && leb 1 t.project_id
      && check_each t.segments
      && check_segments t.segments
    then ok t
    else err model_error

-- `total_duration_seconds`: the latest end, 0 where there is no segment
unfoldable pub latest_end : ℤ → List MediaSegment → ℤ
latest_end best [] = best
latest_end best (s ∷ rest) =
    latest_end (max_ℤ best (s.timeline_start_seconds +ℤ s.duration_seconds)) rest

unfoldable pub total_duration_seconds : List MediaSegment → ℤ
unfolding latest_end
total_duration_seconds [] = pos 0
total_duration_seconds (s ∷ rest) = latest_end (s.timeline_start_seconds +ℤ s.duration_seconds) rest

-- grouped.setdefault(scene_id, []).append(seg)
unfoldable pub append_to :
    MediaSegment → List (String × List MediaSegment) → List (String × List MediaSegment)
append_to s [] = (s.scene_id, s ∷ []) ∷ []
append_to s ((k, group) ∷ rest) =
    if str_eq k s.scene_id then (k, group ++ s ∷ []) ∷ rest else (k, group) ∷ append_to s rest

unfoldable pub group_segments :
    List (String × List MediaSegment) → List MediaSegment → List (String × List MediaSegment)
unfolding append_to
group_segments grouped [] = grouped
group_segments grouped (s ∷ rest) = group_segments (append_to s grouped) rest

-- `segments_by_scene`
unfoldable pub segments_by_scene : Timeline → List (String × List MediaSegment)
unfolding group_segments sort_by
segments_by_scene t = group_segments [] (sort_by start_of t.segments)
