-- ===== src/Editor/Segments.antt =====
-- packages/creator-service/creator_service/editor_command_applier.py: finding and updating
-- segments by id.
use short_form_studio.Prelude.{
  ℕ, ◌+◌, String, Option, none, some, List, [], ◌∷◌, str_eq, if◌then◌else◌, get_elem?,
}
use short_form_studio.Prelude.Int.{ℤ, pos, ◌+ℤ◌}
use short_form_studio.Prelude.Checked.{Result, ok, err}
use short_form_studio.Errors.{Error, validation, of_id}
use short_form_studio.Timeline.Segment.{MediaSegment}

abbrev pub Segments : Type 0
Segments = List MediaSegment

-- 1e-6 s and 1e-3 s
abbrev pub microsecond : ℤ
microsecond = pos 1000

abbrev pub millisecond : ℤ
millisecond = pos 1000000

-- `trim_start_seconds or 0.0`
abbrev pub or_zero : Option ℤ → ℤ
or_zero none = pos 0
or_zero (some x) = x

-- [f(s) if s.id == id else s for s in segments]
unfoldable pub update_id : String → (MediaSegment → MediaSegment) → Segments → Segments
update_id id f [] = []
update_id id f (s ∷ rest) = (if str_eq s.id id then f s else s) ∷ update_id id f rest

-- `_find`
unfoldable pub find_segment : Segments → String → Result Error MediaSegment
find_segment [] id = err (validation (of_id "segment not found" id))
find_segment (s ∷ rest) id = if str_eq s.id id then ok s else find_segment rest id

-- next((i for i, s in enumerate(segments) if s.id == id), -1)
unfoldable pub index_from : ℕ → Segments → String → Option ℕ
index_from i [] id = none
index_from i (s ∷ rest) id = if str_eq s.id id then some i else index_from (i + 1) rest id

-- segments[i], for an index that was found
abbrev pub found_at : Segments → String → Option ℕ → Result Error (ℕ × MediaSegment)
found_at segments id none = err (validation (of_id "segment not found" id))
found_at segments id (some i) = elim (get_elem? segments i) [
  | none ↦ err (validation (of_id "segment not found" id))
  | some s ↦ ok (i, s)
]

-- the index of the segment, and the segment
unfoldable pub locate : Segments → String → Result Error (ℕ × MediaSegment)
unfolding index_from
locate segments id = found_at segments id (index_from 0 segments id)

abbrev pub end_of : MediaSegment → ℤ
end_of s = s.timeline_start_seconds +ℤ s.duration_seconds
