-- ===== src/Proposals/Shorten.antt =====
-- packages/creator-service/creator_service/shorten_proposal.py.
use short_form_studio.Prelude.{
  ℕ, suc, String, Bool, not, ◌&&◌, Option, none, some, List, [], ◌∷◌, ◌++◌, map, if◌then◌else◌,
  get_elem?, drop,
}
use short_form_studio.Prelude.Int.{ℤ, pos, ◌+ℤ◌, ◌-ℤ◌, leb_ℤ, ltb_ℤ, max_ℤ}
use short_form_studio.Prelude.Checked.{Result, ok, err, ◌>>=◌, ◌>>◌, reject}
use short_form_studio.Errors.{Error, validation, text}
use short_form_studio.Timeline.Intervals.{tick, sort_by}
use short_form_studio.Timeline.Segment.{MediaSegment, start_of, contains, total_duration_seconds}
use short_form_studio.Editor.Command.{EditorCommand, delete_segment, trim_segment, ripple}
use short_form_studio.Editor.Segments.{Segments, or_zero, end_of, millisecond}
use short_form_studio.Editor.History.Defs.{EditorHistory, capture}
use short_form_studio.Proposals.Proposal.{CommandProposal, command_proposal, has_commands, made}

-- a float: a number of seconds, or an infinity or NaN
pub data Seconds : Type 0 where
  finite : ℤ → Seconds
  not_finite : Seconds

abbrev pub finite_or : Error → Seconds → Result Error ℤ
finite_or e (finite x) = ok x
finite_or e not_finite = err e

-- `_MIN_SEGMENT_SECONDS`
abbrev pub min_segment : ℤ
min_segment = millisecond

-- start < target <= end + 1e-9
abbrev pub spans : ℤ → MediaSegment → Bool
spans target s = ltb_ℤ s.timeline_start_seconds target && leb_ℤ target (end_of s +ℤ tick)

abbrev pub one_later : Option ℕ → Option ℕ
one_later none = none
one_later (some i) = some (suc i)

-- `_find_boundary_index`
unfoldable pub find_boundary_index : Segments → ℤ → Option ℕ
find_boundary_index [] target = none
find_boundary_index (s ∷ rest) target =
    let later = one_later (find_boundary_index rest target) in
    if spans target s then some 0 else later

-- reversed(segments)
unfoldable pub reversed : Segments → Segments
reversed [] = []
reversed (s ∷ rest) = reversed rest ++ s ∷ []

abbrev pub delete_ripple : MediaSegment → EditorCommand
delete_ripple s = delete_segment s.id ripple

-- `_needs_trim`
abbrev pub needs_trim : MediaSegment → ℤ → Bool
needs_trim boundary kept = ltb_ℤ (kept +ℤ tick) boundary.duration_seconds

abbrev pub without_opening : Error
without_opening =
    validation (text "cannot reach the target duration without dropping the opening content")

abbrev pub trim_to : MediaSegment → ℤ → EditorCommand
trim_to boundary kept =
    trim_segment boundary.id (or_zero boundary.trim_start_seconds)
      (or_zero boundary.trim_start_seconds +ℤ kept)

-- the trim of the boundary segment, where it is needed
abbrev pub trim_commands : MediaSegment → ℤ → Result Error (List EditorCommand)
trim_commands boundary kept =
    if needs_trim boundary kept
    then (reject (leb_ℤ kept min_segment) without_opening >> made (trim_to boundary kept ∷ []))
    else ok []

unfoldable pub cut_at : ℕ → ℤ → MediaSegment → Segments → Result Error CommandProposal
unfolding made command_proposal reversed
cut_at generation target boundary later = do
  deletes ← made (map delete_ripple (reversed later))
  trims ← trim_commands boundary (target -ℤ boundary.timeline_start_seconds)
  reject (not (has_commands (deletes ++ trims))) without_opening
  command_proposal generation (deletes ++ trims)

-- [s for s in ordered if start + duration < target]
unfoldable pub ending_before : ℤ → Segments → Segments
ending_before target [] = []
ending_before target (s ∷ rest) =
    let others = ending_before target rest in if ltb_ℤ (end_of s) target then s ∷ others else others

unfoldable pub ids_of : Segments → List String
ids_of [] = []
ids_of (s ∷ rest) = s.id ∷ ids_of rest

-- [s for s in ordered if s.id not in kept_ids]
unfoldable pub not_in : List String → Segments → Segments
unfolding contains
not_in kept [] = []
not_in kept (s ∷ rest) =
    let others = not_in kept rest in if contains s.id kept then others else s ∷ others

-- the latest end of a list with a first segment
unfoldable pub closest_end : MediaSegment → Segments → ℤ
closest_end s [] = end_of s
closest_end s (a ∷ rest) = max_ℤ (end_of s) (closest_end a rest)

abbrev pub shorten_to : ℕ → ℤ → ℤ → Segments → Segments → Result Error CommandProposal
shorten_to generation target tolerance ordered [] = err without_opening
shorten_to generation target tolerance ordered (s ∷ rest) = do
  reject (ltb_ℤ (tolerance +ℤ tick) (target -ℤ closest_end s rest))
      (validation (text "cannot reach the target duration with the available cut points"))
  deletes ← made (map delete_ripple (reversed (not_in (ids_of (s ∷ rest)) ordered)))
  command_proposal generation deletes

-- `_shorten_at_gap`
unfoldable pub shorten_at_gap : ℕ → ℤ → ℤ → Segments → Result Error CommandProposal
unfolding ending_before ids_of not_in closest_end made command_proposal reversed
shorten_at_gap generation target tolerance ordered =
    shorten_to generation target tolerance ordered (ending_before target ordered)

-- ordered[boundary_index] and ordered[boundary_index + 1:]
abbrev pub at_boundary :
    ℕ → ℤ → ℤ → Segments → Option MediaSegment → Segments → Result Error CommandProposal
at_boundary generation target tolerance ordered none later =
    shorten_at_gap generation target tolerance ordered
at_boundary generation target tolerance ordered (some boundary) later =
    cut_at generation target boundary later

abbrev pub at_index : ℕ → ℤ → ℤ → Segments → Option ℕ → Result Error CommandProposal
at_index generation target tolerance ordered none =
    shorten_at_gap generation target tolerance ordered
at_index generation target tolerance ordered (some i) =
    at_boundary generation target tolerance ordered (get_elem? ordered i) (drop (suc i) ordered)

unfoldable pub shorten_ordered : ℕ → ℤ → ℤ → Segments → Result Error CommandProposal
unfolding find_boundary_index shorten_at_gap cut_at
shorten_ordered generation target tolerance ordered =
    at_index generation target tolerance ordered (find_boundary_index ordered target)

unfoldable pub build_shorten_proposal :
    EditorHistory → Seconds → Seconds → Result Error CommandProposal
unfolding capture shorten_ordered sort_by total_duration_seconds
build_shorten_proposal h target_seconds tolerance_seconds = do
  target ← finite_or (validation (text "shorten target must be a finite duration")) target_seconds
  tolerance ←
      finite_or (validation (text "shorten tolerance must be a finite number")) tolerance_seconds
  reject (leb_ℤ target (pos 0)) (validation (text "shorten target must be a positive duration"))
  reject (ltb_ℤ tolerance (pos 0)) (validation (text "shorten tolerance must not be negative"))
  reject (leb_ℤ (total_duration_seconds (capture h).0.segments) (target +ℤ tolerance))
      (validation (text "timeline is already within the target duration; nothing to shorten"))
  shorten_ordered (capture h).1 target tolerance (sort_by start_of (capture h).0.segments)
