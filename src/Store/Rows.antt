-- ===== src/Store/Rows.antt =====
-- packages/creator-service/creator_service/timeline_service.py: `InMemoryTimelineStorage`. The
-- segments are kept as they are: the JSON text and its parser are the library's.
use short_form_studio.Prelude.{
  ℕ, ◌+◌, ◌==◌, String, not, Option, none, some, List, [], ◌∷◌, if◌then◌else◌,
}
use short_form_studio.Prelude.Dict
use short_form_studio.Timeline.Segment.{MediaSegment}

pub record TimelineRow : Type 0 where
  pub project_id : ℕ
  pub workspace_id : ℕ
  pub timeline_id : String
  pub revision : ℕ
  pub segments : List MediaSegment

-- `_rows`
abbrev pub TimelineRows : Type 0
TimelineRows = List (ℕ × TimelineRow)

-- the arguments of `save_timeline`
pub record Save : Type 0 where
  pub project_id : ℕ
  pub workspace_id : ℕ
  pub timeline_id : String
  pub segments : List MediaSegment
  pub expected_revision : ℕ

abbrev pub first_row : Save → TimelineRow
first_row a = record {
  project_id = a.project_id;
  workspace_id = a.workspace_id;
  timeline_id = a.timeline_id;
  revision = 1;
  segments = a.segments;
}

abbrev pub next_row : Save → TimelineRow → TimelineRow
next_row a existing = record existing {
  timeline_id = a.timeline_id;
  segments = a.segments;
  revision = existing.revision + 1;
}

abbrev pub save_over : Save → Option TimelineRow → TimelineRows → Option TimelineRow × TimelineRows
save_over a none rows =
    if not (a.expected_revision == 0)
    then (none, rows)
    else (some (first_row a), Dict.put a.project_id (first_row a) rows)
save_over a (some existing) rows =
    if not (existing.workspace_id == a.workspace_id)
    then (none, rows)
    else if not (existing.revision == a.expected_revision)
    then (none, rows)
    else (some (next_row a existing), Dict.put a.project_id (next_row a existing) rows)

unfoldable pub save_row : Save → TimelineRows → Option TimelineRow × TimelineRows
unfolding Dict.get Dict.put
save_row a rows = save_over a (Dict.get a.project_id rows) rows

abbrev pub of_workspace : ℕ → Option TimelineRow → Option TimelineRow
of_workspace workspace_id none = none
of_workspace workspace_id (some row) =
    if not (row.workspace_id == workspace_id) then none else some row

unfoldable pub load_row : ℕ → ℕ → TimelineRows → Option TimelineRow
unfolding Dict.get
load_row project_id workspace_id rows = of_workspace workspace_id (Dict.get project_id rows)

-- the saves of other requests
unfoldable pub save_all : List Save → TimelineRows → TimelineRows
unfolding save_row
save_all [] rows = rows
save_all (a ∷ rest) rows = save_all rest (save_row a rows).1
