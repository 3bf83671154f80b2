-- ===== src/Store/Service.antt =====
-- packages/creator-service/creator_service/timeline_service.py: `TimelineService`. The owner of an asset, which a
-- service of media assets or a database says, is a parameter.
use short_form_studio.Prelude.{ℕ, ◌==◌, Bool, true, false, ◌&&◌, Option, none, some, List, [], ◌∷◌}
use short_form_studio.Prelude.Checked.{Result, ok, err, ◌>>=◌, ◌>>◌, require}
use short_form_studio.Errors.{Error, validation, version_conflict, text}
use short_form_studio.Timeline.Segment.{MediaSegment, Timeline, model_validate}
use short_form_studio.Store.Rows.{TimelineRow, TimelineRows, Save, save_row, load_row, save_all}

-- `get_asset_owner`: the project of an asset that is visible in the workspace
abbrev pub AssetOwner : Type 0
AssetOwner = ℕ → ℕ → Option ℕ

abbrev pub owned_by : ℕ → Option ℕ → Bool
owned_by project_id none = false
owned_by project_id (some owner) = owner == project_id

-- `_validate_asset_refs`, whose loop raises the same at each asset
unfoldable pub assets_owned : AssetOwner → ℕ → ℕ → List MediaSegment → Bool
assets_owned owner project_id workspace_id [] = true
assets_owned owner project_id workspace_id (s ∷ rest) =
    owned_by project_id (owner s.asset_id workspace_id)
    && assets_owned owner project_id workspace_id rest

-- `_row_to_timeline`
unfoldable pub row_to_timeline : TimelineRow → Result Error Timeline
unfolding model_validate
row_to_timeline row = model_validate (record {
  id = row.timeline_id;
  project_id = row.project_id;
  revision = row.revision;
  segments = row.segments;
})

abbrev pub revision_of : Option TimelineRow → ℕ
revision_of none = 0
revision_of (some row) = row.revision

abbrev pub saved_answer :
    Save → Option TimelineRow × TimelineRows → Result Error Timeline × TimelineRows
saved_answer a (some row, rows) = (row_to_timeline row, rows)
saved_answer a (none, rows) = (
  err (
      version_conflict a.project_id a.expected_revision
        (revision_of (load_row a.project_id a.workspace_id rows))),
  rows,
)

-- the checks before the save
unfoldable pub check_save : AssetOwner → ℕ → ℕ → Timeline → Result Error (Unit {0})
unfolding assets_owned
check_save owner project_id workspace_id timeline =
    require (timeline.project_id == project_id)
      (validation (text "Timeline project_id does not match target project"))
    >> require (assets_owned owner project_id workspace_id timeline.segments)
        (validation (text "Timeline references unavailable asset(s)"))

abbrev pub to_save : ℕ → ℕ → Timeline → ℕ → Save
to_save project_id workspace_id timeline expected_revision = record {
  project_id = project_id;
  workspace_id = workspace_id;
  timeline_id = timeline.id;
  segments = timeline.segments;
  expected_revision = expected_revision;
}

abbrev pub save_checked :
    Result Error (Unit {0}) → Save → List Save → TimelineRows → Result Error Timeline × TimelineRows
save_checked (err e) a meanwhile rows = (err e, rows)
save_checked (ok _) a meanwhile rows = saved_answer a (save_row a (save_all meanwhile rows))

-- `save_timeline`, with the saves of others between the checks and the save
unfoldable pub save_timeline :
    AssetOwner
    → List Save
    → ℕ
    → ℕ
    → Timeline
    → ℕ
    → TimelineRows
    → Result Error Timeline × TimelineRows
unfolding check_save save_row save_all row_to_timeline load_row
save_timeline owner meanwhile project_id workspace_id timeline expected_revision rows =
    save_checked (check_save owner project_id workspace_id timeline)
      (to_save project_id workspace_id timeline expected_revision) meanwhile rows

abbrev pub loaded : Option TimelineRow → Result Error (Option Timeline)
loaded none = ok none
loaded (some row) = row_to_timeline row >>= λ timeline. ok (some timeline)

unfoldable pub load_timeline : ℕ → ℕ → TimelineRows → Result Error (Option Timeline)
unfolding load_row row_to_timeline
load_timeline project_id workspace_id rows = loaded (load_row project_id workspace_id rows)
