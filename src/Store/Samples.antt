-- ===== src/Store/Samples.antt =====
-- Saves and loads at concrete inputs.
use short_form_studio.Prelude.{arith, ℕ, ◌*◌, ◌^◌, ◌≡◌, refl, none, some, [], ◌∷◌}
use short_form_studio.Prelude.Int.{pos, ◌+ℤ◌}
use short_form_studio.Prelude.Checked.{ok}
use short_form_studio.Prelude.Dict
use short_form_studio.Timeline.Segment.{MediaSegment, Timeline}
use short_form_studio.Store.Rows.{TimelineRows, Save, first_row, save_row, save_all}
use short_form_studio.Store.Service.{AssetOwner, save_timeline}
use short_form_studio.Store.Revisions.{stale_save_refused}
use short_form_studio.Store.Saved.{OwnProjects, IsSaved, save_timeline-IsSaved}

abbrev intro : MediaSegment
intro = record {
  id = "s1";
  scene_id = "scene";
  asset_id = 8;
  timeline_start_seconds = pos 0;
  duration_seconds = pos (3 * 10 ^ 9);
  trim_start_seconds = none;
  trim_end_seconds = none;
  fit_mode = "cover";
  transition = none;
}

abbrev save_of : ℕ → ℕ → Save
save_of project_id expected_revision = record {
  project_id = project_id;
  workspace_id = 2;
  timeline_id = "t";
  segments = intro ∷ [];
  expected_revision = expected_revision;
}

abbrev first_saved : TimelineRows
first_saved = (save_row (save_of 3 0) []).1

saves_first : save_row (save_of 3 0) [] ≡ (some (first_row (save_of 3 0)), first_saved)
unfolding save_row
saves_first = refl

stale_save_refused_example :
    save_row (save_of 3 0) (save_all (save_of 4 0 ∷ save_of 3 1 ∷ []) first_saved)
    ≡ (none, save_all (save_of 4 0 ∷ save_of 3 1 ∷ []) first_saved)
stale_save_refused_example =
    stale_save_refused (save_of 3 0) (save_of 3 0) [] first_saved (first_row (save_of 3 0))
      (save_of 4 0 ∷ save_of 3 1 ∷ []) saves_first refl refl

-- every asset belongs to project 3
abbrev all_owned : AssetOwner
all_owned asset_id workspace_id = some 3

abbrev cut : Timeline
cut = record { id = "t"; project_id = 3; revision = 0; segments = intro ∷ [] }

abbrev stored_rows : TimelineRows
stored_rows = (save_timeline all_owned (save_of 4 0 ∷ []) 3 2 cut 1 first_saved).1

saves_cut :
    save_timeline all_owned (save_of 4 0 ∷ []) 3 2 cut 1 first_saved
    ≡ (ok (record cut { revision = 2 }), stored_rows)
unfolding save_timeline save_row ◌+ℤ◌
saves_cut = refl

first_saved-OwnProjects : OwnProjects first_saved
unfolding save_row Dict.get
first_saved-OwnProjects k row h = ground (arith, h)

save_timeline-IsSaved_example :
    IsSaved all_owned 3 2 1 cut (record cut { revision = 2 }) stored_rows
save_timeline-IsSaved_example =
    save_timeline-IsSaved all_owned (save_of 4 0 ∷ []) 3 2 1 cut (record cut { revision = 2 })
      first_saved stored_rows first_saved-OwnProjects saves_cut
