-- ===== src/Proposals/Samples.antt =====
-- A proposal to shorten at concrete inputs.
use short_form_studio.Prelude.{ℕ, String, ◌≡◌, refl, none, some, [], ◌∷◌, arith}
use short_form_studio.Prelude.Int.{ℤ, pos, ◌+ℤ◌, ◌-ℤ◌, ◌<ℤ◌}
use short_form_studio.Prelude.Checked.{ok}
use short_form_studio.Timeline.Intervals.{sort_by}
use short_form_studio.Timeline.Segment.{
  MediaSegment, Timeline, start_of, total_duration_seconds, model_validate,
}
use short_form_studio.Editor.Command.{delete_segment, trim_segment, ripple}
use short_form_studio.Editor.History.Defs.{EditorHistory, init, accept}
use short_form_studio.Proposals.Proposal.{CommandProposal, apply_ai_proposal}
use short_form_studio.Proposals.Shorten.{finite, find_boundary_index, build_shorten_proposal}
use short_form_studio.Editor.Assets.{EditorAssetLookup, effective_source_duration}
use short_form_studio.Editor.Segments.{Segments}
use short_form_studio.Proposals.Shortens.{HasSource, EndsAt, apply_ai_proposal-shortens}
use short_form_studio.Proposals.Cuts.{Shortened}
use short_form_studio.Proposals.Gaps.{build_shorten_proposal-Shortened}

-- images of three seconds each
abbrev image : String → ℕ → MediaSegment
image id start = record {
  id = id;
  scene_id = "scene";
  asset_id = 7;
  timeline_start_seconds = pos start;
  duration_seconds = pos 3000000000;
  trim_start_seconds = none;
  trim_end_seconds = none;
  fit_mode = "cover";
  transition = none;
}

abbrev draft : Timeline
draft = record {
  id = "t";
  project_id = 3;
  revision = 4;
  segments = image "a" 0 ∷ image "b" 3000000000 ∷ image "c" 6000000000 ∷ [];
}

abbrev session : EditorHistory
session = init draft 1 (λ asset_id workspace_id. none)

-- five seconds keep the first image, trim the second to two seconds and delete the third
abbrev to_five : CommandProposal
to_five = record {
  base_revision = 4;
  commands = delete_segment "c" ripple ∷ trim_segment "b" (pos 0) (pos 2000000000) ∷ [];
}

shortens :
    build_shorten_proposal session (finite (pos 5000000000)) (finite (pos 100000000)) ≡ ok to_five
unfolding build_shorten_proposal init ◌+ℤ◌ ◌-ℤ◌
shortens = refl

build_shorten_proposal-Shortened_example :
    (target : ℤ) × (tolerance : ℤ) × (finite (pos 5000000000) ≡ finite target)
    × (finite (pos 100000000) ≡ finite tolerance)
    × (pos 0 <ℤ target)
    × (target +ℤ tolerance <ℤ total_duration_seconds session.present.segments)
    × (to_five.base_revision ≡ session.generation)
    × Shortened target tolerance (sort_by start_of session.present.segments) to_five.commands
build_shorten_proposal-Shortened_example =
    build_shorten_proposal-Shortened session (finite (pos 5000000000)) (finite (pos 100000000))
      to_five shortens

draft_valid : model_validate draft ≡ ok draft
unfolding model_validate ◌+ℤ◌
draft_valid = refl

-- the asset of the images
abbrev pictures : EditorAssetLookup
pictures asset_id workspace_id =
    some (record { id = 7; project_id = 3; media_type = "IMAGE"; duration_seconds = pos 0 })

abbrev picture_session : EditorHistory
picture_session = init draft 1 pictures

shortens_pictures :
    build_shorten_proposal picture_session (finite (pos 5000000000)) (finite (pos 100000000))
    ≡ ok to_five
unfolding build_shorten_proposal init ◌+ℤ◌ ◌-ℤ◌
shortens_pictures = refl

image_source : (id : String) (start : ℕ) → HasSource 1 pictures (image id start)
unfolding effective_source_duration
image_source id start = record { source = none; read = refl; long_enough = refl }

spans_second : find_boundary_index (sort_by start_of draft.segments) (pos 5000000000) ≡ some 1
unfolding find_boundary_index sort_by ◌+ℤ◌
spans_second = refl

apply_ai_proposal-shortens_example :
    (segments : Segments) × (apply_ai_proposal picture_session to_five ≡ (
      ok (record draft { segments = segments }),
      accept picture_session (record draft { segments = segments }),
    ))
    × EndsAt (pos 5000000000) (sort_by start_of draft.segments) segments
unfolding init
apply_ai_proposal-shortens_example =
    apply_ai_proposal-shortens picture_session (pos 5000000000) (pos 100000000) to_five 1
      draft_valid (omega arith, (omega arith, (omega arith, tt)))
      (image_source "a" 0, (image_source "b" 3000000000, (image_source "c" 6000000000, tt)))
      spans_second shortens_pictures
