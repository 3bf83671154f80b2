-- ===== src/Render/Samples.antt =====
-- Frame budgets and compiled plans at concrete inputs.
use short_form_studio.Prelude.{
  ℕ, ◌==◌, String, ◌≡◌, refl, false, none, some, [], ◌∷◌, take, List, arith, AllPairs,
  if◌then◌else◌,
}
use short_form_studio.Prelude.Int.{pos, ◌+ℤ◌}
use short_form_studio.Prelude.Checked.{ok}
use short_form_studio.Timeline.Intervals.{sort_by, Disjoint}
use short_form_studio.Timeline.Sorting.{StartsLe}
use short_form_studio.Timeline.Segment.{MediaSegment, Timeline, start_of, model_validate}
use short_form_studio.Render.Compile.{
  MediaAsset, video_type, video_kind, AssetResolver, RenderPlan, render_segment, render_start,
  render_duration, media_kind, is_supported, effective_end, RenderSegment,
  compile_timeline_to_render_plan,
}
use short_form_studio.Render.Compiles.{Renderable, compile_timeline_to_render_plan-compiles}
use short_form_studio.Render.Compiled.{
  WithinSource, Rendered, Together, compile_timeline_to_render_plan-Rendered,
}
use short_form_studio.Render.Budget.{
  boundary, any_empty, allocate_frames, sum, allocate_frames-prefix,
}

-- three segments of 1/3 s at 30 frames, one of them a nanosecond longer
allocates : allocate_frames (333333333 ∷ 333333333 ∷ 333333334 ∷ []) 30 ≡ ok (10 ∷ 10 ∷ 10 ∷ [])
unfolding allocate_frames
allocates = refl

allocate_frames-prefix_example :
    (any_empty (10 ∷ 10 ∷ 10 ∷ []) ≡ false)
    × (sum (take 2 (10 ∷ 10 ∷ 10 ∷ []))
        ≡ boundary 30 (sum (take 2 (333333333 ∷ 333333333 ∷ 333333334 ∷ []))))
allocate_frames-prefix_example =
    allocate_frames-prefix (333333333 ∷ 333333333 ∷ 333333334 ∷ []) (10 ∷ 10 ∷ 10 ∷ []) 30 2
      allocates

-- two parts of one clip of five seconds, given in the wrong order
abbrev part : String → ℕ → MediaSegment
part id start = record {
  id = id;
  scene_id = "scene";
  asset_id = 7;
  timeline_start_seconds = pos start;
  duration_seconds = pos 2000000000;
  trim_start_seconds = some (pos start);
  trim_end_seconds = none;
  fit_mode = "cover";
  transition = some "fade";
}

abbrev two_parts : Timeline
two_parts = record {
  id = "t";
  project_id = 3;
  revision = 1;
  segments = part "b" 2000000000 ∷ part "a" 0 ∷ [];
}

abbrev clip : MediaAsset
clip = record {
  id = 7;
  workspace_id = 1;
  project_id = some 3;
  media_type = video_type;
  storage_key = some "clips/7";
  duration_seconds = some (pos 5000000000);
}

abbrev clips : AssetResolver
clips asset_id workspace_id = if asset_id == 7 then some clip else none

abbrev plan_of_two : RenderPlan String String
plan_of_two = record {
  segments =
      render_segment (part "a" 0) "clips/7" video_kind
      ∷ render_segment (part "b" 2000000000) "clips/7" video_kind
      ∷ [];
  output_spec = "vertical";
  encoding_profile = "h264";
}

compiles : compile_timeline_to_render_plan two_parts 1 "vertical" "h264" clips ≡ ok plan_of_two
unfolding compile_timeline_to_render_plan ◌+ℤ◌
compiles = refl

compile_timeline_to_render_plan-Rendered_example :
    Together (Rendered two_parts 1 clips) (sort_by start_of two_parts.segments) plan_of_two.segments
    × AllPairs (StartsLe render_start) plan_of_two.segments
    × AllPairs (Disjoint render_start render_duration) plan_of_two.segments
    × (plan_of_two.output_spec ≡ "vertical")
    × (plan_of_two.encoding_profile ≡ "h264")
compile_timeline_to_render_plan-Rendered_example =
    compile_timeline_to_render_plan-Rendered two_parts 1 "vertical" "h264" clips plan_of_two
      compiles

two_valid : model_validate two_parts ≡ ok two_parts
unfolding model_validate ◌+ℤ◌
two_valid = refl

part_ready :
    (id : String) (start : ℕ)
    → WithinSource video_kind clip.duration_seconds (effective_end (part id start))
    → Renderable two_parts 1 clips (part id start)
unfolding media_kind is_supported
part_ready id start fits = record {
  asset = clip;
  resolved = refl;
  of_workspace = refl;
  of_project = refl;
  key = "clips/7";
  stored = refl;
  not_blank = omega arith;
  not_long = omega arith;
  kind = video_kind;
  renderable = refl;
  supported = refl;
  bounded = fits;
}

compile_timeline_to_render_plan-compiles_example :
    (segments : List RenderSegment) × (compile_timeline_to_render_plan {Spec = String}
        {Profile = String} two_parts 1 "vertical" "h264" clips
      ≡ ok (record { segments = segments; output_spec = "vertical"; encoding_profile = "h264" }))
unfolding ◌+ℤ◌
compile_timeline_to_render_plan-compiles_example =
    compile_timeline_to_render_plan-compiles two_parts 1 "vertical" "h264" clips two_valid refl
      (part_ready "b" 2000000000 (omega arith), (part_ready "a" 0 (omega arith), tt))
