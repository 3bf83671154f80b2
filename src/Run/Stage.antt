-- ===== src/Run/Stage.antt =====
-- packages/creator-domain/creator_domain/models/stage.py: the stages of a pipeline run, and the
-- tables of their transitions.
use short_form_studio.Prelude.{
  String, Bool, false, ◌||◌, Option, none, some, List, [], ◌∷◌, str_eq, if◌then◌else◌,
}
use short_form_studio.Prelude.Checked.{Result, ok, err}
use short_form_studio.Errors.{Error, value_error, of_id}

pub data RunStage : Type 0 where
  idea_ready script_generating script_review visual_plan_setup visual_plan_generating
        visual_plan_review visual_asset_generating visual_asset_review audio_generating
        subtitle_generating timeline_review render_generating final_review published failed :
      RunStage

-- the value of the enumeration's member
unfoldable pub stage_value : RunStage → String
stage_value idea_ready = "IDEA_READY"
stage_value script_generating = "SCRIPT_GENERATING"
stage_value script_review = "SCRIPT_REVIEW"
stage_value visual_plan_setup = "VISUAL_PLAN_SETUP"
stage_value visual_plan_generating = "VISUAL_PLAN_GENERATING"
stage_value visual_plan_review = "VISUAL_PLAN_REVIEW"
stage_value visual_asset_generating = "VISUAL_ASSET_GENERATING"
stage_value visual_asset_review = "VISUAL_ASSET_REVIEW"
stage_value audio_generating = "AUDIO_GENERATING"
stage_value subtitle_generating = "SUBTITLE_GENERATING"
stage_value timeline_review = "TIMELINE_REVIEW"
stage_value render_generating = "RENDER_GENERATING"
stage_value final_review = "FINAL_REVIEW"
stage_value published = "PUBLISHED"
stage_value failed = "FAILED"

-- a StrEnum compares by its value
unfoldable pub eqb_stage : RunStage → RunStage → Bool
unfolding stage_value
eqb_stage a b = str_eq (stage_value a) (stage_value b)

-- stage in stages
unfoldable pub mem_stage : RunStage → List RunStage → Bool
unfolding eqb_stage
mem_stage a [] = false
mem_stage a (b ∷ rest) = eqb_stage a b || mem_stage a rest

abbrev pub all_stages : List RunStage
all_stages =
    idea_ready ∷ script_generating ∷ script_review ∷ visual_plan_setup ∷ visual_plan_generating
    ∷ visual_plan_review ∷ visual_asset_generating ∷ visual_asset_review ∷ audio_generating
    ∷ subtitle_generating ∷ timeline_review ∷ render_generating ∷ final_review ∷ published ∷ failed
    ∷ []

-- the first member with this value
unfoldable pub find_stage : String → List RunStage → Option RunStage
unfolding stage_value
find_stage value [] = none
find_stage value (s ∷ rest) = if str_eq (stage_value s) value then some s else find_stage value rest

-- RunStage(value), where it does not raise
unfoldable pub parse_stage : String → Option RunStage
unfolding find_stage
parse_stage value = find_stage value all_stages

-- TRANSITIONS
unfoldable pub transitions : RunStage → List RunStage
transitions idea_ready = script_generating ∷ []
transitions script_generating = script_review ∷ failed ∷ []
transitions script_review = visual_plan_setup ∷ script_generating ∷ []
transitions visual_plan_setup = visual_plan_generating ∷ []
transitions visual_plan_generating = visual_plan_review ∷ failed ∷ []
transitions visual_plan_review = visual_asset_generating ∷ visual_plan_generating ∷ []
transitions visual_asset_generating = visual_asset_review ∷ failed ∷ []
transitions visual_asset_review = audio_generating ∷ visual_asset_generating ∷ []
transitions audio_generating = subtitle_generating ∷ failed ∷ []
transitions subtitle_generating = render_generating ∷ failed ∷ []
transitions timeline_review = render_generating ∷ []
transitions render_generating = final_review ∷ failed ∷ []
transitions final_review = published ∷ render_generating ∷ []
transitions published = []
transitions failed =
    script_generating ∷ visual_plan_generating ∷ visual_asset_generating ∷ audio_generating
    ∷ subtitle_generating ∷ render_generating ∷ []

-- REVIEW_STAGES
abbrev pub review_stages : List RunStage
review_stages =
    script_review ∷ visual_plan_review ∷ visual_asset_review ∷ timeline_review ∷ final_review ∷ []

-- GENERATING_STAGES
abbrev pub generating_stages : List RunStage
generating_stages =
    script_generating ∷ visual_plan_generating ∷ visual_asset_generating ∷ audio_generating
    ∷ subtitle_generating ∷ render_generating ∷ []

-- STAGE_BEFORE_GENERATING, `none` on a missing key
unfoldable pub stage_before_generating : RunStage → Option RunStage
stage_before_generating script_generating = some idea_ready
stage_before_generating visual_plan_generating = some visual_plan_setup
stage_before_generating visual_asset_generating = some visual_plan_review
stage_before_generating audio_generating = some visual_asset_review
stage_before_generating subtitle_generating = some visual_asset_review
stage_before_generating render_generating = some visual_asset_review
stage_before_generating _ = none

-- STAGE_BACK, `none` on a missing key
unfoldable pub stage_back : RunStage → Option RunStage
stage_back script_review = some idea_ready
stage_back visual_plan_setup = some script_review
stage_back visual_plan_review = some visual_plan_setup
stage_back visual_asset_review = some visual_plan_review
stage_back final_review = some visual_asset_review
stage_back _ = none

-- the stages in which each kind of task may be triggered
pub data TaskKind : Type 0 where
  generate_script generate_visual_plan generate_visual_assets generate_audio render_video : TaskKind

-- TRIGGER_POLICY
unfoldable pub trigger_policy : TaskKind → List RunStage
trigger_policy generate_script = idea_ready ∷ script_review ∷ script_generating ∷ []
trigger_policy generate_visual_plan = visual_plan_setup ∷ visual_plan_generating ∷ []
trigger_policy generate_visual_assets =
    visual_plan_review ∷ visual_asset_generating ∷ visual_asset_review ∷ []
trigger_policy generate_audio = visual_asset_review ∷ audio_generating ∷ []
trigger_policy render_video = render_generating ∷ []

unfoldable pub can_transition : RunStage → RunStage → Bool
unfolding transitions mem_stage
can_transition current target = mem_stage target (transitions current)

-- [stage for stage in stages if stage is not FAILED]
unfoldable pub non_failed : List RunStage → List RunStage
non_failed [] = []
non_failed (failed ∷ rest) = non_failed rest
non_failed (s ∷ rest) = s ∷ non_failed rest

-- if len(candidates) != 1: raise; return candidates[0]
unfoldable pub only : RunStage → List RunStage → Result Error RunStage
only current (s ∷ []) = ok s
only current _ = err (
    value_error
      (of_id "Stage does not have exactly one non-failed transition" (stage_value current)))

unfoldable pub advance : RunStage → Result Error RunStage
unfolding transitions non_failed only
advance current = only current (non_failed (transitions current))
