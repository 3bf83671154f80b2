-- ===== src/Run/Review/Samples.antt =====
-- Approvals at concrete inputs.
use short_form_studio.Prelude.{String, Bool, true, Option, none, some, [], ◌∷◌}
use short_form_studio.Prelude.Dict
use short_form_studio.Run.Stage.{script_review, visual_plan_setup}
use short_form_studio.Run.PipelineRun.{PipelineRun}
use short_form_studio.Run.Storage.{RunStorage, empty}
use short_form_studio.Run.Operations.{creating, perform_all}
use short_form_studio.Run.ServiceOther.{new_row}
use short_form_studio.Run.Review.Rows.{Approval, ReviewStorage, create_review}
use short_form_studio.Run.Review.Approve.{Between, approve_and_advance}

abbrev any : String → Bool
any json = true

abbrev keep : Option String → Option String
keep metadata = metadata

abbrev one_run : RunStorage
one_run =
    perform_all (creating 5 (new_row any 3 none script_review "running" none none "plain") ∷ [])
      empty

abbrev no_reviews : ReviewStorage
no_reviews = record { rows = []; next_id = 1 }

abbrev alone : Between
alone = record { meanwhile = []; during = [] }

abbrev approval : Approval
approval = record { run_id = 1; stage_name = "SCRIPT_REVIEW"; reviewer = "agent"; notes = none }

abbrev advanced_runs : RunStorage
advanced_runs =
    (approve_and_advance any keep alone none 7 approval "VISUAL_PLAN_SETUP" [] none
      (one_run, no_reviews)).1.0

abbrev one_review : ReviewStorage
one_review = (create_review 7 approval no_reviews).1

abbrev advanced : PipelineRun
advanced = record {
  id = 1;
  project_id = 3;
  current_stage = some visual_plan_setup;
  status = "running";
  review_stage = none;
  restart_from = none;
  model_defaults = none;
  metadata = none;
  style_preset = some "plain";
  started_at = none;
  finished_at = none;
  created_at = 5;
  updated_at = 7;
  version = 1;
}
