-- ===== src/Run/Samples.antt =====
-- Runs of the storage and of the service at concrete inputs.
use short_form_studio.Prelude.{
  ℕ, ◌≡◌, refl, Option, none, some, String, Bool, true, List, [], ◌∷◌, ◌||◌, str_eq,
}
use short_form_studio.Prelude.Checked.{ok}
use short_form_studio.Prelude.Dict
use short_form_studio.Run.Stage.{
  RunStage, script_review, visual_plan_setup, audio_generating, subtitle_generating, idea_ready,
  failed, published, visual_asset_review, stage_value, can_transition, advance,
}
use short_form_studio.Run.Graph.{◌⟶◌, ◌⟶*◌, ⟶*-published}
use short_form_studio.Run.Succeeds.{at_stage, advance_stage-succeeds}
use short_form_studio.Run.Row.{RunRow, touch, to_status, to_style_preset, to_current_stage}
use short_form_studio.Run.PipelineRun.{PipelineRun, row_valid, mapped}
use short_form_studio.Run.Storage.{get_run, store, RunStorage, empty, create_run}
use short_form_studio.Run.Evolution.{IsWellFormed, Evolves}
use short_form_studio.Run.Operations.{
  RunOp, creating, updating, perform_all, perform_all-Allowed, empty-IsWellFormed,
}
use short_form_studio.Run.Service.{
  Others, advance_stage, restart_run, restart_updates, stop_run, resume_run,
}
use short_form_studio.Run.ServiceOther.{go_back, new_row}
use short_form_studio.Run.Commit.{Committed}
use short_form_studio.Run.Moves.{Moved, advance_stage-Moved, restart_run-Moved}
use short_form_studio.Run.Stop.{resume_run-Committed}
use short_form_studio.Run.Back.{WentBack, go_back-WentBack}

abbrev any : String → Bool
any text = true

-- a storage with one run of project 3, which has id 1
abbrev one_run : RunStage → String → RunStorage
one_run stage status =
    perform_all (creating 5 (new_row any 3 none stage status none none "plain") ∷ []) empty

one_run-IsWellFormed : (stage : RunStage) (status : String) → IsWellFormed (one_run stage status)
one_run-IsWellFormed stage status =
    (perform_all-Allowed (creating 5 (new_row any 3 none stage status none none "plain") ∷ []) empty
      empty-IsWellFormed).0

abbrev nobody : Others
nobody = record { meanwhile = []; later = [] }

-- another task creates a second run meanwhile
abbrev somebody : Others
somebody = record {
  meanwhile = creating 6 (new_row any 3 none idea_ready "pending" none none "plain") ∷ [];
  later = [];
}

abbrev restyle : List RunOp
restyle = updating 9 1 (to_style_preset (some "bold") ∷ []) none none ∷ []

perform_all-Allowed_example :
    IsWellFormed (perform_all restyle (one_run script_review "running"))
    × Evolves
        (one_run script_review "running")
        (perform_all restyle (one_run script_review "running"))
perform_all-Allowed_example =
    perform_all-Allowed restyle (one_run script_review "running")
      (one_run-IsWellFormed script_review "running")

abbrev run_at : RunStage → String → Option RunStage → ℕ → PipelineRun
run_at stage status restart_from version = record {
  id = 1;
  project_id = 3;
  current_stage = some stage;
  status = status;
  review_stage = none;
  restart_from = restart_from;
  model_defaults = none;
  metadata = none;
  style_preset = some "plain";
  started_at = none;
  finished_at = none;
  created_at = 5;
  updated_at = 7;
  version = version;
}

abbrev approved : RunStorage
approved =
    (advance_stage any somebody 7 1 "VISUAL_PLAN_SETUP" none (one_run script_review "running")).1

advances :
    advance_stage any somebody 7 1 "VISUAL_PLAN_SETUP" none (one_run script_review "running")
    ≡ (ok (run_at visual_plan_setup "running" none 1), approved)
unfolding advance_stage perform_all Dict.get create_run Dict.put
advances = refl

advance_stage-Moved_example :
    Moved any somebody 7 1 none
      (one_run script_review "running")
      approved
      (run_at visual_plan_setup "running" none 1)
      "VISUAL_PLAN_SETUP"
      (λ t. to_current_stage (some (stage_value t)) ∷ [])
advance_stage-Moved_example =
    advance_stage-Moved any somebody 7 1 none (one_run script_review "running") approved
      (run_at visual_plan_setup "running" none 1) "VISUAL_PLAN_SETUP"
      (one_run-IsWellFormed script_review "running") advances

abbrev restarted : RunStorage
restarted = (restart_run any somebody 7 1 "AUDIO_GENERATING" none (one_run failed "failed")).1

restarts :
    restart_run any somebody 7 1 "AUDIO_GENERATING" none (one_run failed "failed")
    ≡ (ok (run_at audio_generating "failed" (some audio_generating) 1), restarted)
unfolding restart_run perform_all Dict.get create_run Dict.put
restarts = refl

restart_run-Moved_example :
    Moved any somebody 7 1 none
      (one_run failed "failed")
      restarted
      (run_at audio_generating "failed" (some audio_generating) 1)
      "AUDIO_GENERATING"
      (restart_updates any)
restart_run-Moved_example =
    restart_run-Moved any somebody 7 1 none (one_run failed "failed") restarted
      (run_at audio_generating "failed" (some audio_generating) 1) "AUDIO_GENERATING"
      (one_run-IsWellFormed failed "failed") restarts

abbrev stopped : RunStorage
stopped = (stop_run any somebody 7 1 none (one_run subtitle_generating "running")).1

abbrev resumed : RunStorage
resumed = (resume_run any somebody 7 1 none (one_run visual_asset_review "cancelled")).1

resumes :
    resume_run any somebody 7 1 none (one_run visual_asset_review "cancelled")
    ≡ (ok (run_at visual_asset_review "running" none 1), resumed)
unfolding resume_run perform_all Dict.get create_run Dict.put
resumes = refl

resume_run-Committed_example :
    (run : PipelineRun) × ((str_eq run.status "cancelled" || str_eq run.status "failed") ≡ true)
    × Committed any somebody 7 1
        (to_status "running" ∷ [])
        run
        (run_at visual_asset_review "running" none 1)
        (one_run visual_asset_review "cancelled")
        resumed
resume_run-Committed_example =
    resume_run-Committed any somebody 7 1 none (one_run visual_asset_review "cancelled") resumed
      (run_at visual_asset_review "running" none 1)
      (one_run-IsWellFormed visual_asset_review "cancelled") resumes

abbrev wrote_back : RunStorage
wrote_back = (go_back any somebody 7 1 none (one_run script_review "running")).1

goes_back :
    go_back any somebody 7 1 none (one_run script_review "running")
    ≡ (ok (run_at idea_ready "running" none 1), wrote_back)
unfolding go_back perform_all Dict.get create_run Dict.put
goes_back = refl

go_back-WentBack_example :
    WentBack any 7 1
      (run_at idea_ready "running" none 1)
      (perform_all somebody.meanwhile (one_run script_review "running"))
      wrote_back
go_back-WentBack_example =
    go_back-WentBack any somebody 7 1 none (one_run script_review "running") wrote_back
      (run_at idea_ready "running" none 1) goes_back

⟶*-published_example : failed ⟶* published
⟶*-published_example = ⟶*-published failed

advances_audio : advance audio_generating ≡ ok subtitle_generating
unfolding advance
advances_audio = refl

may_fail : audio_generating ⟶ failed
unfolding can_transition
may_fail = refl

abbrev reviewed : RunRow
reviewed = record (new_row any 3 none script_review "running" none none "plain") {
  id = 1;
  created_at = 5;
  updated_at = 5;
}

reviewed_there : get_run 1 none (one_run script_review "running") ≡ some reviewed
unfolding get_run perform_all create_run Dict.put Dict.get
reviewed_there = refl

reviewed_valid : row_valid any reviewed ≡ true
unfolding row_valid
reviewed_valid = refl

may_plan : script_review ⟶ visual_plan_setup
unfolding can_transition
may_plan = refl

advance_stage-succeeds_example :
    advance_stage any nobody 7 1 "VISUAL_PLAN_SETUP" none (one_run script_review "running") ≡ (
      ok (mapped (touch 7 reviewed (at_stage visual_plan_setup))),
      store 1 (touch 7 reviewed (at_stage visual_plan_setup)) (one_run script_review "running"),
    )
unfolding stage_value
advance_stage-succeeds_example =
    advance_stage-succeeds any [] 7 1 none (one_run script_review "running") reviewed script_review
      visual_plan_setup reviewed_there reviewed_valid refl may_plan
