-- ===== src/Run/Review/Approved.antt =====
-- What an approval leaves behind: the review and the move, or neither of the two.
use short_form_studio.Prelude.{
  ℕ, String, ◌≡◌, ◌≢◌, refl, Bool, true, Option, some, List, [], ◌∷◌, ◌⊎◌,
}
use short_form_studio.Prelude.Checked.{Result, ok}
use short_form_studio.Errors.{Error}
use short_form_studio.Run.Stage.{RunStage, stage_value, parse_stage, mem_stage, review_stages}
use short_form_studio.Run.Graph.{◌⟶◌}
use short_form_studio.Run.Row.{RunRow, Update, to_current_stage}
use short_form_studio.Run.PipelineRun.{PipelineRun}
use short_form_studio.Run.Storage.{RunStorage}
use short_form_studio.Run.Operations.{perform_all}
use short_form_studio.Run.Conditional.{Accepted}
use short_form_studio.Run.Review.Rows.{Approval, ReviewStorage, create_review}
use short_form_studio.Run.Review.Approve.{Between}

module _ (valid : String → Bool) (metadata_text : Option String → Option String) (o : Between)
    (fault : Option Error) (now : ℕ) (a : Approval) (target_stage : String) (extra : List Update)
    (w : Option ℕ) (runs : RunStorage) (reviews : ReviewStorage) where
  -- The run stood at the review stage named and was not cancelled, and was moved by a permitted transition.
  pub record Advanced : Type 0 where
    pub stage : RunStage
    pub target : RunStage
    pub named : parse_stage a.stage_name ≡ some stage
    pub under_review : mem_stage stage review_stages ≡ true
    pub aimed : parse_stage target_stage ≡ some target
    pub permitted : stage ⟶ target
    pub row' : RunRow
    pub moved : RunStorage
    pub accepted :
        Accepted now a.run_id
          (to_current_stage (some (stage_value target)) ∷ extra)
          (stage_value stage ∷ [])
          w
          ("cancelled" ∷ [])
          row'
          (perform_all o.meanwhile runs)
          moved
          refl

  module _ (result : Result Error PipelineRun) (runs' : RunStorage) (reviews' : ReviewStorage) where
    -- nothing was recorded, and the approval raised; or the run was moved and its review recorded
    abbrev pub Outcome : Type 0
    Outcome =
        (((run : PipelineRun) → result ≢ ok run) × (reviews' ≡ reviews))
        ⊎ (Advanced × (reviews' ≡ (create_review now a reviews).1))
