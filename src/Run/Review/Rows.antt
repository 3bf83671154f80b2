-- ===== src/Run/Review/Rows.antt =====
-- packages/creator-service/creator_service/stage_review_service.py: the storage of reviews, and
-- `record_approval`.
use short_form_studio.Prelude.{
  ℕ, ◌+◌, ◌==◌, ltb, ◌&&◌, ◌++◌, String, Option, none, some, List, [], ◌∷◌, str_eq, if◌then◌else◌,
}
use short_form_studio.Prelude.Checked.{Result, ok, err, ◌>>=◌, ◌>>◌, require}
use short_form_studio.Errors.{Error, value_error, of_id}
use short_form_studio.Run.Stage.{RunStage, mem_stage, review_stages}
use short_form_studio.Run.Service.{to_stage}

pub record Review : Type 0 where
  pub id : ℕ
  pub created_at : ℕ
  pub run_id : ℕ
  pub stage_name : String
  pub review_status : String
  pub reviewer : String
  pub notes : Option String

pub record ReviewStorage : Type 0 where
  pub rows : List Review
  pub next_id : ℕ

-- who approves, and with what notes
pub record Approval : Type 0 where
  pub run_id : ℕ
  pub stage_name : String
  pub reviewer : String
  pub notes : Option String

unfoldable pub approved_review : ℕ → ℕ → Approval → Review
approved_review now id a = record {
  id = id;
  created_at = now;
  run_id = a.run_id;
  stage_name = a.stage_name;
  review_status = "approved";
  reviewer = a.reviewer;
  notes = a.notes;
}

-- `create_review` of an approval
unfoldable pub create_review : ℕ → Approval → ReviewStorage → Review × ReviewStorage
unfolding approved_review
create_review now a s = (
  approved_review now s.next_id a,
  record { rows = s.rows ++ approved_review now s.next_id a ∷ []; next_id = s.next_id + 1 },
)

-- the first of the reviews with the greatest time: `max` keeps the first of equals
abbrev pub later_of : Option Review → Review → Review
later_of none r = r
later_of (some best) r = if ltb best.created_at r.created_at then r else best

unfoldable pub latest : Option Review → ℕ → String → List Review → Option Review
latest best run_id stage_name [] = best
latest best run_id stage_name (r ∷ rest) =
    let better =
      if r.run_id == run_id && str_eq r.stage_name stage_name
      then some (later_of best r)
      else best in
    latest better run_id stage_name rest

unfoldable pub get_latest_review : ℕ → String → ReviewStorage → Option Review
unfolding latest
get_latest_review run_id stage_name s = latest none run_id stage_name s.rows

-- RunStage(stage_name), which has to be a review stage
unfoldable pub to_review_stage : String → Result Error RunStage
unfolding to_stage mem_stage
to_review_stage stage_name =
    to_stage stage_name (value_error (of_id "Invalid stage" stage_name)) >>= λ stage.
    require (mem_stage stage review_stages)
      (value_error (of_id "Stage is not a review stage" stage_name))
    >> ok stage

abbrev pub recorded :
    ℕ → Approval → Result Error RunStage → ReviewStorage → Result Error Review × ReviewStorage
recorded now a (err e) s = (err e, s)
recorded now a (ok stage) s = let (review, after) = create_review now a s in (ok review, after)

unfoldable pub record_approval : ℕ → Approval → ReviewStorage → Result Error Review × ReviewStorage
unfolding to_review_stage create_review
record_approval now a s = recorded now a (to_review_stage a.stage_name) s
