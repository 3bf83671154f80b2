-- ===== src/Run/PipelineRun.antt =====
-- packages/creator-domain/creator_domain/models/pipeline_run.py: the run that the services return. The JSON
-- columns are kept as texts; `selection_valid` stands for the JSON parser and the
-- model of the selection, which say whether a text is accepted.
use short_form_studio.Prelude.{
  ℕ, ◌≡◌, leb, String, Bool, true, false, ◌&&◌, Option, none, some, arith, if◌then◌else◌, str_eq,
  ◌||◌, Bool-cases, string_length, inl, inr,
}
use short_form_studio.Prelude.Checked.{Result, ok, err}
use short_form_studio.Errors.{Error, model_error}
use short_form_studio.Run.Stage.{RunStage, stage_value, parse_stage}
use short_form_studio.Run.Graph.{parse_stage-stage_value}
use short_form_studio.Run.Row.{RunRow}

pub record PipelineRun : Type 0 where
  pub id : ℕ
  pub project_id : ℕ
  pub current_stage : Option RunStage
  pub status : String
  pub review_stage : Option RunStage
  pub restart_from : Option RunStage
  pub model_defaults : Option String
  pub metadata : Option String
  pub style_preset : Option String
  pub started_at : Option ℕ
  pub finished_at : Option ℕ
  pub created_at : ℕ
  pub updated_at : ℕ
  pub version : ℕ

-- a column of type RunStage | None
abbrev pub stage_of : Option String → Option RunStage
stage_of none = none
stage_of (some value) = parse_stage value

abbrev pub is_some {ℓ} : {A : Type ℓ} → Option A → Bool
is_some none = false
is_some (some _) = true

unfoldable pub stage_valid : Option String → Bool
unfolding parse_stage
stage_valid none = true
stage_valid (some value) = is_some (parse_stage value)

-- status: Literal[...]
unfoldable pub status_valid : String → Bool
status_valid status =
    str_eq status "pending"
    || str_eq status "running"
    || str_eq status "paused"
    || str_eq status "completed"
    || str_eq status "failed"
    || str_eq status "cancelled"

-- Field(default=None, max_length=100)
unfoldable pub preset_valid : Option String → Bool
preset_valid none = true
preset_valid (some preset) = leb (string_length preset) 100

unfoldable pub defaults_valid : (String → Bool) → Option String → Bool
defaults_valid selection_valid none = true
defaults_valid selection_valid (some json) = selection_valid json

unfoldable pub row_valid : (String → Bool) → RunRow → Bool
unfolding stage_valid status_valid preset_valid defaults_valid
row_valid selection_valid row =
    leb 1 row.id
    && leb 1 row.project_id
    && stage_valid row.current_stage
    && status_valid row.status
    && stage_valid row.review_stage
    && stage_valid row.restart_from
    && defaults_valid selection_valid row.model_defaults_json
    && preset_valid row.style_preset

unfoldable pub mapped : RunRow → PipelineRun
unfolding parse_stage
mapped row = record {
  id = row.id;
  project_id = row.project_id;
  current_stage = stage_of row.current_stage;
  status = row.status;
  review_stage = stage_of row.review_stage;
  restart_from = stage_of row.restart_from;
  model_defaults = row.model_defaults_json;
  metadata = row.metadata_json;
  style_preset = row.style_preset;
  started_at = row.started_at;
  finished_at = row.finished_at;
  created_at = row.created_at;
  updated_at = row.updated_at;
  version = row.version;
}

unfoldable pub from_row : (String → Bool) → RunRow → Result Error PipelineRun
unfolding row_valid mapped
from_row selection_valid row =
    if row_valid selection_valid row then ok (mapped row) else err model_error

pub from_row-returns :
    (valid : String → Bool) (row : RunRow) (run : PipelineRun)
    → from_row valid row ≡ ok run
    → (row_valid valid row ≡ true) × (mapped row ≡ run)
unfolding from_row
from_row-returns valid row run h = elim (Bool-cases (row_valid valid row)) [
  | inl e ↦ (e, ground (arith, e, h))
  | inr e ↦ absurd (ground (arith, e, h))
]

pub stage_valid-stage_value : (s : RunStage) → stage_valid (some (stage_value s)) ≡ true
unfolding stage_valid
stage_valid-stage_value s = rw (parse_stage-stage_value s)
