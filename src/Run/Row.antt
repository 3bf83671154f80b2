-- ===== src/Run/Row.antt =====
-- packages/creator-service/creator_service/run_service.py and run_update_columns.py: the row of a run
-- and its columns. The columns with JSON texts are kept as texts.
use short_form_studio.Prelude.{ℕ, ◌+◌, String, Bool, true, false, ◌&&◌, Option, List, [], ◌∷◌}

pub record RunRow : Type 0 where
  pub id : ℕ
  pub project_id : ℕ
  pub workspace_id : Option ℕ
  pub current_stage : Option String
  pub status : String
  pub review_stage : Option String
  pub restart_from : Option String
  pub model_defaults_json : Option String
  pub metadata_json : Option String
  pub style_preset : Option String
  pub started_at : Option ℕ
  pub finished_at : Option ℕ
  pub created_at : ℕ
  pub updated_at : ℕ
  pub version : ℕ

-- one entry of `updates`: an updatable column with its new value, or any other column
pub data Update : Type 0 where
  to_current_stage to_review_stage to_restart_from : Option String → Update
  to_model_defaults_json to_metadata_json to_style_preset : Option String → Update
  to_status : String → Update
  to_started_at to_finished_at : Option ℕ → Update
  to_column : String → Update

-- key in UPDATABLE_RUN_COLUMNS
unfoldable pub is_updatable : Update → Bool
is_updatable (to_column name) = false
is_updatable _ = true

unfoldable pub all_updatable : List Update → Bool
unfolding is_updatable
all_updatable [] = true
all_updatable (u ∷ rest) = is_updatable u && all_updatable rest

unfoldable pub update_column : RunRow → Update → RunRow
update_column row (to_current_stage v) = record row { current_stage = v }
update_column row (to_review_stage v) = record row { review_stage = v }
update_column row (to_restart_from v) = record row { restart_from = v }
update_column row (to_model_defaults_json v) = record row { model_defaults_json = v }
update_column row (to_metadata_json v) = record row { metadata_json = v }
update_column row (to_style_preset v) = record row { style_preset = v }
update_column row (to_status v) = record row { status = v }
update_column row (to_started_at v) = record row { started_at = v }
update_column row (to_finished_at v) = record row { finished_at = v }
update_column row (to_column name) = row

-- row.update(updates)
unfoldable pub update_columns : RunRow → List Update → RunRow
unfolding update_column
update_columns row [] = row
update_columns row (u ∷ rest) = update_columns (update_column row u) rest

-- row.update(updates), the next version and the time of the update
unfoldable pub touch : ℕ → RunRow → List Update → RunRow
unfolding update_columns
touch now row updates = record (update_columns row updates) {
  version = row.version + 1;
  updated_at = now;
}
