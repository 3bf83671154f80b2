-- ===== src/Run/Storage.antt =====
-- packages/creator-service/creator_service/run_service.py: `InMemoryRunStorage`. Each method runs to its end with no other task between, since it never
-- suspends; `now` is the clock's reading.
use short_form_studio.Prelude.{
  ℕ, ◌+◌, ◌==◌, ltb, length, String, Bool, true, false, not, ◌&&◌, ◌||◌, Option, none, some, List,
  [], ◌∷◌, str_eq, if◌then◌else◌,
}
use short_form_studio.Prelude.Checked.{Result, ok, err}
use short_form_studio.Prelude.Dict
use short_form_studio.Errors.{Error, conflict, value_error, text, of_number}
use short_form_studio.Run.Row.{RunRow, Update, to_model_defaults_json, all_updatable, touch}

pub record RunStorage : Type 0 where
  pub rows : List (ℕ × RunRow)
  pub next_id : ℕ
  -- `project_status_checker`, applied to a project's id
  pub project_status : Option (ℕ → String)

-- `__init__`
abbrev pub empty : RunStorage
empty = record { rows = []; next_id = 1; project_status = none }

unfoldable pub is_deleting : Option (ℕ → String) → ℕ → Bool
is_deleting none project_id = false
is_deleting (some status) project_id = str_eq (status project_id) "deleting"

-- the stored row: `saved`, with the id, the times and the version of a new row
unfoldable pub saved_run : ℕ → ℕ → RunRow → RunRow
saved_run now id row = record row { id = id; created_at = now; updated_at = now }

unfoldable pub create_run : ℕ → RunRow → RunStorage → Result Error RunRow × RunStorage
unfolding is_deleting saved_run
create_run now row s =
    if is_deleting s.project_status row.project_id
    then (
      err (conflict (of_number "Project is being deleted; cannot create new runs" row.project_id)),
      s,
    )
    else (
      ok (saved_run now s.next_id row),
      record s {
        rows = Dict.put s.next_id (saved_run now s.next_id row) s.rows;
        next_id = s.next_id + 1;
      },
    )

-- workspace_id is not None and row.get("workspace_id") != workspace_id
unfoldable pub other_workspace : Option ℕ → RunRow → Bool
other_workspace none row = false
other_workspace (some w) row = elim row.workspace_id [ none ↦ true | some v ↦ not (v == w) ]

unfoldable pub visible : Option ℕ → Option RunRow → Option RunRow
unfolding other_workspace
visible w none = none
visible w (some row) = if other_workspace w row then none else some row

unfoldable pub get_run : ℕ → Option ℕ → RunStorage → Option RunRow
unfolding visible
get_run run_id w s = visible w (Dict.get run_id s.rows)

abbrev pub store : ℕ → RunRow → RunStorage → RunStorage
store run_id row s = record s { rows = Dict.put run_id row s.rows }

-- expected_version is not None and current_version != expected_version
unfoldable pub stale : Option ℕ → RunRow → Bool
stale none row = false
stale (some v) row = not (row.version == v)

abbrev pub is_empty : List Update → Bool
is_empty [] = true
is_empty (_ ∷ _) = false

-- `update_run` on the row that it found
unfoldable pub update_found :
    ℕ → ℕ → List Update → Option ℕ → RunRow → RunStorage → Result Error (Option RunRow) × RunStorage
unfolding stale touch
update_found now run_id updates expected row s =
    if stale expected row
    then (ok none, s)
    else if is_empty updates
    then (ok (some row), s)
    else (ok (some (touch now row updates)), store run_id (touch now row updates) s)

abbrev pub not_found : ℕ → Error
not_found run_id = value_error (of_number "Run not found" run_id)

abbrev pub invalid_columns : Error
invalid_columns = value_error (text "Invalid update columns")

abbrev pub update_visible :
    ℕ
    → ℕ
    → List Update
    → Option ℕ
    → Option RunRow
    → RunStorage
    → Result Error (Option RunRow) × RunStorage
update_visible now run_id updates expected none s = (err (not_found run_id), s)
update_visible now run_id updates expected (some row) s =
    update_found now run_id updates expected row s

unfoldable pub update_run :
    ℕ
    → ℕ
    → List Update
    → Option ℕ
    → Option ℕ
    → RunStorage
    → Result Error (Option RunRow) × RunStorage
unfolding all_updatable get_run update_found
update_run now run_id updates w expected s =
    if not (all_updatable updates)
    then (err invalid_columns, s)
    else update_visible now run_id updates expected (get_run run_id w s) s

-- row.get("current_stage") in expected_stages
unfoldable pub mem_text : String → List String → Bool
mem_text x [] = false
mem_text x (y ∷ rest) = str_eq x y || mem_text x rest

unfoldable pub stage_expected : Option String → List String → Bool
unfolding mem_text
stage_expected none stages = false
stage_expected (some s) stages = mem_text s stages

-- `conditional_update_run` on the row that it found; no set of rejected statuses is the empty one
unfoldable pub conditional_found :
    ℕ
    → ℕ
    → List Update
    → List String
    → List String
    → RunRow
    → RunStorage
    → (Bool × Option RunRow) × RunStorage
unfolding stage_expected mem_text touch
conditional_found now run_id updates stages rejected row s =
    if not (stage_expected row.current_stage stages)
    then ((false, some row), s)
    else if mem_text row.status rejected
    then ((false, some row), s)
    else if is_empty updates
    then ((true, some row), s)
    else ((true, some (touch now row updates)), store run_id (touch now row updates) s)

abbrev pub conditional_visible :
    ℕ
    → ℕ
    → List Update
    → List String
    → List String
    → Option RunRow
    → RunStorage
    → (Bool × Option RunRow) × RunStorage
conditional_visible now run_id updates stages rejected none s = ((false, none), s)
conditional_visible now run_id updates stages rejected (some row) s =
    conditional_found now run_id updates stages rejected row s

unfoldable pub conditional_update_run :
    ℕ
    → ℕ
    → List Update
    → List String
    → Option ℕ
    → List String
    → RunStorage
    → Result Error (Bool × Option RunRow) × RunStorage
unfolding all_updatable get_run conditional_found
conditional_update_run now run_id updates stages w rejected s =
    if not (all_updatable updates)
    then (err invalid_columns, s)
    else let (answer, after) =
        conditional_visible now run_id updates stages rejected (get_run run_id w s) s in
      (ok answer, after)

-- [row for row in rows if test(row)], newest first: sorted by id, descending; two rows of one id
-- do not occur
unfoldable pub insert_newest : RunRow → List RunRow → List RunRow
insert_newest row [] = row ∷ []
insert_newest row (r ∷ rest) =
    if ltb row.id r.id then r ∷ insert_newest row rest else row ∷ r ∷ rest

unfoldable pub newest_first : (RunRow → Bool) → List (ℕ × RunRow) → List RunRow
unfolding insert_newest
newest_first test [] = []
newest_first test ((k, row) ∷ rest) =
    let others = newest_first test rest in if test row then insert_newest row others else others

abbrev pub of_project : ℕ → Option ℕ → RunRow → Bool
of_project project_id w row = row.project_id == project_id && not (other_workspace w row)

unfoldable pub list_runs_by_project : ℕ → Option ℕ → RunStorage → List RunRow
unfolding newest_first other_workspace
list_runs_by_project project_id w s = newest_first (of_project project_id w) s.rows

abbrev pub of_workspace : ℕ → RunRow → Bool
of_workspace w row = elim row.workspace_id [ none ↦ false | some v ↦ v == w ]

unfoldable pub list_runs_by_workspace : ℕ → RunStorage → List RunRow
unfolding newest_first
list_runs_by_workspace w s = newest_first (of_workspace w) s.rows

abbrev pub delete_visible : ℕ → Option RunRow → RunStorage → Bool × RunStorage
delete_visible run_id none s = (false, s)
delete_visible run_id (some row) s = (true, record s { rows = Dict.remove run_id s.rows })

unfoldable pub delete_run : ℕ → Option ℕ → RunStorage → Bool × RunStorage
unfolding get_run
delete_run run_id w s = delete_visible run_id (get_run run_id w s) s

-- `merge_model_defaults`, with the JSON text that the merge gives for the row's
abbrev pub merge_visible :
    ℕ → ℕ → (Option String → String) → Option RunRow → RunStorage → Result Error RunRow × RunStorage
merge_visible now run_id merge none s = (err (not_found run_id), s)
merge_visible now run_id merge (some row) s =
    let row' = touch now row (to_model_defaults_json (some (merge row.model_defaults_json)) ∷ []) in
    (ok row', store run_id row' s)

unfoldable pub merge_model_defaults :
    ℕ → ℕ → (Option String → String) → Option ℕ → RunStorage → Result Error RunRow × RunStorage
unfolding get_run touch
merge_model_defaults now run_id merge w s = merge_visible now run_id merge (get_run run_id w s) s

-- [rid for rid, r in rows if r.get("project_id") == project_id]
unfoldable pub ids_of_project : ℕ → List (ℕ × RunRow) → List ℕ
ids_of_project project_id [] = []
ids_of_project project_id ((k, row) ∷ rest) =
    let others = ids_of_project project_id rest in
    if row.project_id == project_id then k ∷ others else others

-- for rid in ids: del rows[rid]
unfoldable pub remove_all : List ℕ → List (ℕ × RunRow) → List (ℕ × RunRow)
remove_all [] rows = rows
remove_all (k ∷ ids) rows = remove_all ids (Dict.remove k rows)

unfoldable pub delete_runs_by_project : ℕ → RunStorage → ℕ × RunStorage
unfolding ids_of_project remove_all
delete_runs_by_project project_id s =
    let ids = ids_of_project project_id s.rows in
    (length ids, record s { rows = remove_all ids s.rows })
