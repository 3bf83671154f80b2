-- ===== src/Tasks/Rollback.antt =====
-- A run is rolled back only for its newest task.
use short_form_studio.Prelude.Dict
use short_form_studio.Prelude.Dict.{get-put}
