-- ===== src/Errors.antt =====
-- The exceptions of packages/creator-domain/creator_domain/exceptions.py, with pydantic's
-- ValidationError and Python's ValueError and RuntimeError, which the services raise too.
use short_form_studio.Prelude.{ℕ, String}

-- A message: its text, with the identifier or the number that the source puts into it.
pub data Detail : Type 0 where
  text : String → Detail
  of_id : String → String → Detail
  of_number : String → ℕ → Detail

pub data Error : Type 0 where
  not_found validation provider_config conflict no_history : Detail → Error
  quota_exceeded service_unavailable data_integrity : Detail → Error
  -- resource_id, expected_version, actual_version
  version_conflict : ℕ → ℕ → ℕ → Error
  -- a pydantic ValidationError
  model_error : Error
  value_error runtime_error key_error : Detail → Error

-- `http_status_code` of a ServiceError; the other exceptions have none, and the API answers 500
unfoldable pub http_status_code : Error → ℕ
http_status_code (not_found d) = 404
http_status_code (validation d) = 400
http_status_code (provider_config d) = 400
http_status_code (conflict d) = 409
http_status_code (version_conflict r e a) = 409
http_status_code (no_history d) = 409
http_status_code (quota_exceeded d) = 429
http_status_code (service_unavailable d) = 503
http_status_code (data_integrity d) = 500
http_status_code _ = 500
