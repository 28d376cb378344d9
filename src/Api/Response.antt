-- ===== src/Api/Response.antt =====
-- api/response.go: the answer to an error of the service. The errors are told apart as `errors.As` and
-- `errors.Is` do it; the text of the message is left out.
pub mod Failures
use edge_rollout_control_ser.Base.{ℕ, List, [], Str, bytes}
use edge_rollout_control_ser.Base.Int.{ℤ}
use edge_rollout_control_ser.Store.{
  Error, validation, invalid_argument, not_found, conflict, invalid_state,
}

pub record ApiError : Type 0 where
  pub status : ℕ
  pub code : Str
  pub field : Str

pub record PageMeta : Type 0 where
  pub limit : ℤ
  pub offset : ℤ
  pub count : ℕ
  pub total : ℕ

abbrev answer_with : ℕ → Str → ApiError
answer_with status code = record { status = status; code = code; field = [] }

-- The repository's own `not found`, a violated constraint and a failure of the database are none of
-- the service's errors.
unfoldable pub write_error : Error → ApiError
write_error (validation field) = record {
  status = 400;
  code = bytes "validation_error";
  field = field;
}
write_error invalid_argument = answer_with 400 (bytes "invalid_argument")
write_error not_found = answer_with 404 (bytes "not_found")
write_error conflict = answer_with 409 (bytes "conflict")
write_error invalid_state = answer_with 409 (bytes "invalid_state")
write_error Error.repository_not_found = answer_with 500 (bytes "internal_error")
write_error Error.invalid_entity = answer_with 500 (bytes "internal_error")
write_error Error.constraint = answer_with 500 (bytes "internal_error")
write_error Error.database = answer_with 500 (bytes "internal_error")
write_error Error.delivery_failed = answer_with 500 (bytes "internal_error")
write_error Error.panic = answer_with 500 (bytes "internal_error")
