-- ===== src/Status.antt =====
-- amkv/comm/status.h and status.cc: an error code with a message.
use am_kv.Prelude.{String, Bool, true, false}

pub data ErrorCode : Type 0 where
  ok_code not_found file_error dir_error : ErrorCode

pub record Status : Type 0 where
  pub message : String
  pub code : ErrorCode

abbrev pub make_status : ErrorCode → String → Status
make_status code message = record { message = message; code = code }

abbrev pub status_ok : Status
status_ok = make_status ErrorCode.ok_code ""

-- The test `status.Code() == kOk`.
abbrev pub is_ok_code : ErrorCode → Bool
is_ok_code ErrorCode.ok_code = true
is_ok_code ErrorCode.not_found = false
is_ok_code ErrorCode.file_error = false
is_ok_code ErrorCode.dir_error = false

abbrev pub is_ok : Status → Bool
is_ok s = is_ok_code s.code
