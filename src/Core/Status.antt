-- ===== src/Core/Status.antt =====
-- `ErrorCode` and `OperationStatus` of types.hpp and types.cpp.
use Prim.Native.String.{String}
use libvirtualhid.Base.{Bool, true, false, if◌then◌else◌}

pub data ErrorCode : Type 0 where
  ok : ErrorCode
  invalid_argument : ErrorCode
  backend_unavailable : ErrorCode
  device_closed : ErrorCode
  unsupported_profile : ErrorCode
  license_required : ErrorCode
  license_invalid : ErrorCode
  activation_limit_reached : ErrorCode
  network_unavailable : ErrorCode
  backend_failure : ErrorCode

pub record OperationStatus : Type 0 where
  pub code : ErrorCode
  pub message : String

abbrev pub success : OperationStatus
success = record { code = ErrorCode.ok; message = "" }

abbrev pub code_ok : ErrorCode → Bool
code_ok ErrorCode.ok = true
code_ok _ = false

abbrev pub is_ok : OperationStatus → Bool
is_ok status = code_ok status.code

abbrev pub failure : ErrorCode → String → OperationStatus
failure code message = if code_ok code then success else record { code = code; message = message }
