-- ===== src/Core/Device.antt =====
-- What the six devices of runtime.cpp share: the fields of `GamepadDevice` and the others, `close`,
-- and the pattern of `submit_touch_event`, which the other submitting methods write out. A call holds
-- the device's mutex from its start to its end, so calls are steps. `B` is the state of the backend's
-- object, `O` the creation options and `L` what the device remembers of the last events.
pub mod Laws
pub mod All
use Prim.Native.String.{String}
use libvirtualhid.Base.{ℕ, ◌+◌, ◌%◌, Bool, true, false, not, Option, none, some, if◌then◌else◌}
use libvirtualhid.Core.Status.{OperationStatus, ErrorCode, success, failure, is_ok}

pub record Device (B O L : Type 0) : Type 0 where
  pub id : ℕ
  pub options : O
  pub backend : Option B
  pub is_open : Bool
  pub last : L
  pub submitted : ℕ

module _ {B : Type 0} where
  -- A call of the backend; without a backend it succeeds.
  unfoldable pub call_backend : Option B → (B → B × OperationStatus) → Option B × OperationStatus
  call_backend none action = (none, success)
  call_backend (some b) action = let (b', status) = action b in (some b', status)

module _ {B O L : Type 0} where
  unfoldable pub close : (B → B × OperationStatus) → Device B O L → Device B O L × OperationStatus
  unfolding call_backend
  close close_backend d =
      if not d.is_open
      then (d, success)
      else (let called = call_backend d.backend close_backend in
          (record d { backend = called.0; is_open = false }, called.1))

  -- What follows a call of the backend: the event is remembered and counted if it succeeded.
  unfoldable pub record_event :
      (L → L) → Device B O L → Option B × OperationStatus → Device B O L × OperationStatus
  record_event remember d (b, status) =
      if is_ok status
      then (
        record d {
          backend = b;
          last = remember d.last;
          submitted = (d.submitted + 1) % 18446744073709551616;
        },
        success,
      )
      else (record d { backend = b }, status)

  pub submit_event :
      String → (B → B × OperationStatus) → (L → L) → Device B O L → Device B O L × OperationStatus
  unfolding call_backend record_event
  submit_event closed_message action remember d =
      if not d.is_open
      then (d, failure ErrorCode.device_closed closed_message)
      else record_event remember d (call_backend d.backend action)

  -- A method whose event was checked before the device was locked.
  pub validated :
      OperationStatus
      → Device B O L
      → Device B O L × OperationStatus
      → Device B O L × OperationStatus
  validated validation d result = if is_ok validation then result else (d, validation)
