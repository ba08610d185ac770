-- ===== src/Core/Gamepad.antt =====
-- `Gamepad` of runtime.cpp. `F` is the type of floats, `K` of output callbacks, `M` of metadata.
use libvirtualhid.Base.{
  ℕ, ◌≡◌, true, not, Option, none, some, List, is_empty, if◌then◌else◌, if-cases, true_of_not,
  arith,
}
use libvirtualhid.Core.Status.{OperationStatus, ErrorCode, success, failure, is_ok}
use libvirtualhid.Core.Types.{GamepadState, DeviceProfile}
use libvirtualhid.Core.Options.{CreateGamepadOptions}
use libvirtualhid.Core.Device.{Device, call_backend, close, record_event}
use libvirtualhid.Core.Device.Laws.{IsLawful, unchanged-IsLawful, recorded-IsLawful}

pub record BackendGamepad (B F K : Type 0) : Type 0 where
  pub submit : B → GamepadState F → List ℕ → B × OperationStatus
  pub set_output_callback : B → Option K → B
  pub close : B → B × OperationStatus

-- What a gamepad uses of report.cpp.
pub record Reports (F : Type 0) : Type 0 where
  pub pack_input_report : DeviceProfile → GamepadState F → List ℕ
  pub normalize_state : GamepadState F → GamepadState F

pub record GamepadMemory (F K : Type 0) : Type 0 where
  pub last_state : GamepadState F
  pub last_report : List ℕ
  pub output_callback : Option K

abbrev pub GamepadDevice : Type 0 → Type 0 → Type 0 → Type 0 → Type 0
GamepadDevice B M F K = Device B (CreateGamepadOptions M) (GamepadMemory F K)

set_backend_callback : {B F K : Type 0} → BackendGamepad B F K → Option B → Option K → Option B
set_backend_callback backend none callback = none
set_backend_callback backend (some b) callback = some (backend.set_output_callback b callback)

module _ {B M F K : Type 0} (reports : Reports F) (backend : BackendGamepad B F K) where
  -- What is left of `submit` for a report that was packed.
  unfoldable pub submit_report :
      GamepadDevice B M F K → GamepadState F → List ℕ → GamepadDevice B M F K × OperationStatus
  submit_report d normalized report =
      record_event (λ l. record l { last_state = normalized; last_report = report }) d
        (call_backend d.backend (λ b. backend.submit b normalized report))

  unfoldable pub submit :
      GamepadDevice B M F K → GamepadState F → GamepadDevice B M F K × OperationStatus
  unfolding submit_report
  submit d state =
      let report = reports.pack_input_report d.options.profile state in
      if not d.is_open
      then (d, failure ErrorCode.device_closed "gamepad is closed")
      else if is_empty report
      then (d, failure ErrorCode.backend_failure "failed to pack gamepad input report")
      else submit_report d (reports.normalize_state state) report

  unfoldable pub close_gamepad : GamepadDevice B M F K → GamepadDevice B M F K × OperationStatus
  close_gamepad d = close backend.close d

  -- No check that the gamepad is open.
  pub set_output_callback : GamepadDevice B M F K → Option K → GamepadDevice B M F K
  unfolding set_backend_callback
  set_output_callback d callback = record d {
    last = record d.last { output_callback = callback };
    backend = set_backend_callback backend d.backend callback;
  }

  -- The status, and the callback that is called with the output once the lock is released.
  pub dispatch_output : GamepadDevice B M F K → OperationStatus × Option K
  dispatch_output d =
      if not d.is_open
      then (failure ErrorCode.device_closed "gamepad is closed", none)
      else (success, d.last.output_callback)

  -- A submission to a gamepad keeps its id and options, leaves a closed gamepad
  -- exactly as it is, backend included, and leaves what the gamepad remembers and the count if it fails; the
  -- count stays or, modulo 2^64, grows by one.
  pub submit-IsLawful :
      (d : GamepadDevice B M F K) (state : GamepadState F) → IsLawful d (submit d state)
  unfolding submit
  submit-IsLawful d state =
      let normalized = reports.normalize_state state in
      let report = reports.pack_input_report d.options.profile state in
      if-cases (IsLawful d) (not d.is_open) (λ _. unchanged-IsLawful d _)
        (λ opened.
          if-cases (IsLawful d) (is_empty report) (λ _. unchanged-IsLawful d _)
            (λ _. recorded-IsLawful _ d _ (true_of_not d.is_open opened)))

  -- A report that the gamepad accepted is of the state that it remembers.
  pub submit-records :
      (d : GamepadDevice B M F K) (state : GamepadState F)
      → is_ok (submit d state).1 ≡ true
      → (submit d state).0.last.last_state ≡ reports.normalize_state state
  unfolding submit submit_report record_event
  submit-records d state h = ground arith
