-- ===== src/Core/Runtime/Create.antt =====
-- The `create_` methods of `Runtime` in runtime.cpp, with the results of backend.hpp. A result is a status
-- and the id of the device that the new handle is for.
pub mod Outcome
use Prim.Native.String.{String}
use Prim.Native.String
use libvirtualhid.Base.{
  ℕ, ◌+◌, ◌%◌, ◌≡◌, refl, inl, inr, ◌⊎◌, Bool, true, false, not, Option, none, some, List, [], ◌∷◌,
  ◌++◌, if◌then◌else◌, if-cases, true_of_not, arith,
}
use libvirtualhid.Core.Status.{OperationStatus, success, is_ok}
use libvirtualhid.Core.Types.{DeviceType, DeviceProfile}
use libvirtualhid.Core.Device.{Device}
use libvirtualhid.Core.Logger.{Logger, LogLevel, emit}
use libvirtualhid.Core.Options.{
  CreateGamepadOptions, CreateKeyboardOptions, CreateMouseOptions, CreateSurfaceOptions,
  validate_gamepad_options, validate_keyboard_options, validate_touchscreen_options,
  validate_trackpad_options, validate_pen_tablet_options,
}
use libvirtualhid.Core.Options.Viewport.{validate_mouse_options}
use libvirtualhid.Core.Runtime.{Options, RuntimeState, registry, with_registry}

pub record BackendCreationResult (B : Type 0) : Type 0 where
  pub status : OperationStatus
  pub device : Option B

pub record BackendGamepadCreationResult (B : Type 0) : Type 0 where
  pub status : OperationStatus
  pub gamepad : Option B
  pub effective_profile : Option DeviceProfile

abbrev pub Registered : Type 0 → (B L : DeviceType → Type 0) → DeviceType → Type 0
Registered M B L k = Device (B k) (Options M k) (L k)

abbrev pub Runtime : Type 0 → Type 0 → (B L : DeviceType → Type 0) → Type 0
Runtime M N B L = RuntimeState N (Registered M B L)

-- The backend, the memory of a new device of each type, and what the log needs.
pub record Backend (M N : Type 0) (B L : DeviceType → Type 0) : Type 0 where
  pub create_gamepad :
      N → ℕ → CreateGamepadOptions M → N × BackendGamepadCreationResult (B DeviceType.gamepad)
  pub create_keyboard :
      N → ℕ → CreateKeyboardOptions → N × BackendCreationResult (B DeviceType.keyboard)
  pub create_mouse : N → ℕ → CreateMouseOptions → N × BackendCreationResult (B DeviceType.mouse)
  pub create_touchscreen :
      N → ℕ → CreateSurfaceOptions → N × BackendCreationResult (B DeviceType.touchscreen)
  pub create_trackpad :
      N → ℕ → CreateSurfaceOptions → N × BackendCreationResult (B DeviceType.trackpad)
  pub create_pen_tablet :
      N → ℕ → CreateSurfaceOptions → N × BackendCreationResult (B DeviceType.pen_tablet)
  pub close : (k : DeviceType) → B k → B k × OperationStatus
  pub blank : (k : DeviceType) → L k
  pub throws : LogLevel → String → Bool
  pub created_mouse : ℕ → String

abbrev pub Creation : Type 0 → Type 0
Creation S = S × OperationStatus × Option ℕ

abbrev pub next_id : {N : Type 0} {D : DeviceType → Type 0} → RuntimeState N D → ℕ
next_id s = (s.next_device_id + 1) % 18446744073709551616

-- `effective_options` of `create_gamepad`.
pub with_profile :
    {M : Type 0} → CreateGamepadOptions M → Option DeviceProfile → CreateGamepadOptions M
with_profile options none = options
with_profile options (some profile) = record options { profile = profile }

module _ {B O L : Type 0} where
  -- A device that was just made.
  pub new_device : ℕ → O → B → L → Device B O L
  new_device id options b blank = record {
    id = id;
    options = options;
    backend = some b;
    is_open = true;
    last = blank;
    submitted = 0;
  }

module _ {M N : Type 0} {B L : DeviceType → Type 0} where
  -- `Runtime::create`, for a backend with the given name.
  unfoldable pub create_runtime : (LogLevel → String → Bool) → Logger → String → N → Runtime M N B L
  create_runtime throws l name n = record {
    logger = emit throws l LogLevel.info (String.◌++◌ "initialized " (String.◌++◌ name " backend"));
    backend = n;
    next_device_id = 1;
    gamepads = [];
    keyboards = [];
    mice = [];
    touchscreens = [];
    trackpads = [];
    pen_tablets = [];
  }

  -- What follows the call of the backend, for an accepted request.
  add_device :
      (k : DeviceType)
      → L k
      → ℕ
      → Options M k
      → OperationStatus
      → Option (B k)
      → Runtime M N B L
      → Creation (Runtime M N B L)
  unfolding new_device
  add_device k blank id options status none s = (s, status, none)
  add_device k blank id options status (some b) s =
      if is_ok status
      then (
        with_registry k (registry k s ++ some (new_device id options b blank) ∷ []) s,
        success,
        some id,
      )
      else (s, status, none)

  -- An id is taken, and the backend is called with it outside the lock.
  request :
      (k : DeviceType) {R : Type 0}
      → L k
      → (N → ℕ → N × R)
      → (R → OperationStatus)
      → (R → Option (B k))
      → (R → Options M k)
      → Runtime M N B L
      → Creation (Runtime M N B L)
  unfolding add_device
  request k blank create status_of device_of options_of s =
      let (n, result) = create s.backend s.next_device_id in
      add_device k blank s.next_device_id (options_of result) (status_of result) (device_of result)
        (record s { backend = n; next_device_id = next_id s })

  -- The requests of all types but gamepads.
  request_device :
      (k : DeviceType)
      → L k
      → (N → ℕ → Options M k → N × BackendCreationResult (B k))
      → Options M k
      → Runtime M N B L
      → Creation (Runtime M N B L)
  unfolding request
  request_device k blank create options s =
      request k {R = BackendCreationResult (B k)} blank (λ n id. create n id options)
        (λ r. r.status) (λ r. r.device) (λ r. options) s

  accepted :
      OperationStatus → Runtime M N B L → Creation (Runtime M N B L) → Creation (Runtime M N B L)
  accepted validation s result = if is_ok validation then result else (s, validation, none)

module _ {M N : Type 0} {B L : DeviceType → Type 0} (backend : Backend M N B L) where
  -- What `create_mouse` says of the result.
  log_creation : OperationStatus → Creation (Runtime M N B L) → Creation (Runtime M N B L)
  log_creation validation (s, status, some id) = (
    record s { logger = emit backend.throws s.logger LogLevel.info (backend.created_mouse id) },
    status,
    some id,
  )
  log_creation validation (s, status, none) =
      if is_ok validation
      then (
        record s {
          logger =
              emit backend.throws s.logger LogLevel.error
                (String.◌++◌ "mouse creation failed: " status.message);
        },
        status,
        none,
      )
      else (
        record s {
          logger =
              emit backend.throws s.logger LogLevel.warning
                (String.◌++◌ "rejected mouse creation: " validation.message);
        },
        status,
        none,
      )

  unfoldable pub validate : (k : DeviceType) → Options M k → OperationStatus
  validate DeviceType.gamepad options = validate_gamepad_options options
  validate DeviceType.keyboard options = validate_keyboard_options options
  validate DeviceType.mouse options = validate_mouse_options options
  validate DeviceType.touchscreen options = validate_touchscreen_options options
  validate DeviceType.trackpad options = validate_trackpad_options options
  validate DeviceType.pen_tablet options = validate_pen_tablet_options options

  pub create_gamepad : CreateGamepadOptions M → Runtime M N B L → Creation (Runtime M N B L)
  unfolding accepted request
  create_gamepad options s = accepted (validate_gamepad_options options) s (
      request DeviceType.gamepad {R = BackendGamepadCreationResult (B DeviceType.gamepad)}
        (backend.blank DeviceType.gamepad) (λ n id. backend.create_gamepad n id options)
        (λ r. r.status) (λ r. r.gamepad) (λ r. with_profile options r.effective_profile) s)

  pub create_keyboard : CreateKeyboardOptions → Runtime M N B L → Creation (Runtime M N B L)
  unfolding accepted request_device
  create_keyboard options s = accepted (validate_keyboard_options options) s (
      request_device DeviceType.keyboard (backend.blank DeviceType.keyboard) backend.create_keyboard
        options s)

  pub create_mouse : CreateMouseOptions → Runtime M N B L → Creation (Runtime M N B L)
  unfolding accepted request_device log_creation
  create_mouse options s =
      let validation = validate_mouse_options options in
      log_creation validation (
        accepted validation s (
          request_device DeviceType.mouse (backend.blank DeviceType.mouse) backend.create_mouse
            options s))

  pub create_touchscreen : CreateSurfaceOptions → Runtime M N B L → Creation (Runtime M N B L)
  unfolding accepted request_device
  create_touchscreen options s = accepted (validate_touchscreen_options options) s (
      request_device DeviceType.touchscreen (backend.blank DeviceType.touchscreen)
        backend.create_touchscreen options s)

  pub create_trackpad : CreateSurfaceOptions → Runtime M N B L → Creation (Runtime M N B L)
  unfolding accepted request_device
  create_trackpad options s = accepted (validate_trackpad_options options) s (
      request_device DeviceType.trackpad (backend.blank DeviceType.trackpad) backend.create_trackpad
        options s)

  pub create_pen_tablet : CreateSurfaceOptions → Runtime M N B L → Creation (Runtime M N B L)
  unfolding accepted request_device
  create_pen_tablet options s = accepted (validate_pen_tablet_options options) s (
      request_device DeviceType.pen_tablet (backend.blank DeviceType.pen_tablet)
        backend.create_pen_tablet options s)

  -- The method for a type.
  pub create : (k : DeviceType) → Options M k → Runtime M N B L → Creation (Runtime M N B L)
  unfolding create_gamepad create_keyboard create_mouse create_touchscreen create_trackpad
      create_pen_tablet
  create DeviceType.gamepad options s = create_gamepad options s
  create DeviceType.keyboard options s = create_keyboard options s
  create DeviceType.mouse options s = create_mouse options s
  create DeviceType.touchscreen options s = create_touchscreen options s
  create DeviceType.trackpad options s = create_trackpad options s
  create DeviceType.pen_tablet options s = create_pen_tablet options s
