-- ===== src/Core/Runtime.antt =====
-- `RuntimeState` and `Runtime` of runtime.cpp. `B k`, `L k` and `N` are the states of a backend's device
-- of type k, of what a device remembers, and of the backend. The runtime holds weak pointers: `none`
-- in a registry is a device whose handle is gone. A handle is the id of its device.
pub mod Registry
pub mod Create
pub mod Unique
pub mod Runs
pub mod Active
use Prim.Native.String.{String}
use Prim.Native.String
use libvirtualhid.Base.{
  ℕ, ◌+◌, ◌%◌, Bool, true, false, not, Option, none, some, List, [], ◌∷◌, ◌++◌, if◌then◌else◌,
}
use libvirtualhid.Core.Status.{OperationStatus, success, is_ok}
use libvirtualhid.Core.Types.{DeviceType, DeviceProfile}
use libvirtualhid.Core.Device.{Device}
use libvirtualhid.Core.Logger.{Logger, LogLevel, emit}
use libvirtualhid.Core.Options.{
  CreateGamepadOptions, CreateKeyboardOptions, CreateMouseOptions, CreateSurfaceOptions,
  validate_gamepad_options, validate_keyboard_options, validate_touchscreen_options,
  validate_trackpad_options, validate_pen_tablet_options,
}
use libvirtualhid.Core.Options.Viewport.{validate_mouse_options}

-- The creation options of each type of device.
abbrev pub Options : Type 0 → DeviceType → Type 0
Options M DeviceType.gamepad = CreateGamepadOptions M
Options M DeviceType.keyboard = CreateKeyboardOptions
Options M DeviceType.mouse = CreateMouseOptions
Options M DeviceType.touchscreen = CreateSurfaceOptions
Options M DeviceType.trackpad = CreateSurfaceOptions
Options M DeviceType.pen_tablet = CreateSurfaceOptions

-- The six registries.
pub record RuntimeState (N : Type 0) (D : DeviceType → Type 0) : Type 0 where
  pub logger : Logger
  pub backend : N
  pub next_device_id : ℕ
  pub gamepads : List (Option (D DeviceType.gamepad))
  pub keyboards : List (Option (D DeviceType.keyboard))
  pub mice : List (Option (D DeviceType.mouse))
  pub touchscreens : List (Option (D DeviceType.touchscreen))
  pub trackpads : List (Option (D DeviceType.trackpad))
  pub pen_tablets : List (Option (D DeviceType.pen_tablet))

module _ {N : Type 0} {D : DeviceType → Type 0} where
  -- A registry, and the state with another one.
  abbrev pub registry : (k : DeviceType) → RuntimeState N D → List (Option (D k))
  registry DeviceType.gamepad s = s.gamepads
  registry DeviceType.keyboard s = s.keyboards
  registry DeviceType.mouse s = s.mice
  registry DeviceType.touchscreen s = s.touchscreens
  registry DeviceType.trackpad s = s.trackpads
  registry DeviceType.pen_tablet s = s.pen_tablets

  abbrev pub with_registry :
      (k : DeviceType) → List (Option (D k)) → RuntimeState N D → RuntimeState N D
  with_registry DeviceType.gamepad r s = record s { gamepads = r }
  with_registry DeviceType.keyboard r s = record s { keyboards = r }
  with_registry DeviceType.mouse r s = record s { mice = r }
  with_registry DeviceType.touchscreen r s = record s { touchscreens = r }
  with_registry DeviceType.trackpad r s = record s { trackpads = r }
  with_registry DeviceType.pen_tablet r s = record s { pen_tablets = r }
