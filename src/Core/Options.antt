-- ===== src/Core/Options.antt =====
-- The creation options of types.hpp, and their checks of runtime.cpp. `M` is the type of a gamepad's
-- metadata.
pub mod Viewport
use Prim.Native.String.{String}
use Prim.Native.String
use libvirtualhid.Base.{
  ℕ, ◌+◌, ◌≤◌, ◌<◌, ◌≡◌, ◌↔◌, ◌⊎◌, ◌==◌, ◌&&◌, ◌||◌, Bool, true, false, not, if◌then◌else◌,
  is_empty, arith,
}
use libvirtualhid.Base.Int.{
  ℤ, pos, negsuc, ◌+ℤ◌, ◌≤ℤ◌, ltb_ℤ, leb_ℤ, pos_part, neg_part, int_laws, +ℤ_parts,
}
use libvirtualhid.Core.Status.{OperationStatus, ErrorCode, success, failure, is_ok}
use libvirtualhid.Core.Types.{DeviceProfile, DeviceType, PointerViewport}

pub record CreateGamepadOptions (M : Type 0) : Type 0 where
  pub profile : DeviceProfile
  pub metadata : M

pub record CreateKeyboardOptions : Type 0 where
  pub profile : DeviceProfile
  pub auto_repeat_interval_ms : ℕ
  pub stable_id : String

pub record CreateMouseOptions : Type 0 where
  pub profile : DeviceProfile
  pub stable_id : String
  pub desktop : PointerViewport
  pub viewport : PointerViewport

-- `CreateTouchscreenOptions`, `CreateTrackpadOptions` and `CreatePenTabletOptions` have the same fields.
pub record CreateSurfaceOptions : Type 0 where
  pub profile : DeviceProfile
  pub stable_id : String

abbrev is_empty_string : String → Bool
is_empty_string String.[] = true
is_empty_string _ = false

-- The equality of device types.
abbrev pub same_type : DeviceType → DeviceType → Bool
same_type DeviceType.gamepad DeviceType.gamepad = true
same_type DeviceType.keyboard DeviceType.keyboard = true
same_type DeviceType.mouse DeviceType.mouse = true
same_type DeviceType.touchscreen DeviceType.touchscreen = true
same_type DeviceType.trackpad DeviceType.trackpad = true
same_type DeviceType.pen_tablet DeviceType.pen_tablet = true
same_type _ _ = false

-- The two checks that begin each of the six functions.
unfoldable pub validate_profile : DeviceType → String → DeviceProfile → OperationStatus
validate_profile type message profile =
    if not (same_type profile.device_type type)
    then failure ErrorCode.unsupported_profile message
    else if is_empty_string profile.name
    then failure ErrorCode.invalid_argument "device profile name must not be empty"
    else success

unfoldable pub validate_gamepad_options : {M : Type 0} → CreateGamepadOptions M → OperationStatus
unfolding validate_profile
validate_gamepad_options options =
    let profile = options.profile in
    let validation =
      validate_profile DeviceType.gamepad "device profile is not a gamepad" profile in
    if not (is_ok validation)
    then validation
    else if is_empty profile.report_descriptor
    then failure ErrorCode.invalid_argument "device profile report descriptor must not be empty"
    else if profile.input_report_size == 0
    then failure ErrorCode.invalid_argument "device profile input report size must not be zero"
    else success

pub validate_keyboard_options : CreateKeyboardOptions → OperationStatus
unfolding validate_profile
validate_keyboard_options options =
    validate_profile DeviceType.keyboard "device profile is not a keyboard" options.profile

pub validate_touchscreen_options : CreateSurfaceOptions → OperationStatus
unfolding validate_profile
validate_touchscreen_options options =
    validate_profile DeviceType.touchscreen "device profile is not a touchscreen" options.profile

pub validate_trackpad_options : CreateSurfaceOptions → OperationStatus
unfolding validate_profile
validate_trackpad_options options =
    validate_profile DeviceType.trackpad "device profile is not a trackpad" options.profile

pub validate_pen_tablet_options : CreateSurfaceOptions → OperationStatus
unfolding validate_profile
validate_pen_tablet_options options =
    validate_profile DeviceType.pen_tablet "device profile is not a pen tablet" options.profile
