-- ===== src/Core/Tests.antt =====
-- Concrete backends, devices and events for the properties of the core. A backend's object is a number
-- that its calls add to, and floats, callbacks and metadata are numbers.
mod Devices
mod Runtimes
mod Adapters
mod Buttons
pub mod Packing
use Prim.Native.String.{String}
use libvirtualhid.Base.{
  ℕ, ◌+◌, ◌==◌, if◌then◌else◌, Bool, true, false, Option, none, some, List, [], ◌∷◌,
}
use libvirtualhid.Base.Int.{ℤ, pos}
use libvirtualhid.Core.Status.{OperationStatus, ErrorCode, success, failure}
use libvirtualhid.Core.Types.{
  BusType, DeviceType, DeviceProfile, GamepadProfileCapabilities, GamepadProfileKind, GamepadState,
  GamepadTouchContact, Stick, PointerViewport,
}
use libvirtualhid.Core.Device.{Device}
use libvirtualhid.Core.Gamepad.{BackendGamepad, Reports, GamepadDevice}
use libvirtualhid.Core.Options.{CreateGamepadOptions}

-- Every call succeeds but the one at 3.
abbrev pub count_call : ℕ → ℕ × OperationStatus
count_call n = if n == 3 then (n, failure ErrorCode.backend_failure "three") else (n + 1, success)

module _ {O L : Type 0} where
  abbrev pub device : O → L → Bool → ℕ → Device ℕ O L
  device options last is_open calls = record {
    id = 7;
    options = options;
    backend = some calls;
    is_open = is_open;
    last = last;
    submitted = 2;
  }

abbrev pub capabilities : GamepadProfileCapabilities
capabilities = record {
  supports_rumble = true;
  supports_trigger_rumble = false;
  supports_motion = false;
  supports_touchpad = true;
  supports_rgb_led = false;
  supports_battery = true;
  supports_adaptive_triggers = false;
  supports_player_leds = false;
}

abbrev pub profile : DeviceType → DeviceProfile
profile type = record {
  device_type = type;
  gamepad_kind = GamepadProfileKind.xbox_360;
  bus_type = BusType.usb;
  vendor_id = 3;
  product_id = 4;
  version = 1;
  report_id = 1;
  input_report_size = 2;
  output_report_size = 0;
  name = "pad";
  manufacturer = "maker";
  report_descriptor = 5 ∷ [];
  capabilities = capabilities;
}

abbrev pub centre : Stick ℕ
centre = record { x = 0; y = 0 }

abbrev pub no_contact : GamepadTouchContact ℕ
no_contact = record { id = 0; active = false; x = 0; y = 0 }

abbrev pub pad_state : GamepadState ℕ
pad_state = record {
  buttons = 1;
  left_stick = centre;
  right_stick = centre;
  left_trigger = 9;
  right_trigger = 0;
  acceleration = none;
  gyroscope = none;
  battery = none;
  touchpad_contacts = no_contact ∷ no_contact ∷ [];
}

-- Triggers are held to 5.
abbrev pub reports : Reports ℕ
reports = record {
  pack_input_report = λ p s. s.buttons ∷ s.left_trigger ∷ [];
  normalize_state = λ s. record s { left_trigger = 5 };
}

abbrev pub pad_backend : BackendGamepad ℕ ℕ ℕ
pad_backend = record {
  submit = λ b s r. count_call b;
  set_output_callback = λ b k. b;
  close = λ b. count_call b;
}

abbrev pub pad : Bool → ℕ → GamepadDevice ℕ ℕ ℕ ℕ
pad is_open calls = record {
  id = 7;
  options = record { profile = profile DeviceType.gamepad; metadata = 0 };
  backend = some calls;
  is_open = is_open;
  last = record { last_state = pad_state; last_report = []; output_callback = none };
  submitted = 2;
}

abbrev pub view : ℕ → ℕ → PointerViewport
view offset width = record {
  offset_x = pos offset;
  offset_y = pos offset;
  width = pos width;
  height = pos width;
}
