-- ===== src/Windows/Control.antt =====
-- The requests that the client makes, of control_protocol.hpp.
use Prim.Native.Nat.{bit_or}
use libvirtualhid.Base.{
  ℕ, ◌-◌, ◌&&◌, Bool, true, false, List, [], ◌∷◌, length, replicate, take, min, if◌then◌else◌,
}
use Prim.Native.String.{String}
use libvirtualhid.Core.Types.{
  BusType, DeviceType, GamepadProfileKind, GamepadProfileCapabilities, DeviceProfile,
}
use libvirtualhid.Shared.SwitchPro.{copy_to}
use libvirtualhid.Windows.Protocol.{
  CreateDeviceRequest, bus_unknown, bus_usb, bus_bluetooth, device_gamepad, device_keyboard,
  device_mouse, gamepad_generic, gamepad_xbox_360, gamepad_xbox_one, gamepad_xbox_series,
  gamepad_dualsense, gamepad_switch_pro, gamepad_dualshock4, control_protocol_version,
  max_report_descriptor_size, max_input_report_size, max_output_report_size, max_device_name_size,
  max_manufacturer_size, max_stable_id_size, flag_supports_rumble, flag_supports_motion,
  flag_supports_touchpad, flag_supports_rgb_led, flag_supports_battery,
  flag_supports_adaptive_triggers, create_device_request_size,
}
use libvirtualhid.Windows.PidFeatures.Descriptor.{make_generic_pid_report_descriptor}

abbrev pub add_flag : Bool → ℕ → ℕ → ℕ
add_flag supported flag flags = if supported then bit_or flags flag else flags

abbrev pub gamepad_flags : GamepadProfileCapabilities → ℕ
gamepad_flags capabilities =
    add_flag capabilities.supports_adaptive_triggers flag_supports_adaptive_triggers (
      add_flag capabilities.supports_battery flag_supports_battery (
        add_flag capabilities.supports_rgb_led flag_supports_rgb_led (
          add_flag capabilities.supports_touchpad flag_supports_touchpad (
            add_flag capabilities.supports_motion flag_supports_motion
              (add_flag capabilities.supports_rumble flag_supports_rumble 0)))))

abbrev pub protocol_bus_type : BusType → ℕ
protocol_bus_type BusType.usb = bus_usb
protocol_bus_type BusType.bluetooth = bus_bluetooth
protocol_bus_type BusType.unknown = bus_unknown

abbrev pub protocol_device_type : DeviceType → ℕ
protocol_device_type DeviceType.gamepad = device_gamepad
protocol_device_type DeviceType.keyboard = device_keyboard
protocol_device_type DeviceType.mouse = device_mouse
protocol_device_type _ = 0

abbrev pub protocol_gamepad_kind : GamepadProfileKind → ℕ
protocol_gamepad_kind GamepadProfileKind.generic = gamepad_generic
protocol_gamepad_kind GamepadProfileKind.xbox_360 = gamepad_xbox_360
protocol_gamepad_kind GamepadProfileKind.xbox_one = gamepad_xbox_one
protocol_gamepad_kind GamepadProfileKind.xbox_series = gamepad_xbox_series
protocol_gamepad_kind GamepadProfileKind.dualshock4 = gamepad_dualshock4
protocol_gamepad_kind GamepadProfileKind.dualsense = gamepad_dualsense
protocol_gamepad_kind GamepadProfileKind.switch_pro = gamepad_switch_pro

-- An array of `size` characters with a text in it, and the number of characters copied.
unfoldable pub copy_string : ℕ → List ℕ → List ℕ × ℕ
copy_string size source =
    let copied = min (length source) (size - 1) in
    (copy_to (replicate size 0) 0 (take copied source), copied)

unfoldable pub copy_bytes : ℕ → List ℕ → List ℕ × ℕ
copy_bytes size source =
    let copied = min (length source) size in
    (copy_to (replicate size 0) 0 (take copied source), copied)

abbrev pub is_gamepad : DeviceType → Bool
is_gamepad DeviceType.gamepad = true
is_gamepad _ = false

abbrev pub is_generic : GamepadProfileKind → Bool
is_generic GamepadProfileKind.generic = true
is_generic _ = false

abbrev pub is_xbox_series : GamepadProfileKind → Bool
is_xbox_series GamepadProfileKind.xbox_series = true
is_xbox_series _ = false

-- The descriptor of force feedback reports, if it is used and not empty.
abbrev pub pid_descriptor : DeviceProfile → List ℕ
pid_descriptor profile =
    if is_gamepad profile.device_type
      && is_generic profile.gamepad_kind
      && profile.capabilities.supports_rumble
    then make_generic_pid_report_descriptor profile.report_descriptor
    else []

abbrev pub is_empty : List ℕ → Bool
is_empty [] = true
is_empty (x ∷ xs) = false

abbrev pub is_series_gamepad : DeviceProfile → Bool
is_series_gamepad profile = is_gamepad profile.device_type && is_xbox_series profile.gamepad_kind

-- The bytes of a text, std::string's, are a parameter.
unfoldable pub make_create_device_request :
    (String → List ℕ) → ℕ → DeviceProfile → String → CreateDeviceRequest
make_create_device_request text device_id profile stable_id =
    let pid = pid_descriptor profile in
    let is_series = is_series_gamepad profile in
    let descriptor =
      copy_bytes max_report_descriptor_size
        (if is_empty pid then profile.report_descriptor else pid) in
    let output_report_size = if is_empty pid then profile.output_report_size else 22 in
    let name = copy_string max_device_name_size (text profile.name) in
    let manufacturer = copy_string max_manufacturer_size (text profile.manufacturer) in
    let stable = copy_string max_stable_id_size (text stable_id) in
    record {
      version = control_protocol_version;
      size = create_device_request_size;
      client_device_id = device_id;
      device_type = protocol_device_type profile.device_type;
      bus_type = protocol_bus_type profile.bus_type;
      gamepad_kind = protocol_gamepad_kind profile.gamepad_kind;
      flags = if is_gamepad profile.device_type then gamepad_flags profile.capabilities else 0;
      hardware_ids = record {
        vendor_id = profile.vendor_id;
        product_id = if is_series then 0x0B12 else profile.product_id;
        device_version = if is_series then 0x0509 else profile.version;
        report_id = profile.report_id;
        reserved = replicate 7 0;
      };
      report_sizes = record {
        input_report_size =
            min (if is_series then 17 else profile.input_report_size) max_input_report_size;
        output_report_size =
            min (if is_series then 8 else output_report_size) max_output_report_size;
        report_descriptor_size = descriptor.1;
        name_size = name.1;
        manufacturer_size = manufacturer.1;
        stable_id_size = stable.1;
      };
      report_descriptor = descriptor.0;
      name = name.0;
      manufacturer = manufacturer.0;
      stable_id = stable.0;
    }
