-- ===== src/Core/Profiles.antt =====
-- The built-in device profiles of profiles.cpp. A field that the code leaves alone has the default of
-- types.hpp.
pub mod Generic
pub mod Hex
pub mod Dualshock4Usb
pub mod Dualshock4Bluetooth
pub mod DualsenseUsb
pub mod DualsenseBluetooth
pub mod Capabilities
pub mod Hid
pub mod Sizes
pub mod Laws
use Prim.Native.String.{String}
use libvirtualhid.Base.{ℕ, ◌+◌, Bool, true, false, Option, some, List, [], ◌∷◌, if◌then◌else◌}
use libvirtualhid.Core.Types.{
  BusType, DeviceProfile, DeviceType, GamepadProfileKind, GamepadProfileCapabilities,
}
use libvirtualhid.Core.Profiles.Generic.{
  common_axis_count, make_gamepad_report_descriptor, make_standard_gamepad_report_descriptor,
}
use libvirtualhid.Core.Profiles.Hex.{
  make_xbox_gip_report_descriptor, make_switch_pro_report_descriptor,
}
use libvirtualhid.Core.Profiles.Dualshock4Usb.{make_dualshock4_usb_report_descriptor}
use libvirtualhid.Core.Profiles.Dualshock4Bluetooth.{make_dualshock4_bluetooth_report_descriptor}
use libvirtualhid.Core.Profiles.DualsenseUsb.{make_dualsense_usb_report_descriptor}
use libvirtualhid.Core.Profiles.DualsenseBluetooth.{make_dualsense_bluetooth_report_descriptor}
use libvirtualhid.Core.Profiles.Capabilities

abbrev common_report_size : ℕ
common_report_size = 1 + 2 + common_axis_count

abbrev pid_rumble_payload_size : ℕ
pid_rumble_payload_size = 8

-- `bus_type == BusType::bluetooth`.
abbrev pub is_bluetooth : BusType → Bool
is_bluetooth BusType.bluetooth = true
is_bluetooth _ = false

abbrev make_base_gamepad_profile :
    GamepadProfileKind → String → String → ℕ → ℕ → ℕ → GamepadProfileCapabilities → DeviceProfile
make_base_gamepad_profile kind name manufacturer vendor_id product_id version capabilities =
    record {
      device_type = DeviceType.gamepad;
      gamepad_kind = kind;
      bus_type = BusType.usb;
      vendor_id = vendor_id;
      product_id = product_id;
      version = version;
      report_id = 1;
      input_report_size = common_report_size;
      output_report_size = if capabilities.supports_rumble then 5 else 0;
      name = name;
      manufacturer = manufacturer;
      report_descriptor = [];
      capabilities = capabilities;
    }

abbrev make_gamepad_profile :
    GamepadProfileKind → String → String → ℕ → ℕ → ℕ → GamepadProfileCapabilities → DeviceProfile
make_gamepad_profile kind name manufacturer vendor_id product_id version capabilities =
    let profile =
      make_base_gamepad_profile kind name manufacturer vendor_id product_id version capabilities in
    record profile {
      report_descriptor =
          make_gamepad_report_descriptor profile.report_id profile.capabilities.supports_rumble;
    }

abbrev make_standard_gamepad_profile :
    GamepadProfileKind → String → String → ℕ → ℕ → ℕ → GamepadProfileCapabilities → DeviceProfile
make_standard_gamepad_profile kind name manufacturer vendor_id product_id version capabilities =
    let profile =
      make_base_gamepad_profile kind name manufacturer vendor_id product_id version capabilities in
    record profile {
      report_descriptor =
          make_standard_gamepad_report_descriptor profile.report_id
            profile.capabilities.supports_rumble;
      output_report_size =
          if profile.capabilities.supports_rumble
          then pid_rumble_payload_size + 1
          else profile.output_report_size;
    }

abbrev make_xbox_gip_profile : GamepadProfileKind → String → ℕ → ℕ → Bool → DeviceProfile
make_xbox_gip_profile kind name product_id version include_share_button = record {
  device_type = DeviceType.gamepad;
  gamepad_kind = kind;
  bus_type = BusType.usb;
  vendor_id = 0x045E;
  product_id = product_id;
  version = version;
  report_id = 0;
  input_report_size = 17;
  output_report_size = pid_rumble_payload_size;
  name = name;
  manufacturer = "Microsoft";
  report_descriptor = make_xbox_gip_report_descriptor include_share_button;
  capabilities = Capabilities.xbox_gip;
}

abbrev pub make_dualshock4_profile : BusType → DeviceProfile
make_dualshock4_profile bus_type = record {
  device_type = DeviceType.gamepad;
  gamepad_kind = GamepadProfileKind.dualshock4;
  bus_type = bus_type;
  vendor_id = 0x054C;
  product_id = 0x05C4;
  version = 0x0100;
  report_id = if is_bluetooth bus_type then 0x11 else 1;
  input_report_size = if is_bluetooth bus_type then 78 else 64;
  output_report_size = if is_bluetooth bus_type then 78 else 32;
  name = "(libvirtualhid) PS4 Controller";
  manufacturer = "Sony Computer Entertainment";
  report_descriptor =
      if is_bluetooth bus_type
      then make_dualshock4_bluetooth_report_descriptor
      else make_dualshock4_usb_report_descriptor;
  capabilities = Capabilities.dualshock4;
}

abbrev pub make_dualsense_profile : BusType → DeviceProfile
make_dualsense_profile bus_type = record {
  device_type = DeviceType.gamepad;
  gamepad_kind = GamepadProfileKind.dualsense;
  bus_type = bus_type;
  vendor_id = 0x054C;
  product_id = 0x0CE6;
  version = 0x8111;
  report_id = if is_bluetooth bus_type then 0x31 else 1;
  input_report_size = if is_bluetooth bus_type then 78 else 64;
  output_report_size = if is_bluetooth bus_type then 78 else 48;
  name = "(libvirtualhid) PS5 Controller";
  manufacturer = "Sony Interactive Entertainment";
  report_descriptor =
      if is_bluetooth bus_type
      then make_dualsense_bluetooth_report_descriptor
      else make_dualsense_usb_report_descriptor;
  capabilities = Capabilities.dualsense;
}

abbrev make_switch_pro_profile : DeviceProfile
make_switch_pro_profile = record {
  device_type = DeviceType.gamepad;
  gamepad_kind = GamepadProfileKind.switch_pro;
  bus_type = BusType.usb;
  vendor_id = 0x057E;
  product_id = 0x2009;
  version = 0x0210;
  report_id = 0x30;
  input_report_size = 64;
  output_report_size = 64;
  name = "(libvirtualhid) Nintendo Pro Controller";
  manufacturer = "Nintendo Co., Ltd.";
  report_descriptor = make_switch_pro_report_descriptor;
  capabilities = Capabilities.switch_pro;
}

abbrev make_simple_profile : DeviceType → String → ℕ → DeviceProfile
make_simple_profile device_type name product_id = record {
  device_type = device_type;
  gamepad_kind = GamepadProfileKind.generic;
  bus_type = BusType.usb;
  vendor_id = 0x1209;
  product_id = product_id;
  version = 0x0001;
  report_id = 1;
  input_report_size = 0;
  output_report_size = 0;
  name = name;
  manufacturer = "LizardByte";
  report_descriptor = [];
  capabilities = Capabilities.no_capabilities;
}

abbrev pub generic_gamepad : DeviceProfile
generic_gamepad =
    make_standard_gamepad_profile GamepadProfileKind.generic "(libvirtualhid) Generic Controller"
      "LizardByte" 0x1209 0x0001 0x0001 Capabilities.rumble_only

abbrev pub xbox_360 : DeviceProfile
xbox_360 =
    make_gamepad_profile GamepadProfileKind.xbox_360 "(libvirtualhid) X-Box 360 Controller"
      "Microsoft" 0x045E 0x028E 0x0114 Capabilities.rumble_only

abbrev pub xbox_one : DeviceProfile
xbox_one =
    make_xbox_gip_profile GamepadProfileKind.xbox_one "(libvirtualhid) X-Box One Controller" 0x02EA
      0x0408 false

abbrev pub xbox_series : DeviceProfile
xbox_series =
    make_xbox_gip_profile GamepadProfileKind.xbox_series "(libvirtualhid) X-Box Series Controller"
      0x0B12 0x0500 true

abbrev pub dualshock4_usb : DeviceProfile
dualshock4_usb = make_dualshock4_profile BusType.usb

abbrev pub dualshock4_bluetooth : DeviceProfile
dualshock4_bluetooth = make_dualshock4_profile BusType.bluetooth

abbrev pub dualshock4 : DeviceProfile
dualshock4 = dualshock4_bluetooth

abbrev pub dualsense_usb : DeviceProfile
dualsense_usb = make_dualsense_profile BusType.usb

abbrev pub dualsense_bluetooth : DeviceProfile
dualsense_bluetooth = record (make_dualsense_profile BusType.bluetooth) {
  name = "(libvirtualhid) PS5 Controller";
}

abbrev pub dualsense : DeviceProfile
dualsense = dualsense_bluetooth

abbrev pub switch_pro : DeviceProfile
switch_pro = make_switch_pro_profile

abbrev pub keyboard : DeviceProfile
keyboard = make_simple_profile DeviceType.keyboard "libvirtualhid Keyboard" 0x0002

abbrev pub mouse : DeviceProfile
mouse = make_simple_profile DeviceType.mouse "libvirtualhid Mouse" 0x0003

abbrev pub touchscreen : DeviceProfile
touchscreen = make_simple_profile DeviceType.touchscreen "libvirtualhid Touchscreen" 0x0004

abbrev pub trackpad : DeviceProfile
trackpad = make_simple_profile DeviceType.trackpad "libvirtualhid Trackpad" 0x0005

abbrev pub pen_tablet : DeviceProfile
pen_tablet = make_simple_profile DeviceType.pen_tablet "libvirtualhid Pen Tablet" 0x0006

-- The switch has a case for every kind.
unfoldable pub gamepad_profile : GamepadProfileKind → Option DeviceProfile
gamepad_profile GamepadProfileKind.generic = some generic_gamepad
gamepad_profile GamepadProfileKind.xbox_360 = some xbox_360
gamepad_profile GamepadProfileKind.xbox_one = some xbox_one
gamepad_profile GamepadProfileKind.xbox_series = some xbox_series
gamepad_profile GamepadProfileKind.dualshock4 = some dualshock4
gamepad_profile GamepadProfileKind.dualsense = some dualsense
gamepad_profile GamepadProfileKind.switch_pro = some switch_pro

unfoldable pub built_in_gamepad_profiles : List DeviceProfile
built_in_gamepad_profiles =
    generic_gamepad ∷ xbox_360 ∷ xbox_one ∷ xbox_series ∷ dualshock4 ∷ dualsense ∷ switch_pro ∷ []
