-- ===== src/Windows/Protocol.antt =====
-- src/platform/windows/shared/lvh_windows_protocol.h: the numbers that name devices, buses and
-- gamepads, the sizes and flags, and the request that creates a device.
use libvirtualhid.Base.{ℕ, ◌+◌, ◌*◌, List}

abbrev pub bus_unknown : ℕ
bus_unknown = 0

abbrev pub bus_usb : ℕ
bus_usb = 1

abbrev pub bus_bluetooth : ℕ
bus_bluetooth = 2

abbrev pub device_gamepad : ℕ
device_gamepad = 1

abbrev pub device_mouse : ℕ
device_mouse = 2

abbrev pub device_keyboard : ℕ
device_keyboard = 3

abbrev pub gamepad_generic : ℕ
gamepad_generic = 0

abbrev pub gamepad_xbox_360 : ℕ
gamepad_xbox_360 = 1

abbrev pub gamepad_xbox_one : ℕ
gamepad_xbox_one = 2

abbrev pub gamepad_xbox_series : ℕ
gamepad_xbox_series = 3

abbrev pub gamepad_dualsense : ℕ
gamepad_dualsense = 4

abbrev pub gamepad_switch_pro : ℕ
gamepad_switch_pro = 5

abbrev pub gamepad_dualshock4 : ℕ
gamepad_dualshock4 = 6

abbrev pub mouse_input_report_size : ℕ
mouse_input_report_size = 7

abbrev pub keyboard_input_report_size : ℕ
keyboard_input_report_size = 18

abbrev pub keyboard_output_report_size : ℕ
keyboard_output_report_size = 1

abbrev pub control_protocol_version : ℕ
control_protocol_version = 5

abbrev pub max_report_descriptor_size : ℕ
max_report_descriptor_size = 2048

abbrev pub max_input_report_size : ℕ
max_input_report_size = 256

abbrev pub max_output_report_size : ℕ
max_output_report_size = 256

abbrev pub max_device_name_size : ℕ
max_device_name_size = 128

abbrev pub max_manufacturer_size : ℕ
max_manufacturer_size = 128

abbrev pub max_stable_id_size : ℕ
max_stable_id_size = 128

abbrev pub flag_supports_rumble : ℕ
flag_supports_rumble = 1

abbrev pub flag_supports_motion : ℕ
flag_supports_motion = 2

abbrev pub flag_supports_touchpad : ℕ
flag_supports_touchpad = 4

abbrev pub flag_supports_rgb_led : ℕ
flag_supports_rgb_led = 8

abbrev pub flag_supports_battery : ℕ
flag_supports_battery = 16

abbrev pub flag_supports_adaptive_triggers : ℕ
flag_supports_adaptive_triggers = 32

pub record DeviceHardwareIds : Type 0 where
  pub vendor_id : ℕ
  pub product_id : ℕ
  pub device_version : ℕ
  pub report_id : ℕ
  pub reserved : List ℕ

pub record DeviceReportSizes : Type 0 where
  pub input_report_size : ℕ
  pub output_report_size : ℕ
  pub report_descriptor_size : ℕ
  pub name_size : ℕ
  pub manufacturer_size : ℕ
  pub stable_id_size : ℕ

-- LvhWindowsCreateDeviceRequest; its four arrays are lists of their lengths.
pub record CreateDeviceRequest : Type 0 where
  pub version : ℕ
  pub size : ℕ
  pub client_device_id : ℕ
  pub device_type : ℕ
  pub bus_type : ℕ
  pub gamepad_kind : ℕ
  pub flags : ℕ
  pub hardware_ids : DeviceHardwareIds
  pub report_sizes : DeviceReportSizes
  pub report_descriptor : List ℕ
  pub name : List ℕ
  pub manufacturer : List ℕ
  pub stable_id : List ℕ

-- The size of the request, which is packed: sizeof.
abbrev pub create_device_request_size : ℕ
create_device_request_size = 4 + 4 + 8 + 4 * 4 + (3 * 2 + 1 + 7) + 6 * 4 + 2048 + 3 * 128
