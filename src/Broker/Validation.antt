-- ===== src/Broker/Validation.antt =====
-- The checks of requests, of broker_request_validation.hpp. An array is a list of its length.
pub mod Text
pub mod Checks
pub mod Requests
mod Tests
use Prim.Native.Nat.{bit_and}
use libvirtualhid.Base.{
  ℕ, ◌-◌, ◌==◌, ◌&&◌, ◌||◌, Bool, true, false, not, List, length, get_or, take, drop, all, leb, ltb,
  if◌then◌else◌,
}
use libvirtualhid.Windows.Protocol.{
  CreateDeviceRequest, DeviceHardwareIds, DeviceReportSizes, bus_unknown, bus_usb, bus_bluetooth,
  device_gamepad, device_keyboard, device_mouse, gamepad_generic, gamepad_dualshock4,
  control_protocol_version, max_report_descriptor_size, max_input_report_size,
  max_output_report_size, keyboard_input_report_size, keyboard_output_report_size,
  mouse_input_report_size, create_device_request_size,
}
use libvirtualhid.Windows.Descriptors.{keyboard_report_descriptor, mouse_report_descriptor}
use libvirtualhid.Windows.PidFeatures.Descriptor.{starts_with}

-- The six flags of gamepads.
abbrev pub known_gamepad_flags : ℕ
known_gamepad_flags = 63

abbrev pub all_zero : List ℕ → Bool
all_zero values = all (λ value. value == 0) values

unfoldable pub valid_sized_c_string : List ℕ → ℕ → Bool
valid_sized_c_string value size =
    if leb (length value) size || not (get_or value size 0 == 0)
    then false
    else if not (all (λ character. not (character == 0)) (take size value))
    then false
    else all_zero (drop size value)

abbrev pub known_device : CreateDeviceRequest → Bool
known_device request =
    request.device_type == device_gamepad
    || request.device_type == device_keyboard
    || request.device_type == device_mouse

abbrev pub known_bus : CreateDeviceRequest → Bool
known_bus request =
    request.bus_type == bus_unknown
    || request.bus_type == bus_usb
    || request.bus_type == bus_bluetooth

abbrev pub known_profile : CreateDeviceRequest → Bool
known_profile request = leb request.gamepad_kind gamepad_dualshock4

-- std::equal of a descriptor and the array of the request, which begins with it.
abbrev pub valid_driver_descriptor : CreateDeviceRequest → Bool
valid_driver_descriptor request =
    request.device_type == device_gamepad
    || (request.device_type == device_keyboard
        && request.report_sizes.report_descriptor_size == length keyboard_report_descriptor
        && starts_with keyboard_report_descriptor request.report_descriptor)
    || (request.device_type == device_mouse
        && request.report_sizes.report_descriptor_size == length mouse_report_descriptor
        && starts_with mouse_report_descriptor request.report_descriptor)

abbrev pub valid_device_fields : CreateDeviceRequest → Bool
valid_device_fields request =
    request.device_type == device_gamepad
    || (request.gamepad_kind == gamepad_generic
        && request.flags == 0
        && request.hardware_ids.report_id == 0
        && ((request.device_type == device_keyboard
              && request.report_sizes.input_report_size == keyboard_input_report_size
              && request.report_sizes.output_report_size == keyboard_output_report_size)
            || (request.device_type == device_mouse
                && request.report_sizes.input_report_size == mouse_input_report_size
                && request.report_sizes.output_report_size == 0)))

unfoldable pub valid_device_request : CreateDeviceRequest → Bool
valid_device_request request =
    request.version == control_protocol_version
    && request.size == create_device_request_size
    && not (request.client_device_id == 0)
    && known_device request
    && known_bus request
    && known_profile request
    && valid_device_fields request
    && valid_driver_descriptor request
    && bit_and request.flags (4294967295 - known_gamepad_flags) == 0
    && all_zero request.hardware_ids.reserved
    && ltb 0 request.report_sizes.input_report_size
    && leb request.report_sizes.input_report_size max_input_report_size
    && leb request.report_sizes.output_report_size max_output_report_size
    && ltb 0 request.report_sizes.report_descriptor_size
    && leb request.report_sizes.report_descriptor_size max_report_descriptor_size
    && valid_sized_c_string request.name request.report_sizes.name_size
    && valid_sized_c_string request.manufacturer request.report_sizes.manufacturer_size
    && valid_sized_c_string request.stable_id request.report_sizes.stable_id_size
    && all_zero (drop request.report_sizes.report_descriptor_size request.report_descriptor)
