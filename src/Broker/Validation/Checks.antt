-- ===== src/Broker/Validation/Checks.antt =====
-- The checks of the broker, one by one, on the requests of the client.
use Prim.Native.Nat.{bit_and}
use Prim.Native.String.{String}
use libvirtualhid.Base.{
  ℕ, ◌-◌, ◌≤◌, ◌≡◌, ◌∙◌, ◌==◌, refl, ap, Bool, true, not, List, [], ◌∷◌, drop, min, All, length,
  if◌then◌else◌, ◌&&◌, ◌||◌, leb, ltb, arith,
}
use libvirtualhid.Core.Types.{BusType, DeviceType, DeviceProfile, GamepadProfileKind}
use libvirtualhid.Windows.Protocol.{
  CreateDeviceRequest, control_protocol_version, create_device_request_size, max_input_report_size,
  max_output_report_size, max_report_descriptor_size, bus_unknown, bus_usb, bus_bluetooth,
  gamepad_dualshock4, device_gamepad,
}
use libvirtualhid.Windows.Control.{
  copy_bytes, gamepad_flags, add_flag, protocol_bus_type, protocol_device_type,
  protocol_gamepad_kind, is_gamepad, is_empty, pid_descriptor, make_create_device_request,
}
use libvirtualhid.Broker.Validation.{
  all_zero, valid_sized_c_string, valid_device_request, valid_device_fields,
  valid_driver_descriptor, known_gamepad_flags, known_device, known_bus, known_profile,
}
use libvirtualhid.Broker.Validation.Text.{
  is_text, valid_sized_c_string-copy_string, all_zero-copy_bytes,
}

-- The conjunction of a list of tests.
abbrev AllTrue : List Bool → Type 0
AllTrue tests = All (λ test. test ≡ true) tests

abbrev conjunction : Bool → List Bool → Bool
conjunction test [] = test
conjunction test (next ∷ tests) = conjunction (test && next) tests

both : (a b : Bool) → a ≡ true → b ≡ true → (a && b) ≡ true
both a b h k = ground arith

conjunction-true :
    (test : Bool) (tests : List Bool) → test ≡ true → AllTrue tests → conjunction test tests ≡ true
conjunction-true test [] h a = h
conjunction-true test (next ∷ tests) h a =
    conjunction-true (test && next) tests (both test next h a.0) a.1

-- The tests of a request.
abbrev tests_of : CreateDeviceRequest → List Bool
tests_of request =
    (request.size == create_device_request_size)
    ∷ (not (request.client_device_id == 0))
    ∷ (known_device request)
    ∷ (known_bus request)
    ∷ (known_profile request)
    ∷ (valid_device_fields request)
    ∷ (valid_driver_descriptor request)
    ∷ (bit_and request.flags (4294967295 - known_gamepad_flags) == 0)
    ∷ (all_zero request.hardware_ids.reserved)
    ∷ (ltb 0 request.report_sizes.input_report_size)
    ∷ (leb request.report_sizes.input_report_size max_input_report_size)
    ∷ (leb request.report_sizes.output_report_size max_output_report_size)
    ∷ (ltb 0 request.report_sizes.report_descriptor_size)
    ∷ (leb request.report_sizes.report_descriptor_size max_report_descriptor_size)
    ∷ (valid_sized_c_string request.name request.report_sizes.name_size)
    ∷ (valid_sized_c_string request.manufacturer request.report_sizes.manufacturer_size)
    ∷ (valid_sized_c_string request.stable_id request.report_sizes.stable_id_size)
    ∷ (all_zero (drop request.report_sizes.report_descriptor_size request.report_descriptor))
    ∷ []

accepted :
    (request : CreateDeviceRequest)
    → (request.version == control_protocol_version) ≡ true
    → AllTrue (tests_of request)
    → valid_device_request request ≡ true
unfolding valid_device_request
accepted request h a =
    conjunction-true (request.version == control_protocol_version) (tests_of request) h a

first : (a b : Bool) → a ≡ true → (a || b) ≡ true
first a b h = ground arith

bus_is_known :
    (b : BusType)
    → (protocol_bus_type b == bus_unknown
        || protocol_bus_type b == bus_usb
        || protocol_bus_type b == bus_bluetooth)
      ≡ true
bus_is_known BusType.unknown = refl
bus_is_known BusType.usb = refl
bus_is_known BusType.bluetooth = refl

kind_is_known : (k : GamepadProfileKind) → leb (protocol_gamepad_kind k) gamepad_dualshock4 ≡ true
kind_is_known GamepadProfileKind.generic = refl
kind_is_known GamepadProfileKind.xbox_360 = refl
kind_is_known GamepadProfileKind.xbox_one = refl
kind_is_known GamepadProfileKind.xbox_series = refl
kind_is_known GamepadProfileKind.dualsense = refl
kind_is_known GamepadProfileKind.switch_pro = refl
kind_is_known GamepadProfileKind.dualshock4 = refl

-- No flag of a gamepad is unknown.
abbrev flags_of : Bool → Bool → Bool → Bool → Bool → Bool → ℕ
flags_of a b c d e f =
    add_flag a 32 (add_flag b 16 (add_flag c 8 (add_flag d 4 (add_flag e 2 (add_flag f 1 0)))))

flags_are_known :
    (a b c d e f : Bool)
    → (bit_and (flags_of a b c d e f) (4294967295 - known_gamepad_flags) == 0) ≡ true
flags_are_known a b c d e f = ground arith

at_most : (m n : ℕ) → leb (min n m) m ≡ true
at_most m n = ground arith

not_zero : (n : ℕ) → 1 ≤ n → not (n == 0) ≡ true
not_zero n h = ground arith

length-copied : (size : ℕ) (bytes : List ℕ) → (copy_bytes size bytes).1 ≡ min (length bytes) size
unfolding copy_bytes
length-copied size bytes = refl

nonempty : (xs : List ℕ) (ys : List ℕ) → 1 ≤ length ys → 1 ≤ length (if is_empty xs then ys else xs)
nonempty [] ys h = h
nonempty (x ∷ xs) ys h = omega arith

pub make_create_device_request-IsValid :
    (text : String → List ℕ) (device_id : ℕ) (profile : DeviceProfile) (stable_id : String)
    → profile.device_type ≡ DeviceType.gamepad
    → 1 ≤ device_id
    → 1 ≤ profile.input_report_size
    → 1 ≤ length profile.report_descriptor
    → is_text (text profile.name) ≡ true
    → is_text (text profile.manufacturer) ≡ true
    → is_text (text stable_id) ≡ true
    → valid_device_request (make_create_device_request text device_id profile stable_id) ≡ true
unfolding valid_device_request make_create_device_request
make_create_device_request-IsValid text device_id profile stable_id kind id input descriptor name
      manufacturer stable =
    let gamepad : (protocol_device_type profile.device_type == device_gamepad) ≡ true =
      ap (λ d. protocol_device_type d == device_gamepad) kind in
    let pid = pid_descriptor profile in
    let bytes = if is_empty pid then profile.report_descriptor else pid in
    let caps = profile.capabilities in
    let has_bytes = nonempty pid profile.report_descriptor descriptor in
    accepted (make_create_device_request text device_id profile stable_id) refl (
      refl,
      (
        not_zero device_id id,
        (
          first _ _ (first _ _ gamepad),
          (
            bus_is_known profile.bus_type,
            (
              kind_is_known profile.gamepad_kind,
              (
                first _ _ gamepad,
                (
                  first _ _ (first _ _ gamepad),
                  (
                    ap
                          (λ d.
                            bit_and (if is_gamepad d then gamepad_flags caps else 0)
                              (4294967295 - known_gamepad_flags)
                            == 0)
                          kind
                        ∙ flags_are_known caps.supports_adaptive_triggers caps.supports_battery
                            caps.supports_rgb_led caps.supports_touchpad caps.supports_motion
                            caps.supports_rumble,
                    (
                      refl,
                      (
                        ground arith,
                        (
                          at_most 256 _,
                          (
                            at_most 256 _,
                            (
                              ground (arith, length-copied 2048 bytes),
                              (
                                ground (arith, length-copied 2048 bytes),
                                (
                                  valid_sized_c_string-copy_string 128 (text profile.name)
                                      (omega arith) name,
                                  (
                                    valid_sized_c_string-copy_string 128 (text profile.manufacturer)
                                        (omega arith) manufacturer,
                                    (
                                      valid_sized_c_string-copy_string 128 (text stable_id)
                                          (omega arith) stable,
                                      (all_zero-copy_bytes 2048 bytes, tt),
                                    ),
                                  ),
                                ),
                              ),
                            ),
                          ),
                        ),
                      ),
                    ),
                  ),
                ),
              ),
            ),
          ),
        ),
      ),
    )
