-- ===== src/Broker/Validation/Tests.antt =====
-- A request for a generic gamepad with rumble.
use Prim.Native.Char.{code}
use Prim.Native.String.{String}
use libvirtualhid.Base.{ℕ, ◌≡◌, refl, true, List, [], ◌∷◌, length, arith}
use libvirtualhid.Core.Profiles.{generic_gamepad}
use libvirtualhid.Core.Profiles.Generic.{make_standard_gamepad_report_descriptor}
use libvirtualhid.Windows.PidFeatures.Descriptor.{make_generic_pid_report_descriptor}
use libvirtualhid.Windows.Control.{make_create_device_request, pid_descriptor}
use libvirtualhid.Broker.Validation.{valid_device_request}
use libvirtualhid.Broker.Validation.Requests.{Carries, make_create_device_request-IsAccepted}

abbrev characters : String → List ℕ
characters String.[] = []
characters (String.◌∷◌ character text) = code character ∷ characters text

make_create_device_request-IsAccepted_example :
    (valid_device_request (make_create_device_request characters 1 generic_gamepad "pad") ≡ true)
    × Carries characters generic_gamepad "pad"
        (make_create_device_request characters 1 generic_gamepad "pad")
unfolding make_standard_gamepad_report_descriptor
make_create_device_request-IsAccepted_example =
    make_create_device_request-IsAccepted characters 1 generic_gamepad "pad" refl (omega arith)
      (omega arith) (omega arith) refl refl refl

-- The descriptor with force feedback fits the array of a request, of 2048 bytes.
length-pid_descriptor : length (pid_descriptor generic_gamepad) ≡ 1079
unfolding make_generic_pid_report_descriptor make_standard_gamepad_report_descriptor
length-pid_descriptor = refl
