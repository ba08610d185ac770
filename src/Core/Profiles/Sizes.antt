-- ===== src/Core/Profiles/Sizes.antt =====
-- The report descriptors of profiles.cpp against the report sizes of the profiles that carry them.
use libvirtualhid.Base.{ℕ, ◌+◌, ◌*◌, ◌≡◌, refl, Option, some, none}
use libvirtualhid.Core.Types.{BusType, DeviceProfile, GamepadProfileKind}
use libvirtualhid.Core.Profiles.Hid.{
  input_item, output_item, report_bits, first_report, header_bytes,
}
use libvirtualhid.Core.Profiles.Generic.{
  make_gamepad_report_descriptor, make_standard_gamepad_report_descriptor,
}
use libvirtualhid.Core.Profiles.Hex.{
  make_xbox_gip_report_descriptor, make_switch_pro_report_descriptor,
}
use libvirtualhid.Core.Profiles.{gamepad_profile, make_dualshock4_profile, make_dualsense_profile}

-- The descriptor's input report with the profile's identifier has the profile's size.
abbrev pub DeclaresInput : DeviceProfile → Type 0
DeclaresInput p =
    report_bits input_item p.report_id p.report_descriptor + 8 * header_bytes p.report_id
    ≡ 8 * p.input_report_size

abbrev pub OutputFits : DeviceProfile → Option ℕ → Type 0
OutputFits p none = ⊥
OutputFits p (some id) =
    report_bits output_item id p.report_descriptor + 8 * header_bytes id ≡ 8 * p.output_report_size

-- The descriptor's first output report has the profile's output size.
abbrev pub DeclaresOutput : DeviceProfile → Type 0
DeclaresOutput p = OutputFits p (first_report output_item p.report_descriptor)

abbrev pub Declares : Option DeviceProfile → Type 0
Declares none = ⊥
Declares (some p) = DeclaresInput p × DeclaresOutput p

generic-Declares : Declares (gamepad_profile GamepadProfileKind.generic)
unfolding gamepad_profile make_standard_gamepad_report_descriptor make_gamepad_report_descriptor
    make_xbox_gip_report_descriptor make_switch_pro_report_descriptor
generic-Declares = (refl {a = 72}, refl {a = 72})

xbox_360-Declares : Declares (gamepad_profile GamepadProfileKind.xbox_360)
unfolding gamepad_profile make_standard_gamepad_report_descriptor make_gamepad_report_descriptor
    make_xbox_gip_report_descriptor make_switch_pro_report_descriptor
xbox_360-Declares = (refl {a = 72}, refl {a = 40})

xbox_one-Declares : Declares (gamepad_profile GamepadProfileKind.xbox_one)
unfolding gamepad_profile make_standard_gamepad_report_descriptor make_gamepad_report_descriptor
    make_xbox_gip_report_descriptor make_switch_pro_report_descriptor
xbox_one-Declares = (refl {a = 136}, refl {a = 64})

xbox_series-Declares : Declares (gamepad_profile GamepadProfileKind.xbox_series)
unfolding gamepad_profile make_standard_gamepad_report_descriptor make_gamepad_report_descriptor
    make_xbox_gip_report_descriptor make_switch_pro_report_descriptor
xbox_series-Declares = (refl {a = 136}, refl {a = 64})

dualshock4-Declares : Declares (gamepad_profile GamepadProfileKind.dualshock4)
unfolding gamepad_profile make_standard_gamepad_report_descriptor make_gamepad_report_descriptor
    make_xbox_gip_report_descriptor make_switch_pro_report_descriptor
dualshock4-Declares = (refl {a = 624}, refl {a = 624})

dualsense-Declares : Declares (gamepad_profile GamepadProfileKind.dualsense)
unfolding gamepad_profile make_standard_gamepad_report_descriptor make_gamepad_report_descriptor
    make_xbox_gip_report_descriptor make_switch_pro_report_descriptor
dualsense-Declares = (refl {a = 624}, refl {a = 624})

switch_pro-Declares : Declares (gamepad_profile GamepadProfileKind.switch_pro)
unfolding gamepad_profile make_standard_gamepad_report_descriptor make_gamepad_report_descriptor
    make_xbox_gip_report_descriptor make_switch_pro_report_descriptor
switch_pro-Declares = (refl {a = 512}, refl {a = 512})

dualshock4_usb-Declares : Declares (some (make_dualshock4_profile BusType.usb))
dualshock4_usb-Declares = (refl {a = 512}, refl {a = 256})

dualshock4_bluetooth-Declares : Declares (some (make_dualshock4_profile BusType.bluetooth))
dualshock4_bluetooth-Declares = (refl {a = 624}, refl {a = 624})

dualshock4_unknown-Declares : Declares (some (make_dualshock4_profile BusType.unknown))
dualshock4_unknown-Declares = (refl {a = 512}, refl {a = 256})

dualsense_usb-Declares : Declares (some (make_dualsense_profile BusType.usb))
dualsense_usb-Declares = (refl {a = 512}, refl {a = 384})

dualsense_bluetooth-Declares : Declares (some (make_dualsense_profile BusType.bluetooth))
dualsense_bluetooth-Declares = (refl {a = 624}, refl {a = 624})

dualsense_unknown-Declares : Declares (some (make_dualsense_profile BusType.unknown))
dualsense_unknown-Declares = (refl {a = 512}, refl {a = 384})

pub kind-Declares : (kind : GamepadProfileKind) → Declares (gamepad_profile kind)
kind-Declares GamepadProfileKind.generic = generic-Declares
kind-Declares GamepadProfileKind.xbox_360 = xbox_360-Declares
kind-Declares GamepadProfileKind.xbox_one = xbox_one-Declares
kind-Declares GamepadProfileKind.xbox_series = xbox_series-Declares
kind-Declares GamepadProfileKind.dualsense = dualsense-Declares
kind-Declares GamepadProfileKind.switch_pro = switch_pro-Declares
kind-Declares GamepadProfileKind.dualshock4 = dualshock4-Declares

pub dualshock4_bus-Declares : (bus : BusType) → Declares (some (make_dualshock4_profile bus))
dualshock4_bus-Declares BusType.unknown = dualshock4_unknown-Declares
dualshock4_bus-Declares BusType.usb = dualshock4_usb-Declares
dualshock4_bus-Declares BusType.bluetooth = dualshock4_bluetooth-Declares

pub dualsense_bus-Declares : (bus : BusType) → Declares (some (make_dualsense_profile bus))
dualsense_bus-Declares BusType.unknown = dualsense_unknown-Declares
dualsense_bus-Declares BusType.usb = dualsense_usb-Declares
dualsense_bus-Declares BusType.bluetooth = dualsense_bluetooth-Declares
