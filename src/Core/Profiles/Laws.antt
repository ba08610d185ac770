-- ===== src/Core/Profiles/Laws.antt =====
-- The built-in profiles of profiles.cpp and the option checks of runtime.cpp.
use libvirtualhid.Base.{◌≡◌, refl, Option, some, none, List, [], ◌∷◌, ◌⊎◌, inl, inr}
use libvirtualhid.Core.Types.{BusType, DeviceProfile, GamepadProfileKind}
use libvirtualhid.Core.Status.{success}
use libvirtualhid.Core.Options.{validate_gamepad_options, validate_profile}
use libvirtualhid.Core.Profiles.{
  gamepad_profile, built_in_gamepad_profiles, make_dualshock4_profile, make_dualsense_profile,
}
use libvirtualhid.Core.Profiles.Sizes.{
  DeclaresInput, DeclaresOutput, Declares, kind-Declares, dualshock4_bus-Declares,
  dualsense_bus-Declares,
}
use libvirtualhid.Core.Profiles.Generic.{
  make_gamepad_report_descriptor, make_standard_gamepad_report_descriptor,
}
use libvirtualhid.Core.Profiles.Hex.{
  make_xbox_gip_report_descriptor, make_switch_pro_report_descriptor,
}

abbrev pub Listed : DeviceProfile → List DeviceProfile → Type 0
Listed p [] = ⊥
Listed p (q ∷ qs) = (p ≡ q) ⊎ Listed p qs

abbrev pub IsUsable : {M : Type 0} → M → GamepadProfileKind → Option DeviceProfile → Type 0
IsUsable metadata kind none = ⊥
IsUsable metadata kind (some p) =
    (p.gamepad_kind ≡ kind)
    × Listed p built_in_gamepad_profiles
    × DeclaresInput p
    × DeclaresOutput p
    × (validate_gamepad_options (record { profile = p; metadata = metadata }) ≡ success)

kind-IsUsable :
    {M : Type 0} (metadata : M) (kind : GamepadProfileKind)
    → IsUsable metadata kind (gamepad_profile kind)
unfolding gamepad_profile built_in_gamepad_profiles validate_gamepad_options validate_profile
    make_gamepad_report_descriptor make_standard_gamepad_report_descriptor
    make_xbox_gip_report_descriptor make_switch_pro_report_descriptor
kind-IsUsable metadata GamepadProfileKind.generic = (
  refl,
  inl refl,
  (kind-Declares GamepadProfileKind.generic).0,
  (kind-Declares GamepadProfileKind.generic).1,
  refl,
)
kind-IsUsable metadata GamepadProfileKind.xbox_360 = (
  refl,
  inr (inl refl),
  (kind-Declares GamepadProfileKind.xbox_360).0,
  (kind-Declares GamepadProfileKind.xbox_360).1,
  refl,
)
kind-IsUsable metadata GamepadProfileKind.xbox_one = (
  refl,
  inr (inr (inl refl)),
  (kind-Declares GamepadProfileKind.xbox_one).0,
  (kind-Declares GamepadProfileKind.xbox_one).1,
  refl,
)
kind-IsUsable metadata GamepadProfileKind.xbox_series = (
  refl,
  inr (inr (inr (inl refl))),
  (kind-Declares GamepadProfileKind.xbox_series).0,
  (kind-Declares GamepadProfileKind.xbox_series).1,
  refl,
)
kind-IsUsable metadata GamepadProfileKind.dualshock4 = (
  refl,
  inr (inr (inr (inr (inl refl)))),
  (kind-Declares GamepadProfileKind.dualshock4).0,
  (kind-Declares GamepadProfileKind.dualshock4).1,
  refl,
)
kind-IsUsable metadata GamepadProfileKind.dualsense = (
  refl,
  inr (inr (inr (inr (inr (inl refl))))),
  (kind-Declares GamepadProfileKind.dualsense).0,
  (kind-Declares GamepadProfileKind.dualsense).1,
  refl,
)
kind-IsUsable metadata GamepadProfileKind.switch_pro = (
  refl,
  inr (inr (inr (inr (inr (inr (inl refl)))))),
  (kind-Declares GamepadProfileKind.switch_pro).0,
  (kind-Declares GamepadProfileKind.switch_pro).1,
  refl,
)

-- Every kind of gamepad has a built-in profile: it is of that kind, `built_in_gamepad_profiles` lists it,
-- `validate_gamepad_options` accepts it with any metadata, and its HID report descriptor declares what the
-- profile says, an input report of exactly `input_report_size` bytes with the profile's identifier, and a
-- first output report of exactly `output_report_size` bytes. The descriptors of the DualShock 4 and
-- DualSense profiles do so on each bus.
pub built_in-IsUsable :
    {M : Type 0} (metadata : M) (kind : GamepadProfileKind) (bus : BusType)
    → IsUsable metadata kind (gamepad_profile kind)
      × Declares (some (make_dualshock4_profile bus))
      × Declares (some (make_dualsense_profile bus))
built_in-IsUsable metadata kind bus =
    (kind-IsUsable metadata kind, dualshock4_bus-Declares bus, dualsense_bus-Declares bus)
