-- ===== src/Core/Report.antt =====
-- The packing of input reports, of report.cpp: the generic and Xbox 360 layouts, and the choice by kind.
pub mod Numbers
pub mod Bytes
pub mod Crc
pub mod ButtonBits
pub mod Normalize
pub mod Dualshock4
pub mod Dualsense
pub mod SwitchPro
pub mod Gip
pub mod Bounds
pub mod Sealed
pub mod Laws
pub mod Seals
pub mod BuiltIn
use Prim.Native.Nat.{bit_or}
use libvirtualhid.Base.{ℕ, Bool, not, ◌||◌, List, [], ◌∷◌, ◌++◌, if◌then◌else◌, ltb, ◌%◌}
use libvirtualhid.Core.Types.{DeviceProfile, DeviceType, GamepadProfileKind, GamepadState}
use libvirtualhid.Core.Options.{same_type}
use libvirtualhid.Core.Gamepad.{Reports}
use libvirtualhid.Core.Report.Numbers.{Floats, Clocks, normalize_u8_axis, normalize_trigger}
use libvirtualhid.Core.Report.Bytes.{append_u16, resize}
use libvirtualhid.Core.Report.ButtonBits.{
  common_button_bits, standard_gamepad_button_bits, dpad_hat_bits,
}
use libvirtualhid.Core.Report.Normalize.{normalize_state}
use libvirtualhid.Core.Report.Dualshock4.{pack_dualshock4_input_report}
use libvirtualhid.Core.Report.Dualsense.{pack_dualsense_input_report}
use libvirtualhid.Core.Report.SwitchPro.{pack_switch_pro_input_report}
use libvirtualhid.Core.Report.Gip.{pack_xbox_gip_input_report}

module _ {F : Type 0} (floats : Floats F) where
  -- The bytes of the generic report, from the normalized state.
  abbrev pub standard_bytes : DeviceProfile → GamepadState F → List ℕ
  standard_bytes profile n =
      append_u16 (profile.report_id ∷ []) (standard_gamepad_button_bits n.buttons)
      ++ normalize_u8_axis floats n.left_stick.x
        ∷ normalize_u8_axis floats (floats.negate n.left_stick.y)
        ∷ normalize_u8_axis floats n.right_stick.x
        ∷ normalize_u8_axis floats (floats.negate n.right_stick.y)
        ∷ normalize_trigger floats n.left_trigger
        ∷ normalize_trigger floats n.right_trigger
        ∷ []

  unfoldable pub pack_standard_gamepad_input_report : DeviceProfile → GamepadState F → List ℕ
  pack_standard_gamepad_input_report profile state =
      if ltb profile.input_report_size 9
      then []
      else resize (standard_bytes profile (normalize_state floats state)) profile.input_report_size

  -- The bytes of the Xbox 360 report, from the normalized state.
  abbrev pub common_bytes : DeviceProfile → GamepadState F → List ℕ
  common_bytes profile n =
      append_u16 (profile.report_id ∷ [])
        (bit_or (common_button_bits n.buttons) (dpad_hat_bits n.buttons))
      ++ normalize_u8_axis floats n.left_stick.x
        ∷ normalize_u8_axis floats (floats.negate n.left_stick.y)
        ∷ normalize_trigger floats n.left_trigger
        ∷ normalize_u8_axis floats n.right_stick.x
        ∷ normalize_u8_axis floats (floats.negate n.right_stick.y)
        ∷ normalize_trigger floats n.right_trigger
        ∷ []

  -- What follows the switch: the whole report of a kind that the switch leaves, or of no gamepad.
  unfoldable pub pack_common_input_report : DeviceProfile → GamepadState F → List ℕ
  pack_common_input_report profile state =
      if not (same_type profile.device_type DeviceType.gamepad) || ltb profile.input_report_size 9
      then []
      else resize (common_bytes profile (normalize_state floats state)) profile.input_report_size

  abbrev pub pack_kind : Clocks → GamepadProfileKind → DeviceProfile → GamepadState F → List ℕ
  pack_kind clocks GamepadProfileKind.xbox_one = pack_xbox_gip_input_report floats
  pack_kind clocks GamepadProfileKind.xbox_series = pack_xbox_gip_input_report floats
  pack_kind clocks GamepadProfileKind.dualshock4 = pack_dualshock4_input_report floats clocks
  pack_kind clocks GamepadProfileKind.dualsense = pack_dualsense_input_report floats clocks
  pack_kind clocks GamepadProfileKind.switch_pro = pack_switch_pro_input_report floats clocks
  pack_kind clocks GamepadProfileKind.generic = pack_standard_gamepad_input_report
  pack_kind clocks GamepadProfileKind.xbox_360 = pack_common_input_report

  unfoldable pub pack_input_report : Clocks → DeviceProfile → GamepadState F → List ℕ
  pack_input_report clocks profile state =
      if same_type profile.device_type DeviceType.gamepad
      then pack_kind clocks profile.gamepad_kind profile state
      else pack_common_input_report profile state

  -- The functions that a gamepad uses, at the time of a call.
  abbrev pub reports_at : Clocks → Reports F
  reports_at clocks = record {
    pack_input_report = pack_input_report clocks;
    normalize_state = normalize_state floats;
  }
