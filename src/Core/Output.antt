-- ===== src/Core/Output.antt =====
-- The reading of output reports, of report.cpp, and `GamepadOutput` of types.hpp.
pub mod Types
pub mod Pid
pub mod Switch
pub mod Sony
pub mod Laws
pub mod Sealed
pub mod Reads
use libvirtualhid.Base.{
  ℕ, ◌==◌, ◌&&◌, Bool, true, false, List, [], ◌∷◌, ◌++◌, Option, none, some, get_or, is_empty,
  if◌then◌else◌, leb, length,
}
use libvirtualhid.Core.Types.{DeviceProfile, GamepadOutputKind, GamepadProfileKind}
use libvirtualhid.Core.Report.Numbers.{Floats}
use libvirtualhid.Core.Report.Bytes.{read_u16}
use libvirtualhid.Core.Output.Types.{GamepadOutput, raw_output}
use libvirtualhid.Core.Output.Pid.{PidRumbleAmplitude, decode_pid_rumble_report}
use libvirtualhid.Core.Output.Switch.{append_switch_pro_outputs}
use libvirtualhid.Core.Output.Sony.{
  dualshock4_common_output_offset, dualsense_common_output_offset, append_dualshock4_outputs,
  append_dualsense_outputs,
}

-- The two outputs of a PID rumble report.
abbrev pub pid_outputs : List ℕ → PidRumbleAmplitude → List GamepadOutput
pid_outputs report rumble =
    (record (raw_output report) {
      kind = GamepadOutputKind.rumble;
      low_frequency_rumble = rumble.low_frequency;
      high_frequency_rumble = rumble.high_frequency;
    })
    ∷ (record (raw_output report) {
      kind = GamepadOutputKind.trigger_rumble;
      left_trigger_rumble = rumble.left_trigger;
      right_trigger_rumble = rumble.right_trigger;
    })
    ∷ []

abbrev pub is_xbox_360 : GamepadProfileKind → Bool
is_xbox_360 GamepadProfileKind.xbox_360 = true
is_xbox_360 _ = false

abbrev pub common_outputs : DeviceProfile → List ℕ → List GamepadOutput
common_outputs profile report =
    if is_xbox_360 profile.gamepad_kind
      && profile.capabilities.supports_rumble
      && leb 5 profile.output_report_size
      && leb profile.output_report_size (length report)
      && get_or report 0 0 == profile.report_id
    then (record (raw_output report) {
      kind = GamepadOutputKind.rumble;
      low_frequency_rumble = read_u16 report 1;
      high_frequency_rumble = read_u16 report 3;
    })
      ∷ []
    else raw_output report ∷ []

-- What follows the readings of single kinds, when these gave no output.
abbrev pub other_outputs : DeviceProfile → List ℕ → List GamepadOutput
other_outputs profile report = elim (decode_pid_rumble_report profile report) [
  | some rumble ↦ pid_outputs report rumble
  | none ↦ common_outputs profile report
]

module _ {F : Type 0} (floats : Floats F) where
  abbrev pub at_offset : Option ℕ → (ℕ → List ℕ → List GamepadOutput) → List ℕ → List GamepadOutput
  at_offset none append report = []
  at_offset (some offset) append report = append offset report

  -- The outputs of the kinds that have a reading of their own.
  abbrev pub kind_outputs : GamepadProfileKind → List ℕ → List GamepadOutput
  kind_outputs GamepadProfileKind.dualshock4 report =
      at_offset (dualshock4_common_output_offset report) (append_dualshock4_outputs floats) report
  kind_outputs GamepadProfileKind.dualsense report =
      at_offset (dualsense_common_output_offset report) (append_dualsense_outputs floats) report
  kind_outputs GamepadProfileKind.switch_pro report = append_switch_pro_outputs floats report
  kind_outputs _ report = []

  unfoldable pub parse_output_reports : DeviceProfile → List ℕ → List GamepadOutput
  parse_output_reports profile report =
      let outputs = kind_outputs profile.gamepad_kind report in
      if is_empty outputs then other_outputs profile report else outputs

  unfoldable pub parse_output_report : DeviceProfile → List ℕ → GamepadOutput
  parse_output_report profile report = elim (parse_output_reports profile report) [
    | [] ↦ raw_output report
    | output ∷ outputs ↦ output
  ]
