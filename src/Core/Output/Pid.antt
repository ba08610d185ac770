-- ===== src/Core/Output/Pid.antt =====
-- The PID rumble reports of report.cpp.
use libvirtualhid.Base.{
  ℕ, ◌+◌, ◌*◌, ◌/◌, ◌%◌, ◌==◌, ◌&&◌, ◌||◌, Bool, not, List, Option, none, some, get_or,
  if◌then◌else◌, leb, ltb, length,
}
use libvirtualhid.Core.Types.{DeviceProfile, GamepadProfileKind}
use libvirtualhid.Core.Report.Bytes.{has_flag}

pub record PidRumbleAmplitude : Type 0 where
  pub left_trigger : ℕ
  pub right_trigger : ℕ
  pub low_frequency : ℕ
  pub high_frequency : ℕ

abbrev pub pid_rumble_payload_size : ℕ
pid_rumble_payload_size = 8

abbrev pub pid_rumble_report_size : ℕ
pid_rumble_report_size = pid_rumble_payload_size + 1

abbrev pub pid_rumble_maximum_magnitude : ℕ
pid_rumble_maximum_magnitude = 100

-- No overflow: a byte times 65535 plus 50 fits 32 bits, and magnitudes above 100 are refused before.
abbrev pub scale_pid_rumble_magnitude : ℕ → ℕ
scale_pid_rumble_magnitude value = (value * 65535 + 50) / pid_rumble_maximum_magnitude % 65536

abbrev pub gip_payload_offset : List ℕ → Option ℕ
gip_payload_offset report =
    if leb pid_rumble_report_size (length report) && get_or report 0 0 == 0x03
    then some 1
    else if leb pid_rumble_report_size (length report) && get_or report 0 0 == 0
    then some 1
    else if leb pid_rumble_payload_size (length report)
    then some 0
    else none

abbrev pub pid_rumble_payload_offset : DeviceProfile → List ℕ → Option ℕ
pid_rumble_payload_offset profile report = elim profile.gamepad_kind [
  | GamepadProfileKind.generic ↦
      if leb pid_rumble_report_size (length report) && get_or report 0 0 == profile.report_id
      then some 1
      else none
  | GamepadProfileKind.xbox_one ↦ gip_payload_offset report
  | GamepadProfileKind.xbox_series ↦ gip_payload_offset report
  | _ ↦ none
]

-- A motor runs where its bit is set and the duration is not 0.
abbrev pub enabled_magnitude : ℕ → ℕ → ℕ → ℕ → ℕ
enabled_magnitude duration enabled enable_bit magnitude =
    if duration == 0 || not (has_flag enabled enable_bit)
    then 0
    else scale_pid_rumble_magnitude magnitude

abbrev pub decode_pid_rumble_at : List ℕ → ℕ → Option PidRumbleAmplitude
decode_pid_rumble_at report offset =
    let magnitude : ℕ → ℕ = λ i. get_or report (offset + 1 + i) 0 in
    let above : ℕ → Bool = λ i. ltb pid_rumble_maximum_magnitude (magnitude i) in
    let motor = enabled_magnitude (get_or report (offset + 5) 0) (get_or report offset 0 % 16) in
    if above 0 || above 1 || above 2 || above 3
    then none
    else some (record {
      left_trigger = motor 0x08 (magnitude 0);
      right_trigger = motor 0x04 (magnitude 1);
      low_frequency = motor 0x02 (magnitude 2);
      high_frequency = motor 0x01 (magnitude 3);
    })

unfoldable pub decode_pid_rumble_report : DeviceProfile → List ℕ → Option PidRumbleAmplitude
decode_pid_rumble_report profile report = elim (pid_rumble_payload_offset profile report) [
  | none ↦ none
  | some offset ↦ decode_pid_rumble_at report offset
]
