-- ===== src/Core/Output/Sony.antt =====
-- The output reports of the DualShock 4 and the DualSense, of report.cpp. The code keeps the report
-- twice, as bytes and as numbers; here it is one list.
use libvirtualhid.Base.{
  ℕ, ◌+◌, ◌-◌, ◌*◌, ◌/◌, ◌%◌, ◌==◌, ◌&&◌, ◌||◌, Bool, not, List, [], ◌∷◌, ◌++◌, Option, none, some,
  get_or, if◌then◌else◌, leb, ltb, length, take, drop,
}
use libvirtualhid.Core.Types.{GamepadOutputKind}
use libvirtualhid.Core.Report.Numbers.{Floats, scale_output_byte}
use libvirtualhid.Core.Report.Bytes.{has_flag, read_u32}
use libvirtualhid.Core.Report.Crc.{crc32, playstation_crc_seed}
use libvirtualhid.Core.Output.Types.{GamepadOutput, raw_output}

-- Whether the last four bytes are the checksum of the others.
abbrev pub crc_matches : List ℕ → Bool
crc_matches report =
    read_u32 report (length report - 4)
    == crc32 (take (length report - 4) report) (playstation_crc_seed 0xA2)

-- Without the flag in its second byte, the payload begins one byte later.
abbrev pub dualsense_bluetooth_offset : List ℕ → Option ℕ
dualsense_bluetooth_offset report =
    let enable_hid = has_flag (get_or report 1 0) 0x02 in
    if leb 78 (length report) && not (crc_matches report)
    then none
    else if not enable_hid && ltb (length report) 50
    then none
    else some (if enable_hid then 2 else 3)

unfoldable pub dualsense_common_output_offset : List ℕ → Option ℕ
dualsense_common_output_offset report =
    if leb 48 (length report) && get_or report 0 0 == 0x02
    then some 1
    else if leb 49 (length report) && get_or report 0 0 == 0x31
    then dualsense_bluetooth_offset report
    else none

unfoldable pub dualshock4_common_output_offset : List ℕ → Option ℕ
dualshock4_common_output_offset report =
    if leb 32 (length report) && get_or report 0 0 == 0x05
    then some 1
    else if leb 78 (length report) && get_or report 0 0 == 0x11
    then (if has_flag (get_or report 1 0) 0x40 && not (crc_matches report) then none else some 3)
    else none

module _ {F : Type 0} (floats : Floats F) where
  -- Both functions: the rumble of two motors, where the flags ask for it, or a stop, where all are 0.
  abbrev pub rumble_output : Bool → Bool → ℕ → ℕ → List ℕ → List GamepadOutput
  rumble_output rumbles stops motor_left motor_right report =
      if rumbles
      then (record (raw_output report) {
        kind = GamepadOutputKind.rumble;
        low_frequency_rumble = scale_output_byte floats motor_left;
        high_frequency_rumble = scale_output_byte floats motor_right;
      })
        ∷ []
      else if stops
      then (record (raw_output report) { kind = GamepadOutputKind.rumble }) ∷ []
      else []

  -- The colour at an offset.
  abbrev pub lightbar_output : Bool → ℕ → List ℕ → List GamepadOutput
  lightbar_output lit offset report =
      if lit
      then (record (raw_output report) {
        kind = GamepadOutputKind.rgb_led;
        red = get_or report offset 0;
        green = get_or report (offset + 1) 0;
        blue = get_or report (offset + 2) 0;
      })
        ∷ []
      else []

  abbrev pub append_dualshock4_outputs : ℕ → List ℕ → List GamepadOutput
  append_dualshock4_outputs offset report =
      let valid_flag0 = get_or report offset 0 in
      let valid_flag1 = get_or report (offset + 1) 0 in
      rumble_output (has_flag valid_flag0 0x01) (valid_flag0 == 0 && valid_flag1 == 0)
        (get_or report (offset + 4) 0) (get_or report (offset + 3) 0) report
      ++ lightbar_output (has_flag valid_flag0 0x02) (offset + 5) report

  -- `valid_flag0 & 0x0C` keeps its bits 2 and 3.
  abbrev pub adaptive_triggers_output : ℕ → List ℕ → List GamepadOutput
  adaptive_triggers_output offset report =
      let trigger_flags = get_or report offset 0 / 4 % 4 * 4 in
      if trigger_flags == 0
      then []
      else (record (raw_output report) {
        kind = GamepadOutputKind.adaptive_triggers;
        adaptive_trigger_flags = trigger_flags;
        left_trigger_effect_type = get_or report (offset + 21) 0;
        right_trigger_effect_type = get_or report (offset + 10) 0;
        right_trigger_effect = take 10 (drop (offset + 11) report);
        left_trigger_effect = take 10 (drop (offset + 22) report);
      })
        ∷ []

  abbrev pub append_dualsense_outputs : ℕ → List ℕ → List GamepadOutput
  append_dualsense_outputs offset report =
      let valid_flag0 = get_or report offset 0 in
      let valid_flag1 = get_or report (offset + 1) 0 in
      let valid_flag2 = get_or report (offset + 38) 0 in
      rumble_output (has_flag valid_flag0 0x01 || has_flag valid_flag2 0x04)
        (valid_flag0 == 0 && valid_flag1 == 0 && valid_flag2 == 0) (get_or report (offset + 3) 0)
        (get_or report (offset + 2) 0) report
      ++ lightbar_output (has_flag valid_flag1 0x04) (offset + 44) report
      ++ adaptive_triggers_output offset report
