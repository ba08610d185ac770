-- ===== src/Core/Tests/Packing.antt =====
-- The built-in profiles, their input reports and their output reports, at concrete states. A float is a
-- natural number, so that sticks and triggers are 0 or 1.
use libvirtualhid.Base.{
  ℕ, ◌++◌, ◌⊎◌, ◌+◌, ◌*◌, ◌/◌, ◌-◌, ◌^◌, ◌%◌, ◌≡◌, ◌<◌, refl, arith, true, false, List, [], ◌∷◌,
  some, none, ltb, leb, All-replicate, replicate, length, is_empty, All,
}
use libvirtualhid.Base.Int.{pos}
use libvirtualhid.Core.Types.{BusType, GamepadProfileKind}
use libvirtualhid.Core.Buttons.{GamepadButton, test}
use libvirtualhid.Core.Gamepad.{GamepadDevice, submit, submit_report}
use libvirtualhid.Core.Profiles.{
  gamepad_profile, generic_gamepad, dualshock4, dualsense, make_dualshock4_profile,
  make_dualsense_profile,
}
use libvirtualhid.Core.Profiles.Hid.{input_item, report_bits, header_bytes}
use libvirtualhid.Core.Profiles.Sizes.{Declares}
use libvirtualhid.Core.Profiles.Laws.{IsUsable, built_in-IsUsable}
use libvirtualhid.Core.Report.Numbers.{Floats, Clocks}
use libvirtualhid.Core.Report.Bytes.{read_u16}
use libvirtualhid.Core.Report.Crc.{write_playstation_crc, crc32}
use libvirtualhid.Core.Report.Normalize.{normalize_state}
use libvirtualhid.Core.Report.ButtonBits.{hat_from_buttons, xbox_gip_hat_from_buttons}
use libvirtualhid.Core.Report.ButtonBits.Laws.{
  Recovers, net, compass, generic_report-Recovers, hat_from_buttons-compass,
}
use libvirtualhid.Core.Report.{pack_input_report, pack_standard_gamepad_input_report, reports_at}
use libvirtualhid.Core.Report.Dualshock4.{pack_dualshock4_input_report}
use libvirtualhid.Core.Report.Dualsense.{pack_dualsense_input_report}
use libvirtualhid.Core.Report.Sealed.{IsSealed}
use libvirtualhid.Core.Report.Laws.{Fits, is_small, pack_input_report-Fits}
use libvirtualhid.Core.Report.Seals.{pack_input_report-IsSealed}
use libvirtualhid.Core.Report.BuiltIn.{submit_built_in}
use libvirtualhid.Core.Output.Pid.{pid_rumble_payload_offset}
use libvirtualhid.Core.Output.Sony.{dualshock4_common_output_offset, dualsense_common_output_offset}
use libvirtualhid.Core.Output.Laws.{Carries, parse_output_reports-Carries}
use libvirtualhid.Core.Output.Sealed.{sealed_output-offset}
use libvirtualhid.Core.Output.{parse_output_reports, parse_output_report, common_outputs}
use libvirtualhid.Core.Output.Types.{raw_output}
use libvirtualhid.Core.Output.Pid.{decode_pid_rumble_at}
use libvirtualhid.Core.Output.Sony.{append_dualshock4_outputs, append_dualsense_outputs}
use libvirtualhid.Core.Output.Switch.{
  decode_switch_rumble_report, player_lights_output, home_light_output,
}
use libvirtualhid.Core.Output.Reads.{AtOffset, reads-append}
use libvirtualhid.Core.Output.Reads.Append.{said}
use libvirtualhid.Core.Tests.{pad_backend, pad_state}

abbrev pub naturals : Floats ℕ
naturals = record {
  is_nan = λ n. false;
  less = ltb;
  less_equal = leb;
  negate = λ n. 0;
  plus = λ m n. m + n;
  minus = λ m n. m - n;
  times = λ m n. m * n;
  divide = λ m n. m / n;
  pow = λ m n. m ^ n;
  pi = 3;
  literal = λ n k. n / 10 ^ k;
  of_byte = λ n. n;
  lround = λ n. pos n;
}

abbrev noon : Clocks
noon = record {
  dualshock4_elapsed = 160;
  dualsense_elapsed = 3330;
  sequence_number = 4;
  packet_timer = 9;
}

built_in-IsUsable_example :
    IsUsable {M = ℕ} 7 GamepadProfileKind.switch_pro (gamepad_profile GamepadProfileKind.switch_pro)
    × Declares (some (make_dualshock4_profile BusType.usb))
    × Declares (some (make_dualsense_profile BusType.usb))
built_in-IsUsable_example = built_in-IsUsable {M = ℕ} 7 GamepadProfileKind.switch_pro BusType.usb

pack_input_report-Fits_example :
    Fits (is_small dualsense) 78 (pack_input_report naturals noon dualsense pad_state)
pack_input_report-Fits_example =
    pack_input_report-Fits naturals noon dualsense pad_state (omega arith)

pack_input_report-IsSealed_example :
    IsSealed 0xA1 (pack_dualshock4_input_report naturals noon dualshock4 pad_state)
    × IsSealed 0xA1 (pack_dualsense_input_report naturals noon dualshock4 pad_state)
pack_input_report-IsSealed_example =
    pack_input_report-IsSealed naturals noon dualshock4 pad_state refl (omega arith)

abbrev generic_pad : GamepadDevice ℕ ℕ ℕ ℕ
generic_pad = record {
  id = 7;
  options = record { profile = generic_gamepad; metadata = 0 };
  backend = some 0;
  is_open = true;
  last = record { last_state = pad_state; last_report = []; output_callback = none };
  submitted = 2;
}

submit_built_in_example :
    (submit (reports_at naturals noon) pad_backend generic_pad pad_state
      ≡ submit_report
          (reports_at naturals noon)
          pad_backend
          generic_pad
          (normalize_state naturals pad_state)
          (pack_input_report naturals noon generic_gamepad pad_state))
    × (8 * length (pack_input_report naturals noon generic_gamepad pad_state)
        ≡ report_bits input_item generic_gamepad.report_id generic_gamepad.report_descriptor
          + 8 * header_bytes generic_gamepad.report_id)
unfolding gamepad_profile
submit_built_in_example =
    submit_built_in naturals noon pad_backend GamepadProfileKind.generic generic_pad pad_state refl
      refl

generic_report-Recovers_example :
    Recovers
      (read_u16 (pack_standard_gamepad_input_report naturals generic_gamepad pad_state) 1)
      1
      GamepadButton.a
      (some 0)
generic_report-Recovers_example =
    generic_report-Recovers naturals generic_gamepad pad_state GamepadButton.a (omega arith)

-- The buttons 11 and 14 are up and right.
hat_from_buttons-compass_example :
    (hat_from_buttons 0x4800
      ≡ compass
          (net (test 0x4800 GamepadButton.dpad_right) (test 0x4800 GamepadButton.dpad_left))
          (net (test 0x4800 GamepadButton.dpad_up) (test 0x4800 GamepadButton.dpad_down)))
    × (xbox_gip_hat_from_buttons 0x4800 ≡ (hat_from_buttons 0x4800 + 1) % 9)
hat_from_buttons-compass_example = hat_from_buttons-compass 0x4800

abbrev rumble : List ℕ
rumble = 1 ∷ 3 ∷ 0 ∷ 0 ∷ 50 ∷ 100 ∷ 255 ∷ 0 ∷ 1 ∷ []

abbrev behind : List ℕ
behind = 0xAA ∷ 0xBB ∷ []

reads-append_example :
    AtOffset
      (pid_rumble_payload_offset generic_gamepad rumble)
      (λ i. decode_pid_rumble_at (rumble ++ behind) i ≡ decode_pid_rumble_at rumble i)
    × AtOffset (dualshock4_common_output_offset rumble) (λ i.
      said (append_dualshock4_outputs naturals i (rumble ++ behind))
      ≡ said (append_dualshock4_outputs naturals i rumble))
    × AtOffset (dualsense_common_output_offset rumble) (λ i.
      said (append_dualsense_outputs naturals i (rumble ++ behind))
      ≡ said (append_dualsense_outputs naturals i rumble))
    × (((length rumble < 10) × (decode_switch_rumble_report rumble ≡ none))
        ⊎ (decode_switch_rumble_report (rumble ++ behind) ≡ decode_switch_rumble_report rumble))
    × (((length rumble < 12) × (player_lights_output naturals rumble ≡ []))
        ⊎ (said (player_lights_output naturals (rumble ++ behind))
            ≡ said (player_lights_output naturals rumble)))
    × (((length rumble < 15) × (home_light_output naturals rumble ≡ []))
        ⊎ (said (home_light_output naturals (rumble ++ behind))
            ≡ said (home_light_output naturals rumble)))
    × ((common_outputs generic_gamepad rumble ≡ raw_output rumble ∷ [])
        ⊎ (said (common_outputs generic_gamepad (rumble ++ behind))
            ≡ said (common_outputs generic_gamepad rumble)))
reads-append_example = reads-append naturals generic_gamepad rumble behind

parse_output_reports-Carries_example :
    (is_empty (parse_output_reports naturals generic_gamepad rumble) ≡ false)
    × All (Carries rumble) (parse_output_reports naturals generic_gamepad rumble)
    × Carries rumble (parse_output_report naturals generic_gamepad rumble)
parse_output_reports-Carries_example = parse_output_reports-Carries naturals generic_gamepad rumble

abbrev output : List ℕ
output = 0x31 ∷ 2 ∷ replicate 76 0

sealed_output-offset_example :
    (dualsense_common_output_offset (write_playstation_crc output 0xA2) ≡ some 2)
    × (dualshock4_common_output_offset (write_playstation_crc output 0xA2) ≡ none)
sealed_output-offset_example =
    sealed_output-offset output (omega arith)
      (omega arith, (omega arith, All-replicate (λ b. b < 256) 76 0 (omega arith)))

-- The check value of CRC-32: the digits 1 to 9 as text.
check_value :
    crc32 (0x31 ∷ 0x32 ∷ 0x33 ∷ 0x34 ∷ 0x35 ∷ 0x36 ∷ 0x37 ∷ 0x38 ∷ 0x39 ∷ []) 0 ≡ 0xCBF43926
unfolding crc32
check_value = refl
