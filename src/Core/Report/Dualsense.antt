-- ===== src/Core/Report/Dualsense.antt =====
-- The input report of a DualSense, of report.cpp.
use libvirtualhid.Base.{
  ℕ, ◌+◌, ◌*◌, List, [], ◌∷◌, ◌++◌, Option, none, some, if◌then◌else◌, ltb, min, replicate, ◌/◌,
  ◌%◌,
}
use libvirtualhid.Core.Types.{DeviceProfile, GamepadState, GamepadBattery, Vector3}
use libvirtualhid.Core.Buttons.{GamepadButton, test}
use libvirtualhid.Core.Profiles.{is_bluetooth}
use libvirtualhid.Core.Report.Numbers.{
  Floats, Clocks, number, normalize_u8_axis, normalize_trigger, scale_i16, battery_charge,
}
use libvirtualhid.Core.Report.Bytes.{Write, write_all}
use libvirtualhid.Core.Report.Crc.{write_playstation_crc}
use libvirtualhid.Core.Report.ButtonBits.{hat_from_buttons}
use libvirtualhid.Core.Report.Normalize.{
  pressed, standard_gravity, value_or, normalize_state, full_battery, contact_at,
  write_dualsense_touch_contact, dualsense_battery_state,
}

-- The counter has 32 bits and is incremented by each call.
abbrev pub dualsense_sequence_number : Clocks → ℕ
dualsense_sequence_number clocks = (clocks.sequence_number + 1) % 4294967296 % 255

abbrev pub dualsense_sensor_timestamp : Clocks → ℕ
dualsense_sensor_timestamp clocks =
    clocks.dualsense_elapsed % 18446744073709551616 / 333 % 4294967296

module _ {F : Type 0} (floats : Floats F) where
  abbrev pub dualsense_acceleration_scale : F
  dualsense_acceleration_scale = floats.times (standard_gravity floats) (number floats 100)

  abbrev pub dualsense_gyroscope_scale : F
  dualsense_gyroscope_scale =
      floats.divide (floats.times (number floats 1145) floats.pi) (number floats 180)

  -- `n` is the normalized state, `o` the payload's offset.
  abbrev pub dualsense_buttons : ℕ → GamepadState F → List Write
  dualsense_buttons o n =
      Write.flag (test n.buttons GamepadButton.x) (o + 7) 0x10
      ∷ Write.flag (test n.buttons GamepadButton.a) (o + 7) 0x20
      ∷ Write.flag (test n.buttons GamepadButton.b) (o + 7) 0x40
      ∷ Write.flag (test n.buttons GamepadButton.y) (o + 7) 0x80
      ∷ Write.flag (test n.buttons GamepadButton.left_shoulder) (o + 8) 0x01
      ∷ Write.flag (test n.buttons GamepadButton.right_shoulder) (o + 8) 0x02
      ∷ Write.flag (pressed floats n.left_trigger) (o + 8) 0x04
      ∷ Write.flag (pressed floats n.right_trigger) (o + 8) 0x08
      ∷ Write.flag (test n.buttons GamepadButton.back) (o + 8) 0x10
      ∷ Write.flag (test n.buttons GamepadButton.start) (o + 8) 0x20
      ∷ Write.flag (test n.buttons GamepadButton.left_stick) (o + 8) 0x40
      ∷ Write.flag (test n.buttons GamepadButton.right_stick) (o + 8) 0x80
      ∷ Write.flag (test n.buttons GamepadButton.guide) (o + 9) 0x01
      ∷ Write.flag (test n.buttons GamepadButton.touchpad) (o + 9) 0x02
      ∷ Write.flag (test n.buttons GamepadButton.misc1) (o + 9) 0x04
      ∷ []

  -- Three words, at an offset, for a vector that the state may leave out.
  abbrev pub optional_vector : Option (Vector3 F) → ℕ → F → List Write
  optional_vector none o scale = []
  optional_vector (some v) o scale =
      Write.word o (scale_i16 floats v.x scale)
      ∷ Write.word (o + 2) (scale_i16 floats v.y scale)
      ∷ Write.word (o + 4) (scale_i16 floats v.z scale)
      ∷ []

  abbrev pub dualsense_battery : ℕ → GamepadBattery → List Write
  dualsense_battery o battery =
      Write.byte (o + 52) (
        min 10 (battery_charge floats battery.percentage)
        + dualsense_battery_state battery.state * 16)
      ∷ Write.byte (o + 53) 0x0C
      ∷ []

  -- The stores of the function, the checksum aside.
  abbrev pub dualsense_writes : Clocks → DeviceProfile → GamepadState F → List Write
  dualsense_writes clocks profile n =
      let bluetooth = is_bluetooth profile.bus_type in
      let o = if bluetooth then 2 else 1 in
      Write.byte 0 (if bluetooth then 0x31 else profile.report_id)
        ∷ (if bluetooth then Write.byte 1 0x00 ∷ [] else [])
      ++ (Write.byte o (normalize_u8_axis floats n.left_stick.x)
          ∷ Write.byte (o + 1) (normalize_u8_axis floats (floats.negate n.left_stick.y))
          ∷ Write.byte (o + 2) (normalize_u8_axis floats n.right_stick.x)
          ∷ Write.byte (o + 3) (normalize_u8_axis floats (floats.negate n.right_stick.y))
          ∷ Write.byte (o + 4) (normalize_trigger floats n.left_trigger)
          ∷ Write.byte (o + 5) (normalize_trigger floats n.right_trigger)
          ∷ Write.byte (o + 6) (dualsense_sequence_number clocks)
          ∷ Write.byte (o + 7) (hat_from_buttons n.buttons)
          ∷ [])
      ++ dualsense_buttons o n
      ++ optional_vector n.gyroscope (o + 15) dualsense_gyroscope_scale
      ++ optional_vector n.acceleration (o + 21) dualsense_acceleration_scale
      ++ Write.dword (o + 27) (dualsense_sensor_timestamp clocks)
        ∷ write_dualsense_touch_contact floats (o + 32) (contact_at floats n.touchpad_contacts 0)
      ++ write_dualsense_touch_contact floats (o + 36) (contact_at floats n.touchpad_contacts 1)
      ++ dualsense_battery o (value_or n.battery full_battery)

  unfoldable pub pack_dualsense_input_report : Clocks → DeviceProfile → GamepadState F → List ℕ
  pack_dualsense_input_report clocks profile state =
      let bluetooth = is_bluetooth profile.bus_type in
      let report =
        write_all (replicate profile.input_report_size 0)
          (dualsense_writes clocks profile (normalize_state floats state)) in
      if ltb profile.input_report_size (if bluetooth then 78 else 64)
      then []
      else if bluetooth
      then write_playstation_crc report 0xA1
      else report
