-- ===== src/Core/Report/Dualshock4.antt =====
-- The input report of a DualShock 4, of report.cpp.
use libvirtualhid.Base.{ℕ, ◌+◌, ◌*◌, List, [], ◌∷◌, ◌++◌, if◌then◌else◌, ltb, replicate, ◌/◌, ◌%◌}
use libvirtualhid.Core.Types.{DeviceProfile, GamepadState}
use libvirtualhid.Core.Buttons.{GamepadButton, test}
use libvirtualhid.Core.Profiles.{is_bluetooth}
use libvirtualhid.Core.Report.Numbers.{
  Floats, Clocks, number, normalize_u8_axis, normalize_trigger, scale_i16,
}
use libvirtualhid.Core.Report.Bytes.{Write, write_all}
use libvirtualhid.Core.Report.Crc.{write_playstation_crc}
use libvirtualhid.Core.Report.ButtonBits.{hat_from_buttons}
use libvirtualhid.Core.Report.Normalize.{
  pressed, standard_gravity, at_rest, no_turn, value_or, normalize_state, full_battery, contact_at,
  write_dualshock4_touch_contact, dualshock4_battery_status, dualshock4_battery_level,
}

-- The low 16 bits of the microseconds times 3 / 16; 64-bit arithmetic wraps around.
abbrev pub dualshock4_sensor_timestamp : Clocks → ℕ
dualshock4_sensor_timestamp clocks =
    clocks.dualshock4_elapsed * 3 % 18446744073709551616 / 16 % 65536

module _ {F : Type 0} (floats : Floats F) where
  -- `n` is the normalized state, `o` the payload's offset.
  abbrev pub dualshock4_buttons : ℕ → GamepadState F → List Write
  dualshock4_buttons o n =
      Write.flag (test n.buttons GamepadButton.x) (o + 4) 0x10
      ∷ Write.flag (test n.buttons GamepadButton.a) (o + 4) 0x20
      ∷ Write.flag (test n.buttons GamepadButton.b) (o + 4) 0x40
      ∷ Write.flag (test n.buttons GamepadButton.y) (o + 4) 0x80
      ∷ Write.flag (test n.buttons GamepadButton.left_shoulder) (o + 5) 0x01
      ∷ Write.flag (test n.buttons GamepadButton.right_shoulder) (o + 5) 0x02
      ∷ Write.flag (pressed floats n.left_trigger) (o + 5) 0x04
      ∷ Write.flag (pressed floats n.right_trigger) (o + 5) 0x08
      ∷ Write.flag (test n.buttons GamepadButton.back) (o + 5) 0x10
      ∷ Write.flag (test n.buttons GamepadButton.start) (o + 5) 0x20
      ∷ Write.flag (test n.buttons GamepadButton.left_stick) (o + 5) 0x40
      ∷ Write.flag (test n.buttons GamepadButton.right_stick) (o + 5) 0x80
      ∷ Write.flag (test n.buttons GamepadButton.guide) (o + 6) 0x01
      ∷ Write.flag (test n.buttons GamepadButton.touchpad) (o + 6) 0x02
      ∷ []

  abbrev pub dualshock4_motion : ℕ → GamepadState F → List Write
  dualshock4_motion o n =
      let gyroscope = value_or n.gyroscope (no_turn floats) in
      let acceleration = value_or n.acceleration (at_rest floats) in
      let scale = floats.divide (number floats 10000) (standard_gravity floats) in
      Write.word (o + 12) (scale_i16 floats gyroscope.x (number floats 20))
      ∷ Write.word (o + 14) (scale_i16 floats gyroscope.y (number floats 20))
      ∷ Write.word (o + 16) (scale_i16 floats gyroscope.z (number floats 20))
      ∷ Write.word (o + 18) (scale_i16 floats acceleration.x scale)
      ∷ Write.word (o + 20) (scale_i16 floats acceleration.y scale)
      ∷ Write.word (o + 22) (scale_i16 floats acceleration.z scale)
      ∷ []

  -- The stores of the function, the checksum aside.
  abbrev pub dualshock4_writes : Clocks → DeviceProfile → GamepadState F → List Write
  dualshock4_writes clocks profile n =
      let bluetooth = is_bluetooth profile.bus_type in
      let o = if bluetooth then 3 else 1 in
      let battery = value_or n.battery full_battery in
      Write.byte 0 (if bluetooth then 0x11 else profile.report_id)
        ∷ (if bluetooth then Write.byte 1 0x80 ∷ [] else [])
      ++ (Write.byte o (normalize_u8_axis floats n.left_stick.x)
          ∷ Write.byte (o + 1) (normalize_u8_axis floats (floats.negate n.left_stick.y))
          ∷ Write.byte (o + 2) (normalize_u8_axis floats n.right_stick.x)
          ∷ Write.byte (o + 3) (normalize_u8_axis floats (floats.negate n.right_stick.y))
          ∷ Write.byte (o + 4) (hat_from_buttons n.buttons)
          ∷ [])
      ++ dualshock4_buttons o n
      ++ (Write.byte (o + 7) (normalize_trigger floats n.left_trigger)
          ∷ Write.byte (o + 8) (normalize_trigger floats n.right_trigger)
          ∷ Write.word (o + 9) (dualshock4_sensor_timestamp clocks)
          ∷ Write.byte (o + 11) (dualshock4_battery_level floats battery)
          ∷ [])
      ++ dualshock4_motion o n
      ++ (Write.byte (o + 29) (dualshock4_battery_status floats battery)
          ∷ Write.byte (o + 32) 0x01
          ∷ [])
      ++ write_dualshock4_touch_contact floats (o + 33 + 1)
          (contact_at floats n.touchpad_contacts 0)
      ++ write_dualshock4_touch_contact floats (o + 33 + 5)
          (contact_at floats n.touchpad_contacts 1)

  unfoldable pub pack_dualshock4_input_report : Clocks → DeviceProfile → GamepadState F → List ℕ
  pack_dualshock4_input_report clocks profile state =
      let bluetooth = is_bluetooth profile.bus_type in
      let report =
        write_all (replicate profile.input_report_size 0)
          (dualshock4_writes clocks profile (normalize_state floats state)) in
      if ltb profile.input_report_size (if bluetooth then 78 else 64)
      then []
      else if bluetooth
      then write_playstation_crc report 0xA1
      else report
