-- ===== src/Core/Report/SwitchPro.antt =====
-- The input report of a Switch Pro controller, of report.cpp.
use libvirtualhid.Base.{ℕ, ◌+◌, ◌*◌, List, [], ◌∷◌, ◌++◌, if◌then◌else◌, ltb, replicate, ◌/◌, ◌%◌}
use libvirtualhid.Core.Types.{DeviceProfile, GamepadState, Vector3}
use libvirtualhid.Core.Buttons.{GamepadButton, test}
use libvirtualhid.Core.Report.Numbers.{
  Floats, Clocks, number, scale_i16, normalize_switch_stick_axis,
}
use libvirtualhid.Core.Report.Bytes.{Write, write_all}
use libvirtualhid.Core.Report.Normalize.{
  pressed, standard_gravity, at_rest, no_turn, value_or, normalize_state,
  switch_battery_and_connection,
}

module _ {F : Type 0} (floats : Floats F) where
  -- Two axes of 12 bits in three bytes.
  abbrev pub write_switch_stick : ℕ → ℕ → ℕ → List Write
  write_switch_stick offset x y =
      Write.byte offset (x % 256)
      ∷ Write.byte (offset + 1) (x / 256 % 16 + y % 16 * 16)
      ∷ Write.byte (offset + 2) (y / 16 % 256)
      ∷ []

  abbrev pub switch_acceleration_scale : F
  switch_acceleration_scale = floats.divide (number floats 4096) (standard_gravity floats)

  abbrev pub switch_gyroscope_scale : F
  switch_gyroscope_scale = floats.literal 142842 4

  abbrev pub write_switch_imu_sample : ℕ → Vector3 F → Vector3 F → List Write
  write_switch_imu_sample offset acceleration gyroscope =
      Write.word offset (scale_i16 floats (floats.negate acceleration.z) switch_acceleration_scale)
      ∷ Write.word (offset + 2)
          (scale_i16 floats (floats.negate acceleration.x) switch_acceleration_scale)
      ∷ Write.word (offset + 4) (scale_i16 floats acceleration.y switch_acceleration_scale)
      ∷ Write.word (offset + 6)
          (scale_i16 floats (floats.negate gyroscope.z) switch_gyroscope_scale)
      ∷ Write.word (offset + 8)
          (scale_i16 floats (floats.negate gyroscope.x) switch_gyroscope_scale)
      ∷ Write.word (offset + 10) (scale_i16 floats gyroscope.y switch_gyroscope_scale)
      ∷ []

  -- `n` is the normalized state.
  abbrev pub switch_pro_buttons : GamepadState F → List Write
  switch_pro_buttons n =
      Write.flag (test n.buttons GamepadButton.x) 3 0x02
      ∷ Write.flag (test n.buttons GamepadButton.y) 3 0x01
      ∷ Write.flag (test n.buttons GamepadButton.a) 3 0x08
      ∷ Write.flag (test n.buttons GamepadButton.b) 3 0x04
      ∷ Write.flag (test n.buttons GamepadButton.right_shoulder) 3 0x40
      ∷ Write.flag (pressed floats n.right_trigger) 3 0x80
      ∷ Write.flag (test n.buttons GamepadButton.back) 4 0x01
      ∷ Write.flag (test n.buttons GamepadButton.start) 4 0x02
      ∷ Write.flag (test n.buttons GamepadButton.right_stick) 4 0x04
      ∷ Write.flag (test n.buttons GamepadButton.left_stick) 4 0x08
      ∷ Write.flag (test n.buttons GamepadButton.guide) 4 0x10
      ∷ Write.flag (test n.buttons GamepadButton.misc1) 4 0x20
      ∷ Write.flag (test n.buttons GamepadButton.dpad_down) 5 0x01
      ∷ Write.flag (test n.buttons GamepadButton.dpad_up) 5 0x02
      ∷ Write.flag (test n.buttons GamepadButton.dpad_right) 5 0x04
      ∷ Write.flag (test n.buttons GamepadButton.dpad_left) 5 0x08
      ∷ Write.flag (test n.buttons GamepadButton.left_shoulder) 5 0x40
      ∷ Write.flag (pressed floats n.left_trigger) 5 0x80
      ∷ []

  abbrev pub switch_pro_writes : Clocks → DeviceProfile → GamepadState F → List Write
  switch_pro_writes clocks profile n =
      let axis = normalize_switch_stick_axis floats in
      let acceleration = value_or n.acceleration (at_rest floats) in
      let gyroscope = value_or n.gyroscope (no_turn floats) in
      Write.byte 0 profile.report_id
        ∷ Write.byte 1 (clocks.packet_timer % 256)
        ∷ Write.byte 2 (switch_battery_and_connection floats n.battery)
        ∷ switch_pro_buttons n
      ++ write_switch_stick 6 (axis n.left_stick.x) (axis n.left_stick.y)
      ++ write_switch_stick 9 (axis n.right_stick.x) (axis n.right_stick.y)
      ++ write_switch_imu_sample 13 acceleration gyroscope
      ++ write_switch_imu_sample 25 acceleration gyroscope
      ++ write_switch_imu_sample 37 acceleration gyroscope

  unfoldable pub pack_switch_pro_input_report : Clocks → DeviceProfile → GamepadState F → List ℕ
  pack_switch_pro_input_report clocks profile state =
      if ltb profile.input_report_size 64
      then []
      else write_all (replicate profile.input_report_size 0)
          (switch_pro_writes clocks profile (normalize_state floats state))
