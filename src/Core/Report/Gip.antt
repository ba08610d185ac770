-- ===== src/Core/Report/Gip.antt =====
-- The input report of the Xbox One and Series gamepads, of report.cpp.
use libvirtualhid.Base.{ℕ, List, [], ◌∷◌, ◌++◌, if◌then◌else◌, ltb, replicate}
use libvirtualhid.Core.Types.{DeviceProfile, GamepadState}
use libvirtualhid.Core.Buttons.{GamepadButton, test}
use libvirtualhid.Core.Report.Numbers.{Floats, normalize_unsigned_axis, normalize_u10_trigger}
use libvirtualhid.Core.Report.Bytes.{Write, write_all}
use libvirtualhid.Core.Report.ButtonBits.{xbox_gip_button_bits, xbox_gip_hat_from_buttons}
use libvirtualhid.Core.Report.Normalize.{normalize_state, battery_strength}

module _ {F : Type 0} (floats : Floats F) where
  -- `report[15] = 1` under a condition stores nothing where it does not hold.
  abbrev pub xbox_gip_writes : GamepadState F → List Write
  xbox_gip_writes n =
      let axis = normalize_unsigned_axis floats in
      Write.word 0 (axis n.left_stick.x)
        ∷ Write.word 2 (axis (floats.negate n.left_stick.y))
        ∷ Write.word 4 (axis n.right_stick.x)
        ∷ Write.word 6 (axis (floats.negate n.right_stick.y))
        ∷ Write.word 8 (normalize_u10_trigger floats n.left_trigger)
        ∷ Write.word 10 (normalize_u10_trigger floats n.right_trigger)
        ∷ Write.word 12 (xbox_gip_button_bits n.buttons)
        ∷ Write.byte 14 (xbox_gip_hat_from_buttons n.buttons)
        ∷ (if test n.buttons GamepadButton.guide then Write.byte 15 0x01 ∷ [] else [])
      ++ Write.byte 16 (battery_strength floats n.battery) ∷ []

  unfoldable pub pack_xbox_gip_input_report : DeviceProfile → GamepadState F → List ℕ
  pack_xbox_gip_input_report profile state =
      if ltb profile.input_report_size 17
      then []
      else write_all (replicate profile.input_report_size 0)
          (xbox_gip_writes (normalize_state floats state))
