-- ===== src/Core/Output/Reads.antt =====
-- The reading of output reports looks at bytes of the report only: bytes behind it make no difference.
pub mod Append
pub mod Sony
pub mod Rumble
use libvirtualhid.Base.{
  ℕ, zero, suc, ◌+◌, ◌*◌, ◌/◌, ◌%◌, ◌==◌, ◌&&◌, ◌≤◌, ◌<◌, ◌≡◌, ◌⊎◌, ◌∙◌, inl, inr, refl, ap, sym,
  Bool-cases, ltb, ltb→lt, leb→le, ◌||◌, not, Bool, true, false, List, [], ◌∷◌, ◌++◌, map, Option,
  none, some, get_or, length, take, drop, if◌then◌else◌, if-cases, leb, arith,
}
use mathlib.Core.List.{map-append}
use libvirtualhid.Core.Types.{DeviceProfile}
use libvirtualhid.Core.Report.Numbers.{Floats}
use libvirtualhid.Core.Report.Bytes.{has_flag}
use libvirtualhid.Core.Output.Types.{GamepadOutput, raw_output}
use libvirtualhid.Core.Output.Pid.{pid_rumble_payload_offset, decode_pid_rumble_at}
use libvirtualhid.Core.Output.Switch.{
  decode_switch_rumble_report, decode_switch_rumble_frame, player_lights_output, home_light_output,
}
use libvirtualhid.Core.Output.Sony.{
  dualshock4_common_output_offset, dualsense_common_output_offset, append_dualshock4_outputs,
  append_dualsense_outputs,
}
use libvirtualhid.Core.Output.{common_outputs, is_xbox_360}
use libvirtualhid.Core.Output.Laws.{InBounds, pid-InBounds, dualshock4-InBounds, dualsense-InBounds}
use libvirtualhid.Core.Output.Reads.Append.{said}
use libvirtualhid.Core.Output.Reads.Sony.{
  append_dualshock4_outputs-said, append_dualsense_outputs-said,
}
use libvirtualhid.Core.Output.Reads.Rumble.{
  decode_pid_rumble_at-append, decode_switch_rumble_report-append, player_lights_output-said,
  home_light_output-said, common_outputs-said,
}

-- A statement about an offset, if there is one.
abbrev pub AtOffset : Option ℕ → (ℕ → Type 0) → Type 0
AtOffset none P = Unit
AtOffset (some offset) P = P offset

module _ {F : Type 0} (floats : Floats F) (r extra : List ℕ) where
  at_pid_offset :
      (o : Option ℕ)
      → InBounds 7 r o
      → AtOffset o (λ i. decode_pid_rumble_at (r ++ extra) i ≡ decode_pid_rumble_at r i)
  at_pid_offset none h = tt
  at_pid_offset (some o) h = decode_pid_rumble_at-append r extra o h

  at_dualshock4_offset :
      (o : Option ℕ)
      → InBounds 7 r o
      → AtOffset o (λ i.
        said (append_dualshock4_outputs floats i (r ++ extra))
        ≡ said (append_dualshock4_outputs floats i r))
  at_dualshock4_offset none h = tt
  at_dualshock4_offset (some o) h = append_dualshock4_outputs-said floats r extra o h

  at_dualsense_offset :
      (o : Option ℕ)
      → InBounds 46 r o
      → AtOffset o (λ i.
        said (append_dualsense_outputs floats i (r ++ extra))
        ≡ said (append_dualsense_outputs floats i r))
  at_dualsense_offset none h = tt
  at_dualsense_offset (some o) h = append_dualsense_outputs-said floats r extra o h

-- What is read of an output report beyond its checksum lies within the report: any bytes put behind it
-- make no difference. So it is with the PID rumble, and with the outputs of a DualShock 4 and a DualSense,
-- the report that they carry aside, from the offset that is found for the payload of the report; with the
-- rumble, the player lights and the home light of a Switch Pro controller, where a report of fewer than
-- 10, 12 and 15 bytes has none; and with the outputs of the kinds that are left, the Xbox 360 rumble among
-- them, unless these are the bare report.
pub reads-append :
    {F : Type 0} (floats : Floats F) (p : DeviceProfile) (r extra : List ℕ)
    → AtOffset
        (pid_rumble_payload_offset p r)
        (λ i. decode_pid_rumble_at (r ++ extra) i ≡ decode_pid_rumble_at r i)
      × AtOffset (dualshock4_common_output_offset r) (λ i.
        said (append_dualshock4_outputs floats i (r ++ extra))
        ≡ said (append_dualshock4_outputs floats i r))
      × AtOffset (dualsense_common_output_offset r) (λ i.
        said (append_dualsense_outputs floats i (r ++ extra))
        ≡ said (append_dualsense_outputs floats i r))
      × (((length r < 10) × (decode_switch_rumble_report r ≡ none))
          ⊎ (decode_switch_rumble_report (r ++ extra) ≡ decode_switch_rumble_report r))
      × (((length r < 12) × (player_lights_output floats r ≡ []))
          ⊎ (said (player_lights_output floats (r ++ extra))
              ≡ said (player_lights_output floats r)))
      × (((length r < 15) × (home_light_output floats r ≡ []))
          ⊎ (said (home_light_output floats (r ++ extra)) ≡ said (home_light_output floats r)))
      × ((common_outputs p r ≡ raw_output r ∷ [])
          ⊎ (said (common_outputs p (r ++ extra)) ≡ said (common_outputs p r)))
reads-append floats p r extra = (
  at_pid_offset floats r extra (pid_rumble_payload_offset p r) (pid-InBounds p r),
  at_dualshock4_offset floats r extra (dualshock4_common_output_offset r) (dualshock4-InBounds r),
  at_dualsense_offset floats r extra (dualsense_common_output_offset r) (dualsense-InBounds r),
  decode_switch_rumble_report-append floats r extra,
  player_lights_output-said floats r extra,
  home_light_output-said floats r extra,
  common_outputs-said floats r extra p,
)
