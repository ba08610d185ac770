-- ===== src/Core/Output/Laws.antt =====
-- What the parsing of output reports returns, and that the payload it finds lies within the report.
use libvirtualhid.Base.{
  ℕ, ◌+◌, ◌*◌, ◌/◌, ◌%◌, ◌==◌, get_or, ◌<◌, ◌≡◌, refl, Bool, true, false, List, [], ◌∷◌, ◌++◌, All,
  Option, none, some, is_empty, length, if◌then◌else◌, if-cases, arith,
}
use libvirtualhid.Core.Types.{DeviceProfile, GamepadProfileKind}
use libvirtualhid.Core.Report.Numbers.{Floats}
use libvirtualhid.Core.Report.Bytes.{has_flag}
use libvirtualhid.Core.Output.Types.{GamepadOutput}
use libvirtualhid.Core.Output.Pid.{pid_rumble_payload_offset}
use libvirtualhid.Core.Output.Sony
use libvirtualhid.Core.Output.Switch.{
  rumble_output, rumble_outputs, SwitchRumbleAmplitude, decode_switch_rumble_report, is_subcommand,
  player_lights_output, home_light_output, append_switch_pro_outputs,
}
use libvirtualhid.Core.Output.Sony.{
  dualshock4_common_output_offset, dualsense_common_output_offset, append_dualshock4_outputs,
  append_dualsense_outputs,
}
use libvirtualhid.Core.Output.{
  parse_output_reports, parse_output_report, kind_outputs, other_outputs, at_offset,
}

abbrev pub Carries : List ℕ → GamepadOutput → Type 0
Carries report output = output.raw_report ≡ report

-- The first offset that is read past the payload's start, with an offset that may be missing.
abbrev pub InBounds : ℕ → List ℕ → Option ℕ → Type 0
InBounds n report none = Unit
InBounds n report (some offset) = offset + n < length report

pub pid-InBounds : (p : DeviceProfile) (r : List ℕ) → InBounds 7 r (pid_rumble_payload_offset p r)
pid-InBounds p r = ground arith

pub dualshock4-InBounds : (r : List ℕ) → InBounds 7 r (dualshock4_common_output_offset r)
unfolding dualshock4_common_output_offset
dualshock4-InBounds r = ground arith

pub dualsense-InBounds : (r : List ℕ) → InBounds 46 r (dualsense_common_output_offset r)
unfolding dualsense_common_output_offset
dualsense-InBounds r = ground arith

All-append :
    (r : List ℕ) (xs ys : List GamepadOutput)
    → All (Carries r) xs
    → All (Carries r) ys
    → All (Carries r) (xs ++ ys)
All-append r [] ys a b = b
All-append r (x ∷ xs) ys a b = (a.0, All-append r xs ys a.1 b)

-- One output that carries the report, or none.
optional-All :
    (r : List ℕ) (b : Bool) (output : GamepadOutput)
    → output.raw_report ≡ r
    → All (Carries r) (if b then output ∷ [] else [])
optional-All r true output h = (h, tt)
optional-All r false output h = tt

module _ {F : Type 0} (floats : Floats F) where
  switch-All : (r : List ℕ) → All (Carries r) (append_switch_pro_outputs floats r)
  switch-All r =
      All-append r (rumble_output floats r ++ player_lights_output floats r)
        (home_light_output floats r)
        (All-append r (rumble_output floats r) (player_lights_output floats r)
          (switch_rumble-All (decode_switch_rumble_report r))
          (optional-All r (is_subcommand r 12 0x30) _ refl))
        (optional-All r (is_subcommand r 15 0x38) _ refl)
    where
      switch_rumble-All : (o : Option SwitchRumbleAmplitude) → All (Carries r) (rumble_outputs r o)
      switch_rumble-All none = tt
      switch_rumble-All (some rumble) = (refl, tt)

  sony_rumble-All :
      (b c : Bool) (left right : ℕ) (r : List ℕ)
      → All (Carries r) (Sony.rumble_output floats b c left right r)
  sony_rumble-All true c left right r = (refl, tt)
  sony_rumble-All false true left right r = (refl, tt)
  sony_rumble-All false false left right r = tt

  adaptive-All :
      (offset : ℕ) (r : List ℕ) → All (Carries r) (Sony.adaptive_triggers_output floats offset r)
  adaptive-All offset r =
      if-cases (All (Carries r)) (get_or r offset 0 / 4 % 4 * 4 == 0) (λ _. tt) (λ _. (refl, tt))

  dualshock4-All :
      (offset : ℕ) (r : List ℕ) → All (Carries r) (append_dualshock4_outputs floats offset r)
  dualshock4-All offset r =
      All-append r _ _ (sony_rumble-All _ _ _ _ r)
        (optional-All r (has_flag (get_or r offset 0) 0x02) _ refl)

  dualsense-All :
      (offset : ℕ) (r : List ℕ) → All (Carries r) (append_dualsense_outputs floats offset r)
  dualsense-All offset r =
      All-append r _ _
        (All-append r _ _ (sony_rumble-All _ _ _ _ r)
          (optional-All r (has_flag (get_or r (offset + 1) 0) 0x04) _ refl))
        (adaptive-All offset r)

  at_offset-All :
      (o : Option ℕ) (append : ℕ → List ℕ → List GamepadOutput) (r : List ℕ)
      → ((offset : ℕ) → All (Carries r) (append offset r))
      → All (Carries r) (at_offset floats o append r)
  at_offset-All none append r h = tt
  at_offset-All (some offset) append r h = h offset

  kind-All : (kind : GamepadProfileKind) (r : List ℕ) → All (Carries r) (kind_outputs floats kind r)
  kind-All GamepadProfileKind.dualshock4 r =
      at_offset-All (dualshock4_common_output_offset r) (append_dualshock4_outputs floats) r
        (λ offset. dualshock4-All offset r)
  kind-All GamepadProfileKind.dualsense r =
      at_offset-All (dualsense_common_output_offset r) (append_dualsense_outputs floats) r
        (λ offset. dualsense-All offset r)
  kind-All GamepadProfileKind.switch_pro r = switch-All r
  kind-All GamepadProfileKind.generic r = tt
  kind-All GamepadProfileKind.xbox_360 r = tt
  kind-All GamepadProfileKind.xbox_one r = tt
  kind-All GamepadProfileKind.xbox_series r = tt

other-All : (p : DeviceProfile) (r : List ℕ) → All (Carries r) (other_outputs p r)
other-All p r = ground arith

other-nonempty : (p : DeviceProfile) (r : List ℕ) → is_empty (other_outputs p r) ≡ false
other-nonempty p r = ground arith

module _ {F : Type 0} (floats : Floats F) where
  -- Parsing an output report always gives an output, whatever the profile and the bytes, and every output
  -- carries the report as it came; so does the single output of `parse_output_report`.
  pub parse_output_reports-Carries :
      (p : DeviceProfile) (r : List ℕ)
      → (is_empty (parse_output_reports floats p r) ≡ false)
        × All (Carries r) (parse_output_reports floats p r)
        × Carries r (parse_output_report floats p r)
  unfolding parse_output_reports parse_output_report
  parse_output_reports-Carries p r =
      ground (arith, other-nonempty p r, other-All p r, kind-All floats p.gamepad_kind r)
