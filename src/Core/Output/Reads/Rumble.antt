-- ===== src/Core/Output/Reads/Rumble.antt =====
-- What is read of the output reports of the other gamepads.
use libvirtualhid.Base.{
  ℕ, ◌+◌, ◌==◌, ◌&&◌, ◌≤◌, ◌<◌, ◌≡◌, ◌⊎◌, inl, inr, refl, Bool-cases, ltb, ltb→lt, leb→le, Bool,
  true, List, [], ◌∷◌, ◌++◌, none, get_or, length, leb, arith,
}
use libvirtualhid.Core.Types.{DeviceProfile}
use libvirtualhid.Core.Report.Numbers.{Floats}
use libvirtualhid.Core.Output.Types.{raw_output}
use libvirtualhid.Core.Output.Pid.{decode_pid_rumble_at}
use libvirtualhid.Core.Output.Switch.{
  decode_switch_rumble_report, decode_switch_rumble_frame, player_lights_output, home_light_output,
}
use libvirtualhid.Core.Output.{common_outputs, is_xbox_360}
use libvirtualhid.Core.Output.Reads.Append.{
  said, get_or-append, said-when, said-either, leb_false→lt, ltb_false→le, still_long,
  still_at_least,
}

module _ (r extra : List ℕ) where
  pub decode_pid_rumble_at-append :
      (o : ℕ) → o + 7 < length r → decode_pid_rumble_at (r ++ extra) o ≡ decode_pid_rumble_at r o
  decode_pid_rumble_at-append o h =
      rw
        (
          get_or-append r extra o (omega arith),
          get_or-append r extra (o + 1 + 0) (omega arith),
          get_or-append r extra (o + 1 + 1) (omega arith),
          get_or-append r extra (o + 1 + 2) (omega arith),
          get_or-append r extra (o + 1 + 3) (omega arith),
          get_or-append r extra (o + 5) (omega arith),
        )
        refl

  frame-append :
      (o : ℕ)
      → o + 3 < length r
      → decode_switch_rumble_frame (r ++ extra) o ≡ decode_switch_rumble_frame r o
  frame-append o h =
      rw
        (
          get_or-append r extra (o + 1) (omega arith),
          get_or-append r extra (o + 2) (omega arith),
          get_or-append r extra (o + 3) (omega arith),
        )
        refl

module _ {F : Type 0} (floats : Floats F) (r extra : List ℕ) where
  -- The reports of a Switch Pro controller, with the sizes that are looked for first.
  pub decode_switch_rumble_report-append :
      ((length r < 10) × (decode_switch_rumble_report r ≡ none))
      ⊎ (decode_switch_rumble_report (r ++ extra) ≡ decode_switch_rumble_report r)
  unfolding decode_switch_rumble_report
  decode_switch_rumble_report-append = elim (Bool-cases (ltb (length r) 10)) [
    | inl short ↦ inl (ltb→lt (length r) 10 short, rw (short) refl)
    | inr long ↦ inr (
        rw
          (
            still_long r extra 10 long,
            long,
            get_or-append r extra 0 (omega (arith, ltb_false→le (length r) 10 long)),
            frame-append r extra 2 (omega (arith, ltb_false→le (length r) 10 long)),
            frame-append r extra 6 (omega (arith, ltb_false→le (length r) 10 long)),
          )
          refl)
  ]

  pub player_lights_output-said :
      ((length r < 12) × (player_lights_output floats r ≡ []))
      ⊎ (said (player_lights_output floats (r ++ extra)) ≡ said (player_lights_output floats r))
  player_lights_output-said = elim (Bool-cases (leb 12 (length r))) [
    | inr short ↦ inl (omega (arith, leb_false→lt 12 (length r) short), rw (short) refl)
    | inl long ↦ inr (
        rw
          (
            still_at_least r extra 12 long,
            long,
            get_or-append r extra 0 (omega (arith, leb→le 12 (length r) long)),
            get_or-append r extra 10 (omega (arith, leb→le 12 (length r) long)),
            get_or-append r extra 11 (omega (arith, leb→le 12 (length r) long)),
          )
          (said-when (get_or r 0 0 == 0x01 && get_or r 10 0 == 0x30) _ _ refl))
  ]

  pub home_light_output-said :
      ((length r < 15) × (home_light_output floats r ≡ []))
      ⊎ (said (home_light_output floats (r ++ extra)) ≡ said (home_light_output floats r))
  home_light_output-said = elim (Bool-cases (leb 15 (length r))) [
    | inr short ↦ inl (omega (arith, leb_false→lt 15 (length r) short), rw (short) refl)
    | inl long ↦ inr (
        rw
          (
            still_at_least r extra 15 long,
            long,
            get_or-append r extra 0 (omega (arith, leb→le 15 (length r) long)),
            get_or-append r extra 10 (omega (arith, leb→le 15 (length r) long)),
            get_or-append r extra 12 (omega (arith, leb→le 15 (length r) long)),
          )
          (said-when (get_or r 0 0 == 0x01 && get_or r 10 0 == 0x38) _ _ refl))
  ]

  abbrev is_xbox_rumble : DeviceProfile → List ℕ → Bool
  is_xbox_rumble p report =
      is_xbox_360 p.gamepad_kind
      && p.capabilities.supports_rumble
      && leb 5 p.output_report_size
      && leb p.output_report_size (length report)
      && get_or report 0 0 == p.report_id

  pub common_outputs-said :
      (p : DeviceProfile)
      → (common_outputs p r ≡ raw_output r ∷ [])
        ⊎ (said (common_outputs p (r ++ extra)) ≡ said (common_outputs p r))
  common_outputs-said p = elim (Bool-cases (is_xbox_rumble p r)) [
    | inr other ↦ inl (rw (other) refl)
    | inl rumbles ↦
        let large : 5 ≤ p.output_report_size = ground arith in
        let long : leb p.output_report_size (length r) ≡ true = ground arith in
        let enough : 5 ≤ length r =
          omega (arith, large, leb→le p.output_report_size (length r) long) in
        inr (
          rw
            (
              still_at_least r extra p.output_report_size long,
              long,
              get_or-append r extra 0 (omega (arith, enough)),
              get_or-append r extra 1 (omega (arith, enough)),
              get_or-append r extra 2 (omega (arith, enough)),
              get_or-append r extra 3 (omega (arith, enough)),
              get_or-append r extra 4 (omega (arith, enough)),
            )
            (said-either _ _ _ _ _ refl refl))
  ]
