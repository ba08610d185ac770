-- ===== src/Core/Output/Reads/Sony.antt =====
-- What is read of the output reports of a DualShock 4 and a DualSense.
use libvirtualhid.Base.{
  ℕ, ◌+◌, ◌*◌, ◌/◌, ◌%◌, ◌==◌, ◌&&◌, ◌<◌, ◌≡◌, refl, ◌||◌, Bool, true, false, List, ◌++◌, get_or,
  length, arith,
}
use libvirtualhid.Core.Report.Numbers.{Floats}
use libvirtualhid.Core.Report.Bytes.{has_flag}
use libvirtualhid.Core.Output.Types.{GamepadOutput}
use libvirtualhid.Core.Output.Sony
use libvirtualhid.Core.Output.Sony.{
  dualshock4_common_output_offset, dualsense_common_output_offset, append_dualshock4_outputs,
  append_dualsense_outputs,
}
use libvirtualhid.Core.Output.Reads.Append.{
  said, get_or-append, take-drop-append, said-append, said-unless,
}

module _ {F : Type 0} (floats : Floats F) (r extra : List ℕ) where
  rumble_output-said :
      (b c : Bool) (left right : ℕ)
      → said (Sony.rumble_output floats b c left right (r ++ extra))
        ≡ said (Sony.rumble_output floats b c left right r)
  rumble_output-said true c left right = refl
  rumble_output-said false true left right = refl
  rumble_output-said false false left right = refl

  lightbar_output-said :
      (lit : Bool) (o : ℕ)
      → o + 2 < length r
      → said (Sony.lightbar_output floats lit o (r ++ extra))
        ≡ said (Sony.lightbar_output floats lit o r)
  lightbar_output-said true o h =
      rw
        (
          get_or-append r extra o (omega arith),
          get_or-append r extra (o + 1) (omega arith),
          get_or-append r extra (o + 2) (omega arith),
        )
        refl
  lightbar_output-said false o h = refl

  adaptive_triggers_output-said :
      (o : ℕ)
      → o + 31 < length r
      → said (Sony.adaptive_triggers_output floats o (r ++ extra))
        ≡ said (Sony.adaptive_triggers_output floats o r)
  adaptive_triggers_output-said o h =
      rw
        (
          get_or-append r extra o (omega arith),
          get_or-append r extra (o + 21) (omega arith),
          get_or-append r extra (o + 10) (omega arith),
          take-drop-append (o + 11) 10 r extra (omega arith),
          take-drop-append (o + 22) 10 r extra (omega arith),
        )
        (said-unless (get_or r o 0 / 4 % 4 * 4 == 0) _ _ refl)

  -- The first two parts of the outputs.
  abbrev dualshock4_rumble : ℕ → List ℕ → List GamepadOutput
  dualshock4_rumble o report =
      Sony.rumble_output floats (has_flag (get_or report o 0) 0x01)
        (get_or report o 0 == 0 && get_or report (o + 1) 0 == 0) (get_or report (o + 4) 0)
        (get_or report (o + 3) 0) report

  abbrev dualshock4_light : ℕ → List ℕ → List GamepadOutput
  dualshock4_light o report =
      Sony.lightbar_output floats (has_flag (get_or report o 0) 0x02) (o + 5) report

  abbrev dualsense_rumble : ℕ → List ℕ → List GamepadOutput
  dualsense_rumble o report =
      Sony.rumble_output floats
        (has_flag (get_or report o 0) 0x01 || has_flag (get_or report (o + 38) 0) 0x04)
        (get_or report o 0 == 0 && get_or report (o + 1) 0 == 0 && get_or report (o + 38) 0 == 0)
        (get_or report (o + 3) 0) (get_or report (o + 2) 0) report

  abbrev dualsense_light : ℕ → List ℕ → List GamepadOutput
  dualsense_light o report =
      Sony.lightbar_output floats (has_flag (get_or report (o + 1) 0) 0x04) (o + 44) report

  dualshock4_rumble-said :
      (o : ℕ)
      → o + 7 < length r
      → said (dualshock4_rumble o (r ++ extra)) ≡ said (dualshock4_rumble o r)
  dualshock4_rumble-said o h =
      rw
        (
          get_or-append r extra o (omega arith),
          get_or-append r extra (o + 1) (omega arith),
          get_or-append r extra (o + 3) (omega arith),
          get_or-append r extra (o + 4) (omega arith),
        )
        (rumble_output-said _ _ _ _)

  dualshock4_light-said :
      (o : ℕ)
      → o + 7 < length r
      → said (dualshock4_light o (r ++ extra)) ≡ said (dualshock4_light o r)
  dualshock4_light-said o h =
      rw (get_or-append r extra o (omega arith)) (lightbar_output-said _ (o + 5) (omega arith))

  dualsense_rumble-said :
      (o : ℕ)
      → o + 46 < length r
      → said (dualsense_rumble o (r ++ extra)) ≡ said (dualsense_rumble o r)
  dualsense_rumble-said o h =
      rw
        (
          get_or-append r extra o (omega arith),
          get_or-append r extra (o + 1) (omega arith),
          get_or-append r extra (o + 38) (omega arith),
          get_or-append r extra (o + 3) (omega arith),
          get_or-append r extra (o + 2) (omega arith),
        )
        (rumble_output-said _ _ _ _)

  dualsense_light-said :
      (o : ℕ)
      → o + 46 < length r
      → said (dualsense_light o (r ++ extra)) ≡ said (dualsense_light o r)
  dualsense_light-said o h =
      rw (get_or-append r extra (o + 1) (omega arith))
        (lightbar_output-said _ (o + 44) (omega arith))

  pub append_dualshock4_outputs-said :
      (o : ℕ)
      → o + 7 < length r
      → said (append_dualshock4_outputs floats o (r ++ extra))
        ≡ said (append_dualshock4_outputs floats o r)
  append_dualshock4_outputs-said o h =
      said-append (dualshock4_rumble o (r ++ extra)) (dualshock4_rumble o r)
        (dualshock4_light o (r ++ extra)) (dualshock4_light o r) (dualshock4_rumble-said o h)
        (dualshock4_light-said o h)

  pub append_dualsense_outputs-said :
      (o : ℕ)
      → o + 46 < length r
      → said (append_dualsense_outputs floats o (r ++ extra))
        ≡ said (append_dualsense_outputs floats o r)
  append_dualsense_outputs-said o h =
      said-append (dualsense_rumble o (r ++ extra) ++ dualsense_light o (r ++ extra))
        (dualsense_rumble o r ++ dualsense_light o r)
        (Sony.adaptive_triggers_output floats o (r ++ extra))
        (Sony.adaptive_triggers_output floats o r)
        (said-append (dualsense_rumble o (r ++ extra)) (dualsense_rumble o r)
          (dualsense_light o (r ++ extra)) (dualsense_light o r) (dualsense_rumble-said o h)
          (dualsense_light-said o h))
        (adaptive_triggers_output-said o (omega arith))
