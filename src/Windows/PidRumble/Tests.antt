-- ===== src/Windows/PidRumble/Tests.antt =====
-- Runs of the decoder, with the scaling rounded down, and its theorems at concrete states.
use libvirtualhid.Base.{
  ℕ, Bool, All, all, not, ◌||◌, leb, ◌+◌, ◌*◌, ◌/◌, ◌≤◌, ◌≡◌, refl, true, false, List, [], ◌∷◌,
  none, some, arith, min,
}
use libvirtualhid.Windows.PidRumble.Effects.{
  Effect, ms, start_effect, expire_effect, reschedule_running_effect, candidate, shift_end,
  shift_effect,
}
use libvirtualhid.Windows.PidRumble.{
  Scaling, State, ignored, new, effect_index, read_u16, to_i16, expire_effects, current_strength,
  current_update, contribution, scale_force, advance, next_transition,
}
use libvirtualhid.Windows.PidRumble.Reports.{
  handle_output_report, handle_set_effect, handle_magnitude, handle_effect_operation, pause,
  continue_effects,
}
use libvirtualhid.Windows.PidRumble.Invariant.{IsWell}
use libvirtualhid.Windows.PidRumble.Runs.{Call, reports, step, run, run-new-IsWell}
use libvirtualhid.Windows.PidRumble.Schedule.{Before, advance-progress}
use libvirtualhid.Windows.PidRumble.Quiet.{HasBegun, advance-quiet}
use libvirtualhid.Windows.PidRumble.Pause.{next_transition-continue_effects}
use libvirtualhid.Windows.PidRumble.Strength.{
  total, current_strength-total, stops, silence, Silences-strength,
}

floor : ℕ → ℕ → ℕ → ℕ
floor m g d = min (m * g * d * 65535 / 650_250_000) 65535

floor-le : (m g d : ℕ) → floor m g d ≤ 65535
unfolding floor
floor-le m g d = omega arith

floor-zero : (g d : ℕ) → floor 0 g d ≡ 0
unfolding floor
floor-zero g d = omega arith

abbrev scaling : Scaling
scaling = record { scaled = floor; scaled_le = floor-le; scaled_zero = floor-zero }

-- Block 1 gets half the force for 100 ms and is started at 5 ms.
abbrev calls : List Call
calls =
    reports (0x11 ∷ 1 ∷ 1 ∷ 100 ∷ 0 ∷ 0 ∷ 0 ∷ 0 ∷ 0 ∷ 0 ∷ 0 ∷ 255 ∷ []) 0
    ∷ reports (0x15 ∷ 1 ∷ 136 ∷ 19 ∷ []) 0
    ∷ reports (0x1A ∷ 1 ∷ 1 ∷ 1 ∷ []) (ms 5)
    ∷ []

abbrev half_force : State
half_force = run scaling new calls

half_force_strength : half_force.last_strength ≡ 32767
unfolding run step new handle_output_report handle_set_effect handle_magnitude
    handle_effect_operation expire_effects expire_effect reschedule_running_effect start_effect
    current_update current_strength contribution scale_force floor effect_index read_u16 to_i16
half_force_strength = refl

half_force_ends : next_transition half_force ≡ some (ms 105)
unfolding run step new handle_output_report handle_set_effect handle_magnitude
    handle_effect_operation expire_effects expire_effect reschedule_running_effect start_effect
    current_update current_strength contribution scale_force floor effect_index read_u16 to_i16
    next_transition candidate
half_force_ends = refl

run-new-IsWell_example : IsWell half_force
run-new-IsWell_example = run-new-IsWell scaling calls

half_force-IsWell : IsWell half_force
half_force-IsWell = run-new-IsWell scaling calls

begun : List Effect → ℕ → Bool
begun es now = all (λ e. not e.started || leb e.start now) es

begun-HasBegun : (es : List Effect) (now : ℕ) → begun es now ≡ true → All (HasBegun now) es
unfolding begun
begun-HasBegun [] now h = tt
begun-HasBegun (e ∷ es) now h = (ground arith, begun-HasBegun es now (ground arith))

half_force_begun : begun half_force.effects (ms 50) ≡ true
unfolding run step new handle_output_report handle_set_effect handle_magnitude
    handle_effect_operation expire_effects expire_effect reschedule_running_effect start_effect
    current_update current_strength contribution scale_force floor effect_index read_u16 to_i16
    begun
half_force_begun = refl

half_force_advanced : next_transition (advance scaling half_force (ms 50)).0 ≡ some (ms 105)
unfolding run step new handle_output_report handle_set_effect handle_magnitude
    handle_effect_operation expire_effects expire_effect reschedule_running_effect start_effect
    current_update current_strength contribution scale_force floor effect_index read_u16 to_i16
    next_transition candidate advance
half_force_advanced = refl

advance-quiet_example :
    advance scaling (advance scaling half_force (ms 50)).0 (ms 104)
    ≡ ((advance scaling half_force (ms 50)).0, ignored)
advance-quiet_example =
    advance-quiet scaling half_force (ms 50) (ms 104) half_force-IsWell
      (begun-HasBegun half_force.effects (ms 50) half_force_begun) (omega arith)
      (rw half_force_advanced (omega arith))

-- An infinite effect that is started in a pause: at 20 ms, when the pause ends, no transition is left, but
-- the effect is felt only from 25 ms, as an advance at 30 ms shows.
abbrev paused_calls : List Call
paused_calls =
    reports (0x11 ∷ 1 ∷ 1 ∷ 255 ∷ 255 ∷ 0 ∷ 0 ∷ 0 ∷ 0 ∷ 0 ∷ 0 ∷ 255 ∷ []) 0
    ∷ reports (0x15 ∷ 1 ∷ 136 ∷ 19 ∷ []) 0
    ∷ reports (0x1C ∷ 5 ∷ []) (ms 5)
    ∷ reports (0x1A ∷ 1 ∷ 1 ∷ 1 ∷ []) (ms 10)
    ∷ reports (0x1C ∷ 6 ∷ []) (ms 20)
    ∷ []

started_late :
    (next_transition (run scaling new paused_calls) ≡ none)
    × ((run scaling new paused_calls).last_strength ≡ 0)
    × ((advance scaling (run scaling new paused_calls) (ms 30)).1.strength ≡ 32767)
unfolding run step new handle_output_report handle_set_effect handle_magnitude
    handle_effect_operation expire_effects expire_effect reschedule_running_effect start_effect
    current_update current_strength contribution scale_force floor effect_index read_u16 to_i16
    next_transition candidate advance libvirtualhid.Windows.PidRumble.Reports.handle_device_control
    libvirtualhid.Windows.PidRumble.Reports.control shift_effect
started_late = (refl, refl, refl)

advance-progress_example :
    let s = (advance scaling half_force (ms 200)).0 in
    Before (ms 200) (next_transition s) × (advance scaling s (ms 200) ≡ (s, ignored))
advance-progress_example = advance-progress scaling half_force (ms 200) half_force-IsWell

half_force_free : half_force.paused ≡ false
unfolding run step new handle_output_report handle_set_effect handle_magnitude
    handle_effect_operation expire_effects current_update effect_index expire_effect
    reschedule_running_effect
half_force_free = refl

next_transition-continue_effects_example :
    (next_transition (pause half_force (ms 50)) ≡ none)
    × (next_transition (continue_effects (pause half_force (ms 50)) (ms 50 + ms 30))
        ≡ shift_end (next_transition half_force) (ms 30))
next_transition-continue_effects_example =
    next_transition-continue_effects half_force (ms 50) (ms 30) half_force_free

half_force_on : half_force.actuators_enabled ≡ true
unfolding run step new handle_output_report handle_set_effect handle_magnitude
    handle_effect_operation expire_effects current_update effect_index expire_effect
    reschedule_running_effect
half_force_on = refl

current_strength-total_example :
    current_strength scaling half_force (ms 6)
    ≡ min (total scaling half_force.device_gain (ms 6) half_force.effects) 65535
current_strength-total_example =
    current_strength-total scaling half_force (ms 6) half_force-IsWell half_force_on half_force_free

Silences-strength_example :
    (handle_output_report scaling half_force (0x1C ∷ 3 ∷ []) (ms 6)).1 ≡ silence
Silences-strength_example = Silences-strength scaling half_force [] (ms 6) (stops refl)
