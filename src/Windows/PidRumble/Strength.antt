-- ===== src/Windows/PidRumble/Strength.antt =====
-- The strength that the motor is asked for.
use libvirtualhid.Base.{
  ℕ, ◌+◌, ◌*◌, ◌%◌, ◌≤◌, ◌<◌, ◌≡◌, refl, true, false, List, [], ◌∷◌, arith, map, min, All, length,
  All-replicate, ◌⊎◌, inl, inr,
}
use libvirtualhid.Base.Int.{pos_part, neg_part}
use libvirtualhid.Windows.PidRumble.Effects.{Effect, idle_effect, stop_effect}
use libvirtualhid.Windows.PidRumble.{
  Scaling, State, Update, generic_pid_max_effects, scale_force, contribution, combined,
  current_strength, current_update, stop_all_effects, expire_effects,
}
use libvirtualhid.Windows.PidRumble.Reports.{
  pause, reset, control, handle_device_control, handle_output_report,
}
use libvirtualhid.Windows.PidRumble.Invariant.{IsWell}

-- What all effects add up to, with no machine word in the way.
abbrev pub total : Scaling → ℕ → ℕ → List Effect → ℕ
total sc gain now [] = 0
total sc gain now (e ∷ es) = contribution sc gain now e + total sc gain now es

contribution-le : (sc : Scaling) (gain now : ℕ) (e : Effect) → contribution sc gain now e ≤ 65535
unfolding contribution scale_force
contribution-le sc gain now e =
    ground
      (arith, sc.scaled_le (min (pos_part e.magnitude + neg_part e.magnitude) 10000) e.gain gain)

combined-total :
    (sc : Scaling) (gain now : ℕ) (es : List Effect) (acc : ℕ)
    → acc + 65535 * length es < 4294967296
    → combined sc gain now es acc ≡ acc + total sc gain now es
unfolding combined
combined-total sc gain now [] acc h = omega arith
combined-total sc gain now (e ∷ es) acc h =
    let c = contribution-le sc gain now e in
    let fits : (acc + contribution sc gain now e) % 4294967296 ≡ acc + contribution sc gain now e =
      omega (arith, c) in
    rw fits (
      omega (
        arith,
        combined-total sc gain now es (acc + contribution sc gain now e) (omega (arith, c)),
      ))

-- With the actuators on and the device running, the strength is the sum of what the felt effects
-- add, capped at 65535: the 32-bit accumulator never wraps.
pub current_strength-total :
    (sc : Scaling) (s : State) (now : ℕ)
    → IsWell s
    → s.actuators_enabled ≡ true
    → s.paused ≡ false
    → current_strength sc s now ≡ min (total sc s.device_gain now s.effects) 65535
unfolding current_strength
current_strength-total sc s now w on free =
    ground (arith, combined-total sc s.device_gain now s.effects 0)

abbrev IsIdle : Effect → Type 0
IsIdle e = e.running ≡ false

contribution_idle :
    (sc : Scaling) (gain now : ℕ) (e : Effect) → IsIdle e → contribution sc gain now e ≡ 0
unfolding contribution
contribution_idle sc gain now e h = ground arith

combined_idle :
    (sc : Scaling) (gain now : ℕ) (es : List Effect) → All IsIdle es → combined sc gain now es 0 ≡ 0
unfolding combined
combined_idle sc gain now [] h = refl
combined_idle sc gain now (e ∷ es) h =
    rw (contribution_idle sc gain now e h.0) (combined_idle sc gain now es h.1)

stop_effect-IsIdle : (es : List Effect) → All IsIdle (map stop_effect es)
unfolding stop_effect
stop_effect-IsIdle [] = tt
stop_effect-IsIdle (e ∷ es) = (refl, stop_effect-IsIdle es)

idle-strength :
    (sc : Scaling) (s : State) (now : ℕ) → All IsIdle s.effects → current_strength sc s now ≡ 0
unfolding current_strength
idle-strength sc s now h = ground (arith, combined_idle sc s.device_gain now s.effects h)

off-strength :
    (sc : Scaling) (s : State) (now : ℕ)
    → (s.actuators_enabled ≡ false) ⊎ (s.paused ≡ true)
    → current_strength sc s now ≡ 0
unfolding current_strength
off-strength sc s now h = ground arith

-- The commands after which nothing may be felt: disable actuators, stop all, reset, pause.
pub data Silences : ℕ → Type 0 where
  disables : {c : ℕ} → c ≡ 2 → Silences c
  stops : {c : ℕ} → c ≡ 3 → Silences c
  resets : {c : ℕ} → c ≡ 4 → Silences c
  pauses : {c : ℕ} → c ≡ 5 → Silences c

pause-paused : (s : State) (now : ℕ) → (pause s now).paused ≡ true
unfolding pause
pause-paused s now = ground arith

reset-IsIdle : (s : State) → All IsIdle (reset s).effects
unfolding reset
reset-IsIdle s = All-replicate IsIdle generic_pid_max_effects idle_effect refl

control-strength :
    (sc : Scaling) (s : State) {c : ℕ} (now : ℕ)
    → Silences c
    → current_strength sc (control s c now) now ≡ 0
unfolding control stop_all_effects
control-strength sc s now (disables e) = rw e (off-strength sc _ now (inl refl))
control-strength sc s now (stops e) = rw e (idle-strength sc _ now (stop_effect-IsIdle s.effects))
control-strength sc s now (resets e) = rw e (idle-strength sc _ now (reset-IsIdle s))
control-strength sc s now (pauses e) = rw e (off-strength sc _ now (inr (pause-paused s now)))

abbrev pub silence : Update
silence = record { recognized = true; rumble_changed = true; strength = 0 }

-- Disabling the actuators, stopping all effects, resetting or pausing the device, whatever runs,
-- sends the strength 0 at once.
pub Silences-strength :
    (sc : Scaling) (s : State) {c : ℕ} (rest : List ℕ) (now : ℕ)
    → Silences c
    → (handle_output_report sc s (0x1C ∷ c ∷ rest) now).1 ≡ silence
unfolding handle_output_report handle_device_control current_update
Silences-strength sc s rest now silent =
    rw (control-strength sc (expire_effects s now) now silent) refl
