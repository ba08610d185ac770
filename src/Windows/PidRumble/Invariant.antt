-- ===== src/Windows/PidRumble/Invariant.antt =====
-- What holds of the effects between two reports.
use libvirtualhid.Base.{
  ℕ, ◌+◌, ◌*◌, ◌≤◌, ◌≡◌, refl, Bool, true, false, ◌||◌, Option, none, some, arith, if◌then◌else◌,
  length, map, All, length-set, length-map, All-set, All-get_or, All-replicate, All-map, if-cases,
  ◌≢◌,
}
use libvirtualhid.Windows.PidRumble.Effects.{
  Effect, ms, idle_effect, stop_effect, start_effect, expire_effect, reschedule_running_effect,
  shift_effect,
}
use libvirtualhid.Windows.PidRumble.{
  Scaling, State, Update, generic_pid_max_effects, new, effect_at, with_effect, current_strength,
  expire_effects, stop_all_effects, current_update, advance,
}

-- When an effect of a start, a duration and a number of loops ends.
abbrev pub due : Effect → Option ℕ
due e =
    if e.duration_is_infinite || e.loop_count_is_infinite
    then none
    else some (e.start + ms e.duration * e.loop_count)

-- An effect that does not run is neither started nor due; one that runs is due when its loops are over.
pub record IsConsistent (e : Effect) : Type 0 where
  pub idle_started : e.running ≡ false → e.started ≡ false
  pub idle_end : e.running ≡ false → e.end ≡ none
  pub running_end : e.running ≡ true → e.end ≡ due e

pub idle_effect-IsConsistent : IsConsistent idle_effect
idle_effect-IsConsistent = ground arith

pub stop_effect-IsConsistent : (e : Effect) → IsConsistent (stop_effect e)
unfolding stop_effect
stop_effect-IsConsistent e = ground arith

pub start_effect-IsConsistent : (e : Effect) (n now : ℕ) → IsConsistent (start_effect e n now)
unfolding start_effect
start_effect-IsConsistent e n now = ground arith

pub expire_effect-IsConsistent :
    (e : Effect) (now : ℕ) → IsConsistent e → IsConsistent (expire_effect e now)
unfolding expire_effect
expire_effect-IsConsistent e now c = ground arith

pub reschedule-IsConsistent :
    (e : Effect) (now : ℕ)
    → (e.running ≡ false → IsConsistent e)
    → IsConsistent (reschedule_running_effect e now)
unfolding reschedule_running_effect
reschedule-IsConsistent e now c = ground arith

pub shift_effect-IsConsistent :
    (d : ℕ) (e : Effect) → IsConsistent e → IsConsistent (shift_effect d e)
unfolding shift_effect
shift_effect-IsConsistent d e c = ground arith

pub record IsWell (s : State) : Type 0 where
  pub count : length s.effects ≡ generic_pid_max_effects
  pub each : All IsConsistent s.effects
  pub resumed : s.paused ≡ false → s.pause_started ≡ none
  pub since : s.paused ≡ true → s.pause_started ≢ none
  pub strength_le : s.last_strength ≤ 65535

pub new-IsWell : IsWell new
unfolding new
new-IsWell = record {
  count = refl;
  each = All-replicate IsConsistent generic_pid_max_effects idle_effect idle_effect-IsConsistent;
  resumed = λ h. refl;
  since = λ h. cc;
  strength_le = omega arith;
}

pub map_effects-IsWell :
    (s : State) (f : Effect → Effect)
    → ((e : Effect) → IsConsistent e → IsConsistent (f e))
    → IsWell s
    → IsWell (record s { effects = map f s.effects })
map_effects-IsWell s f keep w = record {
  count = omega (arith, length-map f s.effects, w.count);
  each = All-map IsConsistent f keep s.effects w.each;
  resumed = w.resumed;
  since = w.since;
  strength_le = w.strength_le;
}

pub with_effect-IsWell :
    (s : State) (i : ℕ) (e : Effect) → IsWell s → IsConsistent e → IsWell (with_effect s i e)
with_effect-IsWell s i e w c = record {
  count = omega (arith, length-set s.effects i e, w.count);
  each = All-set IsConsistent s.effects i e w.each c;
  resumed = w.resumed;
  since = w.since;
  strength_le = w.strength_le;
}

pub effect_at-IsConsistent : (s : State) (i : ℕ) → IsWell s → IsConsistent (effect_at s i)
effect_at-IsConsistent s i w =
    All-get_or IsConsistent s.effects i idle_effect w.each idle_effect-IsConsistent

pub expire_effects-IsWell : (s : State) (now : ℕ) → IsWell s → IsWell (expire_effects s now)
unfolding expire_effects
expire_effects-IsWell s now w =
    if-cases IsWell s.paused (λ _. w)
      (λ _.
        map_effects-IsWell s (λ e. expire_effect e now) (λ e. expire_effect-IsConsistent e now) w)

pub stop_all_effects-IsWell : (s : State) → IsWell s → IsWell (stop_all_effects s)
unfolding stop_all_effects
stop_all_effects-IsWell s w = map_effects-IsWell s stop_effect (λ e _. stop_effect-IsConsistent e) w

current_strength-le : (sc : Scaling) (s : State) (now : ℕ) → current_strength sc s now ≤ 65535
unfolding current_strength
current_strength-le sc s now = ground arith

pub strength-IsWell :
    (sc : Scaling) (s : State) (now : ℕ)
    → IsWell s
    → IsWell (record s { last_strength = current_strength sc s now })
strength-IsWell sc s now w = record {
  count = w.count;
  each = w.each;
  resumed = w.resumed;
  since = w.since;
  strength_le = current_strength-le sc s now;
}

pub current_update-IsWell :
    (sc : Scaling) (s : State) (b : Bool) (now : ℕ)
    → IsWell s
    → IsWell (current_update sc s b now).0
unfolding current_update
current_update-IsWell sc s false now w = w
current_update-IsWell sc s true now w = strength-IsWell sc s now w

pub advance-IsWell : (sc : Scaling) (s : State) (now : ℕ) → IsWell s → IsWell (advance sc s now).0
unfolding advance
advance-IsWell sc s now w =
    let t = expire_effects-IsWell s now w in
    if-cases (λ (r : State × Update). IsWell r.0) _ (λ _. t) (λ _. strength-IsWell sc _ now t)
