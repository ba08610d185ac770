-- ===== src/Windows/PidRumble.antt =====
-- src/platform/windows/shared/generic_pid_rumble.hpp: the DirectInput PID effects of the Generic
-- Controller, decoded to one rumble strength. `scaled` stands for the `double` arithmetic of
-- `scale_force`, which the language's floating point provides.
pub mod Effects
pub mod Reports
pub mod Invariant
pub mod Handlers
pub mod Runs
pub mod Schedule
pub mod Quiet
pub mod Pause
mod Tests
pub mod Strength
use libvirtualhid.Base.{
  ℕ, zero, suc, ◌+◌, ◌-◌, ◌*◌, ◌%◌, ◌≤◌, ◌≡◌, Bool, true, false, ◌&&◌, ◌||◌, not, List, [], ◌∷◌,
  Option, none, some, ltb, leb, ◌==◌, if◌then◌else◌, length, get_or, get_elem?, set, replicate, map,
  min,
}
use libvirtualhid.Base.Int.{ℤ, pos, sub_ℕ, pos_part, neg_part}
use Effects.{
  Effect, ms, idle_effect, stop_effect, start_effect, expire_effect, reschedule_running_effect,
  candidate, shift_effect,
}

abbrev pub generic_pid_max_effects : ℕ
generic_pid_max_effects = 40

-- The floating-point part of `scale_force`: a magnitude of at most 10000 and two gains of a byte,
-- scaled, clamped to [0, 65535] and rounded.
pub record Scaling : Type 0 where
  pub scaled : ℕ → ℕ → ℕ → ℕ
  pub scaled_le : (m g d : ℕ) → scaled m g d ≤ 65535
  pub scaled_zero : (g d : ℕ) → scaled 0 g d ≡ 0

pub scale_force : Scaling → ℤ → ℕ → ℕ → ℕ
scale_force s value effect_gain device_gain =
    s.scaled (min (pos_part value + neg_part value) 10000) effect_gain device_gain

pub record Update : Type 0 where
  pub recognized : Bool
  pub rumble_changed : Bool
  pub strength : ℕ

abbrev pub unrecognized : Update
unrecognized = record { recognized = false; rumble_changed = false; strength = 0 }

abbrev pub ignored : Update
ignored = record { recognized = true; rumble_changed = false; strength = 0 }

pub record State : Type 0 where
  pub effects : List Effect
  pub device_gain : ℕ
  pub last_strength : ℕ
  pub actuators_enabled : Bool
  pub paused : Bool
  pub pause_started : Option ℕ

pub new : State
new = record {
  effects = replicate generic_pid_max_effects idle_effect;
  device_gain = 255;
  last_strength = 0;
  actuators_enabled = true;
  paused = false;
  pause_started = none;
}

-- The index of a block, none for a block that is not there.
pub effect_index : ℕ → Option ℕ
effect_index zero = none
effect_index (suc i) = if leb generic_pid_max_effects i then none else some i

abbrev pub effect_at : State → ℕ → Effect
effect_at s i = get_or s.effects i idle_effect

abbrev pub with_effect : State → ℕ → Effect → State
with_effect s i e = record s { effects = set s.effects i e }

pub read_u16 : List ℕ → ℕ → ℕ
read_u16 report offset = (get_or report offset 0 + get_or report (offset + 1) 0 * 256) % 65536

-- static_cast<std::int16_t>
pub to_i16 : ℕ → ℤ
to_i16 w = if leb 0x8000 w then sub_ℕ w 0x10000 else pos w

pub expire_effects : State → ℕ → State
expire_effects s now =
    if s.paused then s else record s { effects = map (λ e. expire_effect e now) s.effects }

pub stop_all_effects : State → State
stop_all_effects s = record s { effects = map stop_effect s.effects }

-- Whether an effect is felt at a time.
pub is_felt : Effect → ℕ → Bool
is_felt e now = e.running && e.started && leb e.start now && (e.type == 1 || e.type == 2)

-- The strength that one effect adds.
pub contribution : Scaling → ℕ → ℕ → Effect → ℕ
unfolding is_felt
contribution s device_gain now e =
    if is_felt e now then scale_force s e.magnitude e.gain device_gain else 0

-- std::uint32_t combined, summed over the effects.
pub combined : Scaling → ℕ → ℕ → List Effect → ℕ → ℕ
combined s device_gain now [] acc = acc
combined s device_gain now (e ∷ es) acc =
    combined s device_gain now es ((acc + contribution s device_gain now e) % 4294967296)

pub current_strength : Scaling → State → ℕ → ℕ
unfolding combined
current_strength sc s now =
    if not s.actuators_enabled || s.paused
    then 0
    else min (combined sc s.device_gain now s.effects 0) 65535

pub current_update : Scaling → State → Bool → ℕ → State × Update
current_update sc s changed now =
    if changed
    then (let strength = current_strength sc s now in
        (
          record s { last_strength = strength },
          record { recognized = true; rumble_changed = true; strength = strength },
        ))
    else (s, ignored)

pub advance : Scaling → State → ℕ → State × Update
advance sc s now =
    let t = expire_effects s now in
    let strength = current_strength sc t now in
    if strength == t.last_strength then (t, ignored) else (
      record t { last_strength = strength },
      record { recognized = true; rumble_changed = true; strength = strength },
    )

-- The earlier of two times, where none is never.
pub earlier : Option ℕ → Option ℕ → Option ℕ
earlier next none = next
earlier none (some t) = some t
earlier (some n) (some t) = if ltb t n then some t else some n

pub next_candidate : List Effect → Option ℕ → Option ℕ
unfolding earlier
next_candidate [] next = next
next_candidate (e ∷ es) next = next_candidate es (earlier next (candidate e))

pub next_transition : State → Option ℕ
unfolding next_candidate
next_transition s = if s.paused then none else next_candidate s.effects none
