-- ===== src/Windows/PidRumble/Effects.antt =====
-- One effect of src/platform/windows/shared/generic_pid_rumble.hpp and what happens to it: start,
-- stop, expiry, rescheduling. A time point counts the ticks of the steady clock from some origin, and
-- a millisecond is `ms` of them; the clock never goes back.
use libvirtualhid.Base.{
  ℕ, ◌+◌, ◌*◌, Bool, true, false, ◌||◌, not, Option, none, some, leb, ◌==◌, if◌then◌else◌, max,
}
use libvirtualhid.Base.Int.{ℤ, pos}

-- std::chrono::nanoseconds in a millisecond.
abbrev pub ms : ℕ → ℕ
ms n = n * 1_000_000

pub record Effect : Type 0 where
  pub type : ℕ
  pub gain : ℕ
  pub magnitude : ℤ
  pub duration : ℕ
  pub start_delay : ℕ
  pub operation_start : ℕ
  pub start : ℕ
  pub end : Option ℕ
  pub duration_is_infinite : Bool
  pub loop_count : ℕ
  pub loop_count_is_infinite : Bool
  pub running : Bool
  pub started : Bool

-- A block that nothing was set in.
abbrev pub idle_effect : Effect
idle_effect = record {
  type = 0;
  gain = 255;
  magnitude = pos 0;
  duration = 0;
  start_delay = 0;
  operation_start = 0;
  start = 0;
  end = none;
  duration_is_infinite = true;
  loop_count = 1;
  loop_count_is_infinite = false;
  running = false;
  started = false;
}

unfoldable pub stop_effect : Effect → Effect
stop_effect e = record e { running = false; started = false; end = none }

pub update_effect_end : Effect → Effect
update_effect_end e =
    if e.duration_is_infinite || e.loop_count_is_infinite
    then record e { end = none }
    else record e { end = some (e.start + ms e.duration * e.loop_count) }

unfoldable pub start_effect : Effect → ℕ → ℕ → Effect
unfolding update_effect_end
start_effect e loop_count now = update_effect_end (record e {
  running = true;
  operation_start = now;
  started = e.start_delay == 0;
  start = now + ms e.start_delay;
  loop_count = max loop_count 1;
  loop_count_is_infinite = loop_count == 255;
})

-- now >= *end
pub is_over : Option ℕ → ℕ → Bool
is_over none now = false
is_over (some t) now = leb t now

unfoldable pub expire_effect : Effect → ℕ → Effect
unfolding is_over stop_effect
expire_effect e now =
    if not e.running
    then e
    else (let begun = record e { started = e.started || leb e.start now } in
        if is_over e.end now then stop_effect begun else begun)

-- The new start of an effect that has not begun.
pub restart : Effect → ℕ → Effect
restart e now =
    let start = e.operation_start + ms e.start_delay in
    if e.started then e else record e { start = start; started = leb start now }

unfoldable pub reschedule_running_effect : Effect → ℕ → Effect
unfolding restart update_effect_end expire_effect
reschedule_running_effect e now =
    if not e.running then e else expire_effect (update_effect_end (restart e now)) now

-- The next time at which a running effect changes by itself.
unfoldable pub candidate : Effect → Option ℕ
candidate e = if e.running then (if e.started then e.end else some e.start) else none

unfoldable pub shift_end : Option ℕ → ℕ → Option ℕ
shift_end none d = none
shift_end (some t) d = some (t + d)

-- The effect moved by the length of a pause.
unfoldable pub shift_effect : ℕ → Effect → Effect
unfolding shift_end
shift_effect d e =
    if e.running
    then record e {
      operation_start = e.operation_start + d;
      start = e.start + d;
      end = shift_end e.end d;
    }
    else e
