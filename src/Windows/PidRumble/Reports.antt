-- ===== src/Windows/PidRumble/Reports.antt =====
-- The output reports that drive the effects: `handle_output_report` and its handlers.
use libvirtualhid.Base.{
  ℕ, ◌-◌, true, false, List, [], ◌∷◌, Option, none, some, ltb, leb, ◌==◌, if◌then◌else◌, length,
  get_or, replicate, map,
}
use libvirtualhid.Windows.PidRumble.Effects.{
  Effect, idle_effect, stop_effect, start_effect, reschedule_running_effect, shift_effect,
}
use libvirtualhid.Windows.PidRumble.{
  Scaling, State, Update, unrecognized, ignored, generic_pid_max_effects, effect_index, effect_at,
  with_effect, read_u16, to_i16, expire_effects, stop_all_effects, current_update,
}

-- What is done to a block that is there.
unfoldable pub on_effect : State → Option ℕ → (ℕ → State × Update) → State × Update
on_effect s none action = (s, ignored)
on_effect s (some i) action = action i

-- EBI, effect type, four 16-bit timing values, then the 8-bit gain.
pub with_parameters : Effect → List ℕ → Effect
with_parameters e bytes =
    let duration = read_u16 bytes 2 in
    record e {
      type = get_or bytes 1 0;
      duration = duration;
      duration_is_infinite = duration == 65535;
      start_delay = read_u16 bytes 8;
      gain = get_or bytes 10 0;
    }

unfoldable pub set_effect : State → List ℕ → ℕ → ℕ → State
unfolding with_parameters
set_effect s bytes now i =
    with_effect s i (reschedule_running_effect (with_parameters (effect_at s i) bytes) now)

unfoldable pub handle_set_effect : Scaling → State → List ℕ → ℕ → State × Update
unfolding on_effect set_effect
handle_set_effect sc s bytes now =
    if leb (length bytes) 10
    then (s, ignored)
    else on_effect s (effect_index (get_or bytes 0 0))
        (λ i. current_update sc (set_effect s bytes now i) (effect_at s i).running now)

unfoldable pub set_magnitude : State → List ℕ → ℕ → ℕ → State
set_magnitude s bytes expected_type i =
    with_effect s i
      (record (effect_at s i) { type = expected_type; magnitude = to_i16 (read_u16 bytes 1) })

unfoldable pub handle_magnitude : Scaling → State → List ℕ → ℕ → ℕ → State × Update
unfolding on_effect set_magnitude
handle_magnitude sc s bytes expected_type now =
    if ltb (length bytes) 3
    then (s, ignored)
    else on_effect s (effect_index (get_or bytes 0 0))
        (λ i. current_update sc (set_magnitude s bytes expected_type i) (effect_at s i).running now)

-- Operation 1 starts, 2 starts alone, 3 stops. The loop count is a third byte, 1 if there is none.
unfoldable pub operate : State → ℕ → ℕ → ℕ → ℕ → State
operate s i operation loop_count now =
    let t = (if operation == 2 then stop_all_effects s else s) in
    if operation == 1
    then with_effect t i (start_effect (effect_at t i) loop_count now)
    else if operation == 2
    then with_effect t i (start_effect (effect_at t i) loop_count now)
    else if operation == 3
    then with_effect t i (stop_effect (effect_at t i))
    else t

unfoldable pub handle_effect_operation : Scaling → State → List ℕ → ℕ → State × Update
unfolding on_effect operate
handle_effect_operation sc s bytes now =
    if ltb (length bytes) 2
    then (s, ignored)
    else on_effect s (effect_index (get_or bytes 0 0))
        (λ i. current_update sc (operate s i (get_or bytes 1 0) (get_or bytes 2 1) now) true now)

unfoldable pub free_block : State → Option ℕ → State
free_block s none = s
free_block s (some i) = with_effect s i idle_effect

unfoldable pub handle_block_free : Scaling → State → List ℕ → ℕ → State × Update
unfolding free_block
handle_block_free sc s [] now = current_update sc s true now
handle_block_free sc s (block ∷ rest) now =
    current_update sc (free_block s (effect_index block)) true now

-- The running effects moved by the time since the pause, if there was one.
unfoldable pub shift_all : State → Option ℕ → ℕ → State
shift_all s none now = s
shift_all s (some since) now = record s { effects = map (shift_effect (now - since)) s.effects }

unfoldable pub continue_effects : State → ℕ → State
unfolding shift_all
continue_effects s now =
    if s.paused
    then record (shift_all s s.pause_started now) { paused = false; pause_started = none }
    else record s { paused = false; pause_started = none }

unfoldable pub reset : State → State
reset s = record s {
  effects = replicate generic_pid_max_effects idle_effect;
  device_gain = 255;
  actuators_enabled = true;
  paused = false;
  pause_started = none;
}

unfoldable pub pause : State → ℕ → State
pause s now = if s.paused then s else record s { paused = true; pause_started = some now }

unfoldable pub control : State → ℕ → ℕ → State
unfolding reset pause continue_effects
control s command now =
    if command == 1
    then record s { actuators_enabled = true }
    else if command == 2
    then record s { actuators_enabled = false }
    else if command == 3
    then stop_all_effects s
    else if command == 4
    then reset s
    else if command == 5
    then pause s now
    else if command == 6
    then continue_effects s now
    else s

unfoldable pub handle_device_control : Scaling → State → List ℕ → ℕ → State × Update
handle_device_control sc s [] now = (s, ignored)
handle_device_control sc s (command ∷ rest) now = current_update sc (control s command now) true now

unfoldable pub handle_device_gain : Scaling → State → List ℕ → ℕ → State × Update
handle_device_gain sc s [] now = current_update sc s true now
handle_device_gain sc s (gain ∷ rest) now =
    current_update sc (record s { device_gain = gain }) true now

-- The switch on the report ID.
unfoldable pub dispatch : Scaling → State → ℕ → List ℕ → ℕ → State × Update
dispatch sc s report_id bytes now =
    if report_id == 0x11
    then handle_set_effect sc s bytes now
    else if report_id == 0x12
    then (s, ignored)
    else if report_id == 0x14
    then handle_magnitude sc s bytes 2 now
    else if report_id == 0x15
    then handle_magnitude sc s bytes 1 now
    else if report_id == 0x1A
    then handle_effect_operation sc s bytes now
    else if report_id == 0x1B
    then handle_block_free sc s bytes now
    else if report_id == 0x1C
    then handle_device_control sc s bytes now
    else if report_id == 0x1D
    then handle_device_gain sc s bytes now
    else (s, unrecognized)

unfoldable pub handle_output_report : Scaling → State → List ℕ → ℕ → State × Update
unfolding dispatch
handle_output_report sc s [] now = (s, unrecognized)
handle_output_report sc s (report_id ∷ bytes) now =
    dispatch sc (expire_effects s now) report_id bytes now
