-- ===== src/Windows/PidFeatures.antt =====
-- `GenericPidFeatureState` and the input report of generic_pid_protocol.hpp.
pub mod Descriptor
pub mod Pool
pub mod Steps
mod Tests
use Prim.Native.Nat.{bit_and, bit_or}
use libvirtualhid.Base.{
  ℕ, zero, suc, ◌+◌, ◌-◌, ◌*◌, ◌/◌, ◌%◌, ◌==◌, ◌||◌, Bool, true, false, not, List, [], ◌∷◌, Option,
  none, some, get_or, set, replicate, length, drop_first, if◌then◌else◌, leb, ltb,
}

pub record GenericPidFeatureState : Type 0 where
  pub allocated : List Bool
  pub last_effect_block_index : ℕ
  pub load_status : ℕ
  pub state_effect_block_index : ℕ
  pub state_flags : ℕ

abbrev pub generic_pid_max_effects : ℕ
generic_pid_max_effects = 40

abbrev pub state_device_paused : ℕ
state_device_paused = 0x01

abbrev pub state_actuators_enabled : ℕ
state_actuators_enabled = 0x02

abbrev pub state_actuator_power : ℕ
state_actuator_power = 0x10

abbrev pub state_effect_playing : ℕ
state_effect_playing = 0x20

abbrev pub load_success : ℕ
load_success = 1

abbrev pub load_full : ℕ
load_full = 2

abbrev pub load_error : ℕ
load_error = 3

abbrev pub initial : GenericPidFeatureState
initial = record {
  allocated = replicate generic_pid_max_effects false;
  last_effect_block_index = 0;
  load_status = 0;
  state_effect_block_index = 0;
  state_flags = bit_or state_actuators_enabled state_actuator_power;
}

-- The report without its identifier, where it begins with it.
abbrev pub payload : ℕ → List ℕ → List ℕ
payload report_id [] = []
payload report_id (byte ∷ report) = if byte == report_id then report else byte ∷ report

abbrev pub set_flags : ℕ → GenericPidFeatureState → GenericPidFeatureState
set_flags mask s = record s { state_flags = bit_or s.state_flags mask }

abbrev pub clear_flags : ℕ → GenericPidFeatureState → GenericPidFeatureState
clear_flags mask s = record s { state_flags = bit_and s.state_flags (255 - mask) }

abbrev pub next_slot : Option ℕ → Option ℕ
next_slot none = none
next_slot (some index) = some (suc index)

-- The loop over the slots: the index of the first that is free.
abbrev pub first_free : List Bool → Option ℕ
first_free [] = none
first_free (false ∷ slots) = some 0
first_free (true ∷ slots) = next_slot (first_free slots)

abbrev pub allocate : GenericPidFeatureState → Option ℕ → GenericPidFeatureState
allocate s none = record s { last_effect_block_index = 0; load_status = load_full }
allocate s (some index) = record s {
  allocated = set s.allocated index true;
  last_effect_block_index = (index + 1) % 256;
  load_status = load_success;
}

abbrev pub load_failed : GenericPidFeatureState → GenericPidFeatureState
load_failed s = record s { last_effect_block_index = 0; load_status = load_error }

unfoldable pub create_effect : List ℕ → GenericPidFeatureState → GenericPidFeatureState
create_effect [] s = load_failed s
create_effect (type ∷ bytes) s =
    if ltb type 1 || ltb 12 type then load_failed s else allocate s (first_free s.allocated)

unfoldable pub free_effect : ℕ → GenericPidFeatureState → GenericPidFeatureState
free_effect index s =
    let freed = record s { allocated = set s.allocated (index - 1) false } in
    if index == 0 || ltb (length s.allocated) index
    then s
    else if s.state_effect_block_index == index
    then record (clear_flags state_effect_playing freed) { state_effect_block_index = 0 }
    else freed

unfoldable pub effect_operation : ℕ → ℕ → GenericPidFeatureState → GenericPidFeatureState
effect_operation index operation s =
    let selected = record s { state_effect_block_index = index } in
    if index == 0 || ltb (length s.allocated) index || not (get_or s.allocated (index - 1) false)
    then s
    else if operation == 1 || operation == 2
    then set_flags state_effect_playing selected
    else if operation == 3
    then clear_flags state_effect_playing selected
    else selected

unfoldable pub device_control : ℕ → GenericPidFeatureState → GenericPidFeatureState
device_control command s =
    if command == 1
    then set_flags (bit_or state_actuators_enabled state_actuator_power) s
    else if command == 2
    then clear_flags state_actuators_enabled s
    else if command == 3
    then record (clear_flags state_effect_playing s) { state_effect_block_index = 0 }
    else if command == 4
    then record initial { allocated = replicate (length s.allocated) false }
    else if command == 5
    then set_flags state_device_paused s
    else if command == 6
    then clear_flags state_device_paused s
    else s

-- `if (!bytes.empty()) f(data[0])`.
abbrev pub with_first :
    (ℕ → GenericPidFeatureState → GenericPidFeatureState)
    → List ℕ
    → GenericPidFeatureState
    → GenericPidFeatureState
with_first f [] s = s
with_first f (byte ∷ bytes) s = f byte s

abbrev pub with_two :
    (ℕ → ℕ → GenericPidFeatureState → GenericPidFeatureState)
    → List ℕ
    → GenericPidFeatureState
    → GenericPidFeatureState
with_two f (first ∷ second ∷ bytes) s = f first second s
with_two f _ s = s

unfoldable pub handle_set_feature :
    ℕ → List ℕ → GenericPidFeatureState → Bool × GenericPidFeatureState
handle_set_feature report_id report s =
    let bytes = payload report_id report in
    if report_id == 0x11
    then (true, create_effect bytes s)
    else if report_id == 0x1B
    then (true, with_first free_effect bytes s)
    else if report_id == 0x1C
    then (true, with_first device_control bytes s)
    else (false, s)

unfoldable pub handle_output_report :
    ℕ → List ℕ → GenericPidFeatureState → Bool × GenericPidFeatureState
handle_output_report report_id report s =
    let bytes = payload report_id report in
    if report_id == 0x1A
    then (true, with_two effect_operation bytes s)
    else if report_id == 0x1B
    then (true, with_first free_effect bytes s)
    else if report_id == 0x1C
    then (true, with_first device_control bytes s)
    else (false, s)

abbrev pub count : List Bool → ℕ
count [] = 0
count (true ∷ slots) = suc (count slots)
count (false ∷ slots) = count slots

abbrev pub ram_pool_available : GenericPidFeatureState → ℕ
ram_pool_available s = (0xFFFF - count s.allocated) % 65536

unfoldable pub get_feature_report : ℕ → GenericPidFeatureState → Option (List ℕ)
get_feature_report report_id s =
    let available = ram_pool_available s in
    if report_id == 0x11
    then some (report_id ∷ 0 ∷ 0 ∷ 0 ∷ [])
    else if report_id == 0x12
    then some (
        report_id
        ∷ s.last_effect_block_index
        ∷ s.load_status
        ∷ available % 256
        ∷ available / 256 % 256
        ∷ [])
    else if report_id == 0x13
    then some (report_id ∷ 0xFF ∷ 0xFF ∷ generic_pid_max_effects ∷ 0x01 ∷ [])
    else if report_id == 0x14
    then some (report_id ∷ s.state_effect_block_index ∷ s.state_flags ∷ [])
    else none

-- The triggers of a generic input report, with DirectInput's idle value at the maximum. A report of 8
-- bytes or fewer is left as it is.
unfoldable pub make_generic_windows_input_report : List ℕ → List ℕ
make_generic_windows_input_report report =
    if leb (length report) 8
    then report
    else set (set report 7 (255 - get_or report 7 0)) 8 (255 - get_or report 8 0)
