-- ===== src/Windows/VhfQueue/Discrete.antt =====
-- Which reports vhf_input_report_queue.hpp may replace: `is_protocol_report`, `equal_at` and
-- `same_discrete_state`, with the four values that a queue is constructed with.
use libvirtualhid.Base.{
  ℕ, ◌+◌, Bool, false, ◌&&◌, ◌||◌, not, List, [], ◌∷◌, Option, none, some, ◌==◌, if◌then◌else◌,
  length, get_or, get_elem?, is_empty, all,
}
use libvirtualhid.Windows.Protocol.{
  device_gamepad, bus_bluetooth, gamepad_generic, gamepad_xbox_one, gamepad_xbox_series,
  gamepad_switch_pro, gamepad_dualshock4, gamepad_dualsense,
}

abbrev pub Report : Type 0
Report = List ℕ

-- The four values that a queue is constructed with.
pub record Config : Type 0 where
  pub device_type : ℕ
  pub gamepad_kind : ℕ
  pub bus_type : ℕ
  pub input_report_id : ℕ

unfoldable pub is_protocol_report : Config → Report → Bool
is_protocol_report c [] = false
is_protocol_report c (first ∷ rest) =
    c.device_type == device_gamepad
    && not (c.input_report_id == 0)
    && not (first == c.input_report_id)

-- Both reports have a byte at the offset, and the bytes are equal.
unfoldable pub same_byte : Option ℕ → Option ℕ → Bool
same_byte none _ = false
same_byte (some a) none = false
same_byte (some a) (some b) = a == b

unfoldable pub equal_at : Report → Report → List ℕ → Bool
unfolding same_byte
equal_at left right offsets =
    all (λ offset. same_byte (get_elem? left offset) (get_elem? right offset)) offsets

-- The offsets that `same_discrete_state` compares, none for a gamepad that never coalesces.
unfoldable pub discrete_offsets : Config → Option (List ℕ)
discrete_offsets c =
    if c.gamepad_kind == gamepad_generic
    then some (0 ∷ 1 ∷ 2 ∷ [])
    else if c.gamepad_kind == gamepad_xbox_one || c.gamepad_kind == gamepad_xbox_series
    then some (12 ∷ 13 ∷ 14 ∷ 15 ∷ [])
    else if c.gamepad_kind == gamepad_switch_pro
    then some (0 ∷ 3 ∷ 4 ∷ 5 ∷ [])
    else if c.gamepad_kind == gamepad_dualshock4
    then (let payload = (if c.bus_type == bus_bluetooth then 3 else 1) in
        some (
          0 ∷ (payload + 4) ∷ (payload + 5) ∷ (payload + 6) ∷ (payload + 34) ∷ (payload + 38) ∷ []))
    else if c.gamepad_kind == gamepad_dualsense
    then (let payload = (if c.bus_type == bus_bluetooth then 2 else 1) in
        some (
          0 ∷ (payload + 7) ∷ (payload + 8) ∷ (payload + 9) ∷ (payload + 32) ∷ (payload + 36) ∷ []))
    else none

-- Whether a report of the device's own report ID, or a device without one.
pub has_report_id : Config → Report → Report → Bool
has_report_id c left right =
    c.input_report_id == 0
    || (not (is_empty left)
        && get_or left 0 0 == c.input_report_id
        && get_or right 0 0 == c.input_report_id)

unfoldable pub compare_offsets : Option (List ℕ) → Report → Report → Bool
compare_offsets none left right = false
compare_offsets (some offsets) left right = equal_at left right offsets

unfoldable pub same_discrete_state : Config → Report → Report → Bool
unfolding has_report_id compare_offsets
same_discrete_state c left right =
    length left == length right
    && has_report_id c left right
    && compare_offsets (discrete_offsets c) left right

-- Whether the newest pending report may be replaced.
unfoldable pub coalesces : Config → Option Report → Report → Bool
coalesces c none report = false
coalesces c (some newest) report =
    c.device_type == device_gamepad && same_discrete_state c newest report
