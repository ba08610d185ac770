-- ===== src/Core/Report/Normalize.antt =====
-- `normalize_state` of report.cpp, and the encodings of batteries and touch contacts. A byte is a number
-- below 256; the numbers combined by `|` there have no bit in common, so that it is a sum here.
use libvirtualhid.Base.{
  ℕ, zero, suc, ◌+◌, ◌*◌, ◌/◌, ◌%◌, ◌&&◌, Bool, true, false, List, [], ◌∷◌, map, Option, none, some,
  if◌then◌else◌, leb, min,
}
use libvirtualhid.Core.Types.{
  GamepadState, GamepadBattery, GamepadBatteryState, GamepadTouchContact, Stick, Vector3,
}
use libvirtualhid.Core.Report.Numbers.{
  Floats, clamp, number, clamp_axis, clamp_trigger, unsigned_of, percent_of, battery_charge,
}
use libvirtualhid.Core.Report.Bytes.{Write}

abbrev pub value_or {ℓ} : {A : Type ℓ} → Option A → A → A
value_or none d = d
value_or (some a) d = a

module _ {F : Type 0} (floats : Floats F) where
  abbrev pub pressed : F → Bool
  pressed trigger = floats.less (number floats 0) trigger

  abbrev pub standard_gravity : F
  standard_gravity = floats.literal 980665 5

  abbrev pub at_rest : Vector3 F
  at_rest = record { x = number floats 0; y = standard_gravity; z = number floats 0 }

  abbrev pub no_turn : Vector3 F
  no_turn = record { x = number floats 0; y = number floats 0; z = number floats 0 }

  abbrev pub normalize_stick : Stick F → Stick F
  normalize_stick s = record { x = clamp_axis floats s.x; y = clamp_axis floats s.y }

  abbrev pub normalize_contact : GamepadTouchContact F → GamepadTouchContact F
  normalize_contact contact = record contact {
    x = clamp floats contact.x (number floats 0) (number floats 1);
    y = clamp floats contact.y (number floats 0) (number floats 1);
  }

  abbrev pub normalize_battery : Option GamepadBattery → Option GamepadBattery
  normalize_battery none = none
  normalize_battery (some b) = some (record b { percentage = min 100 b.percentage })

  unfoldable pub normalize_state : GamepadState F → GamepadState F
  normalize_state state = record state {
    left_stick = normalize_stick state.left_stick;
    right_stick = normalize_stick state.right_stick;
    left_trigger = clamp_trigger floats state.left_trigger;
    right_trigger = clamp_trigger floats state.right_trigger;
    touchpad_contacts = map normalize_contact state.touchpad_contacts;
    battery = normalize_battery state.battery;
  }

  -- Both functions for a contact: they differ in the height of the touchpad.
  abbrev pub write_touch_contact : ℕ → ℕ → GamepadTouchContact F → List Write
  write_touch_contact height offset contact =
      let x = unsigned_of 16 (
        floats.lround (
          floats.times (clamp floats contact.x (number floats 0) (number floats 1))
            (number floats 1919))) in
      let y = unsigned_of 16 (
        floats.lround (
          floats.times (clamp floats contact.y (number floats 0) (number floats 1))
            (number floats height))) in
      Write.byte offset (contact.id % 128 + (if contact.active then 0 else 0x80))
      ∷ Write.byte (offset + 1) x
      ∷ Write.byte (offset + 2) (x / 256 % 16 + y % 16 * 16)
      ∷ Write.byte (offset + 3) (y / 16)
      ∷ []

  abbrev pub write_dualsense_touch_contact : ℕ → GamepadTouchContact F → List Write
  write_dualsense_touch_contact = write_touch_contact 1079

  abbrev pub write_dualshock4_touch_contact : ℕ → GamepadTouchContact F → List Write
  write_dualshock4_touch_contact = write_touch_contact 941

  -- A charge is at most 10.
  abbrev pub dualshock4_battery_status : GamepadBattery → ℕ
  dualshock4_battery_status battery = elim battery.state [
    | GamepadBatteryState.full ↦ 0x1B
    | GamepadBatteryState.voltage_or_temperature_error ↦ 0x0F
    | GamepadBatteryState.temperature_error ↦ 0x0F
    | GamepadBatteryState.charging_error ↦ 0x0F
    | GamepadBatteryState.discharging ↦ min 10 (battery_charge floats battery.percentage)
    | _ ↦ 0x10 + min 10 (battery_charge floats battery.percentage)
  ]

  abbrev pub is_full : GamepadBatteryState → Bool
  is_full GamepadBatteryState.full = true
  is_full _ = false

  abbrev pub dualshock4_battery_level : GamepadBattery → ℕ
  dualshock4_battery_level battery =
      if is_full battery.state && leb 100 battery.percentage
      then 0xFF
      else unsigned_of 8 (percent_of floats battery.percentage 255)

  abbrev pub is_charging : GamepadBatteryState → ℕ
  is_charging GamepadBatteryState.charging = 0x10
  is_charging _ = 0

  -- The level is even: its bits are 0x20, 0x40 and 0x80.
  abbrev pub switch_battery_and_connection : Option GamepadBattery → ℕ
  switch_battery_and_connection none = 0x81
  switch_battery_and_connection (some battery) =
      let level = unsigned_of 8 (percent_of floats (min battery.percentage 100) 4) * 2 in
      level * 16 % 256 + is_charging battery.state + 0x01

  abbrev pub battery_strength : Option GamepadBattery → ℕ
  battery_strength none = 0xFF
  battery_strength (some battery) = unsigned_of 8 (percent_of floats battery.percentage 255)

abbrev pub dualsense_battery_state : GamepadBatteryState → ℕ
dualsense_battery_state GamepadBatteryState.discharging = 0x00
dualsense_battery_state GamepadBatteryState.charging = 0x01
dualsense_battery_state GamepadBatteryState.full = 0x02
dualsense_battery_state GamepadBatteryState.voltage_or_temperature_error = 0x0A
dualsense_battery_state GamepadBatteryState.temperature_error = 0x0B
dualsense_battery_state GamepadBatteryState.charging_error = 0x0F
dualsense_battery_state GamepadBatteryState.unknown = 0x02

-- A battery that is not reported is full.
abbrev pub full_battery : GamepadBattery
full_battery = record { state = GamepadBatteryState.full; percentage = 100 }

-- A missing contact cannot be: there are two.
abbrev pub contact_at :
    {F : Type 0} → Floats F → List (GamepadTouchContact F) → ℕ → GamepadTouchContact F
contact_at floats [] i = record {
  id = 0;
  active = false;
  x = floats.literal 0 0;
  y = floats.literal 0 0;
}
contact_at floats (contact ∷ contacts) zero = contact
contact_at floats (contact ∷ contacts) (suc i) = contact_at floats contacts i
