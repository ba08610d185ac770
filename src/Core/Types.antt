-- ===== src/Core/Types.antt =====
-- The data of types.hpp and gamepad_adapter.hpp: profiles, gamepad state, events. Floating-point
-- values are of a type `F` that the model only passes on.
use Prim.Native.String.{String}
use libvirtualhid.Base.{ℕ, Bool, Option, List}
use libvirtualhid.Base.Int.{ℤ}

pub data DeviceType : Type 0 where
  gamepad keyboard mouse touchscreen trackpad pen_tablet : DeviceType

pub data BusType : Type 0 where
  unknown usb bluetooth : BusType

pub data GamepadProfileKind : Type 0 where
  generic xbox_360 xbox_one xbox_series dualsense switch_pro dualshock4 : GamepadProfileKind

pub data GamepadOutputKind : Type 0 where
  rumble rgb_led adaptive_triggers raw_report trigger_rumble player_leds : GamepadOutputKind

pub record GamepadProfileCapabilities : Type 0 where
  pub supports_rumble : Bool
  pub supports_trigger_rumble : Bool
  pub supports_motion : Bool
  pub supports_touchpad : Bool
  pub supports_rgb_led : Bool
  pub supports_battery : Bool
  pub supports_adaptive_triggers : Bool
  pub supports_player_leds : Bool

pub record DeviceProfile : Type 0 where
  pub device_type : DeviceType
  pub gamepad_kind : GamepadProfileKind
  pub bus_type : BusType
  pub vendor_id : ℕ
  pub product_id : ℕ
  pub version : ℕ
  pub report_id : ℕ
  pub input_report_size : ℕ
  pub output_report_size : ℕ
  pub name : String
  pub manufacturer : String
  pub report_descriptor : List ℕ
  pub capabilities : GamepadProfileCapabilities

pub data GamepadBatteryState : Type 0 where
  unknown discharging charging full voltage_or_temperature_error : GamepadBatteryState
  temperature_error charging_error : GamepadBatteryState

pub record GamepadBattery : Type 0 where
  pub state : GamepadBatteryState
  pub percentage : ℕ

pub record Stick (F : Type 0) : Type 0 where
  pub x : F
  pub y : F

pub record Vector3 (F : Type 0) : Type 0 where
  pub x : F
  pub y : F
  pub z : F

pub record GamepadTouchContact (F : Type 0) : Type 0 where
  pub id : ℕ
  pub active : Bool
  pub x : F
  pub y : F

-- `buttons` is the bit set, and the two contacts of the touchpad are an array of length 2.
pub record GamepadState (F : Type 0) : Type 0 where
  pub buttons : ℕ
  pub left_stick : Stick F
  pub right_stick : Stick F
  pub left_trigger : F
  pub right_trigger : F
  pub acceleration : Option (Vector3 F)
  pub gyroscope : Option (Vector3 F)
  pub battery : Option GamepadBattery
  pub touchpad_contacts : List (GamepadTouchContact F)

pub record PointerViewport : Type 0 where
  pub offset_x : ℤ
  pub offset_y : ℤ
  pub width : ℤ
  pub height : ℤ

pub record KeyboardEvent : Type 0 where
  pub key_code : ℕ
  pub pressed : Bool
  pub scan_code : ℕ
  pub uses_normalized_key_code : Bool
  pub prefer_native_scan_code : Bool
  pub extended : Bool

pub data MouseEventKind : Type 0 where
  relative_motion absolute_motion button vertical_scroll horizontal_scroll : MouseEventKind

pub record MouseEvent (F : Type 0) : Type 0 where
  pub kind : MouseEventKind
  pub x : ℤ
  pub y : ℤ
  pub absolute_x : F
  pub absolute_y : F
  pub has_fractional_absolute_coordinates : Bool
  pub width : ℤ
  pub height : ℤ
  pub button : ℕ
  pub pressed : Bool
  pub high_resolution_scroll : ℤ

pub record TouchContact (F : Type 0) : Type 0 where
  pub id : ℤ
  pub x : F
  pub y : F
  pub pressure : F
  pub orientation : ℤ
  pub touching : Bool
  pub viewport : PointerViewport
  pub contact_major_axis : F
  pub contact_minor_axis : F

pub data PointerTransition : Type 0 where
  update release cancel leave : PointerTransition

pub data PenButton : Type 0 where
  primary secondary tertiary : PenButton
