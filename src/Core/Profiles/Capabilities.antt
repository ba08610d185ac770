-- ===== src/Core/Profiles/Capabilities.antt =====
-- The capabilities that the profiles of profiles.cpp name; those they leave out are false.
use libvirtualhid.Base.{true, false}
use libvirtualhid.Core.Types.{GamepadProfileCapabilities}

abbrev pub no_capabilities : GamepadProfileCapabilities
no_capabilities = record {
  supports_rumble = false;
  supports_trigger_rumble = false;
  supports_motion = false;
  supports_touchpad = false;
  supports_rgb_led = false;
  supports_battery = false;
  supports_adaptive_triggers = false;
  supports_player_leds = false;
}

abbrev pub rumble_only : GamepadProfileCapabilities
rumble_only = record {
  supports_rumble = true;
  supports_trigger_rumble = false;
  supports_motion = false;
  supports_touchpad = false;
  supports_rgb_led = false;
  supports_battery = false;
  supports_adaptive_triggers = false;
  supports_player_leds = false;
}

abbrev pub xbox_gip : GamepadProfileCapabilities
xbox_gip = record {
  supports_rumble = true;
  supports_trigger_rumble = true;
  supports_motion = false;
  supports_touchpad = false;
  supports_rgb_led = false;
  supports_battery = true;
  supports_adaptive_triggers = false;
  supports_player_leds = false;
}

abbrev pub dualshock4 : GamepadProfileCapabilities
dualshock4 = record {
  supports_rumble = true;
  supports_trigger_rumble = false;
  supports_motion = true;
  supports_touchpad = true;
  supports_rgb_led = true;
  supports_battery = true;
  supports_adaptive_triggers = false;
  supports_player_leds = false;
}

abbrev pub dualsense : GamepadProfileCapabilities
dualsense = record {
  supports_rumble = true;
  supports_trigger_rumble = false;
  supports_motion = true;
  supports_touchpad = true;
  supports_rgb_led = true;
  supports_battery = true;
  supports_adaptive_triggers = true;
  supports_player_leds = false;
}

abbrev pub switch_pro : GamepadProfileCapabilities
switch_pro = record {
  supports_rumble = true;
  supports_trigger_rumble = false;
  supports_motion = true;
  supports_touchpad = false;
  supports_rgb_led = true;
  supports_battery = true;
  supports_adaptive_triggers = false;
  supports_player_leds = true;
}
