-- ===== src/Core/Adapter/Support.antt =====
-- `gamepad_profile_support`, `supports_gamepad_button` and `supports_gamepad_output` of
-- gamepad_adapter.cpp.
use libvirtualhid.Base.{
  ℕ, ◌≡◌, ◌≤◌, ◌⊎◌, ◌↔◌, Bool, true, false, ◌||◌, not, leb, ltb, ◌==◌, List, [], ◌∷◌, if◌then◌else◌,
  arith,
}
use libvirtualhid.Core.Types.{DeviceProfile, DeviceType, GamepadProfileKind, GamepadOutputKind}
use libvirtualhid.Core.Options.{same_type}
use libvirtualhid.Core.Buttons.{GamepadButton, index}

pub record GamepadProfileSupport : Type 0 where
  pub supports_rumble : Bool
  pub supports_trigger_rumble : Bool
  pub supports_rgb_led : Bool
  pub supports_adaptive_triggers : Bool
  pub supports_motion : Bool
  pub supports_touchpad : Bool
  pub supports_battery : Bool
  pub supports_misc1_button : Bool
  pub supports_touchpad_button : Bool
  pub supported_rear_paddle_count : ℕ
  pub supports_player_leds : Bool

-- The members' initializers.
abbrev pub no_support : GamepadProfileSupport
no_support = record {
  supports_rumble = false;
  supports_trigger_rumble = false;
  supports_rgb_led = false;
  supports_adaptive_triggers = false;
  supports_motion = false;
  supports_touchpad = false;
  supports_battery = false;
  supports_misc1_button = false;
  supports_touchpad_button = false;
  supported_rear_paddle_count = 0;
  supports_player_leds = false;
}

abbrev common_buttons : List GamepadButton
common_buttons =
    GamepadButton.a ∷ GamepadButton.b ∷ GamepadButton.x ∷ GamepadButton.y ∷ GamepadButton.back
    ∷ GamepadButton.start ∷ GamepadButton.guide ∷ GamepadButton.left_stick
    ∷ GamepadButton.right_stick ∷ GamepadButton.left_shoulder ∷ GamepadButton.right_shoulder
    ∷ GamepadButton.dpad_up ∷ GamepadButton.dpad_down ∷ GamepadButton.dpad_left
    ∷ GamepadButton.dpad_right ∷ []

abbrev contains : GamepadButton → List GamepadButton → Bool
contains button [] = false
contains button (c ∷ cs) = index c == index button || contains button cs

abbrev is_common_button : GamepadButton → Bool
is_common_button button = contains button common_buttons

abbrev pub supports_common_misc1_button : GamepadProfileKind → Bool
supports_common_misc1_button GamepadProfileKind.generic = true
supports_common_misc1_button GamepadProfileKind.xbox_series = true
supports_common_misc1_button GamepadProfileKind.dualsense = true
supports_common_misc1_button GamepadProfileKind.switch_pro = true
supports_common_misc1_button GamepadProfileKind.xbox_360 = false
supports_common_misc1_button GamepadProfileKind.xbox_one = false
supports_common_misc1_button GamepadProfileKind.dualshock4 = false

unfoldable pub gamepad_profile_support : DeviceProfile → GamepadProfileSupport
gamepad_profile_support profile =
    let capabilities = profile.capabilities in
    if not (same_type profile.device_type DeviceType.gamepad) then no_support else (record {
      supports_rumble = capabilities.supports_rumble;
      supports_trigger_rumble = capabilities.supports_trigger_rumble;
      supports_rgb_led = capabilities.supports_rgb_led;
      supports_adaptive_triggers = capabilities.supports_adaptive_triggers;
      supports_motion = capabilities.supports_motion;
      supports_touchpad = capabilities.supports_touchpad;
      supports_battery = capabilities.supports_battery;
      supports_misc1_button = supports_common_misc1_button profile.gamepad_kind;
      supports_touchpad_button = capabilities.supports_touchpad;
      supported_rear_paddle_count = 0;
      supports_player_leds = capabilities.supports_player_leds;
    })

-- The tests after the common buttons.
abbrev special_button : GamepadProfileSupport → GamepadButton → Bool
special_button support GamepadButton.misc1 = support.supports_misc1_button
special_button support GamepadButton.touchpad = support.supports_touchpad_button
special_button support GamepadButton.paddle1 = leb 1 support.supported_rear_paddle_count
special_button support GamepadButton.paddle2 = leb 2 support.supported_rear_paddle_count
special_button support GamepadButton.paddle3 = leb 3 support.supported_rear_paddle_count
special_button support GamepadButton.paddle4 = leb 4 support.supported_rear_paddle_count
special_button support _ = false

pub supports_gamepad_button : DeviceProfile → GamepadButton → Bool
unfolding gamepad_profile_support
supports_gamepad_button profile button =
    if not (same_type profile.device_type DeviceType.gamepad)
    then false
    else is_common_button button || special_button (gamepad_profile_support profile) button

abbrev output_support : DeviceProfile → GamepadProfileSupport → GamepadOutputKind → Bool
output_support profile support GamepadOutputKind.rumble = support.supports_rumble
output_support profile support GamepadOutputKind.trigger_rumble = support.supports_trigger_rumble
output_support profile support GamepadOutputKind.rgb_led = support.supports_rgb_led
output_support profile support GamepadOutputKind.adaptive_triggers =
    support.supports_adaptive_triggers
output_support profile support GamepadOutputKind.player_leds = support.supports_player_leds
output_support profile support GamepadOutputKind.raw_report = ltb 0 profile.output_report_size

pub supports_gamepad_output : DeviceProfile → GamepadOutputKind → Bool
unfolding gamepad_profile_support
supports_gamepad_output profile kind =
    if not (same_type profile.device_type DeviceType.gamepad)
    then false
    else output_support profile (gamepad_profile_support profile) kind

-- What each button needs of a gamepad's profile, by its number.
abbrev pub Needs : DeviceProfile → GamepadButton → Type 0
Needs profile button =
    (index button ≤ 14)
    ⊎ ((index button ≡ 15) × (supports_common_misc1_button profile.gamepad_kind ≡ true))
    ⊎ ((index button ≡ 16) × (profile.capabilities.supports_touchpad ≡ true))

-- A button is supported exactly when the profile is a gamepad's and the button is among the first
-- 15, or is misc1 or touchpad and the profile has it; so no profile has a rear paddle.
pub supports_gamepad_button_iff :
    (profile : DeviceProfile) (button : GamepadButton)
    → (supports_gamepad_button profile button ≡ true)
      ↔ ((same_type profile.device_type DeviceType.gamepad ≡ true) × Needs profile button)
unfolding supports_gamepad_button gamepad_profile_support
supports_gamepad_button_iff profile button = ground arith
