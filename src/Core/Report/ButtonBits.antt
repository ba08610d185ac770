-- ===== src/Core/Report/ButtonBits.antt =====
-- The button words and hat values of report.cpp.
pub mod Laws
use Prim.Native.Nat.{bit_or}
use libvirtualhid.Base.{ℕ, ◌+◌, ◌*◌, ◌^◌, ◌==◌, Bool, not, ◌&&◌, List, [], ◌∷◌, if◌then◌else◌}
use libvirtualhid.Core.Buttons.{GamepadButton, test}

pub record ButtonBit : Type 0 where
  pub bit : ℕ
  pub button : GamepadButton

abbrev at : ℕ → GamepadButton → ButtonBit
at bit button = record { bit = bit; button = button }

abbrev pub face_shoulder_button_map : List ButtonBit
face_shoulder_button_map =
    at 0 GamepadButton.a
    ∷ at 1 GamepadButton.b
    ∷ at 2 GamepadButton.x
    ∷ at 3 GamepadButton.y
    ∷ at 4 GamepadButton.left_shoulder
    ∷ at 5 GamepadButton.right_shoulder
    ∷ []

abbrev pub common_menu_button_map : List ButtonBit
common_menu_button_map =
    at 6 GamepadButton.back
    ∷ at 7 GamepadButton.start
    ∷ at 8 GamepadButton.left_stick
    ∷ at 9 GamepadButton.right_stick
    ∷ []

abbrev pub common_extra_button_map : List ButtonBit
common_extra_button_map = at 10 GamepadButton.guide ∷ at 11 GamepadButton.misc1 ∷ []

abbrev pub standard_dpad_button_map : List ButtonBit
standard_dpad_button_map =
    at 12 GamepadButton.dpad_up
    ∷ at 13 GamepadButton.dpad_down
    ∷ at 14 GamepadButton.dpad_left
    ∷ at 15 GamepadButton.dpad_right
    ∷ []

abbrev pub xbox_extra_button_map : List ButtonBit
xbox_extra_button_map = at 11 GamepadButton.misc1 ∷ []

-- The loop, with the bits so far.
unfoldable pub add_bits : List ButtonBit → ℕ → ℕ → ℕ
add_bits [] buttons bits = bits
add_bits (b ∷ map) buttons bits =
    add_bits map buttons (if test buttons b.button then bit_or bits (2 ^ b.bit) else bits)

abbrev pub button_bits : List ButtonBit → ℕ → ℕ
button_bits map buttons = add_bits map buttons 0

unfoldable pub common_button_bits : ℕ → ℕ
common_button_bits buttons =
    bit_or
      (bit_or (button_bits face_shoulder_button_map buttons)
        (button_bits common_menu_button_map buttons))
      (button_bits common_extra_button_map buttons)

unfoldable pub standard_gamepad_button_bits : ℕ → ℕ
standard_gamepad_button_bits buttons =
    bit_or (common_button_bits buttons) (button_bits standard_dpad_button_map buttons)

unfoldable pub xbox_gip_button_bits : ℕ → ℕ
xbox_gip_button_bits buttons =
    bit_or
      (bit_or (button_bits face_shoulder_button_map buttons)
        (button_bits common_menu_button_map buttons))
      (button_bits xbox_extra_button_map buttons)

abbrev pub neutral_hat : ℕ
neutral_hat = 8

-- The hat of four directions, once opposite ones have cancelled out.
abbrev pub hat_of : Bool → Bool → Bool → Bool → ℕ
hat_of up down left right =
    if up && right
    then 1
    else if down && right
    then 3
    else if down && left
    then 5
    else if up && left
    then 7
    else if up
    then 0
    else if right
    then 2
    else if down
    then 4
    else if left
    then 6
    else neutral_hat

unfoldable pub hat_from_buttons : ℕ → ℕ
hat_from_buttons buttons =
    let up = test buttons GamepadButton.dpad_up in
    let down = test buttons GamepadButton.dpad_down in
    let left = test buttons GamepadButton.dpad_left in
    let right = test buttons GamepadButton.dpad_right in
    hat_of (up && not (up && down)) (down && not (up && down)) (left && not (left && right))
      (right && not (left && right))

unfoldable pub xbox_gip_hat_from_buttons : ℕ → ℕ
xbox_gip_hat_from_buttons buttons =
    let hat = hat_from_buttons buttons in if hat == neutral_hat then 0 else hat + 1

unfoldable pub dpad_hat_bits : ℕ → ℕ
dpad_hat_bits buttons = hat_from_buttons buttons * 4096
