-- ===== src/Core/Buttons.antt =====
-- `GamepadButton` of types.hpp and `ButtonSet` of types.cpp. A set is its 32 bits.
pub mod Laws
use Prim.Native.Nat.{bit_and, bit_or}
use libvirtualhid.Base.{ℕ, ◌-◌, ◌^◌, ◌==◌, Bool, not, if◌then◌else◌}

pub data GamepadButton : Type 0 where
  a b x y back start guide left_stick right_stick left_shoulder right_shoulder : GamepadButton
  dpad_up dpad_down dpad_left dpad_right misc1 touchpad : GamepadButton
  paddle1 paddle2 paddle3 paddle4 : GamepadButton

-- std::to_underlying.
abbrev pub index : GamepadButton → ℕ
index GamepadButton.a = 0
index GamepadButton.b = 1
index GamepadButton.x = 2
index GamepadButton.y = 3
index GamepadButton.back = 4
index GamepadButton.start = 5
index GamepadButton.guide = 6
index GamepadButton.left_stick = 7
index GamepadButton.right_stick = 8
index GamepadButton.left_shoulder = 9
index GamepadButton.right_shoulder = 10
index GamepadButton.dpad_up = 11
index GamepadButton.dpad_down = 12
index GamepadButton.dpad_left = 13
index GamepadButton.dpad_right = 14
index GamepadButton.misc1 = 15
index GamepadButton.touchpad = 16
index GamepadButton.paddle1 = 17
index GamepadButton.paddle2 = 18
index GamepadButton.paddle3 = 19
index GamepadButton.paddle4 = 20

pub set_button : ℕ → GamepadButton → Bool → ℕ
set_button bits button pressed =
    let mask = 2 ^ index button in
    if pressed then bit_or bits mask else bit_and bits (4294967295 - mask)

unfoldable pub reset : ℕ → GamepadButton → ℕ
unfolding set_button
reset bits button = set_button bits button Bool.false

unfoldable pub clear : ℕ → ℕ
clear bits = 0

pub test : ℕ → GamepadButton → Bool
test bits button = not (bit_and bits (2 ^ index button) == 0)
