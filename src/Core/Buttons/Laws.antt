-- ===== src/Core/Buttons/Laws.antt =====
-- A set of buttons after a change.
use libvirtualhid.Base.{
  ℕ, ◌-◌, ◌^◌, ◌<◌, ◌≡◌, ◌==◌, ◌↔◌, ==_iff, subst, Bool, true, false, if◌then◌else◌, if-cases,
  arith,
}
use libvirtualhid.Base.Bits.{
  digit, digit-lt, digit-bit_and, digit-bit_or, digit-pow_self, digit-pow_ne, digit-complement,
  mask_iff,
}
use libvirtualhid.Core.Buttons.{GamepadButton, index, set_button, test}

pub mask_digit : (k j : ℕ) → digit j (2 ^ k) ≡ (if k == j then 1 else 0)
mask_digit k j =
    if-cases (λ n. digit j (2 ^ k) ≡ n) (k == j)
      (λ e. subst (λ i. digit i (2 ^ k) ≡ 1) ((==_iff k j).0 e) (digit-pow_self k))
      (λ e. digit-pow_ne j k (λ q. ground (arith, ==_iff k j)))

index-lt : (button : GamepadButton) → index button < 32
index-lt button = ground arith

mask-lt : (button : GamepadButton) → 2 ^ index button < 4294967296
mask-lt button = ground arith

test_iff :
    (bits : ℕ) (button : GamepadButton)
    → (test bits button ≡ true) ↔ (digit (index button) bits ≡ 1)
unfolding test
test_iff bits button = ground (arith, mask_iff bits (index button), digit-lt (index button) bits)

-- The digit of a mask, and of its complement.
digit-mask :
    (button other : GamepadButton)
    → digit (index other) (2 ^ index button) ≡ (if index button == index other then 1 else 0)
digit-mask button other = mask_digit (index button) (index other)

digit-set_button :
    (bits : ℕ) (button other : GamepadButton) (pressed : Bool)
    → digit (index other) (set_button bits button pressed) ≡ (
        if index button == index other
        then (if pressed then 1 else 0)
        else digit (index other) bits)
unfolding set_button
digit-set_button bits button other true = ground (
  arith,
  digit-bit_or (index other) bits (2 ^ index button),
  digit-mask button other,
  digit-lt (index other) bits,
)
digit-set_button bits button other false = ground (
  arith,
  digit-bit_and (index other) bits (4294967295 - 2 ^ index button),
  digit-mask button other,
  digit-lt (index other) bits,
  digit-complement (index other) 32 (2 ^ index button) (index-lt other) (mask-lt button),
)

-- After a button is set or cleared, it tests as that, and every other button tests as before.
pub test-set_button :
    (bits : ℕ) (button other : GamepadButton) (pressed : Bool)
    → test (set_button bits button pressed) other
      ≡ (if index button == index other then pressed else test bits other)
test-set_button bits button other pressed = ground (
  arith,
  test_iff bits other,
  test_iff (set_button bits button pressed) other,
  digit-set_button bits button other pressed,
)
