-- ===== src/Core/Report/ButtonBits/Laws.antt =====
-- The button word of a generic report gives back the buttons; the hat is the net direction of the pad.
use Prim.Native.Nat.{bit_or}
use libvirtualhid.Base.{
  ℕ, zero, suc, ◌+◌, ◌-◌, ◌%◌, ◌^◌, ◌≤◌, ◌<◌, ◌≡◌, ◌==◌, refl, max, Bool, not, ◌&&◌, subst, List,
  [], ◌∷◌, All, Option, none, some, get_or, if◌then◌else◌, if-cases, ltb, ltb→lt, arith,
}
use libvirtualhid.Base.Bits.{digit, digit-zero, digit-bit_or, mask_iff}
use libvirtualhid.Base.Bits.Bounds.{bit_or-lt}
use libvirtualhid.Core.Types.{DeviceProfile, GamepadState}
use libvirtualhid.Core.Buttons.{GamepadButton, test}
use libvirtualhid.Core.Buttons.Laws.{mask_digit}
use libvirtualhid.Core.Report.Numbers.{Floats}
use libvirtualhid.Core.Report.Bytes.{read_u16, resize, has_flag}
use libvirtualhid.Core.Report.ButtonBits.{
  ButtonBit, add_bits, button_bits, common_button_bits, standard_gamepad_button_bits, hat_of,
  neutral_hat, hat_from_buttons, xbox_gip_hat_from_buttons, face_shoulder_button_map,
  common_menu_button_map, common_extra_button_map, standard_dpad_button_map,
}
use libvirtualhid.Core.Report.{pack_standard_gamepad_input_report, standard_bytes}
use libvirtualhid.Core.Report.Normalize.{normalize_state}

-- The HID button of each button, from 0: as the usages of the generic descriptor number them.
abbrev pub standard_bit : GamepadButton → Option ℕ
standard_bit GamepadButton.a = some 0
standard_bit GamepadButton.b = some 1
standard_bit GamepadButton.x = some 2
standard_bit GamepadButton.y = some 3
standard_bit GamepadButton.left_shoulder = some 4
standard_bit GamepadButton.right_shoulder = some 5
standard_bit GamepadButton.back = some 6
standard_bit GamepadButton.start = some 7
standard_bit GamepadButton.left_stick = some 8
standard_bit GamepadButton.right_stick = some 9
standard_bit GamepadButton.guide = some 10
standard_bit GamepadButton.misc1 = some 11
standard_bit GamepadButton.dpad_up = some 12
standard_bit GamepadButton.dpad_down = some 13
standard_bit GamepadButton.dpad_left = some 14
standard_bit GamepadButton.dpad_right = some 15
standard_bit _ = none

-- Digit k of the bits of a map: whether a button that is pressed has it.
abbrev pub map_digit : List ButtonBit → ℕ → ℕ → ℕ
map_digit [] buttons k = 0
map_digit (b ∷ map) buttons k =
    max (if b.bit == k then (if test buttons b.button then 1 else 0) else 0)
      (map_digit map buttons k)

digit-add_bits :
    (map : List ButtonBit) (buttons bits k : ℕ)
    → digit k (add_bits map buttons bits) ≡ max (digit k bits) (map_digit map buttons k)
unfolding add_bits
digit-add_bits [] buttons bits k = omega arith
digit-add_bits (b ∷ map) buttons bits k = ground (
  arith,
  digit-add_bits map buttons bits k,
  digit-add_bits map buttons (bit_or bits (2 ^ b.bit)) k,
  digit-bit_or k bits (2 ^ b.bit),
  mask_digit b.bit k,
)

module _ (buttons : ℕ) where
  digit-standard_bits :
      (k : ℕ)
      → digit k (standard_gamepad_button_bits buttons)
        ≡ max
            (max
              (max
                (map_digit face_shoulder_button_map buttons k)
                (map_digit common_menu_button_map buttons k))
              (map_digit common_extra_button_map buttons k))
            (map_digit standard_dpad_button_map buttons k)
  unfolding standard_gamepad_button_bits common_button_bits
  digit-standard_bits k = omega (
    arith,
    digit-zero k,
    digit-add_bits face_shoulder_button_map buttons 0 k,
    digit-add_bits common_menu_button_map buttons 0 k,
    digit-add_bits common_extra_button_map buttons 0 k,
    digit-add_bits standard_dpad_button_map buttons 0 k,
    digit-bit_or k (button_bits face_shoulder_button_map buttons)
        (button_bits common_menu_button_map buttons),
    digit-bit_or k
        (bit_or (button_bits face_shoulder_button_map buttons)
          (button_bits common_menu_button_map buttons))
        (button_bits common_extra_button_map buttons),
    digit-bit_or k
        (bit_or
          (bit_or (button_bits face_shoulder_button_map buttons)
            (button_bits common_menu_button_map buttons))
          (button_bits common_extra_button_map buttons))
        (button_bits standard_dpad_button_map buttons),
  )

-- The bits of a map are those of a number of k digits, where the map's are.
add_bits-lt :
    (map : List ButtonBit) (buttons bits : ℕ)
    → All (λ b. 2 ^ b.bit < 2 ^ 16) map
    → bits < 2 ^ 16
    → add_bits map buttons bits < 2 ^ 16
unfolding add_bits
add_bits-lt [] buttons bits a h = h
add_bits-lt (b ∷ map) buttons bits a h =
    add_bits-lt map buttons (if test buttons b.button then bit_or bits (2 ^ b.bit) else bits) a.1 (
      if-cases (λ n. n < 2 ^ 16) (test buttons b.button) (λ _. bit_or-lt 16 bits (2 ^ b.bit) h a.0)
        (λ _. h))

standard_bits-lt : (buttons : ℕ) → standard_gamepad_button_bits buttons < 2 ^ 16
unfolding standard_gamepad_button_bits common_button_bits
standard_bits-lt buttons =
    bit_or-lt 16 _ _
      (bit_or-lt 16 _ _
        (bit_or-lt 16 _ _
          (add_bits-lt face_shoulder_button_map buttons 0 (ground arith) (omega arith))
          (add_bits-lt common_menu_button_map buttons 0 (ground arith) (omega arith)))
        (add_bits-lt common_extra_button_map buttons 0 (ground arith) (omega arith)))
      (add_bits-lt standard_dpad_button_map buttons 0 (ground arith) (omega arith))

-- A byte within the size survives the resizing.
get_or-resize : (xs : List ℕ) (n i : ℕ) → i < n → get_or (resize xs n) i 0 ≡ get_or xs i 0
unfolding resize
get_or-resize xs zero i h = absurd (omega arith)
get_or-resize [] (suc n) zero h = refl
get_or-resize [] (suc n) (suc i) h = get_or-resize [] n i (omega arith)
get_or-resize (x ∷ xs) (suc n) zero h = refl
get_or-resize (x ∷ xs) (suc n) (suc i) h = get_or-resize xs n i (omega arith)

has_flag-digit : (n k : ℕ) (t : Bool) → digit k n ≡ (if t then 1 else 0) → has_flag n (2 ^ k) ≡ t
has_flag-digit n k t h = ground (arith, mask_iff n k)

-- The button is read back from the bit of a word, where it has one.
abbrev pub Recovers : ℕ → ℕ → GamepadButton → Option ℕ → Type 0
Recovers word buttons button none = Unit
Recovers word buttons button (some k) = has_flag word (2 ^ k) ≡ test buttons button

word-Recovers :
    (buttons : ℕ) (button : GamepadButton)
    → Recovers (standard_gamepad_button_bits buttons) buttons button (standard_bit button)
word-Recovers buttons GamepadButton.a =
    has_flag-digit _ 0 _ (omega (arith, digit-standard_bits buttons 0))
word-Recovers buttons GamepadButton.b =
    has_flag-digit _ 1 _ (omega (arith, digit-standard_bits buttons 1))
word-Recovers buttons GamepadButton.x =
    has_flag-digit _ 2 _ (omega (arith, digit-standard_bits buttons 2))
word-Recovers buttons GamepadButton.y =
    has_flag-digit _ 3 _ (omega (arith, digit-standard_bits buttons 3))
word-Recovers buttons GamepadButton.left_shoulder =
    has_flag-digit _ 4 _ (omega (arith, digit-standard_bits buttons 4))
word-Recovers buttons GamepadButton.right_shoulder =
    has_flag-digit _ 5 _ (omega (arith, digit-standard_bits buttons 5))
word-Recovers buttons GamepadButton.back =
    has_flag-digit _ 6 _ (omega (arith, digit-standard_bits buttons 6))
word-Recovers buttons GamepadButton.start =
    has_flag-digit _ 7 _ (omega (arith, digit-standard_bits buttons 7))
word-Recovers buttons GamepadButton.left_stick =
    has_flag-digit _ 8 _ (omega (arith, digit-standard_bits buttons 8))
word-Recovers buttons GamepadButton.right_stick =
    has_flag-digit _ 9 _ (omega (arith, digit-standard_bits buttons 9))
word-Recovers buttons GamepadButton.guide =
    has_flag-digit _ 10 _ (omega (arith, digit-standard_bits buttons 10))
word-Recovers buttons GamepadButton.misc1 =
    has_flag-digit _ 11 _ (omega (arith, digit-standard_bits buttons 11))
word-Recovers buttons GamepadButton.dpad_up =
    has_flag-digit _ 12 _ (omega (arith, digit-standard_bits buttons 12))
word-Recovers buttons GamepadButton.dpad_down =
    has_flag-digit _ 13 _ (omega (arith, digit-standard_bits buttons 13))
word-Recovers buttons GamepadButton.dpad_left =
    has_flag-digit _ 14 _ (omega (arith, digit-standard_bits buttons 14))
word-Recovers buttons GamepadButton.dpad_right =
    has_flag-digit _ 15 _ (omega (arith, digit-standard_bits buttons 15))
word-Recovers buttons GamepadButton.touchpad = tt
word-Recovers buttons GamepadButton.paddle1 = tt
word-Recovers buttons GamepadButton.paddle2 = tt
word-Recovers buttons GamepadButton.paddle3 = tt
word-Recovers buttons GamepadButton.paddle4 = tt

module _ {F : Type 0} (floats : Floats F) where
  -- A host that reads the two bytes after the identifier of a generic report as a little-endian word finds
  -- there exactly the buttons that were pressed: each of the 16 buttons of the layout is the bit that its
  -- HID usage names. The profile's size holds the layout.
  pub generic_report-Recovers :
      (p : DeviceProfile) (state : GamepadState F) (button : GamepadButton)
      → 9 ≤ p.input_report_size
      → Recovers
          (read_u16 (pack_standard_gamepad_input_report floats p state) 1)
          state.buttons
          button
          (standard_bit button)
  unfolding pack_standard_gamepad_input_report normalize_state
  generic_report-Recovers p state button h =
      let bytes = standard_bytes floats p (normalize_state floats state) in
      if-cases (λ (r : List ℕ). Recovers (read_u16 r 1) state.buttons button (standard_bit button))
        (ltb p.input_report_size 9) (λ e. absurd (omega (arith, ltb→lt p.input_report_size 9 e)))
        (λ _.
          subst (λ w. Recovers w state.buttons button (standard_bit button))
            (omega (
              arith,
              standard_bits-lt state.buttons,
              get_or-resize bytes p.input_report_size 1 (omega arith),
              get_or-resize bytes p.input_report_size 2 (omega arith),
            ))
            (word-Recovers state.buttons button))

-- The direction of the pad along an axis, opposite buttons cancelling out: 0 is back, 1 none, 2 forth.
abbrev pub net : Bool → Bool → ℕ
net forth back = 1 + (if forth then 1 else 0) - (if back then 1 else 0)

-- The eight directions clockwise from north, and 8 for none.
abbrev pub compass : ℕ → ℕ → ℕ
compass east north =
    get_or (get_or ((5 ∷ 4 ∷ 3 ∷ []) ∷ (6 ∷ 8 ∷ 2 ∷ []) ∷ (7 ∷ 0 ∷ 1 ∷ []) ∷ []) north []) east 0

hat_of-compass :
    (up down left right : Bool)
    → hat_of
        (up && not (up && down))
        (down && not (up && down))
        (left && not (left && right))
        (right && not (left && right))
      ≡ compass (net right left) (net up down)
hat_of-compass up down left right = ground arith

-- A hat is at most 8.
hat_of-le : (up down left right : Bool) → hat_of up down left right ≤ 8
hat_of-le up down left right = ground arith

next_hat : (hat : ℕ) → hat ≤ 8 → (if hat == neutral_hat then 0 else hat + 1) ≡ (hat + 1) % 9
next_hat hat h = ground arith

-- The hat value is the compass direction of the directional pad, where opposite buttons cancel out, and 8
-- when the pad is neutral; the hat of an Xbox One or Series report is the next number, with 0 for neutral.
pub hat_from_buttons-compass :
    (buttons : ℕ)
    → (hat_from_buttons buttons
        ≡ compass
            (net (test buttons GamepadButton.dpad_right) (test buttons GamepadButton.dpad_left))
            (net (test buttons GamepadButton.dpad_up) (test buttons GamepadButton.dpad_down)))
      × (xbox_gip_hat_from_buttons buttons ≡ (hat_from_buttons buttons + 1) % 9)
unfolding hat_from_buttons xbox_gip_hat_from_buttons
hat_from_buttons-compass buttons =
    let up = test buttons GamepadButton.dpad_up in
    let down = test buttons GamepadButton.dpad_down in
    let left = test buttons GamepadButton.dpad_left in
    let right = test buttons GamepadButton.dpad_right in
    (
      hat_of-compass up down left right,
      next_hat (hat_from_buttons buttons) (
          hat_of-le (up && not (up && down)) (down && not (up && down))
            (left && not (left && right)) (right && not (left && right))),
    )
