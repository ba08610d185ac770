-- ===== src/Core/Keyboard.antt =====
-- `Keyboard` of runtime.cpp.
use libvirtualhid.Base.{ℕ, ◌==◌, Bool, true, false, if◌then◌else◌}
use libvirtualhid.Core.Status.{OperationStatus, ErrorCode, success, failure}
use libvirtualhid.Core.Types.{KeyboardEvent}
use libvirtualhid.Core.Device.{Device, close, submit_event, validated}
use libvirtualhid.Core.Device.Laws.{
  IsLawful, validated-IsLawful, close-IsLawful, submit_event-IsLawful,
}

-- `T` is a text event, and `B` the state of the backend's keyboard.
pub record BackendKeyboard (B T : Type 0) : Type 0 where
  pub submit : B → KeyboardEvent → B × OperationStatus
  pub type_text : B → T → B × OperationStatus
  pub close : B → B × OperationStatus

pub record KeyboardMemory (T : Type 0) : Type 0 where
  pub last_event : KeyboardEvent
  pub last_text_event : T

abbrev pub Keyboard : Type 0 → Type 0 → Type 0 → Type 0
Keyboard B O T = Device B O (KeyboardMemory T)

pub validate_keyboard_event : KeyboardEvent → OperationStatus
validate_keyboard_event event =
    if event.key_code == 0
    then failure ErrorCode.invalid_argument "keyboard key code must not be zero"
    else success

abbrev key_event : ℕ → Bool → KeyboardEvent
key_event key_code pressed = record {
  key_code = key_code;
  pressed = pressed;
  scan_code = 0;
  uses_normalized_key_code = false;
  prefer_native_scan_code = false;
  extended = false;
}

module _ {B O T : Type 0} (backend : BackendKeyboard B T) where
  pub submit : Keyboard B O T → KeyboardEvent → Keyboard B O T × OperationStatus
  submit d event = validated (validate_keyboard_event event) d (
      submit_event "keyboard is closed" (λ b. backend.submit b event)
        (λ l. record l { last_event = event }) d)

  pub press : Keyboard B O T → ℕ → Keyboard B O T × OperationStatus
  press d key_code = submit d (key_event key_code true)

  pub release : Keyboard B O T → ℕ → Keyboard B O T × OperationStatus
  release d key_code = submit d (key_event key_code false)

  pub type_text : Keyboard B O T → T → Keyboard B O T × OperationStatus
  type_text d event =
      submit_event "keyboard is closed" (λ b. backend.type_text b event)
        (λ l. record l { last_text_event = event }) d

  pub close_keyboard : Keyboard B O T → Keyboard B O T × OperationStatus
  close_keyboard d = close backend.close d

pub data KeyboardCall (T : Type 0) : Type 0 where
  submits : KeyboardEvent → KeyboardCall T
  presses releases : ℕ → KeyboardCall T
  types : T → KeyboardCall T
  closes : KeyboardCall T

module _ {B O T : Type 0} (backend : BackendKeyboard B T) where
  pub keyboard_step : Keyboard B O T → KeyboardCall T → Keyboard B O T × OperationStatus
  keyboard_step d (submits event) = submit backend d event
  keyboard_step d (presses key_code) = press backend d key_code
  keyboard_step d (releases key_code) = release backend d key_code
  keyboard_step d (types event) = type_text backend d event
  keyboard_step d closes = close_keyboard backend d

  submit-IsLawful :
      (d : Keyboard B O T) (event : KeyboardEvent) → IsLawful d (submit backend d event)
  unfolding submit
  submit-IsLawful d event = validated-IsLawful _ d _ (submit_event-IsLawful _ _ _ d)

  -- Each method of a keyboard keeps its id and options, leaves a closed keyboard
  -- exactly as it is, backend included, and leaves what the keyboard remembers and the count if it fails; the
  -- count stays or, modulo 2^64, grows by one.
  pub keyboard_step-IsLawful :
      (d : Keyboard B O T) (c : KeyboardCall T) → IsLawful d (keyboard_step d c)
  unfolding keyboard_step press release type_text close_keyboard
  keyboard_step-IsLawful d (submits event) = submit-IsLawful d event
  keyboard_step-IsLawful d (presses key_code) = submit-IsLawful d (key_event key_code true)
  keyboard_step-IsLawful d (releases key_code) = submit-IsLawful d (key_event key_code false)
  keyboard_step-IsLawful d (types event) = submit_event-IsLawful _ _ _ d
  keyboard_step-IsLawful d closes = close-IsLawful _ d
