-- ===== src/Core/Tests/Devices.antt =====
-- The methods of single devices, at concrete events.
use libvirtualhid.Base.{ℕ, ◌≡◌, Bool, true, false, [], ◌∷◌}
use libvirtualhid.Base.Int.{pos, negsuc}
use libvirtualhid.Core.Types.{KeyboardEvent, TouchContact}
use libvirtualhid.Core.Device.{Device}
use libvirtualhid.Core.Device.Laws.{IsLawful}
use libvirtualhid.Core.Device.All.{device_steps-AreLawful}
use libvirtualhid.Core.Touch.{TouchDevice}
use libvirtualhid.Core.Keyboard
use libvirtualhid.Core.Mouse
use libvirtualhid.Core.Touchscreen
use libvirtualhid.Core.Trackpad
use libvirtualhid.Core.Pen
use libvirtualhid.Core.Gamepad
use libvirtualhid.Core.Logger.{Logger, LogLevel, emit_all, emit_all-until_throw}
use libvirtualhid.Core.Tests.{count_call, device, pad, pad_backend, pad_state, reports, view}

abbrev keys : Keyboard.BackendKeyboard ℕ ℕ
keys = record {
  submit = λ b e. count_call b;
  type_text = λ b t. count_call b;
  close = λ b. count_call b;
}

abbrev key : ℕ → KeyboardEvent
key code = record {
  key_code = code;
  pressed = true;
  scan_code = 0;
  uses_normalized_key_code = false;
  prefer_native_scan_code = false;
  extended = false;
}

abbrev board : Bool → Keyboard.Keyboard ℕ ℕ ℕ
board is_open = device 0 (record { last_event = key 1; last_text_event = 0 }) is_open 1

abbrev mice : Mouse.BackendMouse ℕ ℕ
mice = record { submit = λ b e. count_call b; close = λ b. count_call b }

abbrev env : Mouse.Environment ℕ ℕ
env = record {
  throws = λ level message. false;
  describe = λ id event options. "event";
  round = λ f. pos f;
  zero = 0;
}

abbrev quiet : Logger
quiet = record { installed = false; callback_failed = false; delivered = [] }

abbrev loud : Logger
loud = record { installed = true; callback_failed = false; delivered = [] }

abbrev pointer : Mouse.MouseDevice ℕ ℕ ℕ
pointer = device 0 (Mouse.event_of env (Mouse.MouseCall.scrolls (pos 1))) true 3

abbrev finger : TouchContact ℕ
finger = record {
  id = pos 4;
  x = 1;
  y = 2;
  pressure = 1;
  orientation = pos 0;
  touching = true;
  viewport = view 0 0;
  contact_major_axis = 0;
  contact_minor_axis = 0;
}

abbrev touches : Touchscreen.BackendTouchscreen ℕ ℕ
touches = record {
  place_contact = λ b c. count_call b;
  release_contact = λ b id t. count_call b;
  close = λ b. count_call b;
}

abbrev strokes : Trackpad.BackendTrackpad ℕ ℕ
strokes = record {
  place_contact = λ b c. count_call b;
  release_contact = λ b id t. count_call b;
  button = λ b pressed. count_call b;
  close = λ b. count_call b;
}

abbrev pens : Pen.BackendPenTablet ℕ ℕ
pens = record {
  place_tool = λ b t. count_call b;
  button = λ b button pressed. count_call b;
  close = λ b. count_call b;
}

abbrev finger_device : Bool → TouchDevice ℕ ℕ ℕ
finger_device is_open = device 0 finger is_open 1

abbrev tablet : Device ℕ ℕ ℕ
tablet = device 0 5 true 1

abbrev moves : Mouse.MouseAction ℕ
moves = Mouse.MouseAction.inputs (Mouse.MouseCall.moves (pos 2) (negsuc 0))

device_steps-AreLawful_example :
    IsLawful
      (board true)
      (Keyboard.keyboard_step keys (board true) (Keyboard.KeyboardCall.presses 65))
    × IsLawful pointer (Mouse.mouse_step env mice loud pointer moves).0
    × IsLawful (finger_device true) (
        Touchscreen.touchscreen_step touches
          (finger_device true)
          (Touchscreen.TouchscreenCall.cancels (pos 4)))
    × IsLawful
        (finger_device false)
        (Trackpad.trackpad_step strokes (finger_device false) (Trackpad.TrackpadCall.clicks true))
    × IsLawful tablet (Pen.pen_tablet_step pens tablet (Pen.PenCall.places 6))
device_steps-AreLawful_example =
    device_steps-AreLawful keys (board true) (Keyboard.KeyboardCall.presses 65) env mice loud
      pointer moves touches (finger_device true) (Touchscreen.TouchscreenCall.cancels (pos 4))
      strokes (finger_device false) (Trackpad.TrackpadCall.clicks true) pens tablet
      (Pen.PenCall.places 6)

submit-IsLawful_example :
    IsLawful (pad true 3) (Gamepad.submit reports pad_backend (pad true 3) pad_state)
submit-IsLawful_example = Gamepad.submit-IsLawful reports pad_backend (pad true 3) pad_state

abbrev eager : Logger
eager = record { installed = true; callback_failed = false; delivered = [] }

-- The callback throws at every message, so it is called with the first one only.
emit_all-until_throw_example :
    emit_all (λ _ _. true) eager ((LogLevel.info, "first") ∷ (LogLevel.info, "lost") ∷ [])
    ≡ record { installed = true; callback_failed = true; delivered = (LogLevel.info, "first") ∷ [] }
emit_all-until_throw_example =
    emit_all-until_throw (λ _ _. true) eager
      ((LogLevel.info, "first") ∷ (LogLevel.info, "lost") ∷ [])
