-- ===== src/Core/Device/All.antt =====
-- The methods of all the kinds of devices together.
use libvirtualhid.Core.Device.{Device}
use libvirtualhid.Core.Device.Laws.{IsLawful}
use libvirtualhid.Core.Logger.{Logger}
use libvirtualhid.Core.Touch.{TouchDevice}
use libvirtualhid.Core.Keyboard.{
  Keyboard, BackendKeyboard, KeyboardCall, keyboard_step, keyboard_step-IsLawful,
}
use libvirtualhid.Core.Mouse.{
  MouseDevice, BackendMouse, Environment, MouseAction, mouse_step, mouse_step-IsLawful,
}
use libvirtualhid.Core.Touchscreen.{
  BackendTouchscreen, TouchscreenCall, touchscreen_step, touchscreen_step-IsLawful,
}
use libvirtualhid.Core.Trackpad.{
  BackendTrackpad, TrackpadCall, trackpad_step, trackpad_step-IsLawful,
}
use libvirtualhid.Core.Pen.{BackendPenTablet, PenCall, pen_tablet_step, pen_tablet_step-IsLawful}

-- Each method of a keyboard, a mouse, a touchscreen, a trackpad and a pen tablet keeps the device's id and
-- options, leaves a closed device exactly as it is, backend included, and leaves what the device remembers
-- and the count of its submissions if it fails; the count stays or, modulo 2^64, grows by one. A mouse does
-- so whatever the logger does.
pub device_steps-AreLawful :
    {B O F T : Type 0} (keys : BackendKeyboard B T) (keyboard : Keyboard B O T)
    (on_keyboard : KeyboardCall T) (env : Environment O F) (mice : BackendMouse B F)
    (logger : Logger) (mouse : MouseDevice B O F) (on_mouse : MouseAction F)
    (touches : BackendTouchscreen B F) (touchscreen : TouchDevice B O F)
    (on_touchscreen : TouchscreenCall F) (strokes : BackendTrackpad B F)
    (trackpad : TouchDevice B O F) (on_trackpad : TrackpadCall F) (pens : BackendPenTablet B T)
    (tablet : Device B O T) (on_tablet : PenCall T)
    → IsLawful keyboard (keyboard_step keys keyboard on_keyboard)
      × IsLawful mouse (mouse_step env mice logger mouse on_mouse).0
      × IsLawful touchscreen (touchscreen_step touches touchscreen on_touchscreen)
      × IsLawful trackpad (trackpad_step strokes trackpad on_trackpad)
      × IsLawful tablet (pen_tablet_step pens tablet on_tablet)
device_steps-AreLawful keys keyboard on_keyboard env mice logger mouse on_mouse touches touchscreen
      on_touchscreen strokes trackpad on_trackpad pens tablet on_tablet =
    (
      keyboard_step-IsLawful keys keyboard on_keyboard,
      mouse_step-IsLawful env mice logger mouse on_mouse,
      touchscreen_step-IsLawful touches touchscreen on_touchscreen,
      trackpad_step-IsLawful strokes trackpad on_trackpad,
      pen_tablet_step-IsLawful pens tablet on_tablet,
    )
