-- ===== src/Core/Mouse.antt =====
-- `Mouse` of runtime.cpp. `describe` stands for `mouse_event_description`, the text of a diagnostic,
-- which is formatted by the standard library, `round` for std::lround.
use Prim.Native.String.{String}
use Prim.Native.String
use libvirtualhid.Base.{ℕ, Bool, true, false, ◌&&◌, ◌||◌, if◌then◌else◌, if-cases}
use libvirtualhid.Base.Int.{ℤ, pos, leb_ℤ}
use libvirtualhid.Core.Status.{OperationStatus, ErrorCode, success, failure, is_ok}
use libvirtualhid.Core.Types.{MouseEvent, MouseEventKind}
use libvirtualhid.Core.Device.{Device, close, submit_event}
use libvirtualhid.Core.Device.Laws.{
  IsLawful, unchanged-IsLawful, close-IsLawful, submit_event-IsLawful,
}
use libvirtualhid.Core.Logger.{Logger, LogLevel, enabled, emit}

pub record BackendMouse (B F : Type 0) : Type 0 where
  pub submit : B → MouseEvent F → B × OperationStatus
  pub close : B → B × OperationStatus

abbrev pub MouseDevice : Type 0 → Type 0 → Type 0 → Type 0
MouseDevice B O F = Device B O (MouseEvent F)

is_absolute : MouseEventKind → Bool
is_absolute MouseEventKind.absolute_motion = true
is_absolute _ = false

pub validate_mouse_event : {F : Type 0} → MouseEvent F → OperationStatus
unfolding is_absolute
validate_mouse_event event =
    if is_absolute event.kind && (leb_ℤ event.width (pos 0) || leb_ℤ event.height (pos 0))
    then failure ErrorCode.invalid_argument "absolute mouse movement requires positive dimensions"
    else success

-- What the consumer and the standard library provide.
pub record Environment (O F : Type 0) : Type 0 where
  pub throws : LogLevel → String → Bool
  pub describe : ℕ → MouseEvent F → O → String
  pub round : F → ℤ
  pub zero : F

module _ {B O F : Type 0} (env : Environment O F) (backend : BackendMouse B F) where
  -- The locked part of `submit`.
  deliver : MouseDevice B O F → MouseEvent F → MouseDevice B O F × OperationStatus
  deliver d event = submit_event "mouse is closed" (λ b. backend.submit b event) (λ _. event) d

  report_failure : Logger → OperationStatus → Logger
  report_failure l status =
      if is_ok status
      then l
      else emit env.throws l LogLevel.error (String.◌++◌ "mouse input failed: " status.message)

  log_event : Logger → MouseDevice B O F → MouseEvent F → Logger
  log_event l d event =
      if enabled l then emit env.throws l LogLevel.debug (env.describe d.id event d.options) else l

  submit_valid :
      Logger → MouseDevice B O F → MouseEvent F → (MouseDevice B O F × OperationStatus) × Logger
  unfolding deliver report_failure log_event
  submit_valid l d event =
      let result = deliver d event in (result, report_failure (log_event l d event) result.1)

  pub submit :
      Logger → MouseDevice B O F → MouseEvent F → (MouseDevice B O F × OperationStatus) × Logger
  unfolding submit_valid
  submit l d event =
      let validation = validate_mouse_event event in
      if is_ok validation then submit_valid l d event else (
        (d, validation),
        emit env.throws l LogLevel.warning
            (String.◌++◌ "rejected mouse event: " validation.message),
      )

-- An event with the fields that no method sets.
blank_event : {O F : Type 0} → Environment O F → MouseEventKind → MouseEvent F
blank_event env kind = record {
  kind = kind;
  x = pos 0;
  y = pos 0;
  absolute_x = env.zero;
  absolute_y = env.zero;
  has_fractional_absolute_coordinates = false;
  width = pos 0;
  height = pos 0;
  button = 0;
  pressed = false;
  high_resolution_scroll = pos 0;
}

pub data MouseCall (F : Type 0) : Type 0 where
  submits : MouseEvent F → MouseCall F
  moves : ℤ → ℤ → MouseCall F
  moves_to : ℤ → ℤ → ℤ → ℤ → MouseCall F
  moves_to_fraction : F → F → ℤ → ℤ → MouseCall F
  clicks : ℕ → Bool → MouseCall F
  scrolls scrolls_sideways : ℤ → MouseCall F

-- The event that `move_relative`, `move_absolute`, `button` and the scrolls submit.
pub event_of : {O F : Type 0} → Environment O F → MouseCall F → MouseEvent F
unfolding blank_event
event_of env (submits event) = event
event_of env (moves delta_x delta_y) = record (blank_event env MouseEventKind.relative_motion) {
  x = delta_x;
  y = delta_y;
}
event_of env (moves_to x y width height) = record (blank_event env MouseEventKind.absolute_motion) {
  x = x;
  y = y;
  width = width;
  height = height;
}
event_of env (moves_to_fraction x y width height) =
    record (blank_event env MouseEventKind.absolute_motion) {
      x = env.round x;
      y = env.round y;
      absolute_x = x;
      absolute_y = y;
      has_fractional_absolute_coordinates = true;
      width = width;
      height = height;
    }
event_of env (clicks button pressed) = record (blank_event env MouseEventKind.button) {
  button = button;
  pressed = pressed;
}
event_of env (scrolls distance) = record (blank_event env MouseEventKind.vertical_scroll) {
  high_resolution_scroll = distance;
}
event_of env (scrolls_sideways distance) =
    record (blank_event env MouseEventKind.horizontal_scroll) { high_resolution_scroll = distance }

pub data MouseAction (F : Type 0) : Type 0 where
  inputs : MouseCall F → MouseAction F
  closes : MouseAction F

module _ {B O F : Type 0} (env : Environment O F) (backend : BackendMouse B F) where
  pub mouse_step :
      Logger → MouseDevice B O F → MouseAction F → (MouseDevice B O F × OperationStatus) × Logger
  mouse_step l d (inputs c) = submit env backend l d (event_of env c)
  mouse_step l d closes = (close backend.close d, l)

  -- Each method of a mouse, whatever the logger does, keeps its id and options, leaves a closed mouse
  -- exactly as it is, backend included, and leaves what the mouse remembers and the count if it fails; the
  -- count stays or, modulo 2^64, grows by one.
  pub mouse_step-IsLawful :
      (l : Logger) (d : MouseDevice B O F) (c : MouseAction F) → IsLawful d (mouse_step l d c).0
  unfolding mouse_step submit
  mouse_step-IsLawful l d (inputs c) =
      let event = event_of env c in
      if-cases (λ (r : (MouseDevice B O F × OperationStatus) × Logger). IsLawful d r.0)
        (is_ok (validate_mouse_event event)) {x = submit_valid env backend l d event}
        (λ _. submit_event-IsLawful _ _ _ d) (λ _. unchanged-IsLawful d _)
  mouse_step-IsLawful l d closes = close-IsLawful _ d
