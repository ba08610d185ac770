-- ===== src/Core/Pen.antt =====
-- `PenTablet` of runtime.cpp. `T` is the state of a pen tool.
use libvirtualhid.Base.{Bool}
use libvirtualhid.Core.Status.{OperationStatus}
use libvirtualhid.Core.Types.{PenButton}
use libvirtualhid.Core.Device.{Device, close, submit_event}
use libvirtualhid.Core.Device.Laws.{IsLawful, close-IsLawful, submit_event-IsLawful}

pub record BackendPenTablet (B T : Type 0) : Type 0 where
  pub place_tool : B → T → B × OperationStatus
  pub button : B → PenButton → Bool → B × OperationStatus
  pub close : B → B × OperationStatus

pub data PenCall (T : Type 0) : Type 0 where
  places : T → PenCall T
  clicks : PenButton → Bool → PenCall T
  closes : PenCall T

module _ {B O T : Type 0} (backend : BackendPenTablet B T) where
  pub place_tool : Device B O T → T → Device B O T × OperationStatus
  place_tool d state =
      submit_event "pen tablet is closed" (λ b. backend.place_tool b state) (λ _. state) d

  pub pen_button : Device B O T → PenButton → Bool → Device B O T × OperationStatus
  pen_button d button pressed =
      submit_event "pen tablet is closed" (λ b. backend.button b button pressed) (λ l. l) d

  pub pen_tablet_step : Device B O T → PenCall T → Device B O T × OperationStatus
  pen_tablet_step d (places state) = place_tool d state
  pen_tablet_step d (clicks button pressed) = pen_button d button pressed
  pen_tablet_step d closes = close backend.close d

  -- Each method of a pen tablet keeps its id and options, leaves a closed pen tablet
  -- exactly as it is, backend included, and leaves what the pen tablet remembers and the count if it fails; the
  -- count stays or, modulo 2^64, grows by one.
  pub pen_tablet_step-IsLawful :
      (d : Device B O T) (c : PenCall T) → IsLawful d (pen_tablet_step d c)
  unfolding pen_tablet_step place_tool pen_button
  pen_tablet_step-IsLawful d (places state) = submit_event-IsLawful _ _ _ d
  pen_tablet_step-IsLawful d (clicks button pressed) = submit_event-IsLawful _ _ _ d
  pen_tablet_step-IsLawful d closes = close-IsLawful _ d
