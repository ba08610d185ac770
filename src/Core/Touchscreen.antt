-- ===== src/Core/Touchscreen.antt =====
-- `Touchscreen` of runtime.cpp.
use libvirtualhid.Base.Int.{ℤ}
use libvirtualhid.Core.Status.{OperationStatus}
use libvirtualhid.Core.Types.{TouchContact, PointerTransition}
use libvirtualhid.Core.Device.{close, submit_event, validated}
use libvirtualhid.Core.Device.Laws.{
  IsLawful, validated-IsLawful, close-IsLawful, submit_event-IsLawful,
}
use libvirtualhid.Core.Touch.{validate_contact_id, validate_touch_contact, TouchDevice}

pub record BackendTouchscreen (B F : Type 0) : Type 0 where
  pub place_contact : B → TouchContact F → B × OperationStatus
  pub release_contact : B → ℤ → PointerTransition → B × OperationStatus
  pub close : B → B × OperationStatus

pub data TouchscreenCall (F : Type 0) : Type 0 where
  places : TouchContact F → TouchscreenCall F
  releases cancels leaves : ℤ → TouchscreenCall F
  closes : TouchscreenCall F

module _ {B O F : Type 0} (backend : BackendTouchscreen B F) where
  pub place_contact : TouchDevice B O F → TouchContact F → TouchDevice B O F × OperationStatus
  place_contact d contact =
      validated (validate_touch_contact contact) d (
        submit_event "touchscreen is closed" (λ b. backend.place_contact b contact) (λ _. contact)
          d)

  end_contact : TouchDevice B O F → ℤ → PointerTransition → TouchDevice B O F × OperationStatus
  end_contact d id transition = validated (validate_contact_id id) d (
      submit_event "touchscreen is closed" (λ b. backend.release_contact b id transition)
        (λ l. record l { id = id }) d)

  pub release_contact : TouchDevice B O F → ℤ → TouchDevice B O F × OperationStatus
  unfolding end_contact
  release_contact d id = end_contact d id PointerTransition.release

  pub cancel_contact : TouchDevice B O F → ℤ → TouchDevice B O F × OperationStatus
  unfolding end_contact
  cancel_contact d id = end_contact d id PointerTransition.cancel

  pub leave_contact : TouchDevice B O F → ℤ → TouchDevice B O F × OperationStatus
  unfolding end_contact
  leave_contact d id = end_contact d id PointerTransition.leave

  pub touchscreen_step : TouchDevice B O F → TouchscreenCall F → TouchDevice B O F × OperationStatus
  touchscreen_step d (places contact) = place_contact d contact
  touchscreen_step d (releases id) = release_contact d id
  touchscreen_step d (cancels id) = cancel_contact d id
  touchscreen_step d (leaves id) = leave_contact d id
  touchscreen_step d closes = close backend.close d

  end_contact-IsLawful :
      (d : TouchDevice B O F) (id : ℤ) (t : PointerTransition) → IsLawful d (end_contact d id t)
  unfolding end_contact
  end_contact-IsLawful d id t = validated-IsLawful _ d _ (submit_event-IsLawful _ _ _ d)

  -- Each method of a touchscreen keeps its id and options, leaves a closed touchscreen
  -- exactly as it is, backend included, and leaves what the touchscreen remembers and the count if it fails; the
  -- count stays or, modulo 2^64, grows by one.
  pub touchscreen_step-IsLawful :
      (d : TouchDevice B O F) (c : TouchscreenCall F) → IsLawful d (touchscreen_step d c)
  unfolding touchscreen_step place_contact release_contact cancel_contact leave_contact
  touchscreen_step-IsLawful d (places contact) =
      validated-IsLawful _ d _ (submit_event-IsLawful _ _ _ d)
  touchscreen_step-IsLawful d (releases id) = end_contact-IsLawful d id PointerTransition.release
  touchscreen_step-IsLawful d (cancels id) = end_contact-IsLawful d id PointerTransition.cancel
  touchscreen_step-IsLawful d (leaves id) = end_contact-IsLawful d id PointerTransition.leave
  touchscreen_step-IsLawful d closes = close-IsLawful _ d
