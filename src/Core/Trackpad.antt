-- ===== src/Core/Trackpad.antt =====
-- `Trackpad` of runtime.cpp.
use libvirtualhid.Base.{Bool}
use libvirtualhid.Base.Int.{ℤ}
use libvirtualhid.Core.Status.{OperationStatus}
use libvirtualhid.Core.Types.{TouchContact, PointerTransition}
use libvirtualhid.Core.Device.{close, submit_event, validated}
use libvirtualhid.Core.Device.Laws.{
  IsLawful, validated-IsLawful, close-IsLawful, submit_event-IsLawful,
}
use libvirtualhid.Core.Touch.{validate_contact_id, validate_touch_contact, TouchDevice}

pub record BackendTrackpad (B F : Type 0) : Type 0 where
  pub place_contact : B → TouchContact F → B × OperationStatus
  pub release_contact : B → ℤ → PointerTransition → B × OperationStatus
  pub button : B → Bool → B × OperationStatus
  pub close : B → B × OperationStatus

pub data TrackpadCall (F : Type 0) : Type 0 where
  places : TouchContact F → TrackpadCall F
  releases : ℤ → TrackpadCall F
  clicks : Bool → TrackpadCall F
  closes : TrackpadCall F

module _ {B O F : Type 0} (backend : BackendTrackpad B F) where
  pub place_contact : TouchDevice B O F → TouchContact F → TouchDevice B O F × OperationStatus
  place_contact d contact =
      validated (validate_touch_contact contact) d
        (submit_event "trackpad is closed" (λ b. backend.place_contact b contact) (λ _. contact) d)

  pub release_contact : TouchDevice B O F → ℤ → TouchDevice B O F × OperationStatus
  release_contact d id = validated (validate_contact_id id) d (
      submit_event "trackpad is closed"
        (λ b. backend.release_contact b id PointerTransition.release) (λ l. record l { id = id }) d)

  pub button : TouchDevice B O F → Bool → TouchDevice B O F × OperationStatus
  button d pressed = submit_event "trackpad is closed" (λ b. backend.button b pressed) (λ l. l) d

  pub trackpad_step : TouchDevice B O F → TrackpadCall F → TouchDevice B O F × OperationStatus
  trackpad_step d (places contact) = place_contact d contact
  trackpad_step d (releases id) = release_contact d id
  trackpad_step d (clicks pressed) = button d pressed
  trackpad_step d closes = close backend.close d

  -- Each method of a trackpad keeps its id and options, leaves a closed trackpad
  -- exactly as it is, backend included, and leaves what the trackpad remembers and the count if it fails; the
  -- count stays or, modulo 2^64, grows by one.
  pub trackpad_step-IsLawful :
      (d : TouchDevice B O F) (c : TrackpadCall F) → IsLawful d (trackpad_step d c)
  unfolding trackpad_step place_contact release_contact button
  trackpad_step-IsLawful d (places contact) =
      validated-IsLawful _ d _ (submit_event-IsLawful _ _ _ d)
  trackpad_step-IsLawful d (releases id) = validated-IsLawful _ d _ (submit_event-IsLawful _ _ _ d)
  trackpad_step-IsLawful d (clicks pressed) = submit_event-IsLawful _ _ _ d
  trackpad_step-IsLawful d closes = close-IsLawful _ d
