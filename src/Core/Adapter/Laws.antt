-- ===== src/Core/Adapter/Laws.antt =====
-- What the methods of an adapter do, over all of them.
use Prim.Native.String.{String}
use libvirtualhid.Base.{ℕ, ◌≡◌, refl, Bool, true, Option, none, some, length, leb, if-cases}
use libvirtualhid.Core.Status.{is_ok}
use libvirtualhid.Core.Types.{GamepadTouchContact}
use libvirtualhid.Core.Gamepad.{GamepadDevice, BackendGamepad, Reports, submit, submit-records}
use libvirtualhid.Core.Adapter.{GamepadStateAdapter, missing_gamepad, unsupported_feature}
use libvirtualhid.Core.Adapter.Methods.{
  AdapterCall, Result, guarded, button_supported, submit_to, submit_state, set_state, press_button,
  set_left_stick, set_right_stick, set_left_trigger, set_right_trigger, set_acceleration,
  set_gyroscope, set_motion, clear_motion, set_battery, clear_battery, write_contact,
  set_touchpad_contact, clear_touchpad_contact, adapter_step,
}

module _ {B M F K : Type 0} where
  -- Whether the gamepad has what a call is about.
  abbrev pub has_feature : GamepadStateAdapter B M F K → AdapterCall F → Bool
  has_feature a (AdapterCall.sets_button button pressed) = button_supported a.gamepad button
  has_feature a (AdapterCall.sets_acceleration v) = a.support.supports_motion
  has_feature a (AdapterCall.sets_gyroscope v) = a.support.supports_motion
  has_feature a (AdapterCall.sets_motion v w) = a.support.supports_motion
  has_feature a AdapterCall.clears_motion = a.support.supports_motion
  has_feature a (AdapterCall.sets_battery battery) = a.support.supports_battery
  has_feature a AdapterCall.clears_battery = a.support.supports_battery
  has_feature a (AdapterCall.sets_touchpad_contact i c) = a.support.supports_touchpad
  has_feature a (AdapterCall.clears_touchpad_contact i) = a.support.supports_touchpad
  has_feature a _ = true

  -- The last state that the gamepad accepted is the adapter's, normalized.
  abbrev pub IsSubmitted : Reports F → Result B M F K → Type 0
  IsSubmitted reports r =
      (g : GamepadDevice B M F K) × (r.0.gamepad ≡ some g)
      × (g.last.last_state ≡ reports.normalize_state r.0.state)

  guarded-cases {κ} :
      (P : Result B M F K → Type κ) (o : Option (GamepadDevice B M F K)) (supported : Bool)
      (message : String) (a : GamepadStateAdapter B M F K) (rest : Result B M F K)
      → P (a, missing_gamepad)
      → P (a, unsupported_feature message)
      → P rest
      → P (guarded o supported message a rest)
  unfolding guarded
  guarded-cases P none supported message a rest m u h = m
  guarded-cases P (some g) supported message a rest m u h = if-cases P supported (λ _. h) (λ _. u)

module _ {B M F K : Type 0} (reports : Reports F) (backend : BackendGamepad B F K) (zero : F) where
  submit_to-IsSubmitted :
      (o : Option (GamepadDevice B M F K)) (a : GamepadStateAdapter B M F K)
      → is_ok (submit_to reports backend o a).1 ≡ true
      → IsSubmitted reports (submit_to reports backend o a)
  unfolding submit_to
  submit_to-IsSubmitted none a h = cc
  submit_to-IsSubmitted (some g) a h =
      ((submit reports backend g a.state).0, refl, submit-records reports backend g a.state h)

  submit_state-IsSubmitted :
      (a : GamepadStateAdapter B M F K)
      → is_ok (submit_state reports backend a).1 ≡ true
      → IsSubmitted reports (submit_state reports backend a)
  unfolding submit_state
  submit_state-IsSubmitted a h = submit_to-IsSubmitted a.gamepad a h

  guarded-IsSubmitted :
      (o : Option (GamepadDevice B M F K)) (supported : Bool) (message : String)
      (a b : GamepadStateAdapter B M F K)
      → is_ok (guarded o supported message a (submit_state reports backend b)).1 ≡ true
      → IsSubmitted reports (guarded o supported message a (submit_state reports backend b))
  guarded-IsSubmitted o supported message a b =
      guarded-cases (λ (r : Result B M F K). is_ok r.1 ≡ true → IsSubmitted reports r) o supported
        message a (submit_state reports backend b) (λ h. cc) (λ h. cc) (submit_state-IsSubmitted b)

  write_contact-IsSubmitted :
      (a : GamepadStateAdapter B M F K) (i : ℕ) (c : GamepadTouchContact F)
      → is_ok (write_contact reports backend a i c).1 ≡ true
      → IsSubmitted reports (write_contact reports backend a i c)
  unfolding write_contact
  write_contact-IsSubmitted a i c =
      let P = λ (r : Result B M F K). is_ok r.1 ≡ true → IsSubmitted reports r in
      guarded-cases P _ _ _ a _ (λ h. cc) (λ h. cc)
        (if-cases P (leb (length a.state.touchpad_contacts) i) (λ _ h. cc)
          (λ _. submit_state-IsSubmitted _))

  -- A method that succeeds has submitted the whole of the adapter's state: the gamepad is there and
  -- the last state that it accepted is the adapter's, normalized.
  pub adapter_step-IsSubmitted :
      (a : GamepadStateAdapter B M F K) (c : AdapterCall F)
      → is_ok (adapter_step reports backend zero a c).1 ≡ true
      → IsSubmitted reports (adapter_step reports backend zero a c)
  unfolding adapter_step set_state press_button set_left_stick set_right_stick set_left_trigger
      set_right_trigger set_acceleration set_gyroscope set_motion clear_motion set_battery
      clear_battery set_touchpad_contact clear_touchpad_contact
  adapter_step-IsSubmitted a AdapterCall.submits = submit_state-IsSubmitted _
  adapter_step-IsSubmitted a (AdapterCall.sets_state s) = submit_state-IsSubmitted _
  adapter_step-IsSubmitted a (AdapterCall.sets_button button pressed) =
      guarded-IsSubmitted a.gamepad _ _ a _
  adapter_step-IsSubmitted a (AdapterCall.sets_left_stick s) = submit_state-IsSubmitted _
  adapter_step-IsSubmitted a (AdapterCall.sets_right_stick s) = submit_state-IsSubmitted _
  adapter_step-IsSubmitted a (AdapterCall.sets_left_trigger v) = submit_state-IsSubmitted _
  adapter_step-IsSubmitted a (AdapterCall.sets_right_trigger v) = submit_state-IsSubmitted _
  adapter_step-IsSubmitted a (AdapterCall.sets_acceleration v) =
      guarded-IsSubmitted a.gamepad _ _ a _
  adapter_step-IsSubmitted a (AdapterCall.sets_gyroscope v) = guarded-IsSubmitted a.gamepad _ _ a _
  adapter_step-IsSubmitted a (AdapterCall.sets_motion v w) = guarded-IsSubmitted a.gamepad _ _ a _
  adapter_step-IsSubmitted a AdapterCall.clears_motion = guarded-IsSubmitted a.gamepad _ _ a _
  adapter_step-IsSubmitted a (AdapterCall.sets_battery b) = guarded-IsSubmitted a.gamepad _ _ a _
  adapter_step-IsSubmitted a AdapterCall.clears_battery = guarded-IsSubmitted a.gamepad _ _ a _
  adapter_step-IsSubmitted a (AdapterCall.sets_touchpad_contact i c) =
      write_contact-IsSubmitted a i _
  adapter_step-IsSubmitted a (AdapterCall.clears_touchpad_contact i) =
      write_contact-IsSubmitted a i _
