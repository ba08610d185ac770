-- ===== src/Core/Adapter/Creation.antt =====
-- `GamepadStateAdapter::create` in gamepad_adapter.cpp, for a gamepad that the runtime made.
use libvirtualhid.Base.{◌≡◌, ◌⊎◌, inl, inr, refl, false, Option, none, some, if-cases, arith}
use libvirtualhid.Core.Status.{OperationStatus, success, is_ok}
use libvirtualhid.Core.Types.{GamepadState}
use libvirtualhid.Core.Device.{close}
use libvirtualhid.Core.Gamepad.{
  GamepadDevice, BackendGamepad, Reports, submit, submit-records, close_gamepad,
}
use libvirtualhid.Core.Adapter.{GamepadStateAdapter}
use libvirtualhid.Core.Adapter.Methods.{
  submit_to, submit_state, close_owned, close_adapter, new_adapter, create_adapter,
}
use libvirtualhid.Core.Adapter.Laws.{IsSubmitted}

module _ {B M F K : Type 0} (reports : Reports F) (backend : BackendGamepad B F K) where
  close_gamepad-closed :
      (g : GamepadDevice B M F K) → (close_gamepad reports backend g).0.is_open ≡ false
  unfolding close_gamepad close
  close_gamepad-closed g = ground arith

  abbrev pub Created :
      OperationStatus × Option (GamepadStateAdapter B M F K) × Option (GamepadDevice B M F K)
      → Type 0
  Created r =
      ((a : GamepadStateAdapter B M F K) × (r.0 ≡ success)
        × (r.1 ≡ some a)
        × IsSubmitted reports (a, success))
      ⊎ ((g : GamepadDevice B M F K) × (is_ok r.0 ≡ false)
          × (r.1 ≡ none)
          × (r.2 ≡ some g)
          × (g.is_open ≡ false))

  -- With a gamepad that was made, either there is an adapter and the gamepad accepted its state, or there
  -- is none, the status is a failure and the gamepad is closed.
  pub create_adapter-Created :
      (blank : GamepadState F) (g : GamepadDevice B M F K)
      → Created (create_adapter reports backend blank (success, some g))
  unfolding create_adapter new_adapter submit_state submit_to close_adapter close_owned
  create_adapter-Created blank g =
      let submitted = submit reports backend g blank in
      if-cases Created (is_ok submitted.1)
        (λ h. inl (_, refl, refl, (submitted.0, refl, submit-records reports backend g blank h)))
        (λ h. inr (_, h, refl, refl, close_gamepad-closed submitted.0))
