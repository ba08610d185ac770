-- ===== src/Core/Adapter/Guards.antt =====
-- What the methods of an adapter check first, and what a failed method leaves.
use Prim.Native.String.{String}
use libvirtualhid.Base.{
  Bool-cases, arith, ap, ◌∙◌, ◌⊎◌, inl, inr, ℕ, ◌≡◌, refl, Bool, true, false, Option, none, some,
  length, leb, if-cases,
}
use libvirtualhid.Core.Status.{is_ok}
use libvirtualhid.Core.Types.{GamepadTouchContact}
use libvirtualhid.Core.Gamepad.{
  GamepadDevice, GamepadMemory, BackendGamepad, Reports, submit-IsLawful,
}
use libvirtualhid.Core.Adapter.{GamepadStateAdapter}
use libvirtualhid.Core.Adapter.Methods.{
  AdapterCall, Result, guarded, submit_to, submit_state, set_state, press_button, set_left_stick,
  set_right_stick, set_left_trigger, set_right_trigger, set_acceleration, set_gyroscope, set_motion,
  clear_motion, set_battery, clear_battery, write_contact, set_touchpad_contact,
  clear_touchpad_contact, adapter_step,
}
use libvirtualhid.Core.Adapter.Laws.{has_feature}

module _ {B M F K : Type 0} where
  -- What the gamepad remembers, and the count of what it accepted.
  abbrev pub accepted : Option (GamepadDevice B M F K) → Option (GamepadMemory F K × ℕ)
  accepted none = none
  accepted (some g) = some (g.last, g.submitted)

  -- The gamepad's memory is as before, and so is all of the adapter, unless the gamepad has the feature.
  abbrev pub Keeps : GamepadStateAdapter B M F K → AdapterCall F → Result B M F K → Type 0
  Keeps a c r = (accepted r.0.gamepad ≡ accepted a.gamepad) × ((r.0 ≡ a) ⊎ (has_feature a c ≡ true))

  abbrev pub IsGuarded : GamepadStateAdapter B M F K → AdapterCall F → Result B M F K → Type 0
  IsGuarded a c r =
      ((is_ok r.1 ≡ true) × (has_feature a c ≡ true)) ⊎ ((is_ok r.1 ≡ false) × Keeps a c r)

  guarded-supported :
      (o : Option (GamepadDevice B M F K)) (supported : Bool) (message : String)
      (a : GamepadStateAdapter B M F K) (rest : Result B M F K)
      → is_ok (guarded o supported message a rest).1 ≡ true
      → supported ≡ true
  unfolding guarded
  guarded-supported none supported message a rest h = cc
  guarded-supported (some g) true message a rest h = refl
  guarded-supported (some g) false message a rest h = cc

  guarded-Keeps :
      (a : GamepadStateAdapter B M F K) (c : AdapterCall F) (o : Option (GamepadDevice B M F K))
      (supported : Bool) (message : String) (rest : Result B M F K)
      → (supported ≡ true → is_ok rest.1 ≡ false → Keeps a c rest)
      → is_ok (guarded o supported message a rest).1 ≡ false
      → Keeps a c (guarded o supported message a rest)
  unfolding guarded
  guarded-Keeps a c none supported message rest h f = (refl, inl refl)
  guarded-Keeps a c (some g) true message rest h f = h refl f
  guarded-Keeps a c (some g) false message rest h f = (refl, inl refl)

module _ {B M F K : Type 0} (reports : Reports F) (backend : BackendGamepad B F K) (zero : F) where
  submit_to-accepted :
      (o : Option (GamepadDevice B M F K)) (b : GamepadStateAdapter B M F K)
      → b.gamepad ≡ o
      → is_ok (submit_to reports backend o b).1 ≡ false
      → accepted (submit_to reports backend o b).0.gamepad ≡ accepted o
  unfolding submit_to
  submit_to-accepted none b e h = ap accepted e
  submit_to-accepted (some g) b e h =
      let kept = (submit-IsLawful reports backend g b.state).failed_unrecorded h in
      ap (λ (m : GamepadMemory F K × ℕ). some m) (ground (arith, kept.0, kept.1))

  -- A submission of an adapter with the same gamepad.
  submit_state-Keeps :
      (a b : GamepadStateAdapter B M F K) (c : AdapterCall F)
      → b.gamepad ≡ a.gamepad
      → has_feature a c ≡ true
      → is_ok (submit_state reports backend b).1 ≡ false
      → Keeps a c (submit_state reports backend b)
  unfolding submit_state
  submit_state-Keeps a b c e has h =
      (submit_to-accepted b.gamepad b refl h ∙ ap accepted e, inr has)

  write_contact-Keeps :
      (a : GamepadStateAdapter B M F K) (c : AdapterCall F) (i : ℕ)
      (contact : GamepadTouchContact F)
      → has_feature a c ≡ a.support.supports_touchpad
      → is_ok (write_contact reports backend a i contact).1 ≡ false
      → Keeps a c (write_contact reports backend a i contact)
  unfolding write_contact
  write_contact-Keeps a c i contact e = guarded-Keeps a c a.gamepad _ _ _ (λ has.
      if-cases (λ (r : Result B M F K). is_ok r.1 ≡ false → Keeps a c r)
        (leb (length a.state.touchpad_contacts) i) (λ _ _. (refl, inl refl))
        (λ _. submit_state-Keeps a _ c refl (e ∙ has)))

  adapter_step-Keeps :
      (a : GamepadStateAdapter B M F K) (c : AdapterCall F)
      → is_ok (adapter_step reports backend zero a c).1 ≡ false
      → Keeps a c (adapter_step reports backend zero a c)
  unfolding adapter_step set_state press_button set_left_stick set_right_stick set_left_trigger
      set_right_trigger set_acceleration set_gyroscope set_motion clear_motion set_battery
      clear_battery set_touchpad_contact clear_touchpad_contact
  adapter_step-Keeps a AdapterCall.submits = submit_state-Keeps a _ AdapterCall.submits refl refl
  adapter_step-Keeps a (AdapterCall.sets_state s) =
      submit_state-Keeps a _ (AdapterCall.sets_state s) refl refl
  adapter_step-Keeps a (AdapterCall.sets_left_stick s) =
      submit_state-Keeps a _ (AdapterCall.sets_left_stick s) refl refl
  adapter_step-Keeps a (AdapterCall.sets_right_stick s) =
      submit_state-Keeps a _ (AdapterCall.sets_right_stick s) refl refl
  adapter_step-Keeps a (AdapterCall.sets_left_trigger v) =
      submit_state-Keeps a _ (AdapterCall.sets_left_trigger v) refl refl
  adapter_step-Keeps a (AdapterCall.sets_right_trigger v) =
      submit_state-Keeps a _ (AdapterCall.sets_right_trigger v) refl refl
  adapter_step-Keeps a (AdapterCall.sets_button button pressed) =
      guarded-Keeps a (AdapterCall.sets_button button pressed) a.gamepad _ _ _
        (submit_state-Keeps a _ (AdapterCall.sets_button button pressed) refl)
  adapter_step-Keeps a (AdapterCall.sets_acceleration v) =
      guarded-Keeps a (AdapterCall.sets_acceleration v) a.gamepad _ _ _
        (submit_state-Keeps a _ (AdapterCall.sets_acceleration v) refl)
  adapter_step-Keeps a (AdapterCall.sets_gyroscope v) =
      guarded-Keeps a (AdapterCall.sets_gyroscope v) a.gamepad _ _ _
        (submit_state-Keeps a _ (AdapterCall.sets_gyroscope v) refl)
  adapter_step-Keeps a (AdapterCall.sets_motion v w) =
      guarded-Keeps a (AdapterCall.sets_motion v w) a.gamepad _ _ _
        (submit_state-Keeps a _ (AdapterCall.sets_motion v w) refl)
  adapter_step-Keeps a AdapterCall.clears_motion =
      guarded-Keeps a AdapterCall.clears_motion a.gamepad _ _ _
        (submit_state-Keeps a _ AdapterCall.clears_motion refl)
  adapter_step-Keeps a (AdapterCall.sets_battery b) =
      guarded-Keeps a (AdapterCall.sets_battery b) a.gamepad _ _ _
        (submit_state-Keeps a _ (AdapterCall.sets_battery b) refl)
  adapter_step-Keeps a AdapterCall.clears_battery =
      guarded-Keeps a AdapterCall.clears_battery a.gamepad _ _ _
        (submit_state-Keeps a _ AdapterCall.clears_battery refl)
  adapter_step-Keeps a (AdapterCall.sets_touchpad_contact i c) =
      write_contact-Keeps a (AdapterCall.sets_touchpad_contact i c) i _ refl
  adapter_step-Keeps a (AdapterCall.clears_touchpad_contact i) =
      write_contact-Keeps a (AdapterCall.clears_touchpad_contact i) i _ refl

  adapter_step-has_feature :
      (a : GamepadStateAdapter B M F K) (c : AdapterCall F)
      → is_ok (adapter_step reports backend zero a c).1 ≡ true
      → has_feature a c ≡ true
  unfolding adapter_step press_button set_acceleration set_gyroscope set_motion clear_motion
      set_battery clear_battery set_touchpad_contact clear_touchpad_contact write_contact
  adapter_step-has_feature a AdapterCall.submits h = refl
  adapter_step-has_feature a (AdapterCall.sets_state s) h = refl
  adapter_step-has_feature a (AdapterCall.sets_left_stick s) h = refl
  adapter_step-has_feature a (AdapterCall.sets_right_stick s) h = refl
  adapter_step-has_feature a (AdapterCall.sets_left_trigger v) h = refl
  adapter_step-has_feature a (AdapterCall.sets_right_trigger v) h = refl
  adapter_step-has_feature a (AdapterCall.sets_button button pressed) h =
      guarded-supported a.gamepad _ _ a _ h
  adapter_step-has_feature a (AdapterCall.sets_acceleration v) h =
      guarded-supported a.gamepad _ _ a _ h
  adapter_step-has_feature a (AdapterCall.sets_gyroscope v) h =
      guarded-supported a.gamepad _ _ a _ h
  adapter_step-has_feature a (AdapterCall.sets_motion v w) h = guarded-supported a.gamepad _ _ a _ h
  adapter_step-has_feature a AdapterCall.clears_motion h = guarded-supported a.gamepad _ _ a _ h
  adapter_step-has_feature a (AdapterCall.sets_battery b) h = guarded-supported a.gamepad _ _ a _ h
  adapter_step-has_feature a AdapterCall.clears_battery h = guarded-supported a.gamepad _ _ a _ h
  adapter_step-has_feature a (AdapterCall.sets_touchpad_contact i c) h =
      guarded-supported a.gamepad _ _ a _ h
  adapter_step-has_feature a (AdapterCall.clears_touchpad_contact i) h =
      guarded-supported a.gamepad _ _ a _ h

  -- Every method either succeeds, and then the gamepad has the button, sensor, battery or touchpad that the
  -- method is about, or fails. A method that fails leaves what the gamepad remembers, its last state and
  -- report, and the count of what it accepted; and it leaves all of the adapter, the adapter's own state
  -- included, unless the gamepad has what the method is about.
  pub adapter_step-IsGuarded :
      (a : GamepadStateAdapter B M F K) (c : AdapterCall F)
      → IsGuarded a c (adapter_step reports backend zero a c)
  adapter_step-IsGuarded a c = elim (Bool-cases (is_ok (adapter_step reports backend zero a c).1)) [
    | inl ok ↦ inl (ok, adapter_step-has_feature a c ok)
    | inr failed ↦ inr (failed, adapter_step-Keeps a c failed)
  ]
