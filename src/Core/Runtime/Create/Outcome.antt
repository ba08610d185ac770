-- ===== src/Core/Runtime/Create/Outcome.antt =====
-- What a creation does to the runtime.
use libvirtualhid.Base.{
  ℕ, ◌≡◌, refl, ap, inl, inr, ◌⊎◌, true, false, Option, none, some, List, [], ◌∷◌, ◌++◌, if-cases,
  Bool-cases, arith,
}
use libvirtualhid.Core.Status.{OperationStatus, success, is_ok}
use libvirtualhid.Core.Types.{DeviceType}
use libvirtualhid.Core.Logger.{Logger}
use libvirtualhid.Core.Options.{
  validate_gamepad_options, validate_keyboard_options, validate_touchscreen_options,
  validate_trackpad_options, validate_pen_tablet_options,
}
use libvirtualhid.Core.Options.Viewport.{validate_mouse_options}
use libvirtualhid.Core.Runtime.{Options, RuntimeState, registry, with_registry}
use libvirtualhid.Core.Runtime.Create.{
  Registered, Runtime, Creation, Backend, next_id, new_device, add_device, request, request_device,
  accepted, BackendCreationResult, BackendGamepadCreationResult, with_profile, log_creation,
  validate, create_gamepad, create_keyboard, create_mouse, create_touchscreen, create_trackpad,
  create_pen_tablet, create,
}

module _ {N : Type 0} {D : DeviceType → Type 0} where
  -- Another log, another state of the backend and another next id; the registries stay.
  abbrev pub advance : RuntimeState N D → Logger → N → ℕ → RuntimeState N D
  advance s l n i = record s { logger = l; backend = n; next_device_id = i }

module _ {M N : Type 0} {B L : DeviceType → Type 0} where
  -- No device: an id is used up, or else the backend is as it was.
  abbrev pub IsRefusal : Runtime M N B L → Creation (Runtime M N B L) → Type 0
  IsRefusal s r =
      (l : Logger) × (n : N) × (i : ℕ) × (((i ≡ s.next_device_id) × (n ≡ s.backend))
        ⊎ (i ≡ next_id s))
      × (r.0 ≡ advance s l n i)
      × (r.2 ≡ none)

  -- One more device at the end of the registry of type k: open, with the next id, which the handle has.
  abbrev pub IsAddition : (k : DeviceType) → Runtime M N B L → Creation (Runtime M N B L) → Type 0
  IsAddition k s r =
      (l : Logger) × (n : N) × (d : Registered M B L k) × (r.0
        ≡ with_registry k (registry k s ++ some d ∷ []) (advance s l n (next_id s)))
      × (d.id ≡ s.next_device_id)
      × (d.is_open ≡ true)
      × (r.1 ≡ success)
      × (r.2 ≡ some s.next_device_id)

  abbrev pub Outcome : (k : DeviceType) → Runtime M N B L → Creation (Runtime M N B L) → Type 0
  Outcome k s r = IsRefusal s r ⊎ IsAddition k s r

  registry-advance :
      (k : DeviceType) (s : Runtime M N B L) (l : Logger) (n : N) (i : ℕ)
      → registry k (advance s l n i) ≡ registry k s
  registry-advance DeviceType.gamepad s l n i = refl
  registry-advance DeviceType.keyboard s l n i = refl
  registry-advance DeviceType.mouse s l n i = refl
  registry-advance DeviceType.touchscreen s l n i = refl
  registry-advance DeviceType.trackpad s l n i = refl
  registry-advance DeviceType.pen_tablet s l n i = refl

  add_device-Outcome :
      (k : DeviceType) (blank : L k) (options : Options M k) (status : OperationStatus)
      (b : Option (B k)) (s : Runtime M N B L) (n : N)
      → Outcome k s
          (add_device k blank s.next_device_id options status b (advance s s.logger n (next_id s)))
  unfolding add_device new_device
  add_device-Outcome k blank options status none s n =
      inl (s.logger, n, next_id s, inr refl, refl, refl)
  add_device-Outcome k blank options status (some b) s n =
      let t = advance s s.logger n (next_id s) in
      let d = new_device s.next_device_id options b blank in
      if-cases (Outcome k s) (is_ok status)
        (λ _. inr (
          s.logger,
          n,
          d,
          ap (λ (r : List (Option (Registered M B L k))). with_registry k (r ++ some d ∷ []) t)
              (registry-advance k s s.logger n (next_id s)),
          refl,
          refl,
          refl,
          refl,
        ))
        (λ _. inl (s.logger, n, next_id s, inr refl, refl, refl))

  request-Outcome :
      (k : DeviceType) {R : Type 0} (blank : L k) (ask : N → ℕ → N × R)
      (status_of : R → OperationStatus) (device_of : R → Option (B k))
      (options_of : R → Options M k) (s : Runtime M N B L)
      → Outcome k s (request k blank ask status_of device_of options_of s)
  unfolding request
  request-Outcome k blank ask status_of device_of options_of s =
      let asked = ask s.backend s.next_device_id in
      add_device-Outcome k blank (options_of asked.1) (status_of asked.1) (device_of asked.1) s
        asked.0

  accepted-Outcome :
      (k : DeviceType) (validation : OperationStatus) (s : Runtime M N B L)
      (r : Creation (Runtime M N B L))
      → Outcome k s r
      → Outcome k s (accepted validation s r)
  unfolding accepted
  accepted-Outcome k validation s r h =
      if-cases (Outcome k s) (is_ok validation) (λ _. h)
        (λ _. inl (s.logger, s.backend, s.next_device_id, inl (refl, refl), refl, refl))

  request_device-Outcome :
      (k : DeviceType) (blank : L k) (ask : N → ℕ → Options M k → N × BackendCreationResult (B k))
      (options : Options M k) (s : Runtime M N B L)
      → Outcome k s (request_device k blank ask options s)
  unfolding request_device
  request_device-Outcome k blank ask options s =
      request-Outcome k {R = BackendCreationResult (B k)} blank (λ n id. ask n id options)
        (λ r. r.status) (λ r. r.device) (λ _. options) s

module _ {M N : Type 0} {B L : DeviceType → Type 0} (backend : Backend M N B L) where
  relog :
      {t u : Runtime M N B L}
      → t ≡ u
      → (l : Logger) → Path (Runtime M N B L) (record t { logger = l }) (record u { logger = l })
  relog e l = ap (λ (t : Runtime M N B L). record t { logger = l }) e

  log_creation-Outcome :
      (validation : OperationStatus) (s : Runtime M N B L) (r : Creation (Runtime M N B L))
      → Outcome DeviceType.mouse s r
      → Outcome DeviceType.mouse s (log_creation backend validation r)
  unfolding log_creation
  log_creation-Outcome validation s (t, status, none) (inl (l, n, i, c, e, h)) =
      if-cases (Outcome DeviceType.mouse s) (is_ok validation)
        (λ _. inl (_, n, i, c, relog e _, refl)) (λ _. inl (_, n, i, c, relog e _, refl))
  log_creation-Outcome validation s (t, status, some id) (inl (l, n, i, c, e, h)) = cc
  log_creation-Outcome validation s (t, status, none) (inr (l, n, d, e, i, o, c, h)) = cc
  log_creation-Outcome validation s (t, status, some id) (inr (l, n, d, e, i, o, c, h)) =
      inr (_, n, d, relog e _, i, o, c, h)

  -- A creation of any type refuses or adds.
  pub create-Outcome :
      (k : DeviceType) (options : Options M k) (s : Runtime M N B L)
      → Outcome k s (create backend k options s)
  unfolding create create_gamepad create_keyboard create_mouse create_touchscreen create_trackpad
      create_pen_tablet
  create-Outcome DeviceType.gamepad options s =
      accepted-Outcome DeviceType.gamepad (validate_gamepad_options options) s _ (
        request-Outcome DeviceType.gamepad {R = BackendGamepadCreationResult (B DeviceType.gamepad)}
          (backend.blank DeviceType.gamepad) (λ n id. backend.create_gamepad n id options)
          (λ r. r.status) (λ r. r.gamepad) (λ r. with_profile options r.effective_profile) s)
  create-Outcome DeviceType.keyboard options s =
      accepted-Outcome DeviceType.keyboard (validate_keyboard_options options) s _ (
        request_device-Outcome DeviceType.keyboard (backend.blank DeviceType.keyboard)
          backend.create_keyboard options s)
  create-Outcome DeviceType.mouse options s =
      log_creation-Outcome (validate_mouse_options options) s _ (
        accepted-Outcome DeviceType.mouse (validate_mouse_options options) s _ (
          request_device-Outcome DeviceType.mouse (backend.blank DeviceType.mouse)
            backend.create_mouse options s))
  create-Outcome DeviceType.touchscreen options s =
      accepted-Outcome DeviceType.touchscreen (validate_touchscreen_options options) s _ (
        request_device-Outcome DeviceType.touchscreen (backend.blank DeviceType.touchscreen)
          backend.create_touchscreen options s)
  create-Outcome DeviceType.trackpad options s =
      accepted-Outcome DeviceType.trackpad (validate_trackpad_options options) s _ (
        request_device-Outcome DeviceType.trackpad (backend.blank DeviceType.trackpad)
          backend.create_trackpad options s)
  create-Outcome DeviceType.pen_tablet options s =
      accepted-Outcome DeviceType.pen_tablet (validate_pen_tablet_options options) s _ (
        request_device-Outcome DeviceType.pen_tablet (backend.blank DeviceType.pen_tablet)
          backend.create_pen_tablet options s)

  -- Only the log changes, and the status is that of the check.
  abbrev pub IsRejected :
      (k : DeviceType) → Options M k → Runtime M N B L → Creation (Runtime M N B L) → Type 0
  IsRejected k options s r =
      (r.0 ≡ advance s r.0.logger s.backend s.next_device_id)
      × (r.1 ≡ validate backend k options)
      × (r.2 ≡ none)

  create-IsRejected :
      (k : DeviceType) (options : Options M k) (s : Runtime M N B L)
      → is_ok (validate backend k options) ≡ false
      → IsRejected k options s (create backend k options s)
  unfolding create create_gamepad create_keyboard create_mouse create_touchscreen create_trackpad
      create_pen_tablet validate accepted log_creation
  create-IsRejected DeviceType.gamepad options s h = rw (h) (refl, refl, refl)
  create-IsRejected DeviceType.keyboard options s h = rw (h) (refl, refl, refl)
  create-IsRejected DeviceType.mouse options s h = ground arith
  create-IsRejected DeviceType.touchscreen options s h = rw (h) (refl, refl, refl)
  create-IsRejected DeviceType.trackpad options s h = rw (h) (refl, refl, refl)
  create-IsRejected DeviceType.pen_tablet options s h = rw (h) (refl, refl, refl)

  -- What a creation of any type comes to. Either one open device joins the end of the registry of its type,
  -- with the next id, which is then used up, the status is success and the handle is for that id; or no
  -- registry changes, there is no handle, and an id is used up or the backend stays as it is. Besides,
  -- either the options are valid, or only the log changes and the status is that of the check.
  pub create-IsDecided :
      (k : DeviceType) (options : Options M k) (s : Runtime M N B L)
      → Outcome k s (create backend k options s)
        × ((is_ok (validate backend k options) ≡ true)
            ⊎ IsRejected k options s (create backend k options s))
  create-IsDecided k options s = (
    create-Outcome k options s,
    elim (Bool-cases (is_ok (validate backend k options))) [
      | inl valid ↦ inl valid
      | inr invalid ↦ inr (create-IsRejected k options s invalid)
    ],
  )
