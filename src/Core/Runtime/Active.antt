-- ===== src/Core/Runtime/Active.antt =====
-- `active_device_count` and `close_all` of `Runtime` in runtime.cpp.
use libvirtualhid.Base.{
  ℕ, ◌+◌, ◌≡◌, ap, ◌∙◌, ◌⊎◌, inl, inr, true, Option, none, some, List, [], ◌∷◌, ◌++◌, arith,
}
use libvirtualhid.Core.Status.{OperationStatus, success}
use libvirtualhid.Core.Types.{DeviceType}
use libvirtualhid.Core.Logger.{Logger}
use libvirtualhid.Core.Runtime.{Options, RuntimeState, registry, with_registry}
use libvirtualhid.Core.Runtime.Registry.{
  count_open_devices, count_open_devices-append, close_devices, count_open-close_devices,
}
use libvirtualhid.Core.Runtime.Create.{Registered, Runtime, Creation, Backend, next_id, create}
use libvirtualhid.Core.Runtime.Create.Outcome.{advance, Outcome, create-Outcome}

module _ {N : Type 0} {D : DeviceType → Type 0}
    (m : (k : DeviceType) → List (Option (D k)) → ℕ) where
  -- A number that each registry contributes to.
  abbrev pub total : RuntimeState N D → ℕ
  total s =
      m DeviceType.gamepad s.gamepads
      + m DeviceType.keyboard s.keyboards
      + m DeviceType.mouse s.mice
      + m DeviceType.touchscreen s.touchscreens
      + m DeviceType.trackpad s.trackpads
      + m DeviceType.pen_tablet s.pen_tablets

  pub total-with_registry :
      (k : DeviceType) (r : List (Option (D k))) (s : RuntimeState N D) (l : Logger) (n : N) (i : ℕ)
      → total (with_registry k r (advance s l n i)) + m k (registry k s) ≡ total s + m k r
  total-with_registry DeviceType.gamepad r s l n i = omega arith
  total-with_registry DeviceType.keyboard r s l n i = omega arith
  total-with_registry DeviceType.mouse r s l n i = omega arith
  total-with_registry DeviceType.touchscreen r s l n i = omega arith
  total-with_registry DeviceType.trackpad r s l n i = omega arith
  total-with_registry DeviceType.pen_tablet r s l n i = omega arith

module _ {M N : Type 0} {B L : DeviceType → Type 0} where
  pub active_device_count : Runtime M N B L → ℕ
  active_device_count s = total (λ k ds. count_open_devices ds) s

  unfoldable pub close_all :
      ((k : DeviceType) → B k → B k × OperationStatus) → Runtime M N B L → Runtime M N B L
  close_all close s = record s {
    gamepads = close_devices (close DeviceType.gamepad) s.gamepads;
    keyboards = close_devices (close DeviceType.keyboard) s.keyboards;
    mice = close_devices (close DeviceType.mouse) s.mice;
    touchscreens = close_devices (close DeviceType.touchscreen) s.touchscreens;
    trackpads = close_devices (close DeviceType.trackpad) s.trackpads;
    pen_tablets = close_devices (close DeviceType.pen_tablet) s.pen_tablets;
  }

  -- After `close_all` no device is open, whatever the backends answer.
  pub active_device_count-close_all :
      (close : (k : DeviceType) → B k → B k × OperationStatus) (s : Runtime M N B L)
      → active_device_count (close_all close s) ≡ 0
  unfolding active_device_count close_all
  active_device_count-close_all close s = omega (
    arith,
    count_open-close_devices (close DeviceType.gamepad) s.gamepads,
    count_open-close_devices (close DeviceType.keyboard) s.keyboards,
    count_open-close_devices (close DeviceType.mouse) s.mice,
    count_open-close_devices (close DeviceType.touchscreen) s.touchscreens,
    count_open-close_devices (close DeviceType.trackpad) s.trackpads,
    count_open-close_devices (close DeviceType.pen_tablet) s.pen_tablets,
  )

  active_device_count-append :
      (k : DeviceType) (s : Runtime M N B L) (l : Logger) (n : N) (i : ℕ) (d : Registered M B L k)
      → d.is_open ≡ true
      → active_device_count (with_registry k (registry k s ++ some d ∷ []) (advance s l n i))
        ≡ active_device_count s + 1
  unfolding active_device_count
  active_device_count-append k s l n i d o = ground (
    arith,
    count_open_devices-append (registry k s) d,
    total-with_registry (λ k ds. count_open_devices ds) k (registry k s ++ some d ∷ []) s l n i,
  )

  active_device_count-Outcome :
      (k : DeviceType) (s : Runtime M N B L) (r : Creation (Runtime M N B L))
      → Outcome k s r
      → ((r.2 ≡ none) × (active_device_count r.0 ≡ active_device_count s))
        ⊎ ((r.2 ≡ some s.next_device_id)
            × (r.1 ≡ success)
            × (active_device_count r.0 ≡ active_device_count s + 1))
  unfolding active_device_count
  active_device_count-Outcome k s r (inl (l, n, i, c, e, h)) = inl (h, ap active_device_count e)
  active_device_count-Outcome k s r (inr (l, n, d, e, i, o, c, h)) =
      inr (h, c, ap active_device_count e ∙ active_device_count-append k s l n (next_id s) d o)

  -- A creation that gives a handle succeeds and makes the number of open devices one larger; a creation
  -- that gives none leaves the number.
  pub active_device_count-create :
      (backend : Backend M N B L) (k : DeviceType) (options : Options M k) (s : Runtime M N B L)
      → (((create backend k options s).2 ≡ none)
          × (active_device_count (create backend k options s).0 ≡ active_device_count s))
        ⊎ (((create backend k options s).2 ≡ some s.next_device_id)
            × ((create backend k options s).1 ≡ success)
            × (active_device_count (create backend k options s).0 ≡ active_device_count s + 1))
  active_device_count-create backend k options s =
      active_device_count-Outcome k s (create backend k options s)
        (create-Outcome backend k options s)
