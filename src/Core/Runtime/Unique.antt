-- ===== src/Core/Runtime/Unique.antt =====
-- The ids of the devices of a runtime, over any sequence of calls. `C k` is what the methods of a
-- device of type k are called with, and `method` is any of them; each keeps the id.
use libvirtualhid.Base.{
  ℕ, ◌+◌, ◌≤◌, ◌<◌, ◌≡◌, ◌==◌, refl, subst, sym, inl, inr, Option, some, List, [], ◌∷◌, ◌++◌,
  if◌then◌else◌, arith,
}
use libvirtualhid.Core.Status.{OperationStatus}
use libvirtualhid.Core.Types.{DeviceType}
use libvirtualhid.Core.Logger.{Logger}
use libvirtualhid.Core.Runtime.{registry, with_registry}
use libvirtualhid.Core.Runtime.Registry.{count_id, count_id-append, count_id-close_devices}
use libvirtualhid.Core.Runtime.Create.{Registered, Runtime, Creation, next_id}
use libvirtualhid.Core.Runtime.Create.Outcome.{advance, Outcome}
use libvirtualhid.Core.Runtime.Active.{total, total-with_registry, close_all}

module _ {M N : Type 0} {B L : DeviceType → Type 0} where
  -- How many of the runtime's devices have the id n.
  unfoldable pub devices_with : ℕ → Runtime M N B L → ℕ
  devices_with n s = total (λ k ds. count_id n ds) s

  -- No two devices share an id, and the next id and those after it are free.
  abbrev pub IsUnique : Runtime M N B L → Type 0
  IsUnique s = (n : ℕ) → (devices_with n s ≤ 1) × (s.next_device_id ≤ n → devices_with n s ≡ 0)

  devices_with-append :
      (n : ℕ) (k : DeviceType) (s : Runtime M N B L) (l : Logger) (b : N) (i : ℕ)
      (d : Registered M B L k)
      → devices_with n (with_registry k (registry k s ++ some d ∷ []) (advance s l b i))
        ≡ devices_with n s + (if d.id == n then 1 else 0)
  unfolding devices_with
  devices_with-append n k s l b i d = ground (
    arith,
    count_id-append n (registry k s) d,
    total-with_registry (λ k ds. count_id n ds) k (registry k s ++ some d ∷ []) s l b i,
  )

  pub next-with_registry :
      (k : DeviceType) (r : List (Option (Registered M B L k))) (s : Runtime M N B L)
      → (with_registry k r s).next_device_id ≡ s.next_device_id
  next-with_registry DeviceType.gamepad r s = refl
  next-with_registry DeviceType.keyboard r s = refl
  next-with_registry DeviceType.mouse r s = refl
  next-with_registry DeviceType.touchscreen r s = refl
  next-with_registry DeviceType.trackpad r s = refl
  next-with_registry DeviceType.pen_tablet r s = refl

  pub Outcome-IsUnique :
      (k : DeviceType) (s : Runtime M N B L) (r : Creation (Runtime M N B L))
      → Outcome k s r
      → s.next_device_id + 1 < 18446744073709551616
      → IsUnique s
      → IsUnique r.0 × (r.0.next_device_id ≤ s.next_device_id + 1)
  unfolding devices_with
  Outcome-IsUnique k s r (inl (l, b, i, c, e, h)) bound unique =
      subst (λ t. IsUnique t × (t.next_device_id ≤ s.next_device_id + 1)) (sym e)
        (λ n. ((unique n).0, λ le. (unique n).1 (ground arith)), ground arith)
  Outcome-IsUnique k s r (inr (l, b, d, e, i, o, c, h)) bound unique =
      subst (λ t. IsUnique t × (t.next_device_id ≤ s.next_device_id + 1)) (sym e)
        (ground (
          arith,
          unique,
          devices_with-append _ k s l b (next_id s) d,
          next-with_registry k (registry k s ++ some d ∷ []) (advance s l b (next_id s)),
        ))

  devices_with-with_registry :
      (n : ℕ) (k : DeviceType) (r : List (Option (Registered M B L k))) (s : Runtime M N B L)
      → devices_with n (with_registry k r s) + count_id n (registry k s)
        ≡ devices_with n s + count_id n r
  unfolding devices_with
  devices_with-with_registry n k r s =
      total-with_registry (λ k ds. count_id n ds) k r s s.logger s.backend s.next_device_id

  -- A registry with no more devices of any id.
  pub with_registry-IsUnique :
      (k : DeviceType) (r : List (Option (Registered M B L k))) (s : Runtime M N B L)
      → ((n : ℕ) → count_id n r ≤ count_id n (registry k s))
      → IsUnique s
      → IsUnique (with_registry k r s)
  with_registry-IsUnique k r s fewer unique n =
      ground
        (arith, unique n, fewer n, next-with_registry k r s, devices_with-with_registry n k r s)

  pub close_all-IsUnique :
      (close : (k : DeviceType) → B k → B k × OperationStatus) (s : Runtime M N B L)
      → IsUnique s
      → IsUnique (close_all close s)
  unfolding devices_with close_all
  close_all-IsUnique close s unique n = ground (
    arith,
    unique n,
    count_id-close_devices n (close DeviceType.gamepad) s.gamepads,
    count_id-close_devices n (close DeviceType.keyboard) s.keyboards,
    count_id-close_devices n (close DeviceType.mouse) s.mice,
    count_id-close_devices n (close DeviceType.touchscreen) s.touchscreens,
    count_id-close_devices n (close DeviceType.trackpad) s.trackpads,
    count_id-close_devices n (close DeviceType.pen_tablet) s.pen_tablets,
  )
