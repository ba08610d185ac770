-- ===== src/Core/Runtime/Registry.antt =====
-- The operations of runtime.cpp on a list of weak pointers to devices of one type, and how they act on
-- the devices of an id and on the number of open devices.
use libvirtualhid.Base.{
  ℕ, zero, suc, ◌+◌, ◌≤◌, ◌≡◌, refl, ◌==◌, false, Option, none, some, List, [], ◌∷◌, ◌++◌,
  if◌then◌else◌, arith,
}
use libvirtualhid.Core.Status.{OperationStatus}
use libvirtualhid.Core.Device.{Device, call_backend}

module _ {B O L : Type 0} where
  pub count_open_devices : List (Option (Device B O L)) → ℕ
  count_open_devices [] = 0
  count_open_devices (none ∷ ds) = count_open_devices ds
  count_open_devices (some d ∷ ds) =
      let rest = count_open_devices ds in if d.is_open then rest + 1 else rest

  -- The backend's object is closed whether or not the device is open.
  pub close_device : (B → B × OperationStatus) → Device B O L → Device B O L
  unfolding call_backend
  close_device close_backend d = record d {
    backend = (call_backend d.backend close_backend).0;
    is_open = false;
  }

  pub close_devices :
      (B → B × OperationStatus) → List (Option (Device B O L)) → List (Option (Device B O L))
  unfolding close_device
  close_devices close_backend [] = []
  close_devices close_backend (none ∷ ds) = none ∷ close_devices close_backend ds
  close_devices close_backend (some d ∷ ds) =
      some (close_device close_backend d) ∷ close_devices close_backend ds

  -- A method of the device at an index, and the end of its handle.
  pub update :
      List (Option (Device B O L))
      → ℕ
      → (Device B O L → Option (Device B O L))
      → List (Option (Device B O L))
  update [] i f = []
  update (none ∷ ds) zero f = none ∷ ds
  update (some d ∷ ds) zero f = f d ∷ ds
  update (d ∷ ds) (suc i) f = d ∷ update ds i f

  -- How many devices have an id.
  unfoldable pub count_id : ℕ → List (Option (Device B O L)) → ℕ
  count_id n [] = 0
  count_id n (none ∷ ds) = count_id n ds
  count_id n (some d ∷ ds) = let rest = count_id n ds in if d.id == n then rest + 1 else rest

  pub count_id-append :
      (n : ℕ) (ds : List (Option (Device B O L))) (d : Device B O L)
      → count_id n (ds ++ some d ∷ []) ≡ count_id n ds + (if d.id == n then 1 else 0)
  unfolding count_id
  count_id-append n [] d = ground arith
  count_id-append n (none ∷ ds) d = count_id-append n ds d
  count_id-append n (some e ∷ ds) d = ground (arith, count_id-append n ds d)

  pub count_open_devices-append :
      (ds : List (Option (Device B O L))) (d : Device B O L)
      → count_open_devices (ds ++ some d ∷ [])
        ≡ count_open_devices ds + (if d.is_open then 1 else 0)
  unfolding count_open_devices
  count_open_devices-append [] d = ground arith
  count_open_devices-append (none ∷ ds) d = count_open_devices-append ds d
  count_open_devices-append (some e ∷ ds) d = ground (arith, count_open_devices-append ds d)

  pub count_id-close_devices :
      (n : ℕ) (f : B → B × OperationStatus) (ds : List (Option (Device B O L)))
      → count_id n (close_devices f ds) ≡ count_id n ds
  unfolding count_id close_devices close_device
  count_id-close_devices n f [] = refl
  count_id-close_devices n f (none ∷ ds) = count_id-close_devices n f ds
  count_id-close_devices n f (some d ∷ ds) = ground (arith, count_id-close_devices n f ds)

  pub count_open-close_devices :
      (f : B → B × OperationStatus) (ds : List (Option (Device B O L)))
      → count_open_devices (close_devices f ds) ≡ 0
  unfolding count_open_devices close_devices close_device
  count_open-close_devices f [] = refl
  count_open-close_devices f (none ∷ ds) = count_open-close_devices f ds
  count_open-close_devices f (some d ∷ ds) = count_open-close_devices f ds

  -- A method keeps the id of its device.
  abbrev pub KeepsId : (Device B O L → Option (Device B O L)) → Type 0
  KeepsId f = (d e : Device B O L) → f d ≡ some e → e.id ≡ d.id

  count_id-first :
      (n : ℕ) (ds : List (Option (Device B O L))) (d : Device B O L) (o : Option (Device B O L))
      → ((e : Device B O L) → o ≡ some e → e.id ≡ d.id)
      → count_id n (o ∷ ds) ≤ count_id n (some d ∷ ds)
  unfolding count_id
  count_id-first n ds d none keeps = ground arith
  count_id-first n ds d (some e) keeps = ground (arith, keeps e refl)

  pub count_id-update :
      (n : ℕ) (ds : List (Option (Device B O L))) (i : ℕ) (f : Device B O L → Option (Device B O L))
      → KeepsId f
      → count_id n (update ds i f) ≤ count_id n ds
  unfolding update count_id
  count_id-update n [] i f keeps = omega arith
  count_id-update n (none ∷ ds) zero f keeps = omega arith
  count_id-update n (some d ∷ ds) zero f keeps = count_id-first n ds d (f d) (keeps d)
  count_id-update n (none ∷ ds) (suc i) f keeps = count_id-update n ds i f keeps
  count_id-update n (some d ∷ ds) (suc i) f keeps = ground (arith, count_id-update n ds i f keeps)
