-- ===== src/Core/Runtime/Runs.antt =====
-- Sequences of calls of a runtime and of its devices. `C k` is what the methods of a device of type k are
-- called with, and `method` is any of them.
use Prim.Native.String.{String}
use libvirtualhid.Core.Logger.{Logger}
use libvirtualhid.Base.{ℕ, ◌+◌, ◌≤◌, ◌<◌, ◌≡◌, none, some, List, [], ◌∷◌, arith, length}
use libvirtualhid.Core.Types.{DeviceType}
use libvirtualhid.Core.Runtime.{Options, registry, with_registry}
use libvirtualhid.Core.Runtime.Registry.{update, count_id, count_id-update, KeepsId}
use libvirtualhid.Core.Runtime.Create.{Registered, Runtime, Backend, create, create_runtime}
use libvirtualhid.Core.Runtime.Create.Outcome.{create-Outcome}
use libvirtualhid.Core.Runtime.Active.{close_all}
use libvirtualhid.Core.Runtime.Unique.{
  IsUnique, devices_with, Outcome-IsUnique, with_registry-IsUnique, close_all-IsUnique,
  next-with_registry,
}

-- `calls k i c` is a method of the device at an index of its registry; with `drops` its handle ends,
-- which closes the device and leaves an expired pointer.
pub data RuntimeCall (M : Type 0) (C : DeviceType → Type 0) : Type 0 where
  creates : (k : DeviceType) → Options M k → RuntimeCall M C
  calls : (k : DeviceType) → ℕ → C k → RuntimeCall M C
  drops : (k : DeviceType) → ℕ → RuntimeCall M C
  closes_all : RuntimeCall M C

module _ {M N : Type 0} {B L C : DeviceType → Type 0} (backend : Backend M N B L)
    (method : (k : DeviceType) → C k → Registered M B L k → Registered M B L k) where
  unfoldable pub step : Runtime M N B L → RuntimeCall M C → Runtime M N B L
  step s (creates k options) = (create backend k options s).0
  step s (calls k i c) = with_registry k (update (registry k s) i (λ d. some (method k c d))) s
  step s (drops k i) = with_registry k (update (registry k s) i (λ _. none)) s
  step s closes_all = close_all backend.close s

  unfoldable pub run : Runtime M N B L → List (RuntimeCall M C) → Runtime M N B L
  run s [] = s
  run s (c ∷ cs) = run (step s c) cs

  module _
      (keeps : (k : DeviceType) (c : C k) (d : Registered M B L k) → (method k c d).id ≡ d.id) where
    method-KeepsId :
        (k : DeviceType) (c : C k) → KeepsId (λ (d : Registered M B L k). some (method k c d))
    method-KeepsId k c d e h = ground (arith, keeps k c d)

    next-close_all :
        (s : Runtime M N B L) → (close_all backend.close s).next_device_id ≤ s.next_device_id + 1
    unfolding close_all
    next-close_all s = omega arith

    step-IsUnique :
        (s : Runtime M N B L) (c : RuntimeCall M C)
        → s.next_device_id + 1 < 18446744073709551616
        → IsUnique s
        → IsUnique (step s c) × ((step s c).next_device_id ≤ s.next_device_id + 1)
    unfolding step
    step-IsUnique s (creates k options) bound unique =
        Outcome-IsUnique k s (create backend k options s) (create-Outcome backend k options s) bound
          unique
    step-IsUnique s (calls k i c) bound unique =
        let r = update (registry k s) i (λ d. some (method k c d)) in
        (
          with_registry-IsUnique k r s
              (λ n.
                count_id-update n (registry k s) i (λ d. some (method k c d)) (method-KeepsId k c))
              unique,
          omega (arith, next-with_registry k r s),
        )
    step-IsUnique s (drops k i) bound unique =
        let r = update (registry k s) i (λ _. none) in
        (
          with_registry-IsUnique k r s
              (λ n. count_id-update n (registry k s) i (λ _. none) (λ d e h. cc)) unique,
          omega (arith, next-with_registry k r s),
        )
    step-IsUnique s closes_all bound unique =
        (close_all-IsUnique backend.close s unique, next-close_all s)

    create_runtime-IsUnique :
        (l : Logger) (name : String) (n : N)
        → IsUnique {M = M} {B = B} {L = L} (create_runtime backend.throws l name n)
    unfolding create_runtime devices_with count_id
    create_runtime-IsUnique l name n = λ i. (omega arith, λ h. omega arith)

    -- Fewer than 2^64 calls later, no two devices share an id and the next id is free.
    run-IsUnique :
        (s : Runtime M N B L) (cs : List (RuntimeCall M C))
        → s.next_device_id + length cs < 18446744073709551616
        → IsUnique s
        → IsUnique (run s cs)
    unfolding run
    run-IsUnique s [] bound unique = unique
    run-IsUnique s (c ∷ cs) bound unique =
        let stepped = step-IsUnique s c (omega arith) unique in
        run-IsUnique (step s c) cs (omega (arith, stepped.1)) stepped.0

    -- If each method keeps its device's id: from a new runtime, after fewer than 2^64 - 1 creations,
    -- method calls, ends of handles and `close_all`s no two of the live devices share an id, and the
    -- next id is free.
    pub run-create_runtime-IsUnique :
        (l : Logger) (name : String) (n : N) (cs : List (RuntimeCall M C))
        → length cs + 1 < 18446744073709551616
        → IsUnique (run (create_runtime backend.throws l name n) cs)
    unfolding create_runtime
    run-create_runtime-IsUnique l name n cs bound =
        run-IsUnique (create_runtime backend.throws l name n) cs (omega arith)
          (create_runtime-IsUnique l name n)
