-- ===== src/Core/Device/Laws.antt =====
-- What holds of each method of each device, and what follows for any sequence of calls.
use Prim.Native.String.{String}
use libvirtualhid.Base.{
  ◌+◌, ◌%◌, ◌≡◌, refl, true, false, Option, List, [], ◌∷◌, arith, ◌⊎◌, inl, if-cases,
}
use libvirtualhid.Core.Status.{OperationStatus, is_ok}
use libvirtualhid.Core.Device.{Device, close, record_event, submit_event, validated}

module _ {B O L : Type 0} where
  -- One call of `d`, with the device after it and a status: the identity and the options stay; a closed device stays
  -- exactly as it is, backend included, and no call opens it; a failed call leaves the last event and
  -- the count, and a call that succeeds on an open device counts one event or none.
  pub record IsLawful (d : Device B O L) (r : Device B O L × OperationStatus) : Type 0 where
    pub same_id : r.0.id ≡ d.id
    pub same_options : r.0.options ≡ d.options
    pub closed_inert : d.is_open ≡ false → r.0 ≡ d
    pub failed_unrecorded : is_ok r.1 ≡ false → (r.0.last ≡ d.last) × (r.0.submitted ≡ d.submitted)
    pub counted :
        (r.0.submitted ≡ d.submitted) ⊎ (r.0.submitted ≡ (d.submitted + 1) % 18446744073709551616)

  pub unchanged-IsLawful : (d : Device B O L) (status : OperationStatus) → IsLawful d (d, status)
  unchanged-IsLawful d status = record {
    same_id = refl;
    same_options = refl;
    closed_inert = λ _. refl;
    failed_unrecorded = λ _. (refl, refl);
    counted = inl refl;
  }

  pub close-IsLawful : (f : B → B × OperationStatus) (d : Device B O L) → IsLawful d (close f d)
  unfolding close
  close-IsLawful f d = record {
    same_id = ground arith;
    same_options = ground arith;
    closed_inert = λ h. ground arith;
    failed_unrecorded = λ h. (ground arith, ground arith);
    counted = inl (ground arith);
  }

  -- What follows a call of the backend of an open device.
  pub recorded-IsLawful :
      (remember : L → L) (d : Device B O L) (called : Option B × OperationStatus)
      → d.is_open ≡ true
      → IsLawful d (record_event remember d called)
  unfolding record_event
  recorded-IsLawful remember d (b, status) h = record {
    same_id = ground arith;
    same_options = ground arith;
    closed_inert = λ c. cc;
    failed_unrecorded = λ f. (ground arith, ground arith);
    counted = ground arith;
  }

  pub submit_event-IsLawful :
      (msg : String) (action : B → B × OperationStatus) (remember : L → L) (d : Device B O L)
      → IsLawful d (submit_event msg action remember d)
  unfolding submit_event
  submit_event-IsLawful msg action remember d = record {
    same_id = ground arith;
    same_options = ground arith;
    closed_inert = λ h. ground arith;
    failed_unrecorded = λ h. (ground arith, ground arith);
    counted = ground arith;
  }

  pub validated-IsLawful :
      (validation : OperationStatus) (d : Device B O L) (r : Device B O L × OperationStatus)
      → IsLawful d r
      → IsLawful d (validated validation d r)
  unfolding validated
  validated-IsLawful validation d r h =
      if-cases (IsLawful d) (is_ok validation) (λ _. h) (λ _. unchanged-IsLawful d validation)

-- A device's methods as steps, each of them lawful.
module _ {B O L C : Type 0} (step : Device B O L → C → Device B O L × OperationStatus)
    (lawful : (d : Device B O L) (c : C) → IsLawful d (step d c)) where
  pub run : Device B O L → List C → Device B O L
  run d [] = d
  run d (c ∷ cs) = run (step d c).0 cs

  -- Closed for good.
  pub run-closed : (d : Device B O L) (cs : List C) → d.is_open ≡ false → run d cs ≡ d
  unfolding run
  run-closed d [] h = refl
  run-closed d (c ∷ cs) h = rw ((lawful d c).closed_inert h, run) (run-closed d cs h)
