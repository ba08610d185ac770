-- ===== src/Broker/License.antt =====
-- lvh_broker_license_policy.hpp of src/platform/shared. Timestamps of `subscription_current` are seconds,
-- the times of the evaluation period are nanoseconds of the system clock.
use libvirtualhid.Base.{
  ℕ, ◌+◌, ◌-◌, ◌*◌, ◌/◌, ◌≤◌, ◌<◌, ◌≡◌, ◌≢◌, ◌↔◌, ◌==◌, refl, ap, sym, ◌∙◌, subst, if-cases, ==_iff,
  Bool, true, not, ◌&&◌, ltb, leb, if◌then◌else◌, Option, none, some, List, [], ◌∷◌, All, arith,
}

-- 24 hours and one hour.
abbrev validation_interval : ℕ
validation_interval = 86400

abbrev outage_retention : ℕ
outage_retention = 3600

abbrev pub subscription_current : ℕ → ℕ → Bool
subscription_current validated_at effective_timestamp =
    not (validated_at == 0)
    && leb validated_at effective_timestamp
    && ltb (effective_timestamp - validated_at) (validation_interval + outage_retention)

abbrev pub outage_retention_elapsed : ℕ → Bool
outage_retention_elapsed elapsed = leb outage_retention elapsed

-- `retained_device_id_`.
abbrev pub OutageDeviceSelector : Type 0
OutageDeviceSelector = Option ℕ

abbrev pub keep : Option ℕ → ℕ → Option ℕ × Bool
keep none device_id = (some device_id, true)
keep (some retained) device_id = (some retained, retained == device_id)

abbrev pub remove : Option ℕ → ℕ → Option ℕ
remove none device_id = none
remove (some retained) device_id = if retained == device_id then none else some retained

abbrev pub reset : Option ℕ → Option ℕ
reset s = none

pub data SelectorCall : Type 0 where
  keeps removes : ℕ → SelectorCall
  resets : SelectorCall

abbrev pub step : Option ℕ → SelectorCall → Option ℕ
step s (keeps device_id) = (keep s device_id).0
step s (removes device_id) = remove s device_id
step s resets = reset s

abbrev pub run : Option ℕ → List SelectorCall → Option ℕ
run s [] = s
run s (c ∷ cs) = run (step s c) cs

-- Neither the removal of the device nor a reset.
abbrev pub Spares : ℕ → SelectorCall → Type 0
Spares device_id (keeps other) = Unit
Spares device_id (removes other) = other ≢ device_id
Spares device_id resets = ⊥

run-retained :
    (device_id : ℕ) (cs : List SelectorCall)
    → All (Spares device_id) cs
    → run (some device_id) cs ≡ some device_id
run-retained device_id [] all = refl
run-retained device_id (keeps other ∷ cs) all = run-retained device_id cs all.1
run-retained device_id (removes other ∷ cs) all =
    if-cases (λ (r : Option ℕ). run r cs ≡ some device_id) (device_id == other)
      (λ e. absurd (all.0 (sym ((==_iff device_id other).0 e))))
      (λ _. run-retained device_id cs all.1)
run-retained device_id (resets ∷ cs) all = absurd all.0

keep-retained :
    (s : Option ℕ) (device_id : ℕ)
    → (keep s device_id).1 ≡ true
    → (keep s device_id).0 ≡ some device_id
keep-retained none device_id kept = refl
keep-retained (some retained) device_id kept = ap some ((==_iff retained device_id).0 kept)

-- A device that was allowed stays the only one that is, through any calls that neither remove it nor
-- reset the selection.
pub keep-run :
    (s : Option ℕ) (device_id other : ℕ) (cs : List SelectorCall)
    → (keep s device_id).1 ≡ true
    → All (Spares device_id) cs
    → ((keep (run (keep s device_id).0 cs) other).1 ≡ true) ↔ (other ≡ device_id)
keep-run s device_id other cs kept all =
    subst (λ (r : Option ℕ). ((keep r other).1 ≡ true) ↔ (other ≡ device_id))
      (sym (ap (λ r. run r cs) (keep-retained s device_id kept) ∙ run-retained device_id cs all))
      (ground (arith, ==_iff device_id other))

-- 5 minutes.
abbrev pub duration : ℕ
duration = 300_000_000_000

abbrev pub active : ℕ → ℕ → Bool
active started_at now = leb started_at now && ltb now (started_at + duration)

-- Rounded up to seconds.
abbrev pub remaining : ℕ → ℕ → ℕ
remaining started_at now =
    if not (active started_at now)
    then 0
    else (started_at + duration - now + 999_999_999) / 1_000_000_000

-- The evaluation has seconds left exactly while it is active, never more than 300, and while it is active
-- they cover the time that is left, by less than a second.
pub remaining-active :
    (started_at now : ℕ)
    → ((active started_at now ≡ true) ↔ (0 < remaining started_at now))
      × (remaining started_at now ≤ 300)
      × (active started_at now ≡ true
          → (started_at + duration ≤ now + remaining started_at now * 1_000_000_000)
            × (now + remaining started_at now * 1_000_000_000
                < started_at + duration + 1_000_000_000))
remaining-active started_at now = ground arith
