-- ===== src/Core/Report/Laws.antt =====
-- Every report that report.cpp packs: its size, its bytes and its checksum.
use libvirtualhid.Base.{
  ℕ, ◌<◌, ◌≡◌, refl, subst, Bool, true, false, not, ◌||◌, List, [], ◌∷◌, ◌++◌, All, length,
  replicate, if◌then◌else◌, if-cases, ltb, arith,
}
use libvirtualhid.Base.Int.{ℤ, pos, negsuc}
use libvirtualhid.Core.Types.{DeviceProfile, DeviceType, GamepadProfileKind, GamepadState}
use libvirtualhid.Core.Options.{same_type}
use libvirtualhid.Core.Profiles.{is_bluetooth}
use libvirtualhid.Core.Report.Numbers.{Floats, Clocks, unsigned_of}
use libvirtualhid.Core.Report.Bytes.{Write, write_all, resize, append_u16}
use libvirtualhid.Core.Report.Crc.{write_playstation_crc}
use libvirtualhid.Core.Report.Normalize.{normalize_state}
use libvirtualhid.Core.Report.Dualshock4.{pack_dualshock4_input_report, dualshock4_writes}
use libvirtualhid.Core.Report.Dualsense.{pack_dualsense_input_report, dualsense_writes}
use libvirtualhid.Core.Report.SwitchPro.{pack_switch_pro_input_report, switch_pro_writes}
use libvirtualhid.Core.Report.Gip.{pack_xbox_gip_input_report, xbox_gip_writes}
use libvirtualhid.Core.Report.Bounds.{
  IsReport, write_u32-IsReport, write_all-IsReport, zeros-IsReport, resize-IsReport,
}
use libvirtualhid.Core.Report.{
  pack_input_report, pack_kind, pack_standard_gamepad_input_report, pack_common_input_report,
  standard_bytes, common_bytes,
}

-- The least size of a report of each layout, by the kind and whether the bus is Bluetooth.
abbrev pub required_of : GamepadProfileKind → Bool → ℕ
required_of GamepadProfileKind.generic bluetooth = 9
required_of GamepadProfileKind.xbox_360 bluetooth = 9
required_of GamepadProfileKind.xbox_one bluetooth = 17
required_of GamepadProfileKind.xbox_series bluetooth = 17
required_of GamepadProfileKind.dualsense bluetooth = if bluetooth then 78 else 64
required_of GamepadProfileKind.switch_pro bluetooth = 64
required_of GamepadProfileKind.dualshock4 bluetooth = if bluetooth then 78 else 64

abbrev pub required : DeviceProfile → ℕ
required p = required_of p.gamepad_kind (is_bluetooth p.bus_type)

-- A report that fits the size, or none where the size is too small.
abbrev pub Fits : Bool → ℕ → List ℕ → Type 0
Fits true size report = report ≡ []
Fits false size report = IsReport size report

write_playstation_crc-IsReport :
    (n : ℕ) (r : List ℕ) (seed : ℕ) → IsReport n r → IsReport n (write_playstation_crc r seed)
unfolding write_playstation_crc
write_playstation_crc-IsReport n r seed h =
    if-cases (IsReport n) (ltb (length r) 4) (λ _. h) (λ _. write_u32-IsReport n r _ _ h)

-- What every packing function makes of its stores, and of a size.
stores-IsReport : (n : ℕ) (ws : List Write) → IsReport n (write_all (replicate n 0) ws)
stores-IsReport n ws = write_all-IsReport n (replicate n 0) ws (zeros-IsReport n)

sealed_if-IsReport :
    (n : ℕ) (bluetooth : Bool) (r : List ℕ)
    → IsReport n r
    → IsReport n (if bluetooth then write_playstation_crc r 0xA1 else r)
sealed_if-IsReport n true r h = write_playstation_crc-IsReport n r 0xA1 h
sealed_if-IsReport n false r h = h

guarded-Fits :
    (small : Bool) (n : ℕ) (report : List ℕ)
    → IsReport n report
    → Fits small n (if small then [] else report)
guarded-Fits true n report h = refl
guarded-Fits false n report h = h

stores-Fits :
    (small : Bool) (n : ℕ) (ws : List Write)
    → Fits small n (if small then [] else write_all (replicate n 0) ws)
stores-Fits small n ws = guarded-Fits small n (write_all (replicate n 0) ws) (stores-IsReport n ws)

-- The same for the two layouts that may end in a checksum.
sealed-Fits :
    (small bluetooth : Bool) (n : ℕ) (ws : List Write)
    → Fits small n (
        let report = write_all (replicate n 0) ws in
        if small then [] else if bluetooth then write_playstation_crc report 0xA1 else report)
sealed-Fits small bluetooth n ws =
    let report = write_all (replicate n 0) ws in
    guarded-Fits small n (if bluetooth then write_playstation_crc report 0xA1 else report)
      (sealed_if-IsReport n bluetooth report (stores-IsReport n ws))

resized-Fits :
    (small : Bool) (n : ℕ) (bytes : List ℕ)
    → All (λ b. b < 256) bytes
    → Fits small n (if small then [] else resize bytes n)
resized-Fits small n bytes a = guarded-Fits small n (resize bytes n) (resize-IsReport n bytes a)

unsigned_of-lt : (z : ℤ) → unsigned_of 8 z < 256
unsigned_of-lt (pos n) = omega arith
unsigned_of-lt (negsuc n) = omega arith

-- The bytes of the layouts that are appended to: an identifier, a word and six rounded numbers.
six_bytes-All :
    (id word : ℕ) (a0 a1 a2 a3 a4 a5 : ℤ)
    → id < 256
    → All
        (λ b. b < 256)
        (append_u16 (id ∷ []) word
          ++ unsigned_of 8 a0
            ∷ unsigned_of 8 a1
            ∷ unsigned_of 8 a2
            ∷ unsigned_of 8 a3
            ∷ unsigned_of 8 a4
            ∷ unsigned_of 8 a5
            ∷ [])
six_bytes-All id word a0 a1 a2 a3 a4 a5 h = (
  h,
  (
    omega arith,
    (
      omega arith,
      (
        unsigned_of-lt a0,
        (
          unsigned_of-lt a1,
          (unsigned_of-lt a2, (unsigned_of-lt a3, (unsigned_of-lt a4, (unsigned_of-lt a5, tt)))),
        ),
      ),
    ),
  ),
)

-- The minimum is the layout's, and a device that is no gamepad has no report.
abbrev pub is_small : DeviceProfile → Bool
is_small p =
    not (same_type p.device_type DeviceType.gamepad) || ltb p.input_report_size (required p)

module _ {F : Type 0} (floats : Floats F) (clocks : Clocks) (p : DeviceProfile)
    (state : GamepadState F) where
  abbrev n : GamepadState F
  n = normalize_state floats state

  standard-Fits :
      p.report_id < 256
      → Fits
          (ltb p.input_report_size 9)
          p.input_report_size
          (pack_standard_gamepad_input_report floats p state)
  unfolding pack_standard_gamepad_input_report
  standard-Fits h =
      resized-Fits (ltb p.input_report_size 9) p.input_report_size
        (standard_bytes floats p (normalize_state floats state))
        (six_bytes-All p.report_id _ _ _ _ _ _ _ h)

  common-Fits :
      p.report_id < 256
      → Fits
          (not (same_type p.device_type DeviceType.gamepad) || ltb p.input_report_size 9)
          p.input_report_size
          (pack_common_input_report floats p state)
  unfolding pack_common_input_report
  common-Fits h =
      resized-Fits (not (same_type p.device_type DeviceType.gamepad) || ltb p.input_report_size 9)
        p.input_report_size (common_bytes floats p (normalize_state floats state))
        (six_bytes-All p.report_id _ _ _ _ _ _ _ h)

  kind-Fits :
      (kind : GamepadProfileKind)
      → p.report_id < 256
      → same_type p.device_type DeviceType.gamepad ≡ true
      → Fits
          (ltb p.input_report_size (required_of kind (is_bluetooth p.bus_type)))
          p.input_report_size
          (pack_kind floats clocks kind p state)
  unfolding pack_xbox_gip_input_report pack_dualshock4_input_report pack_dualsense_input_report
      pack_switch_pro_input_report
  kind-Fits GamepadProfileKind.generic h g = standard-Fits h
  kind-Fits GamepadProfileKind.xbox_360 h g =
      subst
        (λ b.
          Fits (not b || ltb p.input_report_size 9) p.input_report_size
            (pack_common_input_report floats p state))
        g (common-Fits h)
  kind-Fits GamepadProfileKind.xbox_one h g =
      stores-Fits (ltb p.input_report_size 17) p.input_report_size (xbox_gip_writes floats n)
  kind-Fits GamepadProfileKind.xbox_series h g =
      stores-Fits (ltb p.input_report_size 17) p.input_report_size (xbox_gip_writes floats n)
  kind-Fits GamepadProfileKind.switch_pro h g =
      stores-Fits (ltb p.input_report_size 64) p.input_report_size
        (switch_pro_writes floats clocks p n)
  kind-Fits GamepadProfileKind.dualshock4 h g =
      sealed-Fits (ltb p.input_report_size (if is_bluetooth p.bus_type then 78 else 64))
        (is_bluetooth p.bus_type) p.input_report_size (dualshock4_writes floats clocks p n)
  kind-Fits GamepadProfileKind.dualsense h g =
      sealed-Fits (ltb p.input_report_size (if is_bluetooth p.bus_type then 78 else 64))
        (is_bluetooth p.bus_type) p.input_report_size (dualsense_writes floats clocks p n)

  -- A packed report has exactly `input_report_size` bytes, each below 256. There is no report, an empty
  -- list, exactly where the profile is of no gamepad or its size is below what the layout of its kind
  -- and bus takes. The report identifier is a byte.
  pub pack_input_report-Fits :
      p.report_id < 256
      → Fits (is_small p) p.input_report_size (pack_input_report floats clocks p state)
  unfolding pack_input_report
  pack_input_report-Fits h = by_type (same_type p.device_type DeviceType.gamepad) refl
    where
      by_type :
          (b : Bool)
          → same_type p.device_type DeviceType.gamepad ≡ b
          → Fits (not b || ltb p.input_report_size (required p)) p.input_report_size (
              if b
              then pack_kind floats clocks p.gamepad_kind p state
              else pack_common_input_report floats p state)
      by_type true e = kind-Fits p.gamepad_kind h e
      by_type false e =
          subst
            (λ b.
              Fits (not b || ltb p.input_report_size 9) p.input_report_size
                (pack_common_input_report floats p state))
            e (common-Fits h)
