-- ===== src/Windows/Features/Laws.antt =====
-- The feature reports against the HID descriptors of the profiles.
use libvirtualhid.Base.{
  ℕ, ◌≡◌, ◌∙◌, ◌==◌, ◌&&◌, ◌||◌, refl, Bool, true, false, List, Option, none, some, if◌then◌else◌,
  arith,
}
use libvirtualhid.Core.Types.{DeviceProfile}
use libvirtualhid.Core.Profiles.{make_dualshock4_profile, make_dualsense_profile}
use libvirtualhid.Core.Report.Sealed.{IsSealed, write_playstation_crc-IsSealed}
use libvirtualhid.Core.Output.Sealed.{length-write_playstation_crc}
use libvirtualhid.Windows.Features.{
  make_playstation_feature_report, dualshock4_payload, dualsense_payload, seal,
}
use libvirtualhid.Windows.Protocol.{
  CreateDeviceRequest, bus_bluetooth, gamepad_dualshock4, gamepad_dualsense,
}
use libvirtualhid.Windows.Features.Payloads.{
  bus_of, FitsFeature, Answers, dualshock4_payload-Answers, dualsense_payload-Answers,
}

-- The numbers that are answered.
abbrev pub known : ℕ → Bool → ℕ → Bool
known kind bluetooth number =
    if kind == gamepad_dualshock4
    then number == 2 || (bluetooth && number == 5) || number == 0x12 || number == 0xA3
    else if kind == gamepad_dualsense
    then number == 5 || number == 9 || number == 0x20
    else false

abbrev pub is_answered : Option (List ℕ) → Bool
is_answered none = false
is_answered (some report) = true

abbrev pub SealedIf : Bool → List ℕ → Type 0
SealedIf true report = IsSealed 0xA3 report
SealedIf false report = Unit

-- The size that the descriptor declares, and over Bluetooth the checksum.
abbrev pub Conforms : DeviceProfile → Bool → ℕ → Option (List ℕ) → Type 0
Conforms p bluetooth number none = Unit
Conforms p bluetooth number (some report) =
    FitsFeature p number (some report) × SealedIf bluetooth report

seal-Conforms :
    (p : DeviceProfile) (bluetooth : Bool) (number : ℕ) (payload : Option (List ℕ))
    → Answers p number payload
    → Conforms p bluetooth number (seal bluetooth payload)
seal-Conforms p bluetooth number none h = tt
seal-Conforms p false number (some report) h = (h.0, tt)
seal-Conforms p true number (some report) h = (
  ground (arith, length-write_playstation_crc report 0xA3, h.0),
  write_playstation_crc-IsSealed report 0xA3 h.1.0 h.1.1 (omega arith),
)

abbrev pub profile_of : CreateDeviceRequest → DeviceProfile
profile_of request =
    let bus = bus_of (request.bus_type == bus_bluetooth) in
    if request.gamepad_kind == gamepad_dualshock4
    then make_dualshock4_profile bus
    else make_dualsense_profile bus

is_answered-seal :
    (bluetooth : Bool) (payload : Option (List ℕ))
    → is_answered (seal bluetooth payload) ≡ is_answered payload
is_answered-seal bluetooth none = refl
is_answered-seal bluetooth (some report) = refl

gamepad-Answers :
    (p q : DeviceProfile) (number : ℕ) (a b : Option (List ℕ)) (is_first is_second : Bool)
    → Answers p number a
    → Answers q number b
    → Answers
        (if is_first then p else q)
        number
        (if is_first then a else if is_second then b else none)
gamepad-Answers p q number a b true is_second h k = h
gamepad-Answers p q number a b false true h k = k
gamepad-Answers p q number a b false false h k = tt

dualshock4_payload-known :
    (request : CreateDeviceRequest) (number : ℕ)
    → is_answered (dualshock4_payload request number)
      ≡ number == 2
        || ((request.bus_type == bus_bluetooth) && number == 5)
        || number == 0x12
        || number == 0xA3
dualshock4_payload-known request number = ground arith

dualsense_payload-known :
    (request : CreateDeviceRequest) (number : ℕ)
    → is_answered (dualsense_payload request number) ≡ number == 5 || number == 9 || number == 0x20
dualsense_payload-known request number = ground arith

payload-known :
    (a b : Option (List ℕ)) (c d is_first is_second : Bool)
    → is_answered a ≡ c
    → is_answered b ≡ d
    → is_answered (if is_first then a else if is_second then b else none)
      ≡ (if is_first then c else if is_second then d else false)
payload-known a b c d true is_second h k = h
payload-known a b c d false true h k = k
payload-known a b c d false false h k = refl

-- A DualShock 4 answers the feature reports 0x02, 0x12, 0xA3 and, over Bluetooth, 0x05, a DualSense 0x05,
-- 0x09 and 0x20, and no other gamepad answers any. An answer has exactly the size that the HID descriptor
-- of the gamepad's profile on that bus declares for it, if it declares the report at all, and over
-- Bluetooth it ends in the CRC-32 of the bytes before, seeded with 0xA3.
pub make_playstation_feature_report-Conforms :
    (request : CreateDeviceRequest) (number : ℕ)
    → (is_answered (make_playstation_feature_report request number)
        ≡ known request.gamepad_kind (request.bus_type == bus_bluetooth) number)
      × Conforms
          (profile_of request)
          (request.bus_type == bus_bluetooth)
          number
          (make_playstation_feature_report request number)
unfolding make_playstation_feature_report
make_playstation_feature_report-Conforms request number = (
  is_answered-seal _ _
      ∙ payload-known (dualshock4_payload request number) (dualsense_payload request number) _ _
          (request.gamepad_kind == gamepad_dualshock4) (request.gamepad_kind == gamepad_dualsense)
          (dualshock4_payload-known request number) (dualsense_payload-known request number),
  seal-Conforms (profile_of request) (request.bus_type == bus_bluetooth) number _ (
      gamepad-Answers _ _ number (dualshock4_payload request number)
        (dualsense_payload request number) (request.gamepad_kind == gamepad_dualshock4)
        (request.gamepad_kind == gamepad_dualsense) (dualshock4_payload-Answers request number)
        (dualsense_payload-Answers request number)),
)
