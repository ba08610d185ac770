-- ===== src/Windows/Features/Payloads.antt =====
-- The payloads of the feature reports have the sizes that the HID descriptors declare.
use libvirtualhid.Base.{
  ℕ, ◌+◌, ◌*◌, ◌≤◌, ◌≡◌, ◌⊎◌, ◌==◌, ==_iff, inl, inr, refl, sym, subst, Bool, true, false, List,
  length, Option, none, some, if◌then◌else◌, if-cases, arith, all, ltb,
}
use mathlib.Core.List.{reverse}
use libvirtualhid.Core.Types.{BusType, DeviceProfile}
use libvirtualhid.Core.Profiles.{make_dualshock4_profile, make_dualsense_profile}
use libvirtualhid.Core.Profiles.Hid.{feature_item, report_bits}
use libvirtualhid.Shared.SwitchPro.Copies.{length-copy_to}
use libvirtualhid.Shared.PlayStation
use libvirtualhid.Windows.Features.{
  dualshock4_payload, dualsense_payload, set_pairing_mac, request_mac_address,
}
use libvirtualhid.Windows.Protocol.{CreateDeviceRequest, bus_bluetooth}
use libvirtualhid.Windows.Features.Bytes.{IsPayload, bytes_of, set_pairing_mac-IsPayload}

-- The bus of a profile by the number in a request.
abbrev pub bus_of : Bool → BusType
bus_of true = BusType.bluetooth
bus_of false = BusType.usb

-- A feature report has the size that the descriptor declares for it, if it declares it.
abbrev pub FitsFeature : DeviceProfile → ℕ → Option (List ℕ) → Type 0
FitsFeature p number none = Unit
FitsFeature p number (some report) =
    (report_bits feature_item number p.report_descriptor ≡ 0)
    ⊎ (8 * length report ≡ report_bits feature_item number p.report_descriptor + 8)

abbrev pub Answers : DeviceProfile → ℕ → Option (List ℕ) → Type 0
Answers p number none = Unit
Answers p number (some report) = FitsFeature p number (some report) × IsPayload report

-- A payload answers where the descriptor declares its size.
constant-Answers :
    (p : DeviceProfile) (number : ℕ) (report : List ℕ)
    → FitsFeature p number (some report)
    → (4 ≤ length report) × (all (λ b. ltb b 256) report ≡ true)
    → Answers p number (some report)
constant-Answers p number report fits h = (fits, (h.0, bytes_of report h.1))

pairing-Answers :
    (p : DeviceProfile) (number : ℕ) (report : List ℕ) (request : CreateDeviceRequest)
    → FitsFeature p number (some report)
    → (4 ≤ length report) × (all (λ b. ltb b 256) report ≡ true)
    → Answers p number (some (set_pairing_mac report request))
pairing-Answers p number report request fits h =
    let mac = reverse (request_mac_address request) in
    (
      ground (arith, length-copy_to report 1 mac, fits),
      set_pairing_mac-IsPayload report request (h.0, bytes_of report h.1),
    )

dualshock4_usb_calibration :
    (b : Bool)
    → FitsFeature
        (make_dualshock4_profile (bus_of b))
        2
        (some PlayStation.dualshock4_usb_calibration_info)
dualshock4_usb_calibration true = inl (refl {a = 0})
dualshock4_usb_calibration false = inr (refl {a = 296})

dualshock4_pairing :
    (b : Bool)
    → FitsFeature (make_dualshock4_profile (bus_of b)) 18 (some PlayStation.dualshock4_pairing_info)
dualshock4_pairing true = inr (refl {a = 128})
dualshock4_pairing false = inr (refl {a = 128})

dualshock4_firmware :
    (b : Bool)
    → FitsFeature
        (make_dualshock4_profile (bus_of b))
        163
        (some PlayStation.dualshock4_firmware_info)
dualshock4_firmware true = inr (refl {a = 392})
dualshock4_firmware false = inr (refl {a = 392})

dualsense_calibration :
    (b : Bool)
    → FitsFeature
        (make_dualsense_profile (bus_of b))
        5
        (some PlayStation.dualsense_calibration_info)
dualsense_calibration true = inr (refl {a = 328})
dualsense_calibration false = inr (refl {a = 328})

dualsense_pairing :
    (b : Bool)
    → FitsFeature (make_dualsense_profile (bus_of b)) 9 (some PlayStation.dualsense_pairing_info)
dualsense_pairing true = inr (refl {a = 160})
dualsense_pairing false = inr (refl {a = 160})

dualsense_firmware :
    (b : Bool)
    → FitsFeature (make_dualsense_profile (bus_of b)) 32 (some PlayStation.dualsense_firmware_info)
dualsense_firmware true = inr (refl {a = 512})
dualsense_firmware false = inr (refl {a = 512})

-- An answer to a number is one to a number that is the same.
at_number :
    (p : DeviceProfile) (number k : ℕ) (o : Option (List ℕ))
    → (number == k) ≡ true
    → Answers p k o
    → Answers p number o
at_number p number k o e h = subst (λ m. Answers p m o) (sym ((==_iff number k).0 e)) h

bluetooth_calibration-Answers :
    (request : CreateDeviceRequest) (b : Bool)
    → (request.bus_type == bus_bluetooth) ≡ b
    → Answers (make_dualshock4_profile (bus_of b)) 5 (
        if request.bus_type == bus_bluetooth
        then some PlayStation.dualshock4_bluetooth_calibration_info
        else none)
bluetooth_calibration-Answers request true e =
    subst
      (λ c.
        Answers (make_dualshock4_profile BusType.bluetooth) 5
          (if c then some PlayStation.dualshock4_bluetooth_calibration_info else none))
      (sym e)
      (constant-Answers (make_dualshock4_profile BusType.bluetooth) 5
        PlayStation.dualshock4_bluetooth_calibration_info (inr (refl {a = 328}))
        (omega arith, refl))
bluetooth_calibration-Answers request false e =
    subst
      (λ c.
        Answers (make_dualshock4_profile BusType.usb) 5
          (if c then some PlayStation.dualshock4_bluetooth_calibration_info else none))
      (sym e) tt

module _ (request : CreateDeviceRequest) (number : ℕ) where
  abbrev b : Bool
  b = request.bus_type == bus_bluetooth

  pub dualshock4_payload-Answers :
      Answers (make_dualshock4_profile (bus_of b)) number (dualshock4_payload request number)
  dualshock4_payload-Answers =
      if-cases (Answers (make_dualshock4_profile (bus_of b)) number) (number == 0x2)
        (λ e.
          at_number (make_dualshock4_profile (bus_of b)) number 0x2
            (some PlayStation.dualshock4_usb_calibration_info) e
            (constant-Answers (make_dualshock4_profile (bus_of b)) 2
              PlayStation.dualshock4_usb_calibration_info (dualshock4_usb_calibration b)
              (omega arith, refl)))
        (λ _.
          if-cases (Answers (make_dualshock4_profile (bus_of b)) number) (number == 0x05)
            (λ e.
              at_number (make_dualshock4_profile (bus_of b)) number 0x05
                (if request.bus_type == bus_bluetooth
                  then some PlayStation.dualshock4_bluetooth_calibration_info
                  else none)
                e (bluetooth_calibration-Answers request b refl))
            (λ _.
              if-cases (Answers (make_dualshock4_profile (bus_of b)) number) (number == 0x12)
                (λ e.
                  at_number (make_dualshock4_profile (bus_of b)) number 0x12
                    (some (set_pairing_mac PlayStation.dualshock4_pairing_info request)) e
                    (pairing-Answers (make_dualshock4_profile (bus_of b)) 18
                      PlayStation.dualshock4_pairing_info request (dualshock4_pairing b)
                      (omega arith, refl)))
                (λ _.
                  if-cases (Answers (make_dualshock4_profile (bus_of b)) number) (number == 0xa3)
                    (λ e.
                      at_number (make_dualshock4_profile (bus_of b)) number 0xa3
                        (some PlayStation.dualshock4_firmware_info) e
                        (constant-Answers (make_dualshock4_profile (bus_of b)) 163
                          PlayStation.dualshock4_firmware_info (dualshock4_firmware b)
                          (omega arith, refl)))
                    (λ _. tt))))

  pub dualsense_payload-Answers :
      Answers (make_dualsense_profile (bus_of b)) number (dualsense_payload request number)
  dualsense_payload-Answers =
      if-cases (Answers (make_dualsense_profile (bus_of b)) number) (number == 0x5)
        (λ e.
          at_number (make_dualsense_profile (bus_of b)) number 0x5
            (some PlayStation.dualsense_calibration_info) e
            (constant-Answers (make_dualsense_profile (bus_of b)) 5
              PlayStation.dualsense_calibration_info (dualsense_calibration b) (omega arith, refl)))
        (λ _.
          if-cases (Answers (make_dualsense_profile (bus_of b)) number) (number == 0x9)
            (λ e.
              at_number (make_dualsense_profile (bus_of b)) number 0x9
                (some (set_pairing_mac PlayStation.dualsense_pairing_info request)) e
                (pairing-Answers (make_dualsense_profile (bus_of b)) 9
                  PlayStation.dualsense_pairing_info request (dualsense_pairing b)
                  (omega arith, refl)))
            (λ _.
              if-cases (Answers (make_dualsense_profile (bus_of b)) number) (number == 0x20)
                (λ e.
                  at_number (make_dualsense_profile (bus_of b)) number 0x20
                    (some PlayStation.dualsense_firmware_info) e
                    (constant-Answers (make_dualsense_profile (bus_of b)) 32
                      PlayStation.dualsense_firmware_info (dualsense_firmware b)
                      (omega arith, refl)))
                (λ _. tt)))
