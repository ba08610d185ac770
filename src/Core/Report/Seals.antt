-- ===== src/Core/Report/Seals.antt =====
-- The checksums of the reports of the PlayStation gamepads.
use libvirtualhid.Base.{
  ℕ, ◌≤◌, ◌≡◌, true, false, Bool, List, [], replicate, if◌then◌else◌, if-cases, ltb, ltb→lt, arith,
}
use libvirtualhid.Core.Types.{DeviceProfile, GamepadState}
use libvirtualhid.Core.Profiles.{is_bluetooth}
use libvirtualhid.Core.Report.Numbers.{Floats, Clocks}
use libvirtualhid.Core.Report.Bytes.{Write, write_all}
use libvirtualhid.Core.Report.Crc.{write_playstation_crc}
use libvirtualhid.Core.Report.Normalize.{normalize_state}
use libvirtualhid.Core.Report.Dualshock4.{pack_dualshock4_input_report, dualshock4_writes}
use libvirtualhid.Core.Report.Dualsense.{pack_dualsense_input_report, dualsense_writes}
use libvirtualhid.Core.Report.Bounds.{write_all-IsReport, zeros-IsReport}
use libvirtualhid.Core.Report.Sealed.{IsSealed, write_playstation_crc-IsSealed}

-- What both functions make of their stores over Bluetooth.
stores-IsSealed :
    (n : ℕ) (bluetooth : Bool) (ws : List Write)
    → 78 ≤ n
    → bluetooth ≡ true
    → IsSealed 0xA1 (
        let report = write_all (replicate n 0) ws in
        if ltb n (if bluetooth then 78 else 64)
        then []
        else if bluetooth
        then write_playstation_crc report 0xA1
        else report)
stores-IsSealed n false ws h e = cc
stores-IsSealed n true ws h e =
    let stores = write_all-IsReport n (replicate n 0) ws (zeros-IsReport n) in
    if-cases (IsSealed 0xA1) (ltb n 78) (λ small. absurd (omega (arith, ltb→lt n 78 small)))
      (λ _.
        write_playstation_crc-IsSealed (write_all (replicate n 0) ws) 0xA1 (omega (arith, stores.0))
          stores.1 (omega arith))

-- Over Bluetooth, and where the profile's size suffices, the last four bytes of a DualShock 4 or a
-- DualSense input report are the CRC-32 of the bytes before them, seeded with the header 0xA1.
pub pack_input_report-IsSealed :
    {F : Type 0} (floats : Floats F) (clocks : Clocks) (p : DeviceProfile) (state : GamepadState F)
    → is_bluetooth p.bus_type ≡ true
    → 78 ≤ p.input_report_size
    → IsSealed 0xA1 (pack_dualshock4_input_report floats clocks p state)
      × IsSealed 0xA1 (pack_dualsense_input_report floats clocks p state)
unfolding pack_dualshock4_input_report pack_dualsense_input_report
pack_input_report-IsSealed floats clocks p state e h = (
  stores-IsSealed p.input_report_size (is_bluetooth p.bus_type)
      (dualshock4_writes floats clocks p (normalize_state floats state)) h e,
  stores-IsSealed p.input_report_size (is_bluetooth p.bus_type)
      (dualsense_writes floats clocks p (normalize_state floats state)) h e,
)
