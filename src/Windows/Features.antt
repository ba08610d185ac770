-- ===== src/Windows/Features.antt =====
-- The feature reports that the Windows driver answers for a PlayStation gamepad:
-- playstation_feature_protocol.hpp. Its crc32 and write_u32_le repeat those of report.cpp, which stand in
-- for them here. Text is a list of the numbers of its characters.
pub mod Bytes
pub mod Payloads
pub mod Laws
mod Tests
use mathlib.Core.List.{reverse}
use libvirtualhid.Base.{
  ℕ, zero, suc, ◌+◌, ◌-◌, ◌*◌, ◌/◌, ◌%◌, ◌==◌, ◌&&◌, Bool, List, [], ◌∷◌, Option, none, some,
  length, take, if◌then◌else◌, leb, ltb, min,
}
use libvirtualhid.Core.Report.Crc.{write_playstation_crc}
use libvirtualhid.Shared.SwitchPro.{copy_to}
use libvirtualhid.Shared.PlayStation
use libvirtualhid.Windows.Protocol.{
  CreateDeviceRequest, bus_bluetooth, gamepad_dualshock4, gamepad_dualsense,
}

-- A hexadecimal digit: '0' is 48, 'A' 65 and 'a' 97.
abbrev pub hex_digit : ℕ → Option ℕ
hex_digit c =
    if leb 48 c && leb c 57
    then some (c - 48)
    else if leb 65 c && leb c 70
    then some (c - 65 + 10)
    else if leb 97 c && leb c 102
    then some (c - 97 + 10)
    else none

-- std::from_chars to base 16, of two characters that are both taken.
abbrev pub hex_pair : Option ℕ → Option ℕ → Option ℕ
hex_pair (some high) (some low) = some (high * 16 + low)
hex_pair _ _ = none

abbrev pub cons_byte : Option ℕ → Option (List ℕ) → Option (List ℕ)
cons_byte (some byte) (some bytes) = some (byte ∷ bytes)
cons_byte _ _ = none

-- The loop, for the bytes that are left: each but the last is followed by a colon, which is 58. Text after
-- the last byte is not looked at.
unfoldable pub parse_bytes : ℕ → List ℕ → Option (List ℕ)
parse_bytes zero text = some []
parse_bytes (suc zero) (high ∷ low ∷ text) =
    cons_byte (hex_pair (hex_digit high) (hex_digit low)) (some [])
parse_bytes (suc (suc n)) (high ∷ low ∷ colon ∷ text) =
    let rest = parse_bytes (suc n) text in
    if colon == 58 then cons_byte (hex_pair (hex_digit high) (hex_digit low)) rest else none
parse_bytes (suc n) _ = none

abbrev pub parse_mac_address : List ℕ → Option (List ℕ)
parse_mac_address text = parse_bytes 6 text

abbrev pub generated_mac_address : ℕ → List ℕ
generated_mac_address id =
    0x02 ∷ 0x00 ∷ id / 16777216 % 256 ∷ id / 65536 % 256 ∷ id / 256 % 256 ∷ id % 256 ∷ []

abbrev pub mac_or : Option (List ℕ) → List ℕ → List ℕ
mac_or (some mac) generated = mac
mac_or none generated = generated

unfoldable pub request_mac_address : CreateDeviceRequest → List ℕ
request_mac_address request =
    mac_or
      (parse_mac_address (
        take (min request.report_sizes.stable_id_size (length request.stable_id))
          request.stable_id))
      (generated_mac_address request.client_device_id)

abbrev pub set_pairing_mac : List ℕ → CreateDeviceRequest → List ℕ
set_pairing_mac report request = copy_to report 1 (reverse (request_mac_address request))

abbrev pub set_bluetooth_crc : List ℕ → List ℕ
set_bluetooth_crc report = write_playstation_crc report PlayStation.playstation_feature_crc_seed

abbrev pub dualshock4_payload : CreateDeviceRequest → ℕ → Option (List ℕ)
dualshock4_payload request report_number =
    if report_number == PlayStation.dualshock4_usb_calibration_report
    then some PlayStation.dualshock4_usb_calibration_info
    else if report_number == PlayStation.dualshock4_bluetooth_calibration_report
    then (if request.bus_type == bus_bluetooth
        then some PlayStation.dualshock4_bluetooth_calibration_info
        else none)
    else if report_number == PlayStation.dualshock4_pairing_report
    then some (set_pairing_mac PlayStation.dualshock4_pairing_info request)
    else if report_number == PlayStation.dualshock4_firmware_report
    then some PlayStation.dualshock4_firmware_info
    else none

abbrev pub dualsense_payload : CreateDeviceRequest → ℕ → Option (List ℕ)
dualsense_payload request report_number =
    if report_number == PlayStation.dualsense_calibration_report
    then some PlayStation.dualsense_calibration_info
    else if report_number == PlayStation.dualsense_pairing_report
    then some (set_pairing_mac PlayStation.dualsense_pairing_info request)
    else if report_number == PlayStation.dualsense_firmware_report
    then some PlayStation.dualsense_firmware_info
    else none

abbrev pub seal : Bool → Option (List ℕ) → Option (List ℕ)
seal bluetooth none = none
seal bluetooth (some report) = some (if bluetooth then set_bluetooth_crc report else report)

unfoldable pub make_playstation_feature_report : CreateDeviceRequest → ℕ → Option (List ℕ)
make_playstation_feature_report request report_number =
    let payload =
      if request.gamepad_kind == gamepad_dualshock4
      then dualshock4_payload request report_number
      else if request.gamepad_kind == gamepad_dualsense
      then dualsense_payload request report_number
      else none in
    seal (request.bus_type == bus_bluetooth) payload
