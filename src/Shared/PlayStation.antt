-- ===== src/Shared/PlayStation.antt =====
-- The native feature reports of the PlayStation gamepads: playstation_feature_reports.hpp.
use libvirtualhid.Base.{ℕ, List, [], ◌∷◌}

abbrev pub dualshock4_usb_calibration_report : ℕ
dualshock4_usb_calibration_report = 0x02

abbrev pub dualshock4_bluetooth_calibration_report : ℕ
dualshock4_bluetooth_calibration_report = 0x05

abbrev pub dualshock4_pairing_report : ℕ
dualshock4_pairing_report = 0x12

abbrev pub dualshock4_firmware_report : ℕ
dualshock4_firmware_report = 0xA3

abbrev pub playstation_feature_crc_seed : ℕ
playstation_feature_crc_seed = 0xA3

abbrev pub dualsense_calibration_report : ℕ
dualsense_calibration_report = 0x05

abbrev pub dualsense_pairing_report : ℕ
dualsense_pairing_report = 0x09

abbrev pub dualsense_firmware_report : ℕ
dualsense_firmware_report = 0x20

abbrev pub dualshock4_usb_calibration_info : List ℕ
dualshock4_usb_calibration_info =
    0x02 ∷ 0x00 ∷ 0x00 ∷ 0x00 ∷ 0x00 ∷ 0x00 ∷ 0x00 ∷ 0x10 ∷ 0x27 ∷ 0xF0 ∷ 0xD8 ∷ 0x10 ∷ 0x27 ∷ 0xF0
    ∷ 0xD8 ∷ 0x10 ∷ 0x27 ∷ 0xF0 ∷ 0xD8 ∷ 0xF4 ∷ 0x01 ∷ 0xF4 ∷ 0x01 ∷ 0x10 ∷ 0x27 ∷ 0xF0 ∷ 0xD8
    ∷ 0x10 ∷ 0x27 ∷ 0xF0 ∷ 0xD8 ∷ 0x10 ∷ 0x27 ∷ 0xF0 ∷ 0xD8 ∷ 0x00 ∷ 0x00 ∷ []

abbrev pub dualshock4_bluetooth_calibration_info : List ℕ
dualshock4_bluetooth_calibration_info =
    0x05 ∷ 0x00 ∷ 0x00 ∷ 0x00 ∷ 0x00 ∷ 0x00 ∷ 0x00 ∷ 0x10 ∷ 0x27 ∷ 0xF0 ∷ 0xD8 ∷ 0x10 ∷ 0x27 ∷ 0xF0
    ∷ 0xD8 ∷ 0x10 ∷ 0x27 ∷ 0xF0 ∷ 0xD8 ∷ 0xF4 ∷ 0x01 ∷ 0xF4 ∷ 0x01 ∷ 0x10 ∷ 0x27 ∷ 0xF0 ∷ 0xD8
    ∷ 0x10 ∷ 0x27 ∷ 0xF0 ∷ 0xD8 ∷ 0x10 ∷ 0x27 ∷ 0xF0 ∷ 0xD8 ∷ 0x00 ∷ 0x00 ∷ 0x00 ∷ 0x00 ∷ 0x00
    ∷ 0x00 ∷ []

abbrev pub dualshock4_firmware_info : List ℕ
dualshock4_firmware_info =
    0xA3 ∷ 0x41 ∷ 0x75 ∷ 0x67 ∷ 0x20 ∷ 0x20 ∷ 0x33 ∷ 0x20 ∷ 0x32 ∷ 0x30 ∷ 0x31 ∷ 0x33 ∷ 0x00 ∷ 0x00
    ∷ 0x00 ∷ 0x00 ∷ 0x00 ∷ 0x30 ∷ 0x37 ∷ 0x3A ∷ 0x30 ∷ 0x31 ∷ 0x3A ∷ 0x31 ∷ 0x32 ∷ 0x00 ∷ 0x00
    ∷ 0x00 ∷ 0x00 ∷ 0x00 ∷ 0x00 ∷ 0x00 ∷ 0x00 ∷ 0x00 ∷ 0x01 ∷ 0x00 ∷ 0x31 ∷ 0x03 ∷ 0x00 ∷ 0x00
    ∷ 0x00 ∷ 0x49 ∷ 0x00 ∷ 0x05 ∷ 0x00 ∷ 0x00 ∷ 0x80 ∷ 0x03 ∷ 0x00 ∷ []

abbrev pub dualshock4_pairing_info : List ℕ
dualshock4_pairing_info =
    0x12 ∷ 0x00 ∷ 0x00 ∷ 0x00 ∷ 0x00 ∷ 0x00 ∷ 0x00 ∷ 0x00 ∷ 0x00 ∷ 0x00 ∷ 0x00 ∷ 0x00 ∷ 0x00 ∷ 0x00
    ∷ 0x00 ∷ 0x00 ∷ []

abbrev pub dualsense_calibration_info : List ℕ
dualsense_calibration_info =
    0x05 ∷ 0x00 ∷ 0x00 ∷ 0x00 ∷ 0x00 ∷ 0x00 ∷ 0x00 ∷ 0x10 ∷ 0x27 ∷ 0xF0 ∷ 0xD8 ∷ 0x10 ∷ 0x27 ∷ 0xF0
    ∷ 0xD8 ∷ 0x10 ∷ 0x27 ∷ 0xF0 ∷ 0xD8 ∷ 0xF4 ∷ 0x01 ∷ 0xF4 ∷ 0x01 ∷ 0x10 ∷ 0x27 ∷ 0xF0 ∷ 0xD8
    ∷ 0x10 ∷ 0x27 ∷ 0xF0 ∷ 0xD8 ∷ 0x10 ∷ 0x27 ∷ 0xF0 ∷ 0xD8 ∷ 0x0B ∷ 0x00 ∷ 0x00 ∷ 0x00 ∷ 0x00
    ∷ 0x00 ∷ []

abbrev pub dualsense_firmware_info : List ℕ
dualsense_firmware_info =
    0x20 ∷ 0x4A ∷ 0x75 ∷ 0x6C ∷ 0x20 ∷ 0x20 ∷ 0x34 ∷ 0x20 ∷ 0x32 ∷ 0x30 ∷ 0x32 ∷ 0x35 ∷ 0x31 ∷ 0x30
    ∷ 0x3A ∷ 0x31 ∷ 0x30 ∷ 0x3A ∷ 0x33 ∷ 0x32 ∷ 0x03 ∷ 0x00 ∷ 0x04 ∷ 0x00 ∷ 0x10 ∷ 0x13 ∷ 0x00
    ∷ 0x00 ∷ 0x2A ∷ 0x00 ∷ 0x10 ∷ 0x01 ∷ 0x01 ∷ 0xC8 ∷ 0x00 ∷ 0x00 ∷ 0x00 ∷ 0x00 ∷ 0x00 ∷ 0x00
    ∷ 0x00 ∷ 0x00 ∷ 0x00 ∷ 0x00 ∷ 0x30 ∷ 0x06 ∷ 0x00 ∷ 0x00 ∷ 0x3C ∷ 0x00 ∷ 0x01 ∷ 0x00 ∷ 0x0A
    ∷ 0x00 ∷ 0x02 ∷ 0x00 ∷ 0x06 ∷ 0x00 ∷ 0x00 ∷ 0x00 ∷ 0x00 ∷ 0x00 ∷ 0x00 ∷ 0x00 ∷ []

abbrev pub dualsense_pairing_info : List ℕ
dualsense_pairing_info =
    0x09 ∷ 0x74 ∷ 0xE7 ∷ 0xD6 ∷ 0x3A ∷ 0x53 ∷ 0x35 ∷ 0x08 ∷ 0x25 ∷ 0x00 ∷ 0x1E ∷ 0x00 ∷ 0xEE ∷ 0x74
    ∷ 0xD0 ∷ 0xBC ∷ 0x00 ∷ 0x00 ∷ 0x00 ∷ 0x00 ∷ []
