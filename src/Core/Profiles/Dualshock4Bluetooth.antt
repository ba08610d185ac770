-- ===== src/Core/Profiles/Dualshock4Bluetooth.antt =====
-- The report descriptor of a DualShock 4 over Bluetooth, of profiles.cpp.
use libvirtualhid.Base.{ℕ, List, [], ◌∷◌, ◌++◌}

abbrev input_report : List ℕ
input_report =
    0x05 ∷ 0x01 ∷ 0x09 ∷ 0x05 ∷ 0xA1 ∷ 0x01 ∷ 0x85 ∷ 0x11 ∷ 0x06 ∷ 0x00 ∷ 0xFF ∷ 0x09 ∷ 0x20 ∷ 0x15
    ∷ 0x00 ∷ 0x26 ∷ 0xFF ∷ 0x00 ∷ 0x75 ∷ 0x08 ∷ 0x95 ∷ 0x02 ∷ 0x81 ∷ 0x02 ∷ 0x05 ∷ 0x01 ∷ 0x09
    ∷ 0x30 ∷ 0x09 ∷ 0x31 ∷ 0x09 ∷ 0x32 ∷ 0x09 ∷ 0x35 ∷ 0x75 ∷ 0x08 ∷ 0x95 ∷ 0x04 ∷ 0x81 ∷ 0x02
    ∷ 0x09 ∷ 0x39 ∷ 0x15 ∷ 0x00 ∷ 0x25 ∷ 0x07 ∷ 0x35 ∷ 0x00 ∷ 0x46 ∷ 0x3B ∷ 0x01 ∷ 0x65 ∷ 0x14
    ∷ 0x75 ∷ 0x04 ∷ 0x95 ∷ 0x01 ∷ 0x81 ∷ 0x42 ∷ 0x65 ∷ 0x00 ∷ 0x05 ∷ 0x09 ∷ 0x19 ∷ 0x01 ∷ 0x29
    ∷ 0x0E ∷ 0x15 ∷ 0x00 ∷ 0x25 ∷ 0x01 ∷ 0x75 ∷ 0x01 ∷ 0x95 ∷ 0x0E ∷ 0x81 ∷ 0x02 ∷ 0x06 ∷ 0x00
    ∷ 0xFF ∷ 0x09 ∷ 0x21 ∷ 0x75 ∷ 0x06 ∷ 0x95 ∷ 0x01 ∷ 0x81 ∷ 0x02 ∷ 0x05 ∷ 0x01 ∷ 0x09 ∷ 0x33
    ∷ 0x09 ∷ 0x34 ∷ 0x75 ∷ 0x08 ∷ 0x95 ∷ 0x02 ∷ 0x81 ∷ 0x02 ∷ 0x06 ∷ 0x00 ∷ 0xFF ∷ 0x09 ∷ 0x22
    ∷ 0x95 ∷ 0x42 ∷ 0x81 ∷ 0x02 ∷ []

abbrev from_report_11 : List ℕ
from_report_11 =
    0x85 ∷ 0x11 ∷ 0x09 ∷ 0x23 ∷ 0x95 ∷ 0x4D ∷ 0x91 ∷ 0x02 ∷ 0x85 ∷ 0x05 ∷ 0x09 ∷ 0x24 ∷ 0x95 ∷ 0x28
    ∷ 0xB1 ∷ 0x02 ∷ 0x85 ∷ 0x12 ∷ 0x09 ∷ 0x25 ∷ 0x95 ∷ 0x0F ∷ 0xB1 ∷ 0x02 ∷ 0x85 ∷ 0xA3 ∷ 0x09
    ∷ 0x26 ∷ 0x95 ∷ 0x30 ∷ 0xB1 ∷ 0x02 ∷ 0xC0 ∷ []

abbrev pub make_dualshock4_bluetooth_report_descriptor : List ℕ
make_dualshock4_bluetooth_report_descriptor = input_report ++ from_report_11
