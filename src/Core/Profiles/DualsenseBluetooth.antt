-- ===== src/Core/Profiles/DualsenseBluetooth.antt =====
-- The report descriptor of a DualSense over Bluetooth, of profiles.cpp.
use libvirtualhid.Base.{ℕ, List, [], ◌∷◌, ◌++◌}
use libvirtualhid.Core.Profiles.Generic.{make_playstation_common_gamepad_descriptor_prefix}

abbrev controls : List ℕ
controls =
    0x75 ∷ 0x06 ∷ 0x95 ∷ 0x01 ∷ 0x81 ∷ 0x01 ∷ 0x05 ∷ 0x01 ∷ 0x09 ∷ 0x33 ∷ 0x09 ∷ 0x34 ∷ 0x15 ∷ 0x00
    ∷ 0x26 ∷ 0xFF ∷ 0x00 ∷ 0x75 ∷ 0x08 ∷ 0x95 ∷ 0x02 ∷ 0x81 ∷ 0x02 ∷ 0x06 ∷ 0x00 ∷ 0xFF ∷ 0x15
    ∷ 0x00 ∷ 0x26 ∷ 0xFF ∷ 0x00 ∷ 0x75 ∷ 0x08 ∷ 0x95 ∷ 0x4D ∷ 0x85 ∷ 0x31 ∷ 0x09 ∷ 0x31 ∷ 0x91
    ∷ 0x02 ∷ 0x09 ∷ 0x3B ∷ 0x81 ∷ 0x02 ∷ 0x85 ∷ 0x32 ∷ 0x09 ∷ 0x32 ∷ 0x95 ∷ 0x8D ∷ 0x91 ∷ 0x02
    ∷ 0x85 ∷ 0x33 ∷ 0x09 ∷ 0x33 ∷ 0x95 ∷ 0xCD ∷ 0x91 ∷ 0x02 ∷ 0x85 ∷ 0x34 ∷ 0x09 ∷ 0x34 ∷ 0x96
    ∷ 0x0D ∷ 0x01 ∷ 0x91 ∷ 0x02 ∷ 0x85 ∷ 0x35 ∷ 0x09 ∷ 0x35 ∷ 0x96 ∷ 0x4D ∷ 0x01 ∷ 0x91 ∷ 0x02
    ∷ 0x85 ∷ 0x36 ∷ 0x09 ∷ 0x36 ∷ 0x96 ∷ 0x8D ∷ 0x01 ∷ 0x91 ∷ 0x02 ∷ 0x85 ∷ 0x37 ∷ 0x09 ∷ 0x37
    ∷ 0x96 ∷ 0xCD ∷ 0x01 ∷ 0x91 ∷ 0x02 ∷ 0x85 ∷ 0x38 ∷ 0x09 ∷ 0x38 ∷ 0x96 ∷ 0x0D ∷ 0x02 ∷ 0x91
    ∷ 0x02 ∷ 0x85 ∷ 0x39 ∷ 0x09 ∷ 0x39 ∷ 0x96 ∷ 0x22 ∷ 0x02 ∷ 0x91 ∷ 0x02 ∷ 0x06 ∷ 0x80 ∷ 0xFF
    ∷ 0x85 ∷ 0x05 ∷ 0x09 ∷ 0x33 ∷ 0x95 ∷ 0x28 ∷ 0xB1 ∷ 0x02 ∷ 0x85 ∷ 0x08 ∷ 0x09 ∷ 0x34 ∷ 0x95
    ∷ 0x2F ∷ 0xB1 ∷ 0x02 ∷ 0x85 ∷ 0x09 ∷ 0x09 ∷ 0x24 ∷ 0x95 ∷ 0x13 ∷ 0xB1 ∷ 0x02 ∷ 0x85 ∷ 0x20
    ∷ 0x09 ∷ 0x26 ∷ 0x95 ∷ 0x3F ∷ 0xB1 ∷ 0x02 ∷ []

abbrev from_report_22 : List ℕ
from_report_22 =
    0x85 ∷ 0x22 ∷ 0x09 ∷ 0x40 ∷ 0x95 ∷ 0x3F ∷ 0xB1 ∷ 0x02 ∷ 0x85 ∷ 0x80 ∷ 0x09 ∷ 0x28 ∷ 0x95 ∷ 0x3F
    ∷ 0xB1 ∷ 0x02 ∷ 0x85 ∷ 0x81 ∷ 0x09 ∷ 0x29 ∷ 0x95 ∷ 0x3F ∷ 0xB1 ∷ 0x02 ∷ 0x85 ∷ 0x82 ∷ 0x09
    ∷ 0x2A ∷ 0x95 ∷ 0x09 ∷ 0xB1 ∷ 0x02 ∷ 0x85 ∷ 0x83 ∷ 0x09 ∷ 0x2B ∷ 0x95 ∷ 0x3F ∷ 0xB1 ∷ 0x02
    ∷ 0x85 ∷ 0xF1 ∷ 0x09 ∷ 0x31 ∷ 0x95 ∷ 0x3F ∷ 0xB1 ∷ 0x02 ∷ 0x85 ∷ 0xF2 ∷ 0x09 ∷ 0x32 ∷ 0x95
    ∷ 0x0F ∷ 0xB1 ∷ 0x02 ∷ 0x85 ∷ 0xF0 ∷ 0x09 ∷ 0x30 ∷ 0x95 ∷ 0x3F ∷ 0xB1 ∷ 0x02 ∷ 0xC0 ∷ []

abbrev pub make_dualsense_bluetooth_report_descriptor : List ℕ
make_dualsense_bluetooth_report_descriptor =
    make_playstation_common_gamepad_descriptor_prefix 0x01 ++ controls ++ from_report_22
