-- ===== src/Core/Profiles/Dualshock4Usb.antt =====
-- The report descriptor of a DualShock 4 over USB, of profiles.cpp, split at report identifiers.
use libvirtualhid.Base.{ℕ, List, [], ◌∷◌, ◌++◌}
use libvirtualhid.Core.Profiles.Generic.{make_playstation_common_gamepad_descriptor_prefix}

abbrev controls : List ℕ
controls =
    0x06 ∷ 0x00 ∷ 0xFF ∷ 0x09 ∷ 0x20 ∷ 0x75 ∷ 0x06 ∷ 0x95 ∷ 0x01 ∷ 0x15 ∷ 0x00 ∷ 0x25 ∷ 0x7F ∷ 0x81
    ∷ 0x02 ∷ 0x05 ∷ 0x01 ∷ 0x09 ∷ 0x33 ∷ 0x09 ∷ 0x34 ∷ 0x15 ∷ 0x00 ∷ 0x26 ∷ 0xFF ∷ 0x00 ∷ 0x75
    ∷ 0x08 ∷ 0x95 ∷ 0x02 ∷ 0x81 ∷ 0x02 ∷ 0x06 ∷ 0x00 ∷ 0xFF ∷ 0x09 ∷ 0x21 ∷ 0x95 ∷ 0x36 ∷ 0x81
    ∷ 0x02 ∷ 0x85 ∷ 0x05 ∷ 0x09 ∷ 0x22 ∷ 0x95 ∷ 0x1F ∷ 0x91 ∷ 0x02 ∷ 0x85 ∷ 0x04 ∷ 0x09 ∷ 0x23
    ∷ 0x95 ∷ 0x24 ∷ 0xB1 ∷ 0x02 ∷ 0x85 ∷ 0x02 ∷ 0x09 ∷ 0x24 ∷ 0x95 ∷ 0x24 ∷ 0xB1 ∷ 0x02 ∷ 0x85
    ∷ 0x08 ∷ 0x09 ∷ 0x25 ∷ 0x95 ∷ 0x03 ∷ 0xB1 ∷ 0x02 ∷ 0x85 ∷ 0x10 ∷ 0x09 ∷ 0x26 ∷ 0x95 ∷ 0x04
    ∷ 0xB1 ∷ 0x02 ∷ 0x85 ∷ 0x11 ∷ 0x09 ∷ 0x27 ∷ 0x95 ∷ 0x02 ∷ 0xB1 ∷ 0x02 ∷ 0x85 ∷ 0x12 ∷ 0x06
    ∷ 0x02 ∷ 0xFF ∷ 0x09 ∷ 0x21 ∷ 0x95 ∷ 0x0F ∷ 0xB1 ∷ 0x02 ∷ []

abbrev from_report_13 : List ℕ
from_report_13 =
    0x85 ∷ 0x13 ∷ 0x09 ∷ 0x22 ∷ 0x95 ∷ 0x16 ∷ 0xB1 ∷ 0x02 ∷ 0x85 ∷ 0x14 ∷ 0x06 ∷ 0x05 ∷ 0xFF ∷ 0x09
    ∷ 0x20 ∷ 0x95 ∷ 0x10 ∷ 0xB1 ∷ 0x02 ∷ 0x85 ∷ 0x15 ∷ 0x09 ∷ 0x21 ∷ 0x95 ∷ 0x2C ∷ 0xB1 ∷ 0x02
    ∷ 0x06 ∷ 0x80 ∷ 0xFF ∷ 0x85 ∷ 0x80 ∷ 0x09 ∷ 0x20 ∷ 0x95 ∷ 0x06 ∷ 0xB1 ∷ 0x02 ∷ 0x85 ∷ 0x81
    ∷ 0x09 ∷ 0x21 ∷ 0x95 ∷ 0x06 ∷ 0xB1 ∷ 0x02 ∷ 0x85 ∷ 0x82 ∷ 0x09 ∷ 0x22 ∷ 0x95 ∷ 0x05 ∷ 0xB1
    ∷ 0x02 ∷ 0x85 ∷ 0x83 ∷ 0x09 ∷ 0x23 ∷ 0x95 ∷ 0x01 ∷ 0xB1 ∷ 0x02 ∷ 0x85 ∷ 0x84 ∷ 0x09 ∷ 0x24
    ∷ 0x95 ∷ 0x04 ∷ 0xB1 ∷ 0x02 ∷ 0x85 ∷ 0x85 ∷ 0x09 ∷ 0x25 ∷ 0x95 ∷ 0x06 ∷ 0xB1 ∷ 0x02 ∷ 0x85
    ∷ 0x86 ∷ 0x09 ∷ 0x26 ∷ 0x95 ∷ 0x06 ∷ 0xB1 ∷ 0x02 ∷ 0x85 ∷ 0x87 ∷ 0x09 ∷ 0x27 ∷ 0x95 ∷ 0x23
    ∷ 0xB1 ∷ 0x02 ∷ []

abbrev from_report_88 : List ℕ
from_report_88 =
    0x85 ∷ 0x88 ∷ 0x09 ∷ 0x28 ∷ 0x95 ∷ 0x22 ∷ 0xB1 ∷ 0x02 ∷ 0x85 ∷ 0x89 ∷ 0x09 ∷ 0x29 ∷ 0x95 ∷ 0x02
    ∷ 0xB1 ∷ 0x02 ∷ 0x85 ∷ 0x90 ∷ 0x09 ∷ 0x30 ∷ 0x95 ∷ 0x05 ∷ 0xB1 ∷ 0x02 ∷ 0x85 ∷ 0x91 ∷ 0x09
    ∷ 0x31 ∷ 0x95 ∷ 0x03 ∷ 0xB1 ∷ 0x02 ∷ 0x85 ∷ 0x92 ∷ 0x09 ∷ 0x32 ∷ 0x95 ∷ 0x03 ∷ 0xB1 ∷ 0x02
    ∷ 0x85 ∷ 0x93 ∷ 0x09 ∷ 0x33 ∷ 0x95 ∷ 0x0C ∷ 0xB1 ∷ 0x02 ∷ 0x85 ∷ 0xA0 ∷ 0x09 ∷ 0x40 ∷ 0x95
    ∷ 0x06 ∷ 0xB1 ∷ 0x02 ∷ 0x85 ∷ 0xA1 ∷ 0x09 ∷ 0x41 ∷ 0x95 ∷ 0x01 ∷ 0xB1 ∷ 0x02 ∷ 0x85 ∷ 0xA2
    ∷ 0x09 ∷ 0x42 ∷ 0x95 ∷ 0x01 ∷ 0xB1 ∷ 0x02 ∷ 0x85 ∷ 0xA3 ∷ 0x09 ∷ 0x43 ∷ 0x95 ∷ 0x30 ∷ 0xB1
    ∷ 0x02 ∷ 0x85 ∷ 0xA4 ∷ 0x09 ∷ 0x44 ∷ 0x95 ∷ 0x0D ∷ 0xB1 ∷ 0x02 ∷ 0x85 ∷ 0xA5 ∷ 0x09 ∷ 0x45
    ∷ 0x95 ∷ 0x15 ∷ 0xB1 ∷ 0x02 ∷ []

abbrev from_report_a6 : List ℕ
from_report_a6 =
    0x85 ∷ 0xA6 ∷ 0x09 ∷ 0x46 ∷ 0x95 ∷ 0x15 ∷ 0xB1 ∷ 0x02 ∷ 0x85 ∷ 0xF0 ∷ 0x09 ∷ 0x47 ∷ 0x95 ∷ 0x3F
    ∷ 0xB1 ∷ 0x02 ∷ 0x85 ∷ 0xF1 ∷ 0x09 ∷ 0x48 ∷ 0x95 ∷ 0x3F ∷ 0xB1 ∷ 0x02 ∷ 0x85 ∷ 0xF2 ∷ 0x09
    ∷ 0x49 ∷ 0x95 ∷ 0x0F ∷ 0xB1 ∷ 0x02 ∷ 0x85 ∷ 0xA7 ∷ 0x09 ∷ 0x4A ∷ 0x95 ∷ 0x01 ∷ 0xB1 ∷ 0x02
    ∷ 0x85 ∷ 0xA8 ∷ 0x09 ∷ 0x4B ∷ 0x95 ∷ 0x01 ∷ 0xB1 ∷ 0x02 ∷ 0x85 ∷ 0xA9 ∷ 0x09 ∷ 0x4C ∷ 0x95
    ∷ 0x08 ∷ 0xB1 ∷ 0x02 ∷ 0x85 ∷ 0xAA ∷ 0x09 ∷ 0x4E ∷ 0x95 ∷ 0x01 ∷ 0xB1 ∷ 0x02 ∷ 0x85 ∷ 0xAB
    ∷ 0x09 ∷ 0x4F ∷ 0x95 ∷ 0x39 ∷ 0xB1 ∷ 0x02 ∷ 0x85 ∷ 0xAC ∷ 0x09 ∷ 0x50 ∷ 0x95 ∷ 0x39 ∷ 0xB1
    ∷ 0x02 ∷ 0x85 ∷ 0xAD ∷ 0x09 ∷ 0x51 ∷ 0x95 ∷ 0x0B ∷ 0xB1 ∷ 0x02 ∷ 0x85 ∷ 0xAE ∷ 0x09 ∷ 0x52
    ∷ 0x95 ∷ 0x01 ∷ 0xB1 ∷ 0x02 ∷ []

abbrev from_report_af : List ℕ
from_report_af =
    0x85 ∷ 0xAF ∷ 0x09 ∷ 0x53 ∷ 0x95 ∷ 0x02 ∷ 0xB1 ∷ 0x02 ∷ 0x85 ∷ 0xB0 ∷ 0x09 ∷ 0x54 ∷ 0x95 ∷ 0x3F
    ∷ 0xB1 ∷ 0x02 ∷ 0xC0 ∷ []

abbrev pub make_dualshock4_usb_report_descriptor : List ℕ
make_dualshock4_usb_report_descriptor =
    make_playstation_common_gamepad_descriptor_prefix 0x01
    ++ controls
    ++ from_report_13
    ++ from_report_88
    ++ from_report_a6
    ++ from_report_af
