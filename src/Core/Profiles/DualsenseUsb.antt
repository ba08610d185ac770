-- ===== src/Core/Profiles/DualsenseUsb.antt =====
-- The report descriptor of a DualSense over USB, of profiles.cpp.
use libvirtualhid.Base.{ℕ, List, [], ◌∷◌, ◌++◌}

abbrev input_report : List ℕ
input_report =
    0x05 ∷ 0x01 ∷ 0x09 ∷ 0x05 ∷ 0xA1 ∷ 0x01 ∷ 0x85 ∷ 0x01 ∷ 0x09 ∷ 0x30 ∷ 0x09 ∷ 0x31 ∷ 0x09 ∷ 0x32
    ∷ 0x09 ∷ 0x35 ∷ 0x09 ∷ 0x33 ∷ 0x09 ∷ 0x34 ∷ 0x15 ∷ 0x00 ∷ 0x26 ∷ 0xFF ∷ 0x00 ∷ 0x75 ∷ 0x08
    ∷ 0x95 ∷ 0x06 ∷ 0x81 ∷ 0x02 ∷ 0x06 ∷ 0x00 ∷ 0xFF ∷ 0x09 ∷ 0x20 ∷ 0x95 ∷ 0x01 ∷ 0x81 ∷ 0x02
    ∷ 0x05 ∷ 0x01 ∷ 0x09 ∷ 0x39 ∷ 0x15 ∷ 0x00 ∷ 0x25 ∷ 0x07 ∷ 0x35 ∷ 0x00 ∷ 0x46 ∷ 0x3B ∷ 0x01
    ∷ 0x65 ∷ 0x14 ∷ 0x75 ∷ 0x04 ∷ 0x95 ∷ 0x01 ∷ 0x81 ∷ 0x42 ∷ 0x65 ∷ 0x00 ∷ 0x05 ∷ 0x09 ∷ 0x19
    ∷ 0x01 ∷ 0x29 ∷ 0x0F ∷ 0x15 ∷ 0x00 ∷ 0x25 ∷ 0x01 ∷ 0x75 ∷ 0x01 ∷ 0x95 ∷ 0x0F ∷ 0x81 ∷ 0x02
    ∷ 0x06 ∷ 0x00 ∷ 0xFF ∷ 0x09 ∷ 0x21 ∷ 0x95 ∷ 0x0D ∷ 0x81 ∷ 0x02 ∷ 0x06 ∷ 0x00 ∷ 0xFF ∷ 0x09
    ∷ 0x22 ∷ 0x15 ∷ 0x00 ∷ 0x26 ∷ 0xFF ∷ 0x00 ∷ 0x75 ∷ 0x08 ∷ 0x95 ∷ 0x34 ∷ 0x81 ∷ 0x02 ∷ 0x85
    ∷ 0x02 ∷ 0x09 ∷ 0x23 ∷ 0x95 ∷ 0x2F ∷ 0x91 ∷ 0x02 ∷ 0x85 ∷ 0x05 ∷ 0x09 ∷ 0x33 ∷ 0x95 ∷ 0x28
    ∷ 0xB1 ∷ 0x02 ∷ 0x85 ∷ 0x08 ∷ 0x09 ∷ 0x34 ∷ 0x95 ∷ 0x2F ∷ 0xB1 ∷ 0x02 ∷ 0x85 ∷ 0x09 ∷ 0x09
    ∷ 0x24 ∷ 0x95 ∷ 0x13 ∷ 0xB1 ∷ 0x02 ∷ 0x85 ∷ 0x0A ∷ 0x09 ∷ 0x25 ∷ 0x95 ∷ 0x1A ∷ 0xB1 ∷ 0x02 ∷ []

abbrev from_report_20 : List ℕ
from_report_20 =
    0x85 ∷ 0x20 ∷ 0x09 ∷ 0x26 ∷ 0x95 ∷ 0x3F ∷ 0xB1 ∷ 0x02 ∷ 0x85 ∷ 0x21 ∷ 0x09 ∷ 0x27 ∷ 0x95 ∷ 0x04
    ∷ 0xB1 ∷ 0x02 ∷ 0x85 ∷ 0x22 ∷ 0x09 ∷ 0x40 ∷ 0x95 ∷ 0x3F ∷ 0xB1 ∷ 0x02 ∷ 0x85 ∷ 0x80 ∷ 0x09
    ∷ 0x28 ∷ 0x95 ∷ 0x3F ∷ 0xB1 ∷ 0x02 ∷ 0x85 ∷ 0x81 ∷ 0x09 ∷ 0x29 ∷ 0x95 ∷ 0x3F ∷ 0xB1 ∷ 0x02
    ∷ 0x85 ∷ 0x82 ∷ 0x09 ∷ 0x2A ∷ 0x95 ∷ 0x09 ∷ 0xB1 ∷ 0x02 ∷ 0x85 ∷ 0x83 ∷ 0x09 ∷ 0x2B ∷ 0x95
    ∷ 0x3F ∷ 0xB1 ∷ 0x02 ∷ 0x85 ∷ 0x84 ∷ 0x09 ∷ 0x2C ∷ 0x95 ∷ 0x3F ∷ 0xB1 ∷ 0x02 ∷ 0x85 ∷ 0x85
    ∷ 0x09 ∷ 0x2D ∷ 0x95 ∷ 0x02 ∷ 0xB1 ∷ 0x02 ∷ 0x85 ∷ 0xA0 ∷ 0x09 ∷ 0x2E ∷ 0x95 ∷ 0x01 ∷ 0xB1
    ∷ 0x02 ∷ 0x85 ∷ 0xE0 ∷ 0x09 ∷ 0x2F ∷ 0x95 ∷ 0x3F ∷ 0xB1 ∷ 0x02 ∷ 0x85 ∷ 0xF0 ∷ 0x09 ∷ 0x30
    ∷ 0x95 ∷ 0x3F ∷ 0xB1 ∷ 0x02 ∷ 0x85 ∷ 0xF1 ∷ 0x09 ∷ 0x31 ∷ 0x95 ∷ 0x3F ∷ 0xB1 ∷ 0x02 ∷ 0x85
    ∷ 0xF2 ∷ 0x09 ∷ 0x32 ∷ 0x95 ∷ 0x0F ∷ 0xB1 ∷ 0x02 ∷ 0x85 ∷ 0xF4 ∷ 0x09 ∷ 0x35 ∷ 0x95 ∷ 0x3F
    ∷ 0xB1 ∷ 0x02 ∷ 0x85 ∷ 0xF5 ∷ 0x09 ∷ 0x36 ∷ 0x95 ∷ 0x03 ∷ 0xB1 ∷ 0x02 ∷ 0xC0 ∷ []

abbrev pub make_dualsense_usb_report_descriptor : List ℕ
make_dualsense_usb_report_descriptor = input_report ++ from_report_20
