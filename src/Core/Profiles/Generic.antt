-- ===== src/Core/Profiles/Generic.antt =====
-- The report descriptors of profiles.cpp that are put together from parts: the shared button blocks, the
-- PID rumble output, the generic and Xbox 360 gamepads, and the prefix of the PlayStation ones.
use libvirtualhid.Base.{ℕ, ◌-◌, List, [], ◌∷◌, ◌++◌, Bool, not, false, if◌then◌else◌}

abbrev pub common_button_count : ℕ
common_button_count = 12

abbrev pub standard_button_count : ℕ
standard_button_count = 16

abbrev pub common_axis_count : ℕ
common_axis_count = 6

-- The descriptor is the argument that the code appends to.
abbrev pub append_common_gamepad_buttons : List ℕ → Bool → List ℕ
append_common_gamepad_buttons descriptor include_misc_button =
    descriptor
    ++ (0x05 ∷ 0x09 ∷ 0x09 ∷ 0x01 ∷ 0x09 ∷ 0x02 ∷ 0x09 ∷ 0x04 ∷ 0x09 ∷ 0x05 ∷ 0x09 ∷ 0x07 ∷ 0x09
        ∷ 0x08 ∷ 0x09 ∷ 0x0B ∷ 0x09 ∷ 0x0C ∷ 0x09 ∷ 0x0E ∷ 0x09 ∷ 0x0F ∷ 0x09 ∷ 0x0D ∷ [])
    ++ (if include_misc_button then 0x09 ∷ 0x06 ∷ [] else [])
    ++ (0x15
        ∷ 0x00
        ∷ 0x25
        ∷ 0x01
        ∷ 0x75
        ∷ 0x01
        ∷ 0x95
        ∷ (if include_misc_button then common_button_count else common_button_count - 1)
        ∷ 0x81
        ∷ 0x02
        ∷ [])
    ++ (if not include_misc_button then 0x75 ∷ 0x01 ∷ 0x95 ∷ 0x01 ∷ 0x81 ∷ 0x03 ∷ [] else [])

abbrev pub append_pid_rumble_output : List ℕ → List ℕ
append_pid_rumble_output descriptor =
    descriptor
    ++ (0xA1 ∷ 0x02 ∷ 0x05 ∷ 0x0F ∷ 0x09 ∷ 0x97 ∷ 0x15 ∷ 0x00 ∷ 0x25 ∷ 0x01 ∷ 0x75 ∷ 0x04 ∷ 0x95
        ∷ 0x01 ∷ 0x91 ∷ 0x02 ∷ 0x15 ∷ 0x00 ∷ 0x25 ∷ 0x00 ∷ 0x91 ∷ 0x03 ∷ 0x09 ∷ 0x70 ∷ 0x15 ∷ 0x00
        ∷ 0x25 ∷ 0x64 ∷ 0x75 ∷ 0x08 ∷ 0x95 ∷ 0x04 ∷ 0x91 ∷ 0x02 ∷ 0x09 ∷ 0x50 ∷ 0x66 ∷ 0x01 ∷ 0x10
        ∷ 0x55 ∷ 0x0E ∷ 0x26 ∷ 0xFF ∷ 0x00 ∷ 0x95 ∷ 0x01 ∷ 0x91 ∷ 0x02 ∷ 0x09 ∷ 0xA7 ∷ 0x91 ∷ 0x02
        ∷ 0x65 ∷ 0x00 ∷ 0x55 ∷ 0x00 ∷ 0x09 ∷ 0x7C ∷ 0x91 ∷ 0x02 ∷ 0xC0 ∷ [])

unfoldable pub make_gamepad_report_descriptor : ℕ → Bool → List ℕ
make_gamepad_report_descriptor report_id supports_rumble =
    append_common_gamepad_buttons (0x05 ∷ 0x01 ∷ 0x09 ∷ 0x05 ∷ 0xA1 ∷ 0x01 ∷ 0x85 ∷ report_id ∷ [])
      false
    ++ (0x05 ∷ 0x01 ∷ 0x09 ∷ 0x39 ∷ 0x15 ∷ 0x00 ∷ 0x25 ∷ 0x07 ∷ 0x35 ∷ 0x00 ∷ 0x46 ∷ 0x3B ∷ 0x01
        ∷ 0x65 ∷ 0x14 ∷ 0x75 ∷ 0x04 ∷ 0x95 ∷ 0x01 ∷ 0x81 ∷ 0x42 ∷ 0x65 ∷ 0x00 ∷ 0x05 ∷ 0x01 ∷ 0x15
        ∷ 0x00 ∷ 0x26 ∷ 0xFF ∷ 0x00 ∷ 0x75 ∷ 0x08 ∷ 0x95 ∷ common_axis_count ∷ 0x09 ∷ 0x30 ∷ 0x09
        ∷ 0x31 ∷ 0x09 ∷ 0x32 ∷ 0x09 ∷ 0x33 ∷ 0x09 ∷ 0x34 ∷ 0x09 ∷ 0x35 ∷ 0x81 ∷ 0x02 ∷ [])
    ++ (if supports_rumble
        then 0x06 ∷ 0x00 ∷ 0xFF ∷ 0x09 ∷ 0x01 ∷ 0x15 ∷ 0x00 ∷ 0x26 ∷ 0xFF ∷ 0x00 ∷ 0x75 ∷ 0x08
          ∷ 0x95 ∷ 0x04 ∷ 0x91 ∷ 0x02 ∷ []
        else [])
    ++ 0xC0 ∷ []

unfoldable pub make_standard_gamepad_report_descriptor : ℕ → Bool → List ℕ
make_standard_gamepad_report_descriptor report_id supports_rumble =
    let descriptor : List ℕ =
      0x05 ∷ 0x01 ∷ 0x09 ∷ 0x05 ∷ 0xA1 ∷ 0x01 ∷ 0x85 ∷ report_id ∷ 0x05 ∷ 0x09 ∷ 0x19 ∷ 0x01 ∷ 0x29
      ∷ standard_button_count ∷ 0x15 ∷ 0x00 ∷ 0x25 ∷ 0x01 ∷ 0x75 ∷ 0x01 ∷ 0x95
      ∷ standard_button_count ∷ 0x81 ∷ 0x02 ∷ 0x05 ∷ 0x01 ∷ 0x15 ∷ 0x00 ∷ 0x26 ∷ 0xFF ∷ 0x00 ∷ 0x75
      ∷ 0x08 ∷ 0x95 ∷ common_axis_count ∷ 0x09 ∷ 0x30 ∷ 0x09 ∷ 0x31 ∷ 0x09 ∷ 0x33 ∷ 0x09 ∷ 0x34
      ∷ 0x09 ∷ 0x32 ∷ 0x09 ∷ 0x35 ∷ 0x81 ∷ 0x02 ∷ [] in
    (if supports_rumble then append_pid_rumble_output descriptor else descriptor) ++ 0xC0 ∷ []

abbrev pub make_playstation_common_gamepad_descriptor_prefix : ℕ → List ℕ
make_playstation_common_gamepad_descriptor_prefix report_id =
    0x05 ∷ 0x01 ∷ 0x09 ∷ 0x05 ∷ 0xA1 ∷ 0x01 ∷ 0x85 ∷ report_id ∷ 0x09 ∷ 0x30 ∷ 0x09 ∷ 0x31 ∷ 0x09
    ∷ 0x32 ∷ 0x09 ∷ 0x35 ∷ 0x15 ∷ 0x00 ∷ 0x26 ∷ 0xFF ∷ 0x00 ∷ 0x75 ∷ 0x08 ∷ 0x95 ∷ 0x04 ∷ 0x81
    ∷ 0x02 ∷ 0x09 ∷ 0x39 ∷ 0x15 ∷ 0x00 ∷ 0x25 ∷ 0x07 ∷ 0x35 ∷ 0x00 ∷ 0x46 ∷ 0x3B ∷ 0x01 ∷ 0x65
    ∷ 0x14 ∷ 0x75 ∷ 0x04 ∷ 0x95 ∷ 0x01 ∷ 0x81 ∷ 0x42 ∷ 0x65 ∷ 0x00 ∷ 0x05 ∷ 0x09 ∷ 0x19 ∷ 0x01
    ∷ 0x29 ∷ 0x0E ∷ 0x15 ∷ 0x00 ∷ 0x25 ∷ 0x01 ∷ 0x75 ∷ 0x01 ∷ 0x95 ∷ 0x0E ∷ 0x81 ∷ 0x02 ∷ []
