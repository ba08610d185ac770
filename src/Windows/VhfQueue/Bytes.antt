-- ===== src/Windows/VhfQueue/Bytes.antt =====
-- The signed bytes and words of a mouse report: `mouse_i16`, `mouse_i8`, `set_mouse_i16` of
-- vhf_input_report_queue.hpp. Bytes are numbers below 256, so that `low | (high << 8)` is a sum.
use libvirtualhid.Base.{ℕ, ◌+◌, ◌-◌, ◌*◌, ◌/◌, ◌%◌, ◌≡◌, arith, leb, if◌then◌else◌, List, set}
use libvirtualhid.Base.Int.{ℤ, pos, negsuc, sub_ℕ, ◌≤ℤ◌}

unfoldable pub mouse_i16 : ℕ → ℕ → ℤ
mouse_i16 low high =
    let value = low + 256 * high in if leb 0x8000 value then sub_ℕ value 0x10000 else pos value

unfoldable pub mouse_i8 : ℕ → ℤ
mouse_i8 value = if leb 0x80 value then sub_ℕ value 0x100 else pos value

-- static_cast<std::uint16_t>(static_cast<std::int16_t>(value))
abbrev pub word_16 : ℤ → ℕ
word_16 (pos n) = n % 65536
word_16 (negsuc n) = 65535 - n % 65536

-- static_cast<std::uint8_t>(static_cast<std::int8_t>(value))
unfoldable pub byte_8 : ℤ → ℕ
byte_8 (pos n) = n % 256
byte_8 (negsuc n) = 255 - n % 256

unfoldable pub i16_low : ℤ → ℕ
i16_low value = word_16 value % 256

unfoldable pub i16_high : ℤ → ℕ
i16_high value = word_16 value / 256 % 256

unfoldable pub set_mouse_i16 : List ℕ → ℕ → ℤ → List ℕ
set_mouse_i16 report offset value =
    set (set report offset (i16_low value)) (offset + 1) (i16_high value)

-- The two bytes written for a value of the 16-bit range read back as the value.
pub mouse_i16_round_trip :
    (v : ℤ) → negsuc 32767 ≤ℤ v → v ≤ℤ pos 32767 → mouse_i16 (i16_low v) (i16_high v) ≡ v
unfolding mouse_i16 i16_low i16_high
mouse_i16_round_trip (pos n) lo hi = ground arith
mouse_i16_round_trip (negsuc n) lo hi = ground arith

pub mouse_i8_round_trip : (v : ℤ) → negsuc 127 ≤ℤ v → v ≤ℤ pos 127 → mouse_i8 (byte_8 v) ≡ v
unfolding mouse_i8 byte_8
mouse_i8_round_trip (pos n) lo hi = ground arith
mouse_i8_round_trip (negsuc n) lo hi = ground arith
