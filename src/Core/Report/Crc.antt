-- ===== src/Core/Report/Crc.antt =====
-- The checksum of report.cpp.
use Prim.Native.Nat.{bit_xor}
use libvirtualhid.Base.{
  ℕ, zero, suc, ◌-◌, ◌/◌, ◌%◌, ◌==◌, List, [], ◌∷◌, if◌then◌else◌, ltb, length, take,
}
use libvirtualhid.Core.Report.Bytes.{write_u32}

-- `0xEDB88320 & mask`, where the mask is all ones or all zeros by the lowest bit.
abbrev pub crc_bit : ℕ → ℕ
crc_bit crc = bit_xor (crc / 2) (if crc % 2 == 1 then 0xEDB88320 else 0)

abbrev pub crc_bits : ℕ → ℕ → ℕ
crc_bits zero crc = crc
crc_bits (suc n) crc = crc_bits n (crc_bit crc)

abbrev pub crc_bytes : List ℕ → ℕ → ℕ
crc_bytes [] crc = crc
crc_bytes (value ∷ buffer) crc = crc_bytes buffer (crc_bits 8 (bit_xor crc value))

unfoldable pub crc32 : List ℕ → ℕ → ℕ
crc32 buffer seed = bit_xor (crc_bytes buffer (bit_xor seed 0xFFFFFFFF)) 0xFFFFFFFF

unfoldable pub playstation_crc_seed : ℕ → ℕ
playstation_crc_seed seed = crc32 (seed ∷ []) 0

unfoldable pub write_playstation_crc : List ℕ → ℕ → List ℕ
write_playstation_crc report seed =
    let crc_offset = length report - 4 in
    if ltb (length report) 4
    then report
    else write_u32 report crc_offset (crc32 (take crc_offset report) (playstation_crc_seed seed))
