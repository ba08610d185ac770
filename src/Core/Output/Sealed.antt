-- ===== src/Core/Output/Sealed.antt =====
-- The Bluetooth output reports of the PlayStation gamepads, with their checksum.
use libvirtualhid.Base.{
  ℕ, ◌+◌, ◌-◌, ◌≤◌, ◌<◌, ◌≡◌, ◌∙◌, ◌==◌, ==_iff, refl, true, List, All, length, get_or,
  get_or-set_ne, if◌then◌else◌, if-cases, ltb, some, none, arith,
}
use libvirtualhid.Core.Report.Bytes.{has_flag, write_u32}
use libvirtualhid.Core.Report.Crc.{write_playstation_crc}
use libvirtualhid.Core.Report.Sealed.{length-write_u32, write_playstation_crc-IsSealed}
use libvirtualhid.Core.Output.Sony.{
  crc_matches, dualshock4_common_output_offset, dualsense_common_output_offset,
}

-- The checksum changes neither the size nor the bytes before the last four.
pub length-write_playstation_crc :
    (r : List ℕ) (seed : ℕ) → length (write_playstation_crc r seed) ≡ length r
unfolding write_playstation_crc
length-write_playstation_crc r seed =
    if-cases (λ (s : List ℕ). length s ≡ length r) (ltb (length r) 4) (λ _. refl)
      (λ _. length-write_u32 r _ _)

get_or-write_u32 : (r : List ℕ) (o v i : ℕ) → i < o → get_or (write_u32 r o v) i 0 ≡ get_or r i 0
unfolding write_u32
get_or-write_u32 r o v i h =
    get_or-set_ne _ (o + 3) i _ 0 (λ e. omega arith)
    ∙ get_or-set_ne _ (o + 2) i _ 0 (λ e. omega arith)
    ∙ get_or-set_ne _ (o + 1) i _ 0 (λ e. omega arith)
    ∙ get_or-set_ne r o i _ 0 (λ e. omega arith)

get_or-write_playstation_crc :
    (r : List ℕ) (seed i : ℕ)
    → i + 4 < length r
    → get_or (write_playstation_crc r seed) i 0 ≡ get_or r i 0
unfolding write_playstation_crc
get_or-write_playstation_crc r seed i h =
    if-cases (λ (s : List ℕ). get_or s i 0 ≡ get_or r i 0) (ltb (length r) 4) (λ _. refl)
      (λ _. get_or-write_u32 r (length r - 4) _ i (omega arith))

crc_matches-write :
    (r : List ℕ)
    → 78 ≤ length r
    → All (λ b. b < 256) r
    → crc_matches (write_playstation_crc r 0xA2) ≡ true
crc_matches-write r h a =
    (==_iff _ _).1 (write_playstation_crc-IsSealed r 0xA2 (omega arith) a (omega arith))

-- An output report of at least 78 bytes that is sealed with the header 0xA2 is never refused for its
-- checksum: its first byte, the report identifier, alone decides whether its payload is found. A DualSense
-- finds it after one byte over USB and after two or three over Bluetooth, by the flag in the second byte;
-- a DualShock 4 after one over USB and after three over Bluetooth.
pub sealed_output-offset :
    (r : List ℕ)
    → 78 ≤ length r
    → All (λ b. b < 256) r
    → (dualsense_common_output_offset (write_playstation_crc r 0xA2) ≡ (
        if get_or r 0 0 == 0x02
        then some 1
        else if get_or r 0 0 == 0x31
        then some (if has_flag (get_or r 1 0) 0x02 then 2 else 3)
        else none))
      × (dualshock4_common_output_offset (write_playstation_crc r 0xA2) ≡ (
          if get_or r 0 0 == 0x05 then some 1 else if get_or r 0 0 == 0x11 then some 3 else none))
unfolding dualsense_common_output_offset dualshock4_common_output_offset
sealed_output-offset r h a = ground (
  arith,
  length-write_playstation_crc r 0xA2,
  get_or-write_playstation_crc r 0xA2 0 (omega arith),
  get_or-write_playstation_crc r 0xA2 1 (omega arith),
  crc_matches-write r h a,
)
