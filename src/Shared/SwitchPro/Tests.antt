-- ===== src/Shared/SwitchPro/Tests.antt =====
-- The Switch Pro replies at concrete output reports.
use libvirtualhid.Base.{◌≡◌, ℕ, List, ◌∷◌, [], refl, some, arith, get_or, ltb, if◌then◌else◌, ◌+◌}
use libvirtualhid.Shared.SwitchPro.{make_switch_pro_reply, make_subcommand_reply, read_u32}
use libvirtualhid.Shared.SwitchPro.Replies.{flash, spi_read-flash}

-- A read of 9 bytes at 0x603C, one before the stick calibration.
abbrev spi_read : List ℕ
spi_read = 0x01 ∷ 0 ∷ 0 ∷ 0 ∷ 0 ∷ 0 ∷ 0 ∷ 0 ∷ 0 ∷ 0 ∷ 0x10 ∷ 0x3C ∷ 0x60 ∷ 0 ∷ 0 ∷ 9 ∷ []

spi_read-flash_example :
    (make_switch_pro_reply spi_read 7 ≡ some (make_subcommand_reply spi_read 7))
    × (get_or (make_subcommand_reply spi_read 7) (20 + 2) 0
        ≡ (if ltb 2 (get_or spi_read 15 0) then flash (read_u32 spi_read 11 + 2) else 0))
spi_read-flash_example = spi_read-flash spi_read 7 2 refl refl (omega arith) (omega arith)

-- The second byte of the calibration is at that place.
read_calibration : get_or (make_subcommand_reply spi_read 7) 22 0 ≡ 0xF7
read_calibration = spi_read-flash_example.1
