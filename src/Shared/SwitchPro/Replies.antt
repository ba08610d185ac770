-- ===== src/Shared/SwitchPro/Replies.antt =====
-- The reads of the SPI flash against an image of the flash.
use libvirtualhid.Base.{
  ℕ, zero, suc, ◌+◌, ◌-◌, ◌≤◌, ◌<◌, ◌≡◌, ◌∙◌, ◌==◌, ◌&&◌, inr, refl, List, [], ◌∷◌, All, get_or,
  get_or-set_ne, set, length, replicate, take, drop, if◌then◌else◌, if-cases, ltb, leb, arith, some,
}
use libvirtualhid.Shared.SwitchPro.{
  copy_to, copy_spi_data, factory_stick_calibration, factory_imu_calibration, read_u32,
  set_spi_reply, make_subcommand_reply, make_switch_pro_reply, store_all,
  set_neutral_controller_state, blank, acknowledgement,
}
use libvirtualhid.Shared.SwitchPro.Copies.{length-copy_to, get_or-copy_to_out, length-take}
use libvirtualhid.Shared.SwitchPro.Flash.{length-copy_spi_data, copy_spi_data-in, copy_spi_data-out}

-- The bytes of the flash: the stick calibration at 0x603D, the motion calibration at 0x6020, and zeros.
abbrev pub flash : ℕ → ℕ
flash a =
    if leb 0x603D a && ltb a (0x603D + 18)
    then get_or factory_stick_calibration (a - 0x603D) 0
    else if leb 0x6020 a && ltb a (0x6020 + 24)
    then get_or factory_imu_calibration (a - 0x6020) 0
    else 0

-- A copy as one equation.
abbrev window : ℕ → List ℕ → ℕ → ℕ → ℕ
window start bytes a other =
    if leb start a && ltb a (start + length bytes) then get_or bytes (a - start) 0 else other

copy_spi_data-window :
    (r : List ℕ) (address size start : ℕ) (bytes : List ℕ) (i : ℕ)
    → 20 + i < length r
    → get_or (copy_spi_data r address size start bytes) (20 + i) 0 ≡ (
        if ltb i size
        then window start bytes (address + i) (get_or r (20 + i) 0)
        else get_or r (20 + i) 0)
copy_spi_data-window r address size start bytes i h = ground (
  arith,
  copy_spi_data-in r address size start bytes i,
  copy_spi_data-out r address size start bytes i,
)

set_spi_reply-flash :
    (r output_report : List ℕ) (i : ℕ)
    → 20 + i < length r
    → get_or r (20 + i) 0 ≡ 0
    → get_or (set_spi_reply r output_report) (20 + i) 0
      ≡ (if ltb i (get_or output_report 15 0) then flash (read_u32 output_report 11 + i) else 0)
unfolding set_spi_reply
set_spi_reply-flash r output_report i h z =
    let address = read_u32 output_report 11 in
    let size = get_or output_report 15 0 in
    let echo = take 5 (drop 11 output_report) in
    let echoed = copy_to r 15 echo in
    let first = copy_spi_data echoed address size 0x603D factory_stick_calibration in
    ground (
      arith,
      length-take 5 (drop 11 output_report),
      get_or-copy_to_out r 15 echo (20 + i)
          (inr (omega (arith, length-take 5 (drop 11 output_report)))),
      copy_spi_data-window first address size 0x6020 factory_imu_calibration i (
          omega (
            arith,
            length-copy_spi_data echoed address size 0x603D factory_stick_calibration,
            length-copy_to r 15 echo,
          )),
      copy_spi_data-window echoed address size 0x603D factory_stick_calibration i
          (omega (arith, length-copy_to r 15 echo)),
    )

-- Stores and zeros, away from the stores.
get_or-store_all :
    (r : List ℕ) (stores : List (ℕ × ℕ)) (j : ℕ)
    → All (λ s. s.0 < j) stores
    → get_or (store_all r stores) j 0 ≡ get_or r j 0
get_or-store_all r [] j a = refl
get_or-store_all r (s ∷ stores) j a =
    get_or-store_all (set r s.0 s.1) stores j a.1
    ∙ get_or-set_ne r s.0 j s.1 0 (λ e. omega (arith, a.0))

abbrev zeros : ℕ → List ℕ
zeros n = replicate n 0

get_or-zeros : (n j : ℕ) → get_or (zeros n) j 0 ≡ 0
get_or-zeros zero j = refl
get_or-zeros (suc n) zero = refl
get_or-zeros (suc n) (suc j) = get_or-zeros n j

module _ (timer subcommand : ℕ) where
  -- The reply before the data of its subcommand.
  abbrev header : List ℕ
  header =
      store_all (set_neutral_controller_state (set blank 0 0x21) timer)
        ((13, acknowledgement subcommand) ∷ (14, subcommand) ∷ [])

  length-header : length header ≡ 64
  length-header = refl

  header-zero : (i : ℕ) → get_or header (20 + i) 0 ≡ 0
  header-zero i =
      get_or-store_all (set_neutral_controller_state (set blank 0 0x21) timer)
        ((13, acknowledgement subcommand) ∷ (14, subcommand) ∷ []) (20 + i) (ground arith)
      ∙ get_or-store_all (set blank 0 0x21)
          ((1, timer)
            ∷ (2, 0x81)
            ∷ (6, 0x00)
            ∷ (7, 0x08)
            ∷ (8, 0x80)
            ∷ (9, 0x00)
            ∷ (10, 0x08)
            ∷ (11, 0x80)
            ∷ [])
          (20 + i) (ground arith)
      ∙ get_or-set_ne blank 0 (20 + i) 0x21 0 (λ e. omega arith)
      ∙ get_or-zeros 64 (20 + i)

-- A read of the SPI flash is answered, and the answer holds the bytes of the flash: at each of the 44
-- places of its data is the byte at the requested address and on, up to the requested size, and 0 after
-- it. The output report is a read of at least 16 bytes.
pub spi_read-flash :
    (output_report : List ℕ) (timer i : ℕ)
    → get_or output_report 0 0 ≡ 0x01
    → get_or output_report 10 0 ≡ 0x10
    → 16 ≤ length output_report
    → i < 44
    → (make_switch_pro_reply output_report timer ≡ some (make_subcommand_reply output_report timer))
      × (get_or (make_subcommand_reply output_report timer) (20 + i) 0 ≡ (
          if ltb i (get_or output_report 15 0) then flash (read_u32 output_report 11 + i) else 0))
unfolding make_switch_pro_reply make_subcommand_reply
spi_read-flash output_report timer i first subcommand h k =
    let begun = header timer (get_or output_report 10 0) in
    let read =
      set_spi_reply-flash begun output_report i (omega arith)
        (header-zero timer (get_or output_report 10 0) i) in
    (
      ground arith,
      if-cases
          (λ (s : List ℕ). get_or s (20 + i) 0 ≡ (
            if ltb i (get_or output_report 15 0) then flash (read_u32 output_report 11 + i) else 0))
          (get_or output_report 10 0 == 0x10) (λ _. read) (λ e. absurd (ground arith)),
    )
