-- ===== src/Shared/SwitchPro.antt =====
-- The replies of a Switch Pro controller, of switch_pro_protocol.hpp. The packet timer is an argument.
pub mod Copies
pub mod Flash
pub mod Replies
mod Tests
use mathlib.Core.List.{reverse}
use libvirtualhid.Base.{
  ℕ, zero, suc, ◌+◌, ◌-◌, ◌*◌, ◌%◌, ◌==◌, ◌&&◌, ◌||◌, Bool, not, List, [], ◌∷◌, Option, none, some,
  get_or, set, replicate, length, take, drop, if◌then◌else◌, ltb, leb, min, max,
}

abbrev pub switch_pro_report_size : ℕ
switch_pro_report_size = 64

abbrev pub controller_mac : List ℕ
controller_mac = 0x02 ∷ 0x00 ∷ 0x00 ∷ 0x00 ∷ 0x00 ∷ 0x01 ∷ []

abbrev pub factory_stick_calibration : List ℕ
factory_stick_calibration =
    0xFF ∷ 0xF7 ∷ 0x7F ∷ 0x00 ∷ 0x08 ∷ 0x80 ∷ 0xFF ∷ 0xF7 ∷ 0x7F ∷ 0x00 ∷ 0x08 ∷ 0x80 ∷ 0xFF ∷ 0xF7
    ∷ 0x7F ∷ 0xFF ∷ 0xF7 ∷ 0x7F ∷ []

abbrev pub factory_imu_calibration : List ℕ
factory_imu_calibration =
    0x00 ∷ 0x00 ∷ 0x00 ∷ 0x00 ∷ 0x00 ∷ 0x00 ∷ 0x00 ∷ 0x40 ∷ 0x00 ∷ 0x40 ∷ 0x00 ∷ 0x40 ∷ 0x00 ∷ 0x00
    ∷ 0x00 ∷ 0x00 ∷ 0x00 ∷ 0x00 ∷ 0x3B ∷ 0x34 ∷ 0x3B ∷ 0x34 ∷ 0x3B ∷ 0x34 ∷ []

-- std::copy_n, of all of a list, to an offset; what does not fit is left out.
unfoldable pub copy_to : List ℕ → ℕ → List ℕ → List ℕ
copy_to [] offset bytes = []
copy_to (x ∷ report) (suc offset) bytes = x ∷ copy_to report offset bytes
copy_to (x ∷ report) zero [] = x ∷ report
copy_to (x ∷ report) zero (byte ∷ bytes) = byte ∷ copy_to report zero bytes

-- Bytes are numbers below 256, so that the disjunction of their shifts is a sum.
abbrev pub read_u32 : List ℕ → ℕ → ℕ
read_u32 report offset =
    get_or report offset 0
    + 256 * get_or report (offset + 1) 0
    + 65536 * get_or report (offset + 2) 0
    + 16777216 * get_or report (offset + 3) 0

-- The part of `bytes`, at `data_address`, that lies in the requested range. The sums have 64 bits.
unfoldable pub copy_spi_data : List ℕ → ℕ → ℕ → ℕ → List ℕ → List ℕ
copy_spi_data reply requested_address requested_size data_address bytes =
    let copy_begin = max requested_address data_address in
    let copy_end = min (requested_address + requested_size) (data_address + length bytes) in
    let destination_offset = 20 + (copy_begin - requested_address) in
    let copy_size = min (copy_end - copy_begin) (length reply - destination_offset) in
    if leb copy_end copy_begin
    then reply
    else if leb (length reply) destination_offset
    then reply
    else copy_to reply destination_offset (take copy_size (drop (copy_begin - data_address) bytes))

-- Stores, of an offset and a byte, in their order.
abbrev pub store_all : List ℕ → List (ℕ × ℕ) → List ℕ
store_all reply [] = reply
store_all reply (s ∷ stores) = store_all (set reply s.0 s.1) stores

abbrev pub set_neutral_controller_state : List ℕ → ℕ → List ℕ
set_neutral_controller_state reply timer = store_all reply (
    (1, timer)
    ∷ (2, 0x81)
    ∷ (6, 0x00)
    ∷ (7, 0x08)
    ∷ (8, 0x80)
    ∷ (9, 0x00)
    ∷ (10, 0x08)
    ∷ (11, 0x80)
    ∷ [])

unfoldable pub set_spi_reply : List ℕ → List ℕ → List ℕ
set_spi_reply reply output_report =
    let address = read_u32 output_report 11 in
    let size = get_or output_report 15 0 in
    let echoed = copy_to reply 15 (take 5 (drop 11 output_report)) in
    copy_spi_data (copy_spi_data echoed address size 0x603D factory_stick_calibration) address size
      0x6020 factory_imu_calibration

unfoldable pub set_device_info_reply : List ℕ → List ℕ
set_device_info_reply reply =
    store_all
      (copy_to (store_all reply ((15, 0x04) ∷ (16, 0x33) ∷ (17, 0x03) ∷ (18, 0x02) ∷ [])) 19
        controller_mac)
      ((25, 0x01) ∷ (26, 0x01) ∷ [])

abbrev pub blank : List ℕ
blank = replicate switch_pro_report_size 0

-- The reply to a report of the USB protocol, with the identifier 0x80.
unfoldable pub make_usb_reply : List ℕ → Option (List ℕ)
make_usb_reply output_report =
    let command = get_or output_report 1 0 in
    let reply = set (set blank 0 0x81) 1 command in
    if ltb (length output_report) 2 || command == 0x04
    then none
    else if command == 0x01
    then some (copy_to (set reply 3 0x03) 4 (reverse controller_mac))
    else some reply

abbrev pub acknowledgement : ℕ → ℕ
acknowledgement subcommand =
    if subcommand == 0x10 then 0x90 else if subcommand == 0x02 then 0x82 else 0x80

unfoldable pub make_subcommand_reply : List ℕ → ℕ → List ℕ
make_subcommand_reply output_report timer =
    let subcommand = get_or output_report 10 0 in
    let reply =
      store_all (set_neutral_controller_state (set blank 0 0x21) timer)
        ((13, acknowledgement subcommand) ∷ (14, subcommand) ∷ []) in
    if subcommand == 0x10
    then set_spi_reply reply output_report
    else if subcommand == 0x02
    then set_device_info_reply reply
    else reply

unfoldable pub make_switch_pro_reply : List ℕ → ℕ → Option (List ℕ)
make_switch_pro_reply output_report timer =
    let size = length output_report in
    let first = get_or output_report 0 0 in
    if size == 0
    then none
    else if first == 0x80
    then make_usb_reply output_report
    else if not (first == 0x01) || ltb size 11
    then none
    else if get_or output_report 10 0 == 0x10 && ltb size 16
    then none
    else some (make_subcommand_reply output_report timer)
