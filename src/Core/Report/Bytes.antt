-- ===== src/Core/Report/Bytes.antt =====
-- Reports as lists of bytes: the writes and reads of report.cpp. A store is a value, so that the body of
-- a packing function is the list of its stores, in its order.
use Prim.Native.Nat.{bit_and, bit_or}
use libvirtualhid.Base.{
  ℕ, zero, suc, ◌+◌, ◌*◌, ◌/◌, ◌%◌, ◌==◌, Bool, not, List, [], ◌∷◌, ◌++◌, if◌then◌else◌, get_or,
  set,
}

abbrev pub to_byte : ℕ → ℕ
to_byte value = value % 256

-- `byte` is report[offset] = value; `word` is write_u16, and write_i16 for the bits of an int16; `dword`
-- is write_u32; `flag` is `if (condition) add_flag(report, offset, value)`.
pub data Write : Type 0 where
  byte : ℕ → ℕ → Write
  word : ℕ → ℕ → Write
  dword : ℕ → ℕ → Write
  flag : Bool → ℕ → ℕ → Write

abbrev pub write_byte : List ℕ → ℕ → ℕ → List ℕ
write_byte report offset value = set report offset (to_byte value)

abbrev pub write_u16 : List ℕ → ℕ → ℕ → List ℕ
write_u16 report offset value =
    write_byte (write_byte report offset value) (offset + 1) (value / 256)

unfoldable pub write_u32 : List ℕ → ℕ → ℕ → List ℕ
write_u32 report offset value =
    write_byte
      (write_byte (write_byte (write_byte report offset value) (offset + 1) (value / 256))
        (offset + 2) (value / 65536))
      (offset + 3) (value / 16777216)

abbrev pub add_flag : List ℕ → ℕ → ℕ → List ℕ
add_flag report offset value = set report offset (bit_or (get_or report offset 0) value)

unfoldable pub write : List ℕ → Write → List ℕ
write report (Write.byte offset value) = write_byte report offset value
write report (Write.word offset value) = write_u16 report offset value
write report (Write.dword offset value) = write_u32 report offset value
write report (Write.flag condition offset value) =
    if condition then add_flag report offset (to_byte value) else report

unfoldable pub write_all : List ℕ → List Write → List ℕ
write_all report [] = report
write_all report (w ∷ ws) = write_all (write report w) ws

-- Bytes are numbers below 256, so that the disjunction of their shifts is a sum.
abbrev pub read_u16 : List ℕ → ℕ → ℕ
read_u16 report offset = get_or report offset 0 + 256 * get_or report (offset + 1) 0

unfoldable pub read_u32 : List ℕ → ℕ → ℕ
read_u32 report offset =
    get_or report offset 0
    + 256 * get_or report (offset + 1) 0
    + 65536 * get_or report (offset + 2) 0
    + 16777216 * get_or report (offset + 3) 0

abbrev pub append_u16 : List ℕ → ℕ → List ℕ
append_u16 report value = report ++ value % 256 ∷ value / 256 % 256 ∷ []

-- std::vector::resize.
unfoldable pub resize : List ℕ → ℕ → List ℕ
resize report zero = []
resize [] (suc size) = 0 ∷ resize [] size
resize (b ∷ report) (suc size) = b ∷ resize report size

abbrev pub has_flag : ℕ → ℕ → Bool
has_flag value mask = not (bit_and value mask == 0)
