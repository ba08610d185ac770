-- ===== src/Core/Profiles/Hid.antt =====
-- What a HID report descriptor declares, read as the HID specification says: independent of the code
-- that builds the descriptors.
use libvirtualhid.Base.{
  ℕ, zero, suc, ◌+◌, ◌*◌, ◌/◌, ◌%◌, ◌==◌, List, [], ◌∷◌, Option, none, some, if◌then◌else◌, length,
  drop,
}

-- The globals of the parser, and the bits of reports seen so far with the report's identifier.
pub record Parser : Type 0 where
  pub report_size : ℕ
  pub report_count : ℕ
  pub report_id : ℕ

-- A short item: its tag and type, the six high bits of the prefix, and its data, 0, 1, 2 or 4 bytes,
-- the lowest first.
abbrev data_size : ℕ → ℕ
data_size prefix = if prefix % 4 == 3 then 4 else prefix % 4

abbrev little_endian : ℕ → List ℕ → ℕ
little_endian zero bytes = 0
little_endian (suc n) [] = 0
little_endian (suc n) (byte ∷ bytes) = byte + 256 * little_endian n bytes

-- Report Size, Report Count and Report ID are global items.
abbrev set_global : ℕ → ℕ → Parser → Parser
set_global tag value p =
    if tag == 0x74
    then record p { report_size = value }
    else if tag == 0x94
    then record p { report_count = value }
    else if tag == 0x84
    then record p { report_id = value }
    else p

-- The bits of the main items `main` of a report. The fuel bounds the number of items.
abbrev bits_of : ℕ → ℕ → ℕ → Parser → List ℕ → ℕ
bits_of zero main id p bytes = 0
bits_of (suc fuel) main id p [] = 0
bits_of (suc fuel) main id p (prefix ∷ rest) =
    let value = little_endian (data_size prefix) rest in
    let tag = prefix / 4 * 4 in
    let next = set_global tag value p in
    let others = bits_of fuel main id next (drop (data_size prefix) rest) in
    if tag == main
    then (if p.report_id == id then p.report_size * p.report_count else 0) + others
    else others

-- The identifier of the first report with a main item `main`.
abbrev first_id : ℕ → ℕ → Parser → List ℕ → Option ℕ
first_id zero main p bytes = none
first_id (suc fuel) main p [] = none
first_id (suc fuel) main p (prefix ∷ rest) =
    let value = little_endian (data_size prefix) rest in
    let tag = prefix / 4 * 4 in
    let found = first_id fuel main (set_global tag value p) (drop (data_size prefix) rest) in
    if tag == main then some p.report_id else found

abbrev start : Parser
start = record { report_size = 0; report_count = 0; report_id = 0 }

-- The tags of the main items.
abbrev pub input_item : ℕ
input_item = 0x80

abbrev pub output_item : ℕ
output_item = 0x90

abbrev pub report_bits : ℕ → ℕ → List ℕ → ℕ
report_bits main id descriptor = bits_of (length descriptor) main id start descriptor

abbrev pub first_report : ℕ → List ℕ → Option ℕ
first_report main descriptor = first_id (length descriptor) main start descriptor

-- The bytes of a report on the wire: the identifier is a byte of its own unless it is 0.
abbrev pub header_bytes : ℕ → ℕ
header_bytes id = if id == 0 then 0 else 1

abbrev pub feature_item : ℕ
feature_item = 0xB0
