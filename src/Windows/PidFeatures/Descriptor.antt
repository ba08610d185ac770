-- ===== src/Windows/PidFeatures/Descriptor.antt =====
-- make_generic_pid_report_descriptor of generic_pid_protocol.hpp: the generic gamepad's report descriptor
-- with the block of force feedback reports. Its hexadecimal text is cut into pieces of another length.
use Prim.Native.Char.{Char, code}
use Prim.Native.String.{String, ◌++◌ as ◌<>◌}
use libvirtualhid.Base.{
  ℕ, ◌+◌, ◌-◌, ◌*◌, ◌==◌, ◌&&◌, ◌||◌, Bool, true, false, not, List, [], ◌∷◌, ◌++◌, Option, none,
  some, get_or, set, length, if◌then◌else◌, leb, ltb,
}

abbrev pub legacy_rumble_prefix : List ℕ
legacy_rumble_prefix = 0xA1 ∷ 0x02 ∷ 0x05 ∷ 0x0F ∷ 0x09 ∷ 0x97 ∷ []

abbrev pub gamepad_collection_prefix : List ℕ
gamepad_collection_prefix = 0x05 ∷ 0x01 ∷ 0x09 ∷ 0x05 ∷ 0xA1 ∷ 0x01 ∷ []

abbrev pub hex_nibble : Char → Option ℕ
hex_nibble value =
    if leb 48 (code value) && leb (code value) 57
    then some (code value - 48)
    else if leb 65 (code value) && leb (code value) 70
    then some (code value - 65 + 10)
    else if leb 97 (code value) && leb (code value) 102
    then some (code value - 97 + 10)
    else none

-- A nibble is kept until the next; other characters are left out.
abbrev pub next_nibble : Option ℕ → Option ℕ → Option ℕ × List ℕ
next_nibble high none = (high, [])
next_nibble none (some nibble) = (some nibble, [])
next_nibble (some high) (some nibble) = (none, (high * 16 + nibble) ∷ [])

-- The bytes that the loop appends, with the nibble that is kept.
abbrev pub hex_bytes : Option ℕ → String → List ℕ
hex_bytes high String.[] = []
hex_bytes high (String.◌∷◌ character hex) =
    let step = next_nibble high (hex_nibble character) in step.1 ++ hex_bytes step.0 hex

abbrev pub append_hex : List ℕ → String → List ℕ
append_hex target hex = target ++ hex_bytes none hex

abbrev pub starts_with : List ℕ → List ℕ → Bool
starts_with [] source = true
starts_with (x ∷ pattern) [] = false
starts_with (x ∷ pattern) (y ∷ source) = x == y && starts_with pattern source

abbrev pub cons_before : ℕ → Option (List ℕ) → Option (List ℕ)
cons_before x none = none
cons_before x (some before) = some (x ∷ before)

-- What stands before the first place of a pattern, found as by std::ranges::search.
abbrev pub before_first : List ℕ → List ℕ → Option (List ℕ)
before_first pattern [] = none
before_first pattern (x ∷ source) =
    let rest = before_first pattern source in
    if starts_with pattern (x ∷ source) then some [] else cons_before x rest

abbrev pub force_feedback_block : String
force_feedback_block =
    "050F0921A1028511092215012528350145287508950191020925A10209260927093009310932093309340940"
    <> "0941094209430929250C15013501450C750895019100C009500954095109A7150026FF7F350046FF7F660310"
    <> "55FD75109504910255006600000952150026FF00350046102775089501910209531501250835014508750895"
    <> "0191020955A10205010930093115002501750195029102C0050F095695019102950591030957A1020B01000A"
    <> "000B02000A0066140055FE150027FF7F0000350047A08C00006600007510950291025500660000C0050F0958"
    <> "A1020B01000A000B02000A0026FD7F751095029102C0C0095AA1028512092215012528350145287508950191"
    <> "02095B095D160000261027360000461027751095029102095C095E66031055FD27FF7F000047FF7F00007520"
    <> "910245006600005500C0095FA102851309221501252835014528750895019102092315002503350045037504"
    <> "950191020958A1020B01000A000B02000A00750295029102C016F0D826102736F0D846102709607510950191"
    <> "0236F0D846102709610962950291021600002610273600004610270963096475109502910209651600002610"
    <> "2736000046102795019102C0096EA10285140922150125283501452875089501910209701600002610273600"
    <> "00461027751095019102096F16F0D826102736F0D8461027950175109102097166140055FE1500279F8C0000"
    <> "3500479F8C00007510950191020972150027FF7F0000350047FF7F000066031055FD75209501910266000055"
    <> "00C00973A102851509221501252835014528750895019102097016F0D826102736F0D8461027751095019102"
    <> "C00974A1028516092215012528350145287508950191020975097616F0D826102736F0D84610277510950291"
    <> "02C00968A102851709221501252835014528750895019102096C150026102735004610277510950191020969"
    <> "1581257F350046FF007508950C920201C00966A10285180501093009311581257F350046FF00750895029102"
    <> "C0050F0977A102851A092215012528350145287508950191020978A1020979097A097B150125037508950191"
    <> "00C0097C150026FF00350046FF009102C00990A102851B09222528150135014528750895019102C00996A102"
    <> "851C099709980999099A099B099C15012506750895019100C0097DA102851D097E150026FF00350046102775"
    <> "0895019102C0096BA102851E09221501252835014528750895019102096D150026FF00350046FF0075089501"
    <> "9102095166031055FD150026FF7F350046FF7F7510950191025500660000C009ABA10285110925A102092609"
    <> "270930093109320933093409400941094209430929250C15013501450C75089501B100C00501093B150026FF"
    <> "01350046FF01750A9501B1027506B101C0"

abbrev pub with_block : Option (List ℕ) → List ℕ
with_block none = []
with_block (some before) = append_hex (set before 3 0x04) force_feedback_block ++ (0xC0 ∷ [])

unfoldable pub make_generic_pid_report_descriptor : List ℕ → List ℕ
make_generic_pid_report_descriptor source =
    if ltb (length source) (length gamepad_collection_prefix + 1)
      || not (starts_with gamepad_collection_prefix source)
      || not (get_or source (length source - 1) 0 == 0xC0)
    then []
    else with_block (before_first legacy_rumble_prefix source)
