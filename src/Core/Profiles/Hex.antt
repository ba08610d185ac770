-- ===== src/Core/Profiles/Hex.antt =====
-- The hexadecimal report descriptors of profiles.cpp: the Xbox GIP and Switch Pro gamepads. The bytes of
-- the texts are their characters, which are all ASCII.
use Prim.Native.Char.{Char, code}
use Prim.Native.String.{String, ◌++◌ as ◌<>◌}
use libvirtualhid.Base.{ℕ, ◌+◌, ◌-◌, ◌*◌, List, [], ◌∷◌, Bool, ◌&&◌, leb, if◌then◌else◌}

-- 48 is '0', 57 '9', 65 'A', 70 'F', 97 'a', 102 'f'.
abbrev hex_nibble : Char → ℕ
hex_nibble digit =
    if leb 48 (code digit) && leb (code digit) 57
    then code digit - 48
    else if leb 65 (code digit) && leb (code digit) 70
    then code digit - 65 + 10
    else if leb 97 (code digit) && leb (code digit) 102
    then code digit - 97 + 10
    else 0

-- A nibble shifted by 4 and another have no bit in common: their disjunction is a sum.
abbrev byte_from_hex : Char → Char → ℕ
byte_from_hex high low = hex_nibble high * 16 + hex_nibble low

-- A last single character gives no byte.
abbrev bytes_from_hex : String → List ℕ
bytes_from_hex (String.◌∷◌ high (String.◌∷◌ low hex)) = byte_from_hex high low ∷ bytes_from_hex hex
bytes_from_hex _ = []

-- The hexadecimal texts, in the pieces the code writes them in.
abbrev xbox_one_descriptor : String
xbox_one_descriptor =
    "05010905a101a10009300931150027ffff0000950275108102c0a10009330934150027ffff0000950275108102c0"
    <> "05010932150026ff039501750a81021500250075069501810305010935150026ff039501750a8102150025007506"
    <> "9501810305091901290a950a750181021500250075069501810305010939150125083500463b0166140075049501"
    <> "814275049501150025003500450065008103a102050f099715002501750495019102150025009103097015002564"
    <> "7508950491020950660110550e26ff009501910209a7910265005500097c9102c005010980a100098515002501"
    <> "95017501810215002500750795018103c005060920150026ff00750895018102c0"

abbrev xbox_series_descriptor : String
xbox_series_descriptor =
    "05010905a101a10009300931150027ffff0000950275108102c0a10009330934150027ffff0000950275108102c0"
    <> "05010932150026ff039501750a81021500250075069501810305010935150026ff039501750a8102150025007506"
    <> "9501810305091901290c950c750181021500250075049501810305010939150125083500463b0166140075049501"
    <> "814275049501150025003500450065008103a102050f099715002501750495019102150025009103097015002564"
    <> "7508950491020950660110550e26ff009501910209a7910265005500097c9102c005010980a100098515002501"
    <> "95017501810215002500750795018103c005060920150026ff00750895018102c0"

abbrev switch_pro_descriptor : String
switch_pro_descriptor =
    "050115000904a1018530050105091901290a150025017501950a5500650081020509190b290e150025017501"
    <> "950481027501950281030b01000100a1000b300001000b310001000b320001000b35000100150027ffff0000"
    <> "751095048102c00b39000100150025073500463b0165147504950181020509190f291215002501750195048102"
    <> "7508953481030600ff852109017508953f8103858109027508953f8103850109037508953f9183851009047508"
    <> "953f9183858009057508953f9183858209067508953f9183c0"

unfoldable pub make_xbox_gip_report_descriptor : Bool → List ℕ
make_xbox_gip_report_descriptor include_share_button =
    bytes_from_hex (if include_share_button then xbox_series_descriptor else xbox_one_descriptor)

unfoldable pub make_switch_pro_report_descriptor : List ℕ
make_switch_pro_report_descriptor = bytes_from_hex switch_pro_descriptor
