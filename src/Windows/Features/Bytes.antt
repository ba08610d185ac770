-- ===== src/Windows/Features/Bytes.antt =====
-- The payloads of the feature reports are bytes, the addresses in them included.
use libvirtualhid.Base.{
  ℕ, zero, suc, ◌≤◌, ◌<◌, ◌≡◌, ◌==◌, true, List, [], ◌∷◌, All, length, Option, none, some, if-cases,
  arith, all, ltb,
}
use mathlib.Core.List.{reverse, reverse_aux}
use libvirtualhid.Shared.SwitchPro.{copy_to}
use libvirtualhid.Shared.SwitchPro.Copies.{length-copy_to}
use libvirtualhid.Windows.Protocol.{CreateDeviceRequest}
use libvirtualhid.Windows.Features.{
  set_pairing_mac, hex_digit, hex_pair, cons_byte, parse_bytes, mac_or, generated_mac_address,
  request_mac_address,
}

-- A payload is made of bytes and has room for a checksum.
abbrev pub IsPayload : List ℕ → Type 0
IsPayload report = (4 ≤ length report) × All (λ b. b < 256) report

pub bytes_of : (xs : List ℕ) → all (λ b. ltb b 256) xs ≡ true → All (λ b. b < 256) xs
bytes_of [] h = tt
bytes_of (x ∷ xs) h = (ground arith, bytes_of xs (ground arith))

-- The bytes of a pairing report: a template, with the address reversed.
reverse_aux-All :
    (xs ys : List ℕ)
    → All (λ b. b < 256) xs
    → All (λ b. b < 256) ys
    → All (λ b. b < 256) (reverse_aux xs ys)
reverse_aux-All [] ys a b = b
reverse_aux-All (x ∷ xs) ys a b = reverse_aux-All xs (x ∷ ys) a.1 (a.0, b)

copy_to-All :
    (r : List ℕ) (o : ℕ) (bytes : List ℕ)
    → All (λ b. b < 256) r
    → All (λ b. b < 256) bytes
    → All (λ b. b < 256) (copy_to r o bytes)
unfolding copy_to
copy_to-All [] o bytes a b = tt
copy_to-All (x ∷ r) (suc o) bytes a b = (a.0, copy_to-All r o bytes a.1 b)
copy_to-All (x ∷ r) zero [] a b = a
copy_to-All (x ∷ r) zero (y ∷ bytes) a b = (b.0, copy_to-All r zero bytes a.1 b.1)

abbrev AreBytes : Option (List ℕ) → Type 0
AreBytes none = Unit
AreBytes (some bytes) = All (λ b. b < 256) bytes

abbrev IsByte : Option ℕ → Type 0
IsByte none = Unit
IsByte (some byte) = byte < 256

abbrev IsNibble : Option ℕ → Type 0
IsNibble none = Unit
IsNibble (some digit) = digit < 16

hex_digit-IsNibble : (c : ℕ) → IsNibble (hex_digit c)
hex_digit-IsNibble c = ground arith

hex_pair-IsByte : (h l : Option ℕ) → IsNibble h → IsNibble l → IsByte (hex_pair h l)
hex_pair-IsByte (some h) (some l) a b = omega arith
hex_pair-IsByte (some h) none a b = tt
hex_pair-IsByte none l a b = tt

cons_byte-AreBytes :
    (o : Option ℕ) (rest : Option (List ℕ)) → IsByte o → AreBytes rest → AreBytes (cons_byte o rest)
cons_byte-AreBytes (some byte) (some bytes) a b = (a, b)
cons_byte-AreBytes (some byte) none a b = tt
cons_byte-AreBytes none rest a b = tt

parsed_byte-AreBytes :
    (high low : ℕ) (rest : Option (List ℕ))
    → AreBytes rest
    → AreBytes (cons_byte (hex_pair (hex_digit high) (hex_digit low)) rest)
parsed_byte-AreBytes high low rest a =
    cons_byte-AreBytes (hex_pair (hex_digit high) (hex_digit low)) rest
      (hex_pair-IsByte (hex_digit high) (hex_digit low) (hex_digit-IsNibble high)
        (hex_digit-IsNibble low))
      a

parse_bytes-AreBytes : (n : ℕ) (text : List ℕ) → AreBytes (parse_bytes n text)
unfolding parse_bytes
parse_bytes-AreBytes zero text = tt
parse_bytes-AreBytes (suc zero) [] = tt
parse_bytes-AreBytes (suc zero) (high ∷ []) = tt
parse_bytes-AreBytes (suc zero) (high ∷ low ∷ text) = parsed_byte-AreBytes high low (some []) tt
parse_bytes-AreBytes (suc (suc n)) [] = tt
parse_bytes-AreBytes (suc (suc n)) (high ∷ []) = tt
parse_bytes-AreBytes (suc (suc n)) (high ∷ low ∷ []) = tt
parse_bytes-AreBytes (suc (suc n)) (high ∷ low ∷ colon ∷ text) =
    if-cases AreBytes (colon == 58)
      (λ _.
        parsed_byte-AreBytes high low (parse_bytes (suc n) text)
          (parse_bytes-AreBytes (suc n) text))
      (λ _. tt)

mac_or-All :
    (o : Option (List ℕ)) (id : ℕ)
    → AreBytes o
    → All (λ b. b < 256) (mac_or o (generated_mac_address id))
mac_or-All (some mac) id a = a
mac_or-All none id a = ground arith

request_mac_address-All :
    (request : CreateDeviceRequest) → All (λ b. b < 256) (request_mac_address request)
unfolding request_mac_address
request_mac_address-All request = mac_or-All _ request.client_device_id (parse_bytes-AreBytes 6 _)

pub set_pairing_mac-IsPayload :
    (report : List ℕ) (request : CreateDeviceRequest)
    → IsPayload report
    → IsPayload (set_pairing_mac report request)
set_pairing_mac-IsPayload report request h = (
  omega (arith, h.0, length-copy_to report 1 (reverse (request_mac_address request))),
  copy_to-All report 1 (reverse (request_mac_address request)) h.1
      (reverse_aux-All (request_mac_address request) [] (request_mac_address-All request) tt),
)
