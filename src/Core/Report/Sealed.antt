-- ===== src/Core/Report/Sealed.antt =====
-- The checksum at the end of a Bluetooth report of a PlayStation gamepad.
use Prim.Native.Nat.{bit_xor}
use libvirtualhid.Base.{
  ℕ, zero, suc, ◌+◌, ◌-◌, ◌/◌, ◌%◌, ◌^◌, ◌≤◌, ◌<◌, ◌≡◌, ◌≢◌, ◌∙◌, refl, ap, sym, subst, List, [],
  ◌∷◌, All, length, length-set, set, take, get_or, get_or-set_self, get_or-set_ne, if-cases, ltb,
  ltb→lt, arith,
}
use libvirtualhid.Base.Bits.Bounds.{bit_xor-lt}
use libvirtualhid.Core.Report.Bytes.{write_byte, write_u32, read_u32}
use libvirtualhid.Core.Report.Crc.{
  crc_bit, crc_bits, crc_bytes, crc32, playstation_crc_seed, write_playstation_crc,
}

-- The last four bytes are the checksum of the others.
abbrev pub IsSealed : ℕ → List ℕ → Type 0
IsSealed seed r =
    read_u32 r (length r - 4) ≡ crc32 (take (length r - 4) r) (playstation_crc_seed seed)

take-set : (n : ℕ) (xs : List ℕ) (i v : ℕ) → n ≤ i → take n (set xs i v) ≡ take n xs
take-set zero xs i v h = refl
take-set (suc n) [] i v h = refl
take-set (suc n) (x ∷ xs) zero v h = absurd (omega arith)
take-set (suc n) (x ∷ xs) (suc i) v h = ap (λ t. x ∷ t) (take-set n xs i v (omega arith))

take-write_u32 : (r : List ℕ) (o v : ℕ) → take o (write_u32 r o v) ≡ take o r
unfolding write_u32
take-write_u32 r o v =
    take-set o _ (o + 3) _ (omega arith)
    ∙ take-set o _ (o + 2) _ (omega arith)
    ∙ take-set o _ (o + 1) _ (omega arith)
    ∙ take-set o r o _ (omega arith)

pub length-write_u32 : (r : List ℕ) (o v : ℕ) → length (write_u32 r o v) ≡ length r
unfolding write_u32
length-write_u32 r o v =
    length-set _ (o + 3) _ ∙ length-set _ (o + 2) _ ∙ length-set _ (o + 1) _ ∙ length-set r o _

-- The byte at i, after a store at i or elsewhere.
stored : (r : List ℕ) (i j v w : ℕ) → i ≢ j → get_or r j 0 ≡ w → get_or (set r i v) j 0 ≡ w
stored r i j v w ne h = get_or-set_ne r i j v 0 ne ∙ h

pub read_u32-write_u32 :
    (r : List ℕ) (o v : ℕ) → o + 3 < length r → v < 4294967296 → read_u32 (write_u32 r o v) o ≡ v
unfolding write_u32 read_u32
read_u32-write_u32 r o v h lt =
    let r0 = write_byte r o v in
    let r1 = write_byte r0 (o + 1) (v / 256) in
    let r2 = write_byte r1 (o + 2) (v / 65536) in
    let l0 = length-set r o (v % 256) in
    let l1 = length-set r0 (o + 1) (v / 256 % 256) in
    let l2 = length-set r1 (o + 2) (v / 65536 % 256) in
    let b0 =
      stored r2 (o + 3) o (v / 16777216 % 256) (v % 256) (λ e. omega arith)
        (stored r1 (o + 2) o (v / 65536 % 256) (v % 256) (λ e. omega arith)
          (stored r0 (o + 1) o (v / 256 % 256) (v % 256) (λ e. omega arith)
            (get_or-set_self r o (v % 256) 0 (omega arith)))) in
    let b1 =
      stored r2 (o + 3) (o + 1) (v / 16777216 % 256) (v / 256 % 256) (λ e. omega arith)
        (stored r1 (o + 2) (o + 1) (v / 65536 % 256) (v / 256 % 256) (λ e. omega arith)
          (get_or-set_self r0 (o + 1) (v / 256 % 256) 0 (omega arith))) in
    let b2 =
      stored r2 (o + 3) (o + 2) (v / 16777216 % 256) (v / 65536 % 256) (λ e. omega arith)
        (get_or-set_self r1 (o + 2) (v / 65536 % 256) 0 (omega arith)) in
    let b3 = get_or-set_self r2 (o + 3) (v / 16777216 % 256) 0 (omega arith) in
    omega (arith, b0, b1, b2, b3)

crc_bit-lt : (crc : ℕ) → crc < 2 ^ 32 → crc_bit crc < 2 ^ 32
crc_bit-lt crc h = bit_xor-lt 32 _ _ (omega arith) (ground arith)

crc_bits-lt : (n crc : ℕ) → crc < 2 ^ 32 → crc_bits n crc < 2 ^ 32
crc_bits-lt zero crc h = h
crc_bits-lt (suc n) crc h = crc_bits-lt n (crc_bit crc) (crc_bit-lt crc h)

crc_bytes-lt :
    (buffer : List ℕ) (crc : ℕ)
    → All (λ b. b < 256) buffer
    → crc < 2 ^ 32
    → crc_bytes buffer crc < 2 ^ 32
crc_bytes-lt [] crc a h = h
crc_bytes-lt (value ∷ buffer) crc a h =
    crc_bytes-lt buffer (crc_bits 8 (bit_xor crc value)) a.1
      (crc_bits-lt 8 (bit_xor crc value) (bit_xor-lt 32 crc value h (omega (arith, a.0))))

pub crc32-lt :
    (buffer : List ℕ) (seed : ℕ)
    → All (λ b. b < 256) buffer
    → seed < 4294967296
    → crc32 buffer seed < 4294967296
unfolding crc32
crc32-lt buffer seed a h =
    bit_xor-lt 32 _ 0xFFFFFFFF
      (crc_bytes-lt buffer (bit_xor seed 0xFFFFFFFF) a
        (bit_xor-lt 32 seed 0xFFFFFFFF h (omega arith)))
      (omega arith)

playstation_crc_seed-lt : (seed : ℕ) → seed < 256 → playstation_crc_seed seed < 4294967296
unfolding playstation_crc_seed
playstation_crc_seed-lt seed h = crc32-lt (seed ∷ []) 0 (h, tt) (omega arith)

All-take : (n : ℕ) (xs : List ℕ) → All (λ b. b < 256) xs → All (λ b. b < 256) (take n xs)
All-take zero xs a = tt
All-take (suc n) [] a = tt
All-take (suc n) (x ∷ xs) a = (a.0, All-take n xs a.1)

pub write_playstation_crc-IsSealed :
    (r : List ℕ) (seed : ℕ)
    → 4 ≤ length r
    → All (λ b. b < 256) r
    → seed < 256
    → IsSealed seed (write_playstation_crc r seed)
unfolding write_playstation_crc
write_playstation_crc-IsSealed r seed h a s =
    if-cases (IsSealed seed) (ltb (length r) 4) (λ e. absurd (omega (arith, ltb→lt (length r) 4 e)))
      (λ _. sealed)
  where
    o : ℕ
    o = length r - 4

    crc : ℕ
    crc = crc32 (take o r) (playstation_crc_seed seed)

    at_end : length (write_u32 r o crc) - 4 ≡ o
    at_end = ap (λ n. n - 4) (length-write_u32 r o crc)

    sealed : IsSealed seed (write_u32 r o crc)
    sealed =
        subst
          (λ n.
            read_u32 (write_u32 r o crc) n
            ≡ crc32 (take n (write_u32 r o crc)) (playstation_crc_seed seed))
          (sym at_end)
          (read_u32-write_u32 r o crc (omega arith)
              (crc32-lt (take o r) _ (All-take o r a) (playstation_crc_seed-lt seed s))
            ∙ ap (λ t. crc32 t (playstation_crc_seed seed)) (sym (take-write_u32 r o crc)))
