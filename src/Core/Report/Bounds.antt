-- ===== src/Core/Report/Bounds.antt =====
-- The size of a packed report, and the range of its bytes.
use libvirtualhid.Base.{
  ℕ, zero, suc, ◌<◌, ◌≡◌, ◌∙◌, refl, ap, Bool, true, false, List, [], ◌∷◌, All, All-set, All-get_or,
  All-replicate, length, length-set, length-replicate, replicate, arith,
}
use libvirtualhid.Base.Bits.Bounds.{bit_or-lt}
use libvirtualhid.Core.Report.Bytes.{
  Write, to_byte, write_byte, write_u32, write, write_all, resize,
}

-- A report of n bytes.
abbrev pub IsReport : ℕ → List ℕ → Type 0
IsReport n report = (length report ≡ n) × All (λ b. b < 256) report

write_byte-IsReport : (n : ℕ) (r : List ℕ) (o v : ℕ) → IsReport n r → IsReport n (write_byte r o v)
write_byte-IsReport n r o v h =
    (length-set r o (to_byte v) ∙ h.0, All-set (λ b. b < 256) r o (to_byte v) h.1 (omega arith))

add_flag-IsReport :
    (n : ℕ) (r : List ℕ) (c : Bool) (o v : ℕ)
    → IsReport n r
    → IsReport n (write r (Write.flag c o v))
unfolding write
add_flag-IsReport n r false o v h = h
add_flag-IsReport n r true o v h = (
  length-set r o _ ∙ h.0,
  All-set (λ b. b < 256) r o _ h.1
      (bit_or-lt 8 _ (to_byte v) (All-get_or (λ b. b < 256) r o 0 h.1 (omega arith)) (omega arith)),
)

pub write_u32-IsReport :
    (n : ℕ) (r : List ℕ) (o v : ℕ) → IsReport n r → IsReport n (write_u32 r o v)
unfolding write_u32
write_u32-IsReport n r o v h =
    write_byte-IsReport n _ _ _
      (write_byte-IsReport n _ _ _ (write_byte-IsReport n _ _ _ (write_byte-IsReport n r o v h)))

write-IsReport : (n : ℕ) (r : List ℕ) (w : Write) → IsReport n r → IsReport n (write r w)
unfolding write
write-IsReport n r (Write.byte o v) h = write_byte-IsReport n r o v h
write-IsReport n r (Write.word o v) h = write_byte-IsReport n _ _ _ (write_byte-IsReport n r o v h)
write-IsReport n r (Write.dword o v) h = write_u32-IsReport n r o v h
write-IsReport n r (Write.flag c o v) h = add_flag-IsReport n r c o v h

pub write_all-IsReport :
    (n : ℕ) (r : List ℕ) (ws : List Write) → IsReport n r → IsReport n (write_all r ws)
unfolding write_all
write_all-IsReport n r [] h = h
write_all-IsReport n r (w ∷ ws) h = write_all-IsReport n (write r w) ws (write-IsReport n r w h)

pub zeros-IsReport : (n : ℕ) → IsReport n (replicate n 0)
zeros-IsReport n = (length-replicate n 0, All-replicate (λ b. b < 256) n 0 (omega arith))

resized : (n : ℕ) (r : List ℕ) → length (resize r n) ≡ n
unfolding resize
resized zero r = refl
resized (suc n) [] = ap suc (resized n [])
resized (suc n) (b ∷ r) = ap suc (resized n r)

resized-bytes : (n : ℕ) (r : List ℕ) → All (λ b. b < 256) r → All (λ b. b < 256) (resize r n)
unfolding resize
resized-bytes zero r a = tt
resized-bytes (suc n) [] a = (omega arith, resized-bytes n [] tt)
resized-bytes (suc n) (b ∷ r) a = (a.0, resized-bytes n r a.1)

pub resize-IsReport : (n : ℕ) (r : List ℕ) → All (λ b. b < 256) r → IsReport n (resize r n)
resize-IsReport n r a = (resized n r, resized-bytes n r a)
