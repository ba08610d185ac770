-- ===== src/Shared/SwitchPro/Copies.antt =====
-- Copies and stores, byte by byte.
use libvirtualhid.Base.{
  ℕ, zero, suc, ◌+◌, ◌≤◌, ◌<◌, ◌≡◌, ◌⊎◌, ◌∙◌, refl, ap, List, [], ◌∷◌, get_or, set, length,
  length-set, take, drop, arith, min,
}
use libvirtualhid.Shared.SwitchPro.{copy_to, store_all}

pub length-copy_to : (r : List ℕ) (o : ℕ) (bytes : List ℕ) → length (copy_to r o bytes) ≡ length r
unfolding copy_to
length-copy_to [] o bytes = refl
length-copy_to (x ∷ r) (suc o) bytes = ap suc (length-copy_to r o bytes)
length-copy_to (x ∷ r) zero [] = refl
length-copy_to (x ∷ r) zero (b ∷ bytes) = ap suc (length-copy_to r zero bytes)

pub length-store_all : (r : List ℕ) (stores : List (ℕ × ℕ)) → length (store_all r stores) ≡ length r
length-store_all r [] = refl
length-store_all r (s ∷ stores) = length-store_all (set r s.0 s.1) stores ∙ length-set r s.0 s.1

-- A byte of the copied list, and a byte beside it.
pub get_or-copy_to_in :
    (r : List ℕ) (o : ℕ) (bytes : List ℕ) (i j : ℕ)
    → i < length bytes
    → j < length r
    → j ≡ o + i
    → get_or (copy_to r o bytes) j 0 ≡ get_or bytes i 0
unfolding copy_to
get_or-copy_to_in [] o bytes i j h k e = absurd (omega arith)
get_or-copy_to_in (x ∷ r) (suc o) bytes i zero h k e = absurd (omega arith)
get_or-copy_to_in (x ∷ r) (suc o) bytes i (suc j) h k e =
    get_or-copy_to_in r o bytes i j h (omega arith) (omega arith)
get_or-copy_to_in (x ∷ r) zero [] i j h k e = absurd (omega arith)
get_or-copy_to_in (x ∷ r) zero (b ∷ bytes) zero zero h k e = refl
get_or-copy_to_in (x ∷ r) zero (b ∷ bytes) zero (suc j) h k e = absurd (omega arith)
get_or-copy_to_in (x ∷ r) zero (b ∷ bytes) (suc i) zero h k e = absurd (omega arith)
get_or-copy_to_in (x ∷ r) zero (b ∷ bytes) (suc i) (suc j) h k e =
    get_or-copy_to_in r zero bytes i j (omega arith) (omega arith) (omega arith)

pub get_or-copy_to_out :
    (r : List ℕ) (o : ℕ) (bytes : List ℕ) (j : ℕ)
    → (j < o) ⊎ (o + length bytes ≤ j)
    → get_or (copy_to r o bytes) j 0 ≡ get_or r j 0
unfolding copy_to
get_or-copy_to_out [] o bytes j h = refl
get_or-copy_to_out (x ∷ r) (suc o) bytes zero h = refl
get_or-copy_to_out (x ∷ r) (suc o) bytes (suc j) h = get_or-copy_to_out r o bytes j (ground arith)
get_or-copy_to_out (x ∷ r) zero [] j h = refl
get_or-copy_to_out (x ∷ r) zero (b ∷ bytes) zero h = absurd (ground arith)
get_or-copy_to_out (x ∷ r) zero (b ∷ bytes) (suc j) h =
    get_or-copy_to_out r zero bytes j (ground arith)

pub get_or-take : (n : ℕ) (xs : List ℕ) (i : ℕ) → i < n → get_or (take n xs) i 0 ≡ get_or xs i 0
get_or-take zero xs i h = absurd (omega arith)
get_or-take (suc n) [] i h = refl
get_or-take (suc n) (x ∷ xs) zero h = refl
get_or-take (suc n) (x ∷ xs) (suc i) h = get_or-take n xs i (omega arith)

pub get_or-drop :
    (n : ℕ) (xs : List ℕ) (i j : ℕ) → j ≡ n + i → get_or (drop n xs) i 0 ≡ get_or xs j 0
get_or-drop zero xs i j e = ap (λ k. get_or xs k 0) (omega arith)
get_or-drop (suc n) [] i j e = refl
get_or-drop (suc n) (x ∷ xs) i zero e = absurd (omega arith)
get_or-drop (suc n) (x ∷ xs) i (suc j) e = get_or-drop n xs i j (omega arith)

pub length-take : (n : ℕ) (xs : List ℕ) → length (take n xs) ≡ min n (length xs)
length-take zero xs = omega arith
length-take (suc n) [] = omega arith
length-take (suc n) (x ∷ xs) = omega (arith, length-take n xs)
