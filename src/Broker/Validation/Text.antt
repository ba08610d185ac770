-- ===== src/Broker/Validation/Text.antt =====
-- Copies of texts and bytes into arrays pass the checks of arrays.
use libvirtualhid.Base.{
  ℕ, zero, suc, ◌-◌, ◌≤◌, ◌<◌, ◌≡◌, ◌∙◌, ◌==◌, refl, ap, sym, Bool, true, not, List, [], ◌∷◌, all,
  take, drop, min, length, replicate, length-replicate, get_or, subst, arith,
}
use libvirtualhid.Shared.SwitchPro.{copy_to}
use libvirtualhid.Shared.SwitchPro.Copies.{length-copy_to, length-take}
use libvirtualhid.Windows.Control.{copy_string, copy_bytes}
use libvirtualhid.Broker.Validation.{all_zero, valid_sized_c_string}

-- No character of a text is the terminator.
abbrev pub is_text : List ℕ → Bool
is_text text = all (λ character. not (character == 0)) text

all_zero-replicate : (n : ℕ) → all_zero (replicate n 0) ≡ true
all_zero-replicate zero = refl
all_zero-replicate (suc n) = all_zero-replicate n

-- The parts of an array with a text at its front.
take-copy :
    (size : ℕ) (xs : List ℕ)
    → length xs ≤ size
    → take (length xs) (copy_to (replicate size 0) 0 xs) ≡ xs
unfolding copy_to
take-copy zero [] h = refl
take-copy (suc size) [] h = refl
take-copy zero (x ∷ xs) h = absurd (omega arith)
take-copy (suc size) (x ∷ xs) h = ap (λ (ys : List ℕ). x ∷ ys) (take-copy size xs (omega arith))

drop-copy :
    (size : ℕ) (xs : List ℕ) → all_zero (drop (length xs) (copy_to (replicate size 0) 0 xs)) ≡ true
unfolding copy_to
drop-copy zero [] = refl
drop-copy (suc size) [] = all_zero-replicate size
drop-copy zero (x ∷ xs) = refl
drop-copy (suc size) (x ∷ xs) = drop-copy size xs

end-copy : (size : ℕ) (xs : List ℕ) → get_or (copy_to (replicate size 0) 0 xs) (length xs) 0 ≡ 0
unfolding copy_to
end-copy zero [] = refl
end-copy (suc size) [] = refl
end-copy zero (x ∷ xs) = refl
end-copy (suc size) (x ∷ xs) = end-copy size xs

is_text-take : (n : ℕ) (text : List ℕ) → is_text text ≡ true → is_text (take n text) ≡ true
is_text-take zero text h = refl
is_text-take (suc n) [] h = refl
is_text-take (suc n) (x ∷ text) h = ground (arith, is_text-take n text (ground arith))

valid-sized :
    (value : List ℕ) (size : ℕ)
    → size < length value
    → get_or value size 0 ≡ 0
    → is_text (take size value) ≡ true
    → all_zero (drop size value) ≡ true
    → valid_sized_c_string value size ≡ true
unfolding valid_sized_c_string
valid-sized value size a b c d = ground arith

valid-copy :
    (size : ℕ) (xs : List ℕ)
    → length xs < size
    → is_text xs ≡ true
    → valid_sized_c_string (copy_to (replicate size 0) 0 xs) (length xs) ≡ true
valid-copy size xs h k =
    let value = copy_to (replicate size 0) 0 xs in
    valid-sized value (length xs)
      (omega (arith, length-copy_to (replicate size 0) 0 xs, length-replicate {A = ℕ} size 0))
      (end-copy size xs) (ap is_text (take-copy size xs (omega arith)) ∙ k) (drop-copy size xs)

-- A text that is copied into an array, cut off to leave room for the terminator, is valid there.
pub valid_sized_c_string-copy_string :
    (size : ℕ) (text : List ℕ)
    → 1 ≤ size
    → is_text text ≡ true
    → valid_sized_c_string (copy_string size text).0 (copy_string size text).1 ≡ true
unfolding copy_string
valid_sized_c_string-copy_string size text h k =
    let copied = min (length text) (size - 1) in
    let xs = take copied text in
    subst (λ n. valid_sized_c_string (copy_to (replicate size 0) 0 xs) n ≡ true)
      (omega (arith, length-take copied text))
      (valid-copy size xs (omega (arith, length-take copied text)) (is_text-take copied text k))

-- Beyond the bytes that are copied into an array are zeros.
pub all_zero-copy_bytes :
    (size : ℕ) (bytes : List ℕ)
    → all_zero (drop (copy_bytes size bytes).1 (copy_bytes size bytes).0) ≡ true
unfolding copy_bytes
all_zero-copy_bytes size bytes =
    let copied = min (length bytes) size in
    let xs = take copied bytes in
    subst (λ n. all_zero (drop n (copy_to (replicate size 0) 0 xs)) ≡ true)
      (omega (arith, length-take copied bytes)) (drop-copy size xs)

-- What is read back from an array.
take-nil : (n : ℕ) → take {A = ℕ} n [] ≡ []
take-nil zero = refl
take-nil (suc n) = refl

take-min : (n : ℕ) (xs : List ℕ) → take (min (length xs) n) xs ≡ take n xs
take-min n [] = take-nil (min 0 n) ∙ sym (take-nil n)
take-min zero (x ∷ xs) =
    let none_left : min (suc (length xs)) 0 ≡ 0 = omega arith in ap (λ k. take k (x ∷ xs)) none_left
take-min (suc n) (x ∷ xs) =
    let one_less : min (suc (length xs)) (suc n) ≡ suc (min (length xs) n) = omega arith in
    ap (λ k. take k (x ∷ xs)) one_less ∙ ap (λ (ys : List ℕ). x ∷ ys) (take-min n xs)

take-copied :
    (size n : ℕ) (xs : List ℕ)
    → n ≤ size
    → take (min (length xs) n) (copy_to (replicate size 0) 0 (take (min (length xs) n) xs))
      ≡ take n xs
take-copied size n xs h =
    let copied = take (min (length xs) n) xs in
    let cut : min (length xs) n ≡ length copied =
      omega (arith, length-take (min (length xs) n) xs) in
    ap (λ k. take k (copy_to (replicate size 0) 0 copied)) cut
    ∙ take-copy size copied (omega (arith, length-take (min (length xs) n) xs))
    ∙ take-min n xs

pub take-copy_string :
    (size : ℕ) (text : List ℕ)
    → take (copy_string size text).1 (copy_string size text).0 ≡ take (size - 1) text
unfolding copy_string
take-copy_string size text = take-copied size (size - 1) text (omega arith)

pub take-copy_bytes :
    (size : ℕ) (bytes : List ℕ)
    → take (copy_bytes size bytes).1 (copy_bytes size bytes).0 ≡ take size bytes
unfolding copy_bytes
take-copy_bytes size bytes = take-copied size size bytes (omega arith)
