-- ===== src/Base/Bits.antt =====
-- The binary digits of a number, of a power of two, and of the results of `bit_and` and `bit_or`.
pub mod Bounds
use Prim.Native.Nat.{bit_and, bit_or, digits, bit_and-bitwise, bit_or-bitwise}
use libvirtualhid.Base.{
  ℕ, zero, suc, ◌+◌, ◌-◌, ◌*◌, ◌/◌, ◌%◌, ◌^◌, ◌≤◌, ◌<◌, ◌≡◌, ◌≢◌, ◌⊎◌, ◌↔◌, inl, inr, refl, ap,
  subst, sym, ◌∙◌, min, max, arith, true, false, ◌==◌, Bool-cases, ==_iff,
}

-- Digit k of a number, the lowest first.
pub digit : ℕ → ℕ → ℕ
digit zero n = n % 2
digit (suc k) n = digit k (n / 2)

pub digit-zero : (k : ℕ) → digit k 0 ≡ 0
unfolding digit
digit-zero zero = omega arith
digit-zero (suc k) = digit-zero k

pub digit-lt : (k n : ℕ) → digit k n < 2
unfolding digit
digit-lt zero n = omega arith
digit-lt (suc k) n = digit-lt k (n / 2)

module _ (rest : ℕ → ℕ) (join : ℕ → ℕ → ℕ) (small : (x y : ℕ) → x < 2 → y < 2 → join x y < 2)
    (tail : (k b : ℕ) → digit k (rest b) ≡ join 0 (digit k b)) where
  digit-digits :
      (k n a b : ℕ) → a ≤ n → digit k (digits rest join n a b) ≡ join (digit k a) (digit k b)
  unfolding digit
  digit-digits k zero zero b h = tail k b ∙ ap (λ t. join t (digit k b)) (sym (digit-zero k))
  digit-digits k zero (suc a) b h = absurd (omega arith)
  digit-digits k (suc n) zero b h = tail k b ∙ ap (λ t. join t (digit k b)) (sym (digit-zero k))
  digit-digits zero (suc n) (suc a) b h =
      omega (arith, small (suc a % 2) (b % 2) (omega arith) (omega arith))
  digit-digits (suc k) (suc n) (suc a) b h =
      let half : (digits rest join n (suc a / 2) (b / 2) * 2 + join (suc a % 2) (b % 2)) / 2
          ≡ digits rest join n (suc a / 2) (b / 2) =
        omega (arith, small (suc a % 2) (b % 2) (omega arith) (omega arith)) in
      ap (digit k) half ∙ digit-digits k n (suc a / 2) (b / 2) (omega arith)

pub digit-bit_and : (k a b : ℕ) → digit k (bit_and a b) ≡ min (digit k a) (digit k b)
digit-bit_and k a b =
    ap (digit k) (λ i. bit_and-bitwise a b i)
    ∙ digit-digits (λ _. 0) min (λ x y h h'. omega arith) (λ k b. omega (arith, digit-zero k)) k a a
        b (omega arith)

pub digit-bit_or : (k a b : ℕ) → digit k (bit_or a b) ≡ max (digit k a) (digit k b)
digit-bit_or k a b =
    ap (digit k) (λ i. bit_or-bitwise a b i)
    ∙ digit-digits (λ b. b) max (λ x y h h'. omega arith) (λ k b. omega arith) k a a b (omega arith)

pow_double : (k : ℕ) → 2 ^ suc k ≡ 2 ^ k * 2
pow_double k = omega arith

pow_half : (k : ℕ) → 2 ^ suc k / 2 ≡ 2 ^ k
pow_half k = omega (arith, pow_double k)

pow_even : (k : ℕ) → 2 ^ suc k % 2 ≡ 0
pow_even k = omega (arith, pow_double k)

pub digit-pow_self : (k : ℕ) → digit k (2 ^ k) ≡ 1
unfolding digit
digit-pow_self zero = omega arith
digit-pow_self (suc k) = ap (digit k) (pow_half k) ∙ digit-pow_self k

pub digit-pow_ne : (j k : ℕ) → j ≢ k → digit j (2 ^ k) ≡ 0
unfolding digit
digit-pow_ne zero zero h = absurd (h refl)
digit-pow_ne zero (suc k) h = omega (arith, pow_even k)
digit-pow_ne (suc j) zero h = digit-zero j
digit-pow_ne (suc j) (suc k) h = ap (digit j) (pow_half k) ∙ digit-pow_ne j k (λ e. h (ap suc e))

-- A number without digits is 0.
pub zero_of_digits : (bound n : ℕ) → n ≤ bound → ((k : ℕ) → digit k n ≡ 0) → n ≡ 0
unfolding digit
zero_of_digits zero n h d = omega arith
zero_of_digits (suc bound) zero h d = refl
zero_of_digits (suc bound) (suc n) h d =
    omega (arith, d zero, zero_of_digits bound (suc n / 2) (omega arith) (λ k. d (suc k)))

-- The digits of a number's complement among the numbers of m digits.
pub digit-complement : (j m n : ℕ) → j < m → n < 2 ^ m → digit j (2 ^ m - 1 - n) ≡ 1 - digit j n
unfolding digit
digit-complement j zero n lt h = absurd (omega arith)
digit-complement zero (suc m) n lt h = omega (arith, pow_double m)
digit-complement (suc j) (suc m) n lt h =
    let half : (2 ^ suc m - 1 - n) / 2 ≡ 2 ^ m - 1 - n / 2 = omega (arith, pow_double m) in
    ap (digit j) half ∙ digit-complement j m (n / 2) (omega arith) (omega (arith, pow_double m))

differs : (j k : ℕ) → (j == k) ≡ false → j ≢ k
differs j k e q = ground (arith, ==_iff j k)

-- Whether a digit is set, with a mask.
no_digit : (n k : ℕ) → digit k n ≡ 0 → bit_and n (2 ^ k) ≡ 0
no_digit n k h =
    zero_of_digits (bit_and n (2 ^ k)) (bit_and n (2 ^ k)) (omega arith)
      (λ j. only j (Bool-cases (j == k)))
  where
    only : (j : ℕ) → ((j == k) ≡ true) ⊎ ((j == k) ≡ false) → digit j (bit_and n (2 ^ k)) ≡ 0
    only j (inl e) =
        subst (λ i. digit i (bit_and n (2 ^ k)) ≡ 0) (sym ((==_iff j k).0 e))
          (omega (arith, digit-bit_and k n (2 ^ k), h))
    only j (inr e) =
        omega (arith, digit-bit_and j n (2 ^ k), digit-pow_ne j k (λ q. differs j k e q))

pub mask_iff : (n k : ℕ) → (bit_and n (2 ^ k) ≡ 0) ↔ (digit k n ≡ 0)
mask_iff n k = (
  λ h. omega (
    arith,
    digit-bit_and k n (2 ^ k),
    digit-pow_self k,
    digit-lt k n,
    ap (digit k) h,
    digit-zero k,
  ),
  no_digit n k,
)
