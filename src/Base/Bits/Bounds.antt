-- ===== src/Base/Bits/Bounds.antt =====
-- The disjunction and the exclusive disjunction of numbers of k digits have k digits.
use Prim.Native.Nat.{bit_or, bit_xor, differ, digits, bit_or-bitwise, bit_xor-bitwise}
use libvirtualhid.Base.{ℕ, zero, suc, ◌*◌, ◌/◌, ◌%◌, ◌^◌, ◌≤◌, ◌<◌, ◌≡◌, subst, sym, max, arith}

pow_double : (k : ℕ) → 2 ^ suc k ≡ 2 ^ k * 2
pow_double k = omega arith

module _ (join : ℕ → ℕ → ℕ) (small : (x y : ℕ) → x < 2 → y < 2 → join x y < 2) where
  digits-lt : (n k a b : ℕ) → a ≤ n → a < 2 ^ k → b < 2 ^ k → digits (λ b. b) join n a b < 2 ^ k
  digits-lt zero k a b h la lb = lb
  digits-lt (suc n) k zero b h la lb = lb
  digits-lt (suc n) zero (suc a) b h la lb = absurd (omega arith)
  digits-lt (suc n) (suc k) (suc a) b h la lb = omega (
    arith,
    pow_double k,
    small (suc a % 2) (b % 2) (omega arith) (omega arith),
    digits-lt n k (suc a / 2) (b / 2) (omega arith) (omega (arith, pow_double k))
        (omega (arith, pow_double k)),
  )

differ-lt : (x y : ℕ) → x < 2 → y < 2 → differ x y < 2
differ-lt zero y h k = k
differ-lt (suc x) zero h k = h
differ-lt (suc x) (suc y) h k = differ-lt x y (omega arith) (omega arith)

pub bit_or-lt : (k a b : ℕ) → a < 2 ^ k → b < 2 ^ k → bit_or a b < 2 ^ k
bit_or-lt k a b la lb =
    subst (λ n. n < 2 ^ k) (sym (λ i. bit_or-bitwise a b i))
      (digits-lt max (λ x y h h'. omega arith) a k a b (omega arith) la lb)

pub bit_xor-lt : (k a b : ℕ) → a < 2 ^ k → b < 2 ^ k → bit_xor a b < 2 ^ k
bit_xor-lt k a b la lb =
    subst (λ n. n < 2 ^ k) (sym (λ i. bit_xor-bitwise a b i))
      (digits-lt differ differ-lt a k a b (omega arith) la lb)
