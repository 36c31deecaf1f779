-- ===== src/Base/Bits.antt =====
-- A bound for `bit_xor`: it needs no more digits than its arguments; and `bit_or` with a higher digit.
use Prim.Native.Nat.{
  ℕ, zero, suc, ◌/◌, ◌%◌, ◌^◌, ◌≤◌, ◌<◌, bit_xor, bit_or, digits, differ, bit_xor-bitwise,
  bit_or-bitwise, max, ◌+◌,
}
use mathlib.Core.Path.{◌≡◌, refl}
use native.Mathlib.Nat.{pow-suc}
use native.Mathlib.Omega.{arith}

pub differ-lt : (a b : ℕ) → a < 2 → b < 2 → differ a b < 2
differ-lt zero b p q = q
differ-lt (suc zero) zero p q = omega arith
differ-lt (suc zero) (suc b) p q = omega arith
differ-lt (suc (suc a)) b p q = absurd (omega arith)

digits-lt : (k n a b : ℕ) → a ≤ n → a < 2 ^ k → b < 2 ^ k → digits (λ y. y) differ n a b < 2 ^ k
digits-lt k zero zero b p q r = r
digits-lt k (suc n) zero b p q r = r
digits-lt k zero (suc a) b p q r = absurd (omega arith)
digits-lt zero (suc n) (suc a) b p q r = absurd (omega arith)
digits-lt (suc k) (suc n) (suc a) b p q r = omega (
  arith,
  pow-suc 2 k,
  digits-lt k n (suc a / 2) (b / 2) (omega arith) (omega (arith, pow-suc 2 k))
      (omega (arith, pow-suc 2 k)),
  differ-lt (suc a % 2) (b % 2) (omega arith) (omega arith),
)

pub bit_xor-lt : (k a b : ℕ) → a < 2 ^ k → b < 2 ^ k → bit_xor a b < 2 ^ k
bit_xor-lt k a b p q = omega (arith, bit_xor-bitwise a b, digits-lt k a a b (omega arith) p q)

digits_empty : (n : ℕ) → digits (λ y. y) max n 0 0 ≡ 0
digits_empty zero = refl
digits_empty (suc n) = refl

digits_high : (k n a b : ℕ) → k < n → a ≡ 2 ^ k → b < 2 ^ k → digits (λ y. y) max n a b ≡ a + b
digits_high k zero a b h e p = absurd (omega arith)
digits_high k (suc n) zero b h e p = absurd (omega (arith, e, p))
digits_high zero (suc n) (suc zero) zero h e p = omega (arith, digits_empty n)
digits_high zero (suc n) (suc zero) (suc b) h e p = absurd (omega arith)
digits_high zero (suc n) (suc (suc a)) b h e p = absurd (omega arith)
digits_high (suc k) (suc n) (suc a) b h e p = omega (
  arith,
  pow-suc 2 k,
  digits_high k n (suc a / 2) (b / 2) (omega arith) (omega (arith, pow-suc 2 k))
      (omega (arith, pow-suc 2 k)),
)

-- A digit above all of `b` is added.
pub bit_or_high : (k b : ℕ) → k < 2 ^ k → b < 2 ^ k → bit_or (2 ^ k) b ≡ 2 ^ k + b
bit_or_high k b h p =
    omega (arith, bit_or-bitwise (2 ^ k) b, digits_high k (2 ^ k) (2 ^ k) b h refl p)
