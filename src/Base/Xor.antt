-- ===== src/Base/Xor.antt =====
-- Exclusive or, digit by digit: halves, the lowest digit, and cancellation.
use Prim.Native.Nat.{
  ℕ, zero, suc, ◌+◌, ◌*◌, ◌/◌, ◌%◌, ◌^◌, ◌≤◌, ◌<◌, bit_xor, digits, differ, bit_xor-bitwise,
}
use mathlib.Core.Path.{◌≡◌, refl, ap, ◌∙◌, sym}
use native.Mathlib.Nat.{pow-suc, pow-succ', div-one, div-le_self, div-div-eq-div-mul}
use native.Mathlib.Omega.{arith}
use ip_qos.Base.Bits.{differ-lt}

digits_enough :
    (n m a b : ℕ) → a ≤ n → a ≤ m → digits (λ y. y) differ n a b ≡ digits (λ y. y) differ m a b
digits_enough zero zero a b p q = refl
digits_enough zero (suc m) zero b p q = refl
digits_enough (suc n) zero zero b p q = refl
digits_enough (suc n) (suc m) zero b p q = refl
digits_enough zero m (suc a) b p q = absurd (omega arith)
digits_enough (suc n) zero (suc a) b p q = absurd (omega arith)
digits_enough (suc n) (suc m) (suc a) b p q =
    ap (λ x. x * 2 + differ (suc a % 2) (b % 2))
      (digits_enough n m (suc a / 2) (b / 2) (omega arith) (omega arith))

pub bit_xor-half : (a b : ℕ) → bit_xor a b / 2 ≡ bit_xor (a / 2) (b / 2)
bit_xor-half zero b = omega (arith, bit_xor-bitwise zero b, bit_xor-bitwise zero (b / 2))
bit_xor-half (suc a) b = omega (
  arith,
  bit_xor-bitwise (suc a) b,
  bit_xor-bitwise (suc a / 2) (b / 2),
  digits_enough a (suc a / 2) (suc a / 2) (b / 2) (omega arith) (omega arith),
  differ-lt (suc a % 2) (b % 2) (omega arith) (omega arith),
)

bit_xor_low : (a b : ℕ) → bit_xor a b % 2 ≡ differ (a % 2) (b % 2)
bit_xor_low zero b = omega (arith, bit_xor-bitwise zero b)
bit_xor_low (suc a) b =
    omega
      (arith, bit_xor-bitwise (suc a) b, differ-lt (suc a % 2) (b % 2) (omega arith) (omega arith))

differ_cancel : (a b c : ℕ) → a < 2 → b < 2 → c < 2 → differ a c ≡ differ b c → a ≡ b
differ_cancel zero zero c p q r h = refl
differ_cancel (suc zero) (suc zero) c p q r h = refl
differ_cancel zero (suc zero) zero p q r h = omega (arith, h)
differ_cancel zero (suc zero) (suc zero) p q r h = omega (arith, h)
differ_cancel (suc zero) zero zero p q r h = omega (arith, h)
differ_cancel (suc zero) zero (suc zero) p q r h = omega (arith, h)
differ_cancel (suc (suc a)) b c p q r h = absurd (omega arith)
differ_cancel a (suc (suc b)) c p q r h = absurd (omega arith)
differ_cancel a b (suc (suc c)) p q r h = absurd (omega arith)

pub bit_xor_cancel : (k a b c : ℕ) → a < 2 ^ k → b < 2 ^ k → bit_xor a c ≡ bit_xor b c → a ≡ b
bit_xor_cancel zero a b c p q h = omega arith
bit_xor_cancel (suc k) a b c p q h =
    let halves =
      bit_xor_cancel k (a / 2) (b / 2) (c / 2) (omega (arith, pow-suc 2 k))
        (omega (arith, pow-suc 2 k))
        (sym (bit_xor-half a c) ∙ ap (λ x. x / 2) h ∙ bit_xor-half b c) in
    let lows =
      differ_cancel (a % 2) (b % 2) (c % 2) (omega arith) (omega arith) (omega arith)
        (sym (bit_xor_low a c) ∙ ap (λ x. x % 2) h ∙ bit_xor_low b c) in
    omega arith

div-shift : (n x : ℕ) → x / 2 ^ suc n ≡ x / 2 / 2 ^ n
div-shift n x = rw (pow-succ' 2 n) (sym (div-div-eq-div-mul x 2 (2 ^ n)))

bit_xor-div : (n a b : ℕ) → bit_xor a b / 2 ^ n ≡ bit_xor (a / 2 ^ n) (b / 2 ^ n)
bit_xor-div zero a b = rw (div-one (bit_xor a b), div-one a, div-one b) refl
bit_xor-div (suc n) a b =
    rw (div-shift n (bit_xor a b), div-shift n a, div-shift n b, bit_xor-half a b)
      (bit_xor-div n (a / 2) (b / 2))

div-half : (n k a : ℕ) → a < 2 ^ suc k → a / 2 ^ suc n < 2 ^ k
div-half n k a h = omega (arith, div-shift n a, div-le_self (a / 2) (2 ^ n), pow-suc 2 k)

-- `a ^ (a >> n)` for an n above 0 determines a.
pub xor_shift-injective :
    (n k a b : ℕ)
    → a < 2 ^ k
    → b < 2 ^ k
    → bit_xor a (a / 2 ^ suc n) ≡ bit_xor b (b / 2 ^ suc n)
    → a ≡ b
xor_shift-injective n zero a b p q h = omega arith
xor_shift-injective n (suc k) a b p q h =
    let high : a / 2 ^ suc n ≡ b / 2 ^ suc n =
      xor_shift-injective n k (a / 2 ^ suc n) (b / 2 ^ suc n) (div-half n k a p) (div-half n k b q)
        (sym (bit_xor-div (suc n) a (a / 2 ^ suc n))
          ∙ ap (λ x. x / 2 ^ suc n) h
          ∙ bit_xor-div (suc n) b (b / 2 ^ suc n)) in
    bit_xor_cancel (suc k) a b (b / 2 ^ suc n) p q (ap (bit_xor a) (sym high) ∙ h)
