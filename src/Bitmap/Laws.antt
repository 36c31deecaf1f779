-- ===== src/Bitmap/Laws.antt =====
-- What find_first_zero_bit and bitmap_zero compute.
use ip_qos.Base.{
  ℕ, zero, suc, ◌≤◌, ◌<◌, ◌≡◌, refl, Bool, true, false, List, [], ◌∷◌, length, get_or, arith,
}
use ip_qos.Bitmap.{find_first_zero_bit, bitmap_zero}

-- A bit beyond the bitmap reads as clear.
abbrev pub bit : List Bool → ℕ → Bool
bit bits i = get_or bits i false

pub find_first_zero_bit-le : (bits : List Bool) (n : ℕ) → find_first_zero_bit bits n ≤ n
unfolding find_first_zero_bit
find_first_zero_bit-le bits zero = omega arith
find_first_zero_bit-le [] (suc n) = omega arith
find_first_zero_bit-le (true ∷ bits) (suc n) = omega (arith, find_first_zero_bit-le bits n)
find_first_zero_bit-le (false ∷ bits) (suc n) = omega arith

-- The bit that is found is clear.
pub find_first_zero_bit_clear :
    (bits : List Bool) (n : ℕ)
    → find_first_zero_bit bits n < n
    → bit bits (find_first_zero_bit bits n) ≡ false
unfolding find_first_zero_bit
find_first_zero_bit_clear bits zero h = absurd (omega arith)
find_first_zero_bit_clear [] (suc n) h = refl
find_first_zero_bit_clear (true ∷ bits) (suc n) h = find_first_zero_bit_clear bits n (omega arith)
find_first_zero_bit_clear (false ∷ bits) (suc n) h = refl

-- All the bits below it are set.
pub find_first_zero_bit_least :
    (bits : List Bool) (n i : ℕ) → i < find_first_zero_bit bits n → bit bits i ≡ true
unfolding find_first_zero_bit
find_first_zero_bit_least bits zero i h = absurd (omega arith)
find_first_zero_bit_least [] (suc n) i h = absurd (omega arith)
find_first_zero_bit_least (true ∷ bits) (suc n) zero h = refl
find_first_zero_bit_least (true ∷ bits) (suc n) (suc i) h =
    find_first_zero_bit_least bits n i (omega arith)
find_first_zero_bit_least (false ∷ bits) (suc n) i h = absurd (omega arith)

pub length-bitmap_zero : (bits : List Bool) (n : ℕ) → length (bitmap_zero bits n) ≡ length bits
unfolding bitmap_zero
length-bitmap_zero bits zero = refl
length-bitmap_zero [] (suc n) = refl
length-bitmap_zero (b ∷ bits) (suc n) = omega (arith, length-bitmap_zero bits n)

pub bit-bitmap_zero : (bits : List Bool) (n i : ℕ) → i < n → bit (bitmap_zero bits n) i ≡ false
unfolding bitmap_zero
bit-bitmap_zero bits zero i h = absurd (omega arith)
bit-bitmap_zero [] (suc n) i h = refl
bit-bitmap_zero (b ∷ bits) (suc n) zero h = refl
bit-bitmap_zero (b ∷ bits) (suc n) (suc i) h = bit-bitmap_zero bits n i (omega arith)
