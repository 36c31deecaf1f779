-- ===== src/Hash/Bounds.antt =====
-- The loop of hash_fn, and 32-bit values.
use ip_qos.Base.{ℕ, zero, suc, ◌-◌, ◌/◌, ◌≤◌, ◌<◌, drop, arith}
use ip_qos.Base.Word.{u32_mod}
use ip_qos.Base.Bits.{bit_xor-lt}
use ip_qos.Hash.{word_at, xor_shift, add_not_shift, mix, HashState, hash_loop}

div-lt : (d a : ℕ) → a < u32_mod → a / d < u32_mod
div-lt d a h = omega arith

pub xor_shift-lt : (d a : ℕ) → a < u32_mod → xor_shift d a < u32_mod
unfolding xor_shift
xor_shift-lt d a h = bit_xor-lt 32 a (a / d) h (div-lt d a h)

pub mix-lt : (a b : ℕ) → mix a b < u32_mod
unfolding mix add_not_shift
mix-lt a b = xor_shift-lt 0x1_0000 _ (omega arith)

-- With a fuel of the length at least and a 32-bit accumulator, the loop of hash_fn ends by its own
-- test with less than 8 bytes left, and the accumulator stays a 32-bit value.
pub hash_loop-ends :
    (fuel : ℕ) (s : HashState)
    → s.len ≤ fuel
    → s.a < u32_mod
    → ((hash_loop fuel s).len < 8) × ((hash_loop fuel s).a < u32_mod)
unfolding hash_loop
hash_loop-ends zero s enough small = (omega arith, small)
hash_loop-ends (suc fuel) s enough small = ground (
  arith,
  mix-lt s.a s.b,
  hash_loop-ends fuel
      (record { key = drop 4 s.key; len = s.len - 4; a = mix s.a s.b; b = word_at (drop 4 s.key) }),
)
