-- ===== src/Hash.antt =====
-- The hash of a key in memory.
-- kmod/qos_marktbl_main.c, hash_fn, over the key's bytes and 32-bit unsigned arithmetic.
pub mod Bounds
pub mod Distinct
use ip_qos.Base.{
  ℕ, zero, suc, ◌+◌, ◌-◌, ◌*◌, ◌/◌, ◌%◌, bit_xor, Bool, true, false, List, [], ◌∷◌, get_or, drop,
  leb, if◌then◌else◌, ◌==◌,
}
use ip_qos.Base.Word.{u32_mod, add32, not32}

-- `key[0] + (key[1] << 8) + (key[2] << 16) + (key[3] << 24)`
unfoldable pub word_at : List ℕ → ℕ
word_at key =
    (get_or key 0 0
      + get_or key 1 0 * 0x100
      + get_or key 2 0 * 0x1_0000
      + get_or key 3 0 * 0x100_0000)
    % u32_mod

-- `a ^= a >> n`, with `d` the power 2 ^ n
unfoldable pub xor_shift : ℕ → ℕ → ℕ
xor_shift d a = bit_xor a (a / d)

-- `a += ~(a << n)`
unfoldable pub add_not_shift : ℕ → ℕ → ℕ
add_not_shift d a = add32 a (not32 (a * d % u32_mod))

-- `a += a << n`
unfoldable pub add_shift : ℕ → ℕ → ℕ
add_shift d a = add32 a (a * d % u32_mod)

-- One block, from `a += b` to `a ^= (a >> 16)`.
unfoldable pub mix : ℕ → ℕ → ℕ
mix a b =
    let a₁ = add_not_shift 0x8000 (add32 a b) in
    let a₂ = add_shift 8 (xor_shift 0x400 a₁) in
    let a₃ = add_not_shift 0x800 (xor_shift 0x40 a₂) in xor_shift 0x1_0000 a₃

-- The loop's variables.
pub record HashState : Type 0 where
  pub key : List ℕ
  pub len : ℕ
  pub a : ℕ
  pub b : ℕ

-- `while (len >= 8)`. Each round takes 4 from `len`, so `len` rounds are enough.
unfoldable pub hash_loop : ℕ → HashState → HashState
hash_loop zero s = s
hash_loop (suc fuel) s = elim (leb 8 s.len) [
  | true ↦
      hash_loop fuel (record {
        key = drop 4 s.key;
        len = s.len - 4;
        a = mix s.a s.b;
        b = word_at (drop 4 s.key);
      })
  | false ↦ s
]

-- `if (len >= 4)`. The key is not moved on.
unfoldable pub hash_block : HashState → HashState
hash_block s = if leb 4 s.len then record s { a = mix s.a s.b; len = s.len - 4 } else s

-- The switch, whose cases fall through.
unfoldable pub hash_tail : HashState → ℕ
hash_tail s =
    let case3 = λ (a : ℕ). add32 a (get_or s.key 2 0 * 0x1_0000) in
    let case2 = λ (a : ℕ). bit_xor a (get_or s.key 1 0 * 0x100) in
    let case1 = λ (a : ℕ). add32 a (get_or s.key 0 0) in
    if s.len == 3
    then case1 (case2 (case3 s.a))
    else if s.len == 2
    then case1 (case2 s.a)
    else if s.len == 1
    then case1 s.a
    else s.a

unfoldable pub hash_fn : List ℕ → ℕ → ℕ
unfolding hash_loop hash_block hash_tail
hash_fn key key_len =
    let start : HashState = record {
      key = key;
      len = key_len;
      a = key_len;
      b = if leb 4 key_len then word_at key else 0;
    } in
    hash_tail (hash_block (hash_loop key_len start))

-- The bytes of an address in the memory of a little-endian host, lowest first.
unfoldable pub key_bytes : ℕ → List ℕ
key_bytes ip =
    (ip % 256) ∷ (ip / 0x100 % 256) ∷ (ip / 0x1_0000 % 256) ∷ (ip / 0x100_0000 % 256) ∷ []
