-- ===== src/Hash/Distinct.antt =====
-- The hash of the four bytes of an address, before it is reduced to an index.
use ip_qos.Base.{ℕ, suc, ◌^◌, ◌/◌, ◌<◌, ◌≡◌, ◌≢◌, ◌∙◌, refl, sym, bit_xor, arith}
use ip_qos.Base.Word.{u32_mod, add32}
use ip_qos.Base.Xor.{xor_shift-injective}
use ip_qos.Hash.{word_at, xor_shift, add_not_shift, add_shift, mix, hash_fn, key_bytes}
use ip_qos.Hash.Bounds.{xor_shift-lt}

-- Each step of a round can be undone: 2 ^ n - 1 and 2 ^ 3 + 1 are odd.
add-injective : (a b b' : ℕ) → b < u32_mod → b' < u32_mod → add32 a b ≡ add32 a b' → b ≡ b'
add-injective a b b' p q h = omega arith

first_scramble-injective :
    (a b : ℕ) → a < u32_mod → b < u32_mod → add_not_shift 0x8000 a ≡ add_not_shift 0x8000 b → a ≡ b
unfolding add_not_shift
first_scramble-injective a b p q h = omega arith

second_scramble-injective :
    (a b : ℕ) → a < u32_mod → b < u32_mod → add_not_shift 0x800 a ≡ add_not_shift 0x800 b → a ≡ b
unfolding add_not_shift
second_scramble-injective a b p q h = omega arith

add_shift-injective : (a b : ℕ) → a < u32_mod → b < u32_mod → add_shift 8 a ≡ add_shift 8 b → a ≡ b
unfolding add_shift
add_shift-injective a b p q h = omega arith

fold-injective :
    (n a b : ℕ)
    → a < u32_mod
    → b < u32_mod
    → bit_xor a (a / 2 ^ suc n) ≡ bit_xor b (b / 2 ^ suc n)
    → a ≡ b
fold-injective n a b p q h = xor_shift-injective n 32 a b p q h

word_at-key_bytes : (ip : ℕ) → ip < u32_mod → word_at (key_bytes ip) ≡ ip
unfolding word_at key_bytes
word_at-key_bytes ip h = omega arith

one_round : (ip : ℕ) → ip < u32_mod → hash_fn (key_bytes ip) 4 ≡ mix 4 ip
unfolding hash_fn
one_round ip h = rw (word_at-key_bytes ip h) refl

add_not_shift-lt : (d a : ℕ) → add_not_shift d a < u32_mod
unfolding add_not_shift
add_not_shift-lt d a = omega arith

add_shift-lt : (d a : ℕ) → add_shift d a < u32_mod
unfolding add_shift
add_shift-lt d a = omega arith

mix-injective : (a b b' : ℕ) → b < u32_mod → b' < u32_mod → mix a b ≡ mix a b' → b ≡ b'
unfolding mix xor_shift
mix-injective a b b' p p' h =
    let x₁ = add32 a b in
    let y₁ = add32 a b' in
    let x₂ = add_not_shift 0x8000 x₁ in
    let y₂ = add_not_shift 0x8000 y₁ in
    let x₃ = xor_shift 0x400 x₂ in
    let y₃ = xor_shift 0x400 y₂ in
    let x₄ = add_shift 8 x₃ in
    let y₄ = add_shift 8 y₃ in
    let x₅ = xor_shift 0x40 x₄ in
    let y₅ = xor_shift 0x40 y₄ in
    let e₅ =
      fold-injective 15 (add_not_shift 0x800 x₅) (add_not_shift 0x800 y₅)
        (add_not_shift-lt 0x800 x₅) (add_not_shift-lt 0x800 y₅) h in
    let e₄ =
      second_scramble-injective x₅ y₅ (xor_shift-lt 0x40 x₄ (add_shift-lt 8 x₃))
        (xor_shift-lt 0x40 y₄ (add_shift-lt 8 y₃)) e₅ in
    let e₃ = fold-injective 5 x₄ y₄ (add_shift-lt 8 x₃) (add_shift-lt 8 y₃) e₄ in
    let e₂ =
      add_shift-injective x₃ y₃ (xor_shift-lt 0x400 x₂ (add_not_shift-lt 0x8000 x₁))
        (xor_shift-lt 0x400 y₂ (add_not_shift-lt 0x8000 y₁)) e₃ in
    let e₁ = fold-injective 9 x₂ y₂ (add_not_shift-lt 0x8000 x₁) (add_not_shift-lt 0x8000 y₁) e₂ in
    add-injective a b b' p p' (first_scramble-injective x₁ y₁ (omega arith) (omega arith) e₁)

-- Two different 32-bit addresses have different hashes: hash_fn loses nothing of a key of four
-- bytes, and addresses collide only where the hash is reduced modulo the size of the table.
pub hash_fn_distinct :
    (ip ip' : ℕ)
    → ip < u32_mod
    → ip' < u32_mod
    → ip ≢ ip'
    → hash_fn (key_bytes ip) 4 ≢ hash_fn (key_bytes ip') 4
hash_fn_distinct ip ip' p p' far same =
    far (mix-injective 4 ip ip' p p' (sym (one_round ip p) ∙ same ∙ one_round ip' p'))
