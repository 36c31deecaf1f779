-- ===== src/Base/Word.antt =====
-- 32-bit unsigned arithmetic, and the kernel's atomic_t, a signed counter kept as its bit pattern.
use Prim.Native.Nat.{ℕ, ◌+◌, ◌-◌, ◌*◌, ◌/◌, ◌%◌}
use mathlib.Core.Bool.{Bool, ◌&&◌}
use ip_qos.Base.Tests.{ltb}

-- 2 ^ 32
abbrev pub u32_mod : ℕ
u32_mod = 0x1_0000_0000

abbrev pub add32 : ℕ → ℕ → ℕ
add32 a b = (a + b) % u32_mod

-- `a - b` on uint32_t.
abbrev pub sub32 : ℕ → ℕ → ℕ
sub32 a b = (a + u32_mod - b) % u32_mod

-- `~a` of a value below 2 ^ 32.
abbrev pub not32 : ℕ → ℕ
not32 a = 0xffff_ffff - a

-- The items of `size` bytes that `kmalloc(size * n)` has room for: size_t has 32 bits.
abbrev pub items_for : ℕ → ℕ → ℕ
items_for size n = size * n % u32_mod / size

-- atomic_inc and atomic_dec
abbrev pub atomic_inc : ℕ → ℕ
atomic_inc c = (c + 1) % u32_mod

abbrev pub atomic_dec : ℕ → ℕ
atomic_dec c = (c + 0xffff_ffff) % u32_mod

-- `atomic_read(&c) > 0`: neither zero nor negative.
abbrev pub is_positive : ℕ → Bool
is_positive c = ltb 0 c && ltb c 0x8000_0000
