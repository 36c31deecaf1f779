-- ===== src/Bitmap.antt =====
-- The mark bitmap: one bit for each mark that is given out.
-- kmod/qos_marktbl_main.c, mark_bitmap_init to flush_mark. The bitmap is a list of bits, as long
-- as the words that BITS_TO_LONGS allocates; bitmap_set, bitmap_clear, test_bit, bitmap_zero and
-- find_first_zero_bit are the kernel's.
pub mod Laws
pub mod Marks
use ip_qos.Base.{
  ℕ, zero, suc, ◌+◌, ◌*◌, ◌/◌, ◌%◌, Bool, true, false, List, [], ◌∷◌, if◌then◌else◌, leb, replicate,
}
use ip_qos.Base.Word.{u32_mod, add32, sub32}
use ip_qos.Kernel.{
  M, Status, ok, alloc_fail, null, live, done, pure, deref, get_bounded, set_bounded, kmalloc,
  ◌>>=◌, ◌>>◌,
}

-- `x << MARK_BASE` and `x >> MARK_BASE` on uint32_t; MARK_BASE is 11.
abbrev pub shift_up : ℕ → ℕ
shift_up x = x * 0x800 % u32_mod

abbrev pub shift_down : ℕ → ℕ
shift_down x = x / 0x800

-- BITS_TO_LONGS(n) * BITS_PER_LONG, with longs and a size_t of 32 bits.
abbrev pub long_bits : ℕ → ℕ
long_bits n = add32 n 31 / 32 * 32

-- The lowest clear bit below `n`, or `n`.
unfoldable pub find_first_zero_bit : List Bool → ℕ → ℕ
find_first_zero_bit bits zero = zero
find_first_zero_bit [] (suc n) = zero
find_first_zero_bit (b ∷ bits) (suc n) =
    let later = suc (find_first_zero_bit bits n) in if b then later else zero

-- bitmap_zero clears the words that hold the first `n` bits.
unfoldable pub bitmap_zero : List Bool → ℕ → List Bool
bitmap_zero bits zero = bits
bitmap_zero [] (suc n) = []
bitmap_zero (b ∷ bits) (suc n) = false ∷ bitmap_zero bits n

module _ {T : Type 0} where
  get_bitmap : M T (List Bool)
  get_bitmap k = deref k.bitmap k

  put_bitmap : List Bool → M T (Unit {0})
  put_bitmap bits k = done (tt, record k { bitmap = live bits })

  unfoldable pub mark_bitmap_init : ℕ → M T Status
  mark_bitmap_init cnt = do
    given ← kmalloc
    if given
        then (λ k. done (ok, record k { bitmap = live (replicate (long_bits cnt) false) }))
        else (λ k. done (alloc_fail, record k { bitmap = null }))

  unfoldable pub mark_bitmap_exit : M T (Unit {0})
  mark_bitmap_exit k = done (tt, record k { bitmap = null })

  -- 0 stands for no mark.
  unfoldable pub alloc_mark : M T ℕ
  unfolding get_bitmap put_bitmap
  alloc_mark = do
    bits ← get_bitmap
    max_ip_cnt ← λ k. done (k.max_ip_cnt, k)
    let first_zero_bit = find_first_zero_bit bits max_ip_cnt
    if leb max_ip_cnt first_zero_bit then pure 0 else do
      bits' ← set_bounded bits first_zero_bit true
      put_bitmap bits'
      let mark_offset = (first_zero_bit % u32_mod + 1) % u32_mod
      pure (shift_up mark_offset)

  unfoldable pub free_mark : ℕ → M T (Unit {0})
  unfolding get_bitmap put_bitmap
  free_mark mark = do
    bits ← get_bitmap
    bits' ← set_bounded bits (sub32 (shift_down mark) 1) false
    put_bitmap bits'

  unfoldable pub test_mark : ℕ → M T Bool
  unfolding get_bitmap
  test_mark mark = do bits ← get_bitmap; get_bounded bits (sub32 (shift_down mark) 1)

  unfoldable pub flush_mark : M T (Unit {0})
  unfolding get_bitmap put_bitmap
  flush_mark = do
    bits ← get_bitmap
    max_ip_cnt ← λ k. done (k.max_ip_cnt, k)
    put_bitmap (bitmap_zero bits (long_bits max_ip_cnt))
