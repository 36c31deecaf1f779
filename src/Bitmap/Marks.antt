-- ===== src/Bitmap/Marks.antt =====
-- The bitmap's functions run on tables that are up, and the marks that they give out.
use ip_qos.Base.{
  ℕ, ◌+◌, ◌*◌, ◌≤◌, ◌<◌, ◌≡◌, ◌≢◌, sym, ◌∙◌, true, false, get_or-set, get_elem?-get_or, arith,
}
use mathlib.Core.Bool.{false≢true}
use ip_qos.Base.Word.{sub32}
use ip_qos.Bitmap.{shift_down, find_first_zero_bit, alloc_mark, free_mark, test_mark}
use ip_qos.Bitmap.Laws.{bit, find_first_zero_bit_clear}
use ip_qos.Consistent.{IsConsistent, IsShaped, IsMark, slot}
use ip_qos.Consistent.Marks.{set_bit, IsUnused}
use ip_qos.Kernel.{Kernel, done}
use ip_qos.State.{Tables, up}

-- The mark of bit `z`.
abbrev pub mark_of : ℕ → ℕ
mark_of z = (z + 1) * 0x800

-- The bit that alloc_mark takes next.
abbrev pub next_bit : Tables → ℕ
next_bit s = find_first_zero_bit s.bits s.max_ip_cnt

module _ {T : Type 0} (k : Kernel T) (s : Tables) (shape : IsShaped s) where
  pub alloc_mark_full : s.max_ip_cnt ≤ next_bit s → alloc_mark (up k s) ≡ done (0, up k s)
  unfolding alloc_mark
  alloc_mark_full full = ground arith

  pub alloc_mark_run :
      next_bit s < s.max_ip_cnt
      → alloc_mark (up k s) ≡ done (mark_of (next_bit s), up k (set_bit s (next_bit s) true))
  unfolding alloc_mark
  alloc_mark_run room = ground (arith, shape.bits_width, shape.limit)

  module _ (mark : ℕ) (big : 0x800 ≤ mark) (small : slot mark < s.max_ip_cnt) where
    index : sub32 (shift_down mark) 1 ≡ slot mark
    index = omega (arith, shape.limit)

    pub free_mark_run : free_mark mark (up k s) ≡ done (tt, up k (set_bit s (slot mark) false))
    unfolding free_mark
    free_mark_run = ground (arith, shape.bits_width, index)

    pub test_mark_run : test_mark mark (up k s) ≡ done (bit s.bits (slot mark), up k s)
    unfolding test_mark
    test_mark_run =
        ground (
          arith,
          index,
          get_elem?-get_or s.bits (slot mark) false (omega (arith, shape.bits_width)),
        )

module _ (s : Tables) (c : IsConsistent s) (room : next_bit s < s.max_ip_cnt) where
  abbrev z : ℕ
  z = next_bit s

  pub next_bit_clear : bit s.bits z ≡ false
  next_bit_clear = find_first_zero_bit_clear s.bits s.max_ip_cnt room

  pub next_bit-IsMark : IsMark (set_bit s z true) (mark_of z)
  next_bit-IsMark =
      let same : slot (mark_of z) ≡ z = omega arith in
      (
        omega arith,
        omega arith,
        omega arith,
        rw same
            (get_or-set s.bits z z true false (omega (arith, c.shape.bits_width)) ∙ ground arith),
      )

  -- A mark in use has its bit set, so it is another one.
  pub next_bit_new : (mark : ℕ) → IsMark s mark → mark ≢ mark_of z
  next_bit_new mark (_, _, _, on) same =
      let same_slot : slot mark ≡ z = omega arith in
      false≢true (sym next_bit_clear ∙ rw same_slot at on)

  pub next_bit-IsUnused : IsUnused (set_bit s z true) (mark_of z)
  next_bit-IsUnused = record {
    by_nodes = λ q n e. let (_, _, mark) = c.marked q n e in next_bit_new n.mark mark;
    by_rules = λ i h mode used. next_bit_new _ (c.owned i h mode used).0;
  }
