-- ===== src/Api/Marks.antt =====
-- qmark_alloc_mark and qmark_free_mark, as users of the ioctl interface see them.
use ip_qos.Base.{
  ℕ, zero, suc, ◌≤◌, ◌<◌, ◌≡◌, refl, ap, sym, ◌∙◌, Bool-cases, inl, inr, ltb, leb, Bool, true,
  false, List, [], ◌∷◌, length, set, get_or-set, if◌then◌else◌, ◌==◌, arith,
}
use mathlib.Core.Bool.{false≢true}
use ip_qos.Api.{qmark_alloc_mark, qmark_free_mark}
use ip_qos.Bitmap.Laws.{bit, find_first_zero_bit_least, find_first_zero_bit_clear}
use ip_qos.Bitmap.Marks.{mark_of, next_bit, alloc_mark_full, alloc_mark_run, free_mark_run}
use ip_qos.Consistent.{IsShaped, slot}
use ip_qos.Consistent.Marks.{set_bit, set_bit-IsShaped}
use ip_qos.Kernel.{Kernel, done, ok, error, ◌>>=◌}
use ip_qos.State.{Tables, up, idle, busy}

-- A bit that is set and cleared again is as it was.
set_back : (bits : List Bool) (j : ℕ) → bit bits j ≡ false → set (set bits j true) j false ≡ bits
set_back [] j clear = refl
set_back (b ∷ bits) zero clear = ap (λ c. c ∷ bits) (sym clear)
set_back (b ∷ bits) (suc j) clear = ap (λ rest. b ∷ rest) (set_back bits j clear)

module _ {T : Type 0} (k : Kernel T) (s : Tables) (shape : IsShaped s) where
  -- On well-shaped tables, where all of the first max_ip_cnt bits are set, qmark_alloc_mark
  -- returns error and mark 0, releases the lock and changes nothing.
  pub qmark_alloc_mark_full :
      ((i : ℕ) → i < s.max_ip_cnt → bit s.bits i ≡ true)
      → qmark_alloc_mark (up (idle k) s) ≡ done ((error, 0), up (idle k) s)
  unfolding qmark_alloc_mark
  qmark_alloc_mark_full full =
      rw (alloc_mark_full (busy k) s shape (none_left full), ◌>>=◌, if◌then◌else◌) refl
    where
      none_left : ((i : ℕ) → i < s.max_ip_cnt → bit s.bits i ≡ true) → s.max_ip_cnt ≤ next_bit s
      none_left full = elim (Bool-cases (ltb (next_bit s) s.max_ip_cnt)) [
        | inl room ↦ absurd (
            false≢true (
              sym (find_first_zero_bit_clear s.bits s.max_ip_cnt (ground arith))
              ∙ full (next_bit s) (ground arith)))
        | inr none_free ↦ ground arith
      ]

  has_room : (j : ℕ) → j < s.max_ip_cnt → bit s.bits j ≡ false → next_bit s ≤ j
  has_room j inside clear = elim (Bool-cases (leb (next_bit s) j)) [
    | inl before ↦ ground arith
    | inr after ↦
        absurd
          (false≢true (sym clear ∙ find_first_zero_bit_least s.bits s.max_ip_cnt j (ground arith)))
  ]

  -- On well-shaped tables, where a bit below max_ip_cnt is clear, qmark_alloc_mark returns ok and
  -- the mark of the lowest clear bit, and qmark_free_mark on that mark restores the tables.
  pub qmark_alloc_mark-free :
      (j : ℕ)
      → j < s.max_ip_cnt
      → bit s.bits j ≡ false
      → (mark : ℕ) × (s' : Tables) × (qmark_alloc_mark (up (idle k) s)
          ≡ done ((ok, mark), up (idle k) s'))
        × (slot mark ≤ j)
        × (bit s.bits (slot mark) ≡ false)
        × ((i : ℕ) → i < slot mark → bit s.bits i ≡ true)
        × (bit s'.bits (slot mark) ≡ true)
        × (qmark_free_mark mark (up (idle k) s') ≡ done (tt, up (idle k) s))
  unfolding qmark_alloc_mark qmark_free_mark
  qmark_alloc_mark-free j inside clear =
      let z = next_bit s in
      let before = has_room j inside clear in
      let room : z < s.max_ip_cnt = omega arith in
      let free = find_first_zero_bit_clear s.bits s.max_ip_cnt room in
      let same : slot (mark_of z) ≡ z = omega arith in
      let valid : (mark_of z == 0) ≡ false = ground arith in
      let wide : z < length s.bits = omega (arith, shape.bits_width) in
      (
        mark_of z,
        set_bit s z true,
        rw (alloc_mark_run (busy k) s shape room, valid, ◌>>=◌, if◌then◌else◌) refl,
        rw same before,
        rw same free,
        rw same (find_first_zero_bit_least s.bits s.max_ip_cnt),
        rw same (get_or-set s.bits z z true false wide ∙ ground arith),
        rw
            (
              free_mark_run (busy k) (set_bit s z true) (set_bit-IsShaped s shape z true)
                  (mark_of z) (omega arith) (omega arith),
              same,
              set_back s.bits z free,
              ◌>>=◌,
            )
            refl,
      )
