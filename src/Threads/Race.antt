-- ===== src/Threads/Race.antt =====
-- Two packets of one new address that take turns.
use ip_qos.Base.{
  ℕ, ◌-◌, ◌+◌, ◌≤◌, ◌<◌, ◌≡◌, refl, get_or-set, true, false, none, some, [], ◌∷◌, length,
  if◌then◌else◌, ==_iff, arith,
}
use ip_qos.Api.{qmark_add_hash, is_private}
use ip_qos.Auto.Steps.{choose_mark_private}
use ip_qos.Auto.Use.{add_run}
use ip_qos.Bitmap.Marks.{mark_of, next_bit, next_bit-IsMark, next_bit-IsUnused, test_mark_run}
use ip_qos.Consistent.{IsConsistent, IsMark, rule_at, slot}
use ip_qos.Consistent.Insert.{attach, fresh, new_node, view-attach}
use ip_qos.Consistent.Insert.Keeps.{attach-IsConsistent}
use ip_qos.Consistent.Marks.{IsUnused, set_bit, take_bit-IsConsistent}
use ip_qos.Kernel.{Kernel, fault, null_pointer, ◌>>=◌, is_ok}
use ip_qos.State.{Tables, up, idle, busy}
use ip_qos.Table.{qos_marktbl_hashtbl_add}
use ip_qos.Table.Buckets.{view}
use ip_qos.Table.Runs.{marktbl_hash_add_twice, spent}
use ip_qos.Target.Marking.{qmark_find_hash_missing}
use ip_qos.TcRules.{TcRules}
use ip_qos.Threads.{looks, step, take_turns}

module _ {T : Type 0} (tc : TcRules T) (k : Kernel T) (s : Tables) (c : IsConsistent s) (ip id : ℕ)
    (low : 0 < id) (high : id ≤ length s.rules) (absent : view s.ht ip ≡ none)
    (private : is_private (rule_at s.rules (id - 1)) ≡ true) (room : s.elem_num + 1 < s.max_ip_cnt)
    (first_bit : next_bit s < s.max_ip_cnt)
    (second_bit : next_bit (set_bit s (next_bit s) true) < s.max_ip_cnt) (given : k.supply 0 ≡ true)
    (normal : k.reset_flag ≡ false) where
  -- The tables when the first packet has a mark, and when both have one.
  abbrev one : Tables
  one = set_bit s (next_bit s) true

  abbrev two : Tables
  two = set_bit one (next_bit one) true

  abbrev mark : ℕ
  mark = mark_of (next_bit s)

  abbrev mark' : ℕ
  mark' = mark_of (next_bit one)

  private_mode : (rule_at s.rules (id - 1)).mode ≡ 0
  private_mode = ground (arith, ==_iff (rule_at s.rules (id - 1)).mode 0)

  one-IsConsistent : IsConsistent one
  one-IsConsistent = take_bit-IsConsistent s c (next_bit s) (omega (arith, c.shape.bits_width))

  two-IsConsistent : IsConsistent two
  two-IsConsistent =
      take_bit-IsConsistent one one-IsConsistent (next_bit one)
        (omega (arith, one-IsConsistent.shape.bits_width))

  first-IsMark : IsMark two mark
  first-IsMark =
      let (big, round, small, on) = next_bit-IsMark s c first_bit in
      let same : slot mark ≡ next_bit s = omega arith in
      (
        big,
        round,
        small,
        rw
            (
              get_or-set one.bits (next_bit one) (slot mark) true false
                  (omega (arith, one-IsConsistent.shape.bits_width)),
              on,
            )
            (ground arith),
      )

  first-IsUnused : IsUnused two mark
  first-IsUnused =
      let unused = next_bit-IsUnused s c first_bit in
      record { by_nodes = unused.by_nodes; by_rules = unused.by_rules }

  -- The tables when the first packet is in them.
  abbrev three : Tables
  three = attach two ip id mark

  three-IsConsistent : IsConsistent three
  three-IsConsistent =
      attach-IsConsistent two ip id mark two-IsConsistent absent (omega arith) low high first-IsMark
        (fresh first-IsUnused (λ mode. absurd (mode (private_mode))))

  there : view three.ht ip ≡ some (new_node ip id mark)
  there =
      ground (arith, view-attach two ip id mark two-IsConsistent absent (omega arith) low high ip)

  -- The second packet finds a node in the way.
  add_second : (h : Kernel T) → qmark_add_hash ip id mark' (up (idle h) three) ≡ fault null_pointer
  unfolding qmark_add_hash qos_marktbl_hashtbl_add
  add_second h =
      let (big, round, small, on) = next_bit-IsMark one one-IsConsistent second_bit in
      rw
        (
          test_mark_run (busy h) three three-IsConsistent.shape mark' big small,
          on,
          marktbl_hash_add_twice (busy h) three three-IsConsistent.shape ip id mark'
              (omega (arith, c.shape.limit)) (new_node ip id mark) there,
          ◌>>=◌,
          if◌then◌else◌,
        )
        refl

  abbrev h : Kernel T
  h = record k { reset_flag = false }

  -- From consistent tables with room for two addresses and two marks, with memory and no reset
  -- going on, two packets of one new address and one rule in private mode that take turns one step
  -- each dereference a null pointer: both look before either has added the address, and the second
  -- one's insertion finds it there.
  pub take_turns-fault :
      take_turns tc ip id ip id
        (true ∷ false ∷ true ∷ false ∷ true ∷ false ∷ [])
        looks
        looks
        (up (idle k) s)
      ≡ fault null_pointer
  unfolding take_turns step
  take_turns-fault =
      rw
        (
          qmark_find_hash_missing (idle k) s c ip absent,
          ◌>>=◌,
          if◌then◌else◌,
          qmark_find_hash_missing (idle k) s c ip absent,
          ◌>>=◌,
          if◌then◌else◌,
          normal,
          choose_mark_private h s c.shape id low high private first_bit,
          choose_mark_private h one one-IsConsistent.shape id low high private second_bit,
          add_run h two two-IsConsistent.shape ip id mark absent low high first-IsMark (omega arith)
              given,
          add_second (spent h),
          ◌>>=◌,
          if◌then◌else◌,
          is_ok,
        )
        refl
