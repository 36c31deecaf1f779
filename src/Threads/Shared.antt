-- ===== src/Threads/Shared.antt =====
-- Two packets of different new addresses of one rule in share mode that take turns.
use ip_qos.Base.{
  ℕ, ◌-◌, ◌+◌, ◌≤◌, ◌<◌, ◌≡◌, ◌≢◌, ◌∙◌, refl, ap, sym, inr, true, false, none, some, [], ◌∷◌,
  length, length-set, if◌then◌else◌, ◌==◌, ==_iff, ==_refl, arith,
}
use ip_qos.Api.{is_private}
use ip_qos.Auto.Steps.{choose_mark_first, settings-attach}
use ip_qos.Auto.Use.{add_run}
use ip_qos.Bitmap.Marks.{mark_of, next_bit, next_bit-IsMark, next_bit_new}
use ip_qos.Consistent.{IsConsistent, IsShaped, IsMark, rule_at, settings, settings-set}
use ip_qos.Consistent.Insert.{attach, attach-IsShaped, new_node, view-attach, length-attach}
use ip_qos.Consistent.Marks.{
  set_bit, set_bit-IsMark, set_mark, set_mark-IsConsistent, take_bit-IsConsistent, rule_at-set_mark,
}
use ip_qos.Kernel.{Kernel, RuletblNode, done, ◌>>=◌, is_ok}
use ip_qos.State.{Tables, up, idle}
use ip_qos.Table.{find}
use ip_qos.Table.Buckets.{view, view-set, chain_of}
use ip_qos.Table.Runs.{spent}
use ip_qos.Target.Marking.{qmark_find_hash_missing}
use ip_qos.TcRules.{TcRules}
use ip_qos.Threads.{looks, installs, step, take_turns}

-- The first user of a rule takes the next mark, and keeps it in the rule.
abbrev pub named : Tables → ℕ → Tables
named s i = set_mark (set_bit s (next_bit s) true) i (mark_of (next_bit s))

module _ (s : Tables) (c : IsConsistent s) (i : ℕ) (inside : i < length s.rules)
    (unused : (rule_at s.rules i).count ≡ 0) (room : next_bit s < s.max_ip_cnt) where
  abbrev taken : Tables
  taken = set_bit s (next_bit s) true

  taken-IsConsistent : IsConsistent taken
  taken-IsConsistent = take_bit-IsConsistent s c (next_bit s) (omega (arith, c.shape.bits_width))

  named-IsConsistent : IsConsistent (named s i)
  named-IsConsistent =
      set_mark-IsConsistent taken taken-IsConsistent i (mark_of (next_bit s)) inside (inr unused)

  named_at :
      rule_at (named s i).rules i ≡ record (rule_at s.rules i) { mark = mark_of (next_bit s) }
  named_at = ground (
    arith,
    rule_at-set_mark taken taken-IsConsistent i (mark_of (next_bit s)) inside i,
    ==_refl i,
  )

  named-IsMark : IsMark (named s i) (mark_of (next_bit s))
  named-IsMark = next_bit-IsMark s c room

  -- A mark in use before.
  named_keeps : (mark : ℕ) → IsMark s mark → IsMark (named s i) mark
  named_keeps mark valid =
      set_bit-IsMark s c (next_bit s) (omega (arith, c.shape.bits_width)) true mark (λ f. cc) valid

module _ {T : Type 0} (tc : TcRules T) (k : Kernel T) (s : Tables) (c : IsConsistent s)
    (ip ip' id : ℕ) (far : ip ≢ ip') (low : 0 < id) (high : id ≤ length s.rules)
    (absent : view s.ht ip ≡ none) (absent' : view s.ht ip' ≡ none)
    (shared : (rule_at s.rules (id - 1)).mode ≢ 0) (unused : (rule_at s.rules (id - 1)).count ≡ 0)
    (room : s.elem_num + 1 < s.max_ip_cnt) (first_bit : next_bit s < s.max_ip_cnt)
    (second_bit : next_bit (set_bit s (next_bit s) true) < s.max_ip_cnt) (given : k.supply 0 ≡ true)
    (given' : k.supply 1 ≡ true) (normal : k.reset_flag ≡ false) where
  abbrev i : ℕ
  i = id - 1

  inside : i < length s.rules
  inside = omega arith

  -- The tables when the first packet has a mark, and when both have one.
  abbrev one : Tables
  one = named s i

  abbrev two : Tables
  two = named one i

  abbrev mark : ℕ
  mark = mark_of (next_bit s)

  abbrev mark' : ℕ
  mark' = mark_of (next_bit one)

  one-IsConsistent : IsConsistent one
  one-IsConsistent = named-IsConsistent s c i inside unused first_bit

  at_one : rule_at one.rules i ≡ record (rule_at s.rules i) { mark = mark }
  at_one = named_at s c i inside unused first_bit

  inside_one : i < length one.rules
  inside_one = rw length-set inside

  unused_one : (rule_at one.rules i).count ≡ 0
  unused_one = rw at_one unused

  two-IsConsistent : IsConsistent two
  two-IsConsistent = named-IsConsistent one one-IsConsistent i inside_one unused_one second_bit

  high_two : id ≤ length two.rules
  high_two = rw (length-set, length-set) high

  first-IsMark : IsMark two mark
  first-IsMark =
      named_keeps one one-IsConsistent i inside_one unused_one second_bit mark
        (named-IsMark s c i inside unused first_bit)

  second-IsMark : IsMark two mark'
  second-IsMark = named-IsMark one one-IsConsistent i inside_one unused_one second_bit

  different : mark ≢ mark'
  different =
      next_bit_new one one-IsConsistent second_bit mark (named-IsMark s c i inside unused first_bit)

  -- The tables when the first packet is in them, and when both are.
  abbrev three : Tables
  three = attach two ip id mark

  abbrev four : Tables
  four = attach three ip' id mark'

  three-IsShaped : IsShaped three
  three-IsShaped = attach-IsShaped two ip id mark two-IsConsistent absent (omega arith) low high_two

  view_three :
      (q : ℕ) → view three.ht q ≡ (if ip == q then some (new_node ip id mark) else view s.ht q)
  view_three q = view-attach two ip id mark two-IsConsistent absent (omega arith) low high_two q

  absent_three : view three.ht ip' ≡ none
  absent_three = ground (arith, view_three ip', ==_iff ip ip')

  view_four :
      (q : ℕ)
      → view four.ht q ≡ (if ip' == q then some (new_node ip' id mark') else view three.ht q)
  unfolding find
  view_four =
      view-set three.ht ip' (new_node ip' id mark' ∷ chain_of three.ht ip')
        (omega (arith, three-IsShaped.pos, three-IsShaped.width)) (some (new_node ip' id mark'))
        (λ q. refl)

  share : is_private (rule_at s.rules i) ≡ false
  share = ground (arith, ==_iff (rule_at s.rules i).mode 0)

  none_yet : ((rule_at s.rules i).count == 0) ≡ true
  none_yet = (==_iff (rule_at s.rules i).count 0).1 unused

  abbrev h : Kernel T
  h = record k { reset_flag = false }

  settings_four : settings (rule_at four.rules i) ≡ settings (rule_at s.rules i)
  settings_four =
      settings-attach three ip' id mark' i
      ∙ settings-attach two ip id mark i
      ∙ settings-set one.rules i i (record (rule_at one.rules i) { mark = mark' }) refl
      ∙ ap settings at_one

  broken : ¬ IsConsistent four
  broken d =
      let mode : (rule_at four.rules i).mode ≢ 0 =
        λ private. shared (sym (ap (λ (r : RuletblNode). r.mode) settings_four) ∙ private) in
      let own =
        d.shared ip (new_node ip id mark)
          (ground (arith, view_four ip, view_three ip, ==_iff ip' ip, ==_refl ip)) mode in
      let own' =
        d.shared ip' (new_node ip' id mark') (ground (arith, view_four ip', ==_refl ip')) mode in
      different (own ∙ sym own')

  -- From consistent tables with room for two addresses and two marks, with memory and no reset
  -- going on, two packets of different new addresses and one rule in share mode without users that
  -- take turns one step each end up in the table with different marks, which breaks the invariant
  -- of shared rules: both read the count before either has raised it.
  pub take_turns_split :
      (m m' : ℕ) × (k' : Kernel T) × (s' : Tables) × (take_turns tc ip id ip' id
          (true ∷ false ∷ true ∷ false ∷ true ∷ false ∷ [])
          looks
          looks
          (up (idle k) s)
        ≡ done ((installs m, installs m'), up (idle k') s'))
      × (view s'.ht ip ≡ some (new_node ip id m))
      × (view s'.ht ip' ≡ some (new_node ip' id m'))
      × (m ≢ m')
      × (¬ IsConsistent s')
  unfolding take_turns step
  take_turns_split = (
    mark,
    mark',
    spent (spent k),
    four,
    rw
        (
          qmark_find_hash_missing (idle k) s c ip absent,
          ◌>>=◌,
          if◌then◌else◌,
          qmark_find_hash_missing (idle k) s c ip' absent',
          ◌>>=◌,
          if◌then◌else◌,
          normal,
          choose_mark_first h s c.shape id low high share none_yet first_bit,
          choose_mark_first h one one-IsConsistent.shape id low (omega (arith, inside_one))
              (rw at_one share) (rw at_one none_yet) second_bit,
          add_run h two two-IsConsistent.shape ip id mark absent low high_two first-IsMark
              (omega arith) given,
          add_run (spent h) three three-IsShaped ip' id mark' absent_three low
              (rw (length-attach two ip id mark two-IsConsistent absent (omega arith) low high_two)
                high_two)
              second-IsMark (omega (arith, c.shape.limit)) given',
          ◌>>=◌,
          if◌then◌else◌,
          is_ok,
        )
        refl,
    ground (arith, view_four ip, view_three ip, ==_iff ip' ip, ==_refl ip),
    ground (arith, view_four ip', ==_refl ip'),
    different,
    broken,
  )
