-- ===== src/Auto/New.antt =====
-- What qmark_alloc_mark_auto ends with where it takes a new mark.
use ip_qos.Base.{
  ℕ, ◌-◌, ◌≤◌, ◌<◌, ◌≡◌, ◌≢◌, refl, ◌∙◌, sym, ◌⊎◌, true, false, none, length, set, length-set,
  get_or-set, ==_iff, ==_refl, arith,
}
use mathlib.Core.Bool.{false≢true}
use ip_qos.Api.{is_last_use, is_private}
use ip_qos.Auto.Steps.{choose_mark_private, choose_mark_first, safe_congr, settings-attach}
use ip_qos.Bitmap.Laws.{bit}
use ip_qos.Bitmap.Marks.{mark_of, next_bit, next_bit-IsMark, next_bit-IsUnused, next_bit_clear}
use ip_qos.Consistent.{IsConsistent, IsMark, rule_at, slot, settings, settings-set}
use ip_qos.Consistent.Insert.{Fits, fresh, view-attach}
use ip_qos.Consistent.Marks.{
  set_bit, set_mark, take_bit-IsConsistent, set_mark-IsConsistent, set_mark-IsUnused,
  set_mark-count, rule_at-set_mark, IsUnused,
}
use ip_qos.Kernel.{Kernel}
use ip_qos.State.{Tables}
use ip_qos.Table.Buckets.{view}
use ip_qos.TcRules.{TcRules, IsSafeRule}
use ip_qos.Auto.Ends.{Allocation, allocated, refused, use_mark_ends}
use ip_qos.Auto.Endings.{Ending, give_run}

module _ {T : Type 0} (tc : TcRules T) (k : Kernel T) (s : Tables) (ip id old : ℕ)
    (c : IsConsistent s) (absent : view s.ht ip ≡ none) (low : 0 < id) (high : id ≤ length s.rules)
    (safe : IsSafeRule tc (rule_at s.rules (id - 1))) where
  abbrev i : ℕ
  i = id - 1

  abbrev z : ℕ
  z = next_bit s

  module _ (open_now : k.reset_flag ≡ false) where
    module _ (new : is_last_use (rule_at s.rules i) ≡ true) (room : z < s.max_ip_cnt) where
      in_bits : z < length s.bits
      in_bits = omega (arith, c.shape.bits_width)

      abbrev taken : Tables
      taken = set_bit s z true

      bits_restored :
          (j : ℕ) → bit (set (set s.bits z true) (slot (mark_of z)) false) j ≡ bit s.bits j
      bits_restored j =
          let at_z : slot (mark_of z) ≡ z = omega arith in
          rw at_z (
            ground (
              arith,
              get_or-set (set s.bits z true) z j false false (rw length-set in_bits),
              get_or-set s.bits z j true false in_bits,
              next_bit_clear s c room,
              ==_iff z j,
            ))

      taken-IsConsistent : IsConsistent taken
      taken-IsConsistent = take_bit-IsConsistent s c z in_bits

      valid : IsMark taken (mark_of z)
      valid = next_bit-IsMark s c room

      unused : IsUnused taken (mark_of z)
      unused = next_bit-IsUnused s c room

      -- The mark of bit `z` was free.
      was_clear : bit s.bits (slot (mark_of z)) ≡ false
      was_clear = let at_z : slot (mark_of z) ≡ z = omega arith in rw at_z (next_bit_clear s c room)

      others_kept : (j : ℕ) → slot (mark_of z) ≢ j → bit taken.bits j ≡ bit s.bits j
      others_kept j far = ground (arith, get_or-set s.bits z j true false in_bits, ==_iff z j)

      -- A new mark in private mode.
      pub ends_private :
          is_private (rule_at s.rules i) ≡ true → Ending tc k s ip id old c absent low high safe
      ends_private private =
          let (status, h, s', flag, run, d, p) =
            use_mark_ends tc k taken taken-IsConsistent ip id (mark_of z) absent low high valid
              (fresh unused (λ mode. absurd (ground arith))) safe
              (λ status s'. Allocation s ip id (mark_of z) s' status)
              (λ space. allocated (record {
                reads =
                    view-attach taken ip id (mark_of z) taken-IsConsistent absent space low high;
                valid = valid;
                fresh_mark = λ _. was_clear;
                joined_mark = λ used. ground arith;
                bits_kept = others_kept;
                rules_kept = settings-attach taken ip id (mark_of z);
                spec_kept = (refl, refl);
              }))
              (λ last. refused (record {
                reads = λ q. refl;
                bits_kept = bits_restored;
                counts_kept = set_mark-count taken taken-IsConsistent i 0 (omega arith);
                rules_kept = λ j. settings-set s.rules i j _ refl;
                spec_kept = (refl, refl);
              }))
              (λ shared. ground arith) in
          (
            status,
            mark_of z,
            h,
            s',
            flag,
            give_run tc k s ip id old c absent low high safe open_now taken (mark_of z)
                  (choose_mark_private k s c.shape id low high private room)
                ∙ run,
            d,
            p,
          )

      -- A new mark for the first user in share mode, kept in the rule.
      module _ (share : is_private (rule_at s.rules i) ≡ false) where
        abbrev named : Tables
        named = set_mark taken i (mark_of z)

        no_user : ((rule_at s.rules i).mode ≡ 0) ⊎ ((rule_at s.rules i).count ≡ 0)
        no_user = ground arith

        named-IsConsistent : IsConsistent named
        named-IsConsistent =
            set_mark-IsConsistent taken taken-IsConsistent i (mark_of z) (omega arith) no_user

        in_named : id ≤ length named.rules
        in_named = rw length-set high

        named_at : rule_at named.rules i ≡ record (rule_at s.rules i) { mark = mark_of z }
        named_at = ground (
          arith,
          rule_at-set_mark taken taken-IsConsistent i (mark_of z) (omega arith) i,
          ==_refl i,
        )

        named-Fits : Fits named id (mark_of z)
        named-Fits =
            fresh
              (set_mark-IsUnused taken taken-IsConsistent i (mark_of z) (omega arith) (mark_of z)
                no_user unused)
              (λ mode. rw named_at (ground arith, refl))

        settings_named : (j : ℕ) → settings (rule_at named.rules j) ≡ settings (rule_at s.rules j)
        settings_named j =
            settings-set s.rules i j (record (rule_at s.rules i) { mark = mark_of z }) refl

        pub ends_first : Ending tc k s ip id old c absent low high safe
        ends_first =
            let (status, h, s', flag, run, d, p) =
              use_mark_ends tc k named named-IsConsistent ip id (mark_of z) absent low in_named
                valid named-Fits
                (safe_congr tc (rule_at s.rules i) (rule_at named.rules i) (sym (settings_named i))
                  safe)
                (λ status s'. Allocation s ip id (mark_of z) s' status)
                (λ space. allocated (record {
                  reads =
                      view-attach named ip id (mark_of z) named-IsConsistent absent space low
                        in_named;
                  valid = valid;
                  fresh_mark = λ _. was_clear;
                  joined_mark = λ used. ground arith;
                  bits_kept = others_kept;
                  rules_kept = λ j. settings-attach named ip id (mark_of z) j ∙ settings_named j;
                  spec_kept = (refl, refl);
                }))
                (λ last. refused (record {
                  reads = λ q. refl;
                  bits_kept = bits_restored;
                  counts_kept = λ j.
                      set_mark-count named named-IsConsistent i 0 (omega (arith, in_named)) j
                      ∙ set_mark-count taken taken-IsConsistent i (mark_of z) (omega arith) j;
                  rules_kept = λ j.
                      settings-set named.rules i j (record (rule_at named.rules i) { mark = 0 })
                        refl
                      ∙ settings_named j;
                  spec_kept = (refl, refl);
                }))
                (λ shared. absurd (false≢true (sym (rw named_at at shared) ∙ new))) in
            (
              status,
              mark_of z,
              h,
              s',
              flag,
              give_run tc k s ip id old c absent low high safe open_now named (mark_of z)
                    (choose_mark_first k s c.shape id low high share (ground arith) room)
                  ∙ run,
              d,
              p,
            )
