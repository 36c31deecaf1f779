-- ===== src/Auto/Endings.antt =====
-- What qmark_alloc_mark_auto ends with: while the module is reset, without a free mark, and for
-- another user of a shared rule.
use ip_qos.Base.{
  ℕ, ◌-◌, ◌≤◌, ◌<◌, ◌≡◌, ◌≢◌, refl, ap, ◌∙◌, true, false, not, none, length, if◌then◌else◌, arith,
}
use ip_qos.Api.{is_last_use}
use ip_qos.Auto.{qmark_alloc_mark_auto, give_mark, use_mark, choose_mark}
use ip_qos.Auto.Steps.{choose_mark_full, choose_mark_joined, settings-attach}
use ip_qos.Bitmap.Marks.{next_bit}
use ip_qos.Consistent.{IsConsistent, rule_at}
use ip_qos.Consistent.Insert.{joined, view-attach}
use ip_qos.Kernel.{Kernel, done, Status, ok, error, pure, ◌>>=◌}
use ip_qos.State.{Tables, up, idle}
use ip_qos.Table.Buckets.{view}
use ip_qos.TcRules.{TcRules, IsSafeRule}
use ip_qos.Auto.Ends.{Refused-refl, Allocation, allocated, refused, use_mark_ends}

module _ {T : Type 0} (tc : TcRules T) (k : Kernel T) (s : Tables) (ip id old : ℕ)
    (c : IsConsistent s) (absent : view s.ht ip ≡ none) (low : 0 < id) (high : id ≤ length s.rules)
    (safe : IsSafeRule tc (rule_at s.rules (id - 1))) where
  abbrev i : ℕ
  i = id - 1

  abbrev z : ℕ
  z = next_bit s

  -- What the call ends with.
  abbrev pub Ending : Type 0
  Ending =
      (status : Status) × (mark : ℕ) × (h : Kernel T) × (s' : Tables) × (h.reset_flag
        ≡ k.reset_flag)
      × (qmark_alloc_mark_auto tc ip id old (up (idle k) s) ≡ done ((status, mark), up (idle h) s'))
      × IsConsistent s'
      × Allocation s ip id mark s' status

  -- While the module is being reset.
  pub ends_reset : k.reset_flag ≡ true → Ending
  unfolding qmark_alloc_mark_auto
  ends_reset reset =
      (error, old, k, s, refl, rw (reset, if◌then◌else◌) refl, c, refused (Refused-refl s))

  auto_open :
      k.reset_flag ≡ false
      → qmark_alloc_mark_auto tc ip id old (up (idle k) s) ≡ give_mark tc ip id (up (idle k) s)
  unfolding qmark_alloc_mark_auto
  auto_open open_now =
      ap (λ b. (if b then pure (error, old) else give_mark tc ip id) (up (idle k) s)) open_now

  module _ (open_now : k.reset_flag ≡ false) where
    pub ends_full : is_last_use (rule_at s.rules i) ≡ true → s.max_ip_cnt ≤ z → Ending
    unfolding give_mark
    ends_full new full = (
      error,
      0,
      k,
      s,
      refl,
      auto_open open_now
          ∙ rw (choose_mark_full k s c.shape id low high new full, ◌>>=◌, if◌then◌else◌, not) refl,
      c,
      refused (Refused-refl s),
    )

    pub give_run :
        (s₁ : Tables) (mark : ℕ)
        → choose_mark id (up (idle k) s) ≡ done ((ok, mark), up (idle k) s₁)
        → qmark_alloc_mark_auto tc ip id old (up (idle k) s)
          ≡ use_mark tc ip id mark (up (idle k) s₁)
    unfolding give_mark
    give_run s₁ mark chosen = auto_open open_now ∙ rw (chosen, ◌>>=◌, if◌then◌else◌, not) refl

    -- The rule is shared already.
    pub ends_joined : is_last_use (rule_at s.rules i) ≡ false → Ending
    ends_joined used =
        let mark = (rule_at s.rules i).mark in
        let mode : (rule_at s.rules i).mode ≢ 0 = ground arith in
        let count : (rule_at s.rules i).count ≢ 0 = ground arith in
        let (valid, _) = c.owned i (omega arith) mode count in
        let (status, h, s', flag, run, d, p) =
          use_mark_ends tc k s c ip id mark absent low high valid (joined mode count refl) safe
            (λ status s'. Allocation s ip id mark s' status)
            (λ room. allocated (record {
              reads = view-attach s ip id mark c absent room low high;
              valid = valid;
              fresh_mark = λ last. ground arith;
              joined_mark = λ _. refl;
              bits_kept = λ j _. refl;
              rules_kept = settings-attach s ip id mark;
              spec_kept = (refl, refl);
            }))
            (λ last. ground arith) (λ _. refused (Refused-refl s)) in
        (
          status,
          mark,
          h,
          s',
          flag,
          give_run s mark (choose_mark_joined k s c.shape id low high (ground arith) (ground arith))
              ∙ run,
          d,
          p,
        )
