-- ===== src/Auto/Use.antt =====
-- The second half of qmark_alloc_mark_auto runs: the hash entry, or the mark given back.
use ip_qos.Base.{
  ℕ, ◌-◌, ◌≤◌, ◌<◌, ◌≡◌, refl, sym, ◌⊎◌, inl, inr, true, false, not, none, length, if◌then◌else◌,
  arith,
}
use ip_qos.Api.{is_last_use, qmark_add_hash, qmark_free_mark}
use ip_qos.Auto.{call_tc, give_back, use_mark}
use ip_qos.Bitmap.{test_mark}
use ip_qos.Bitmap.Marks.{free_mark_run, test_mark_run}
use ip_qos.Consistent.{IsConsistent, IsShaped, IsMark, rule_at, slot}
use ip_qos.Consistent.Insert.{attach, length-attach}
use ip_qos.Consistent.Marks.{set_bit, set_mark, set_mark-IsShaped}
use ip_qos.Kernel.{Kernel, done, Status, ok, error, over_max, alloc_fail, ◌>>=◌, is_ok}
use ip_qos.State.{Tables, up, idle, busy}
use ip_qos.Table.{qos_marktbl_hashtbl_add}
use ip_qos.Table.Buckets.{view}
use ip_qos.Table.Runs.{
  marktbl_hash_add_full, marktbl_hash_add_no_memory, marktbl_hash_add_run, spent, get_rule_run,
  put_rule_run,
}
use ip_qos.TcRules.{TcRules, IsSafeRule}
use ip_qos.Auto.Steps.{safe_congr, settings-attach}

module _ {T : Type 0} (s : Tables) (c : IsConsistent s) (id mark : ℕ) (low : 0 < id)
    (high : id ≤ length s.rules) (is_mark : IsMark s mark) where
  -- After a failed insertion a mark that nobody else has is cleared.
  pub give_back_last :
      (h : Kernel T)
      → is_last_use (rule_at s.rules (id - 1)) ≡ true
      → give_back id mark (up (idle h) s)
        ≡ done (tt, up (idle h) (set_bit (set_mark s (id - 1) 0) (slot mark) false))
  unfolding give_back qmark_free_mark
  give_back_last h last =
      rw
        (
          get_rule_run (idle h) s id low high c.shape.rules_limit,
          last,
          put_rule_run (idle h) s id low high c.shape.rules_limit,
          free_mark_run (busy h) (set_mark s (id - 1) 0)
              (set_mark-IsShaped s c (id - 1) 0 (omega arith)) mark is_mark.0 is_mark.2,
          ◌>>=◌,
          if◌then◌else◌,
        )
        refl

  pub give_back_shared :
      (h : Kernel T)
      → is_last_use (rule_at s.rules (id - 1)) ≡ false
      → give_back id mark (up (idle h) s) ≡ done (tt, up (idle h) s)
  unfolding give_back
  give_back_shared h shared =
      rw (get_rule_run (idle h) s id low high c.shape.rules_limit, shared, ◌>>=◌, if◌then◌else◌)
        refl

module _ {T : Type 0} (k : Kernel T) (s : Tables) (shape : IsShaped s) (ip id mark : ℕ)
    (absent : view s.ht ip ≡ none) (low : 0 < id) (high : id ≤ length s.rules)
    (is_mark : IsMark s mark) where
  tested : (h : Kernel T) → test_mark mark (up h s) ≡ done (true, up h s)
  tested h = rw (← is_mark.3) (test_mark_run h s shape mark is_mark.0 is_mark.2)

  pub add_full :
      s.elem_num ≡ s.max_ip_cnt
      → qmark_add_hash ip id mark (up (idle k) s) ≡ done (over_max, up (idle k) s)
  unfolding qmark_add_hash qos_marktbl_hashtbl_add
  add_full full =
      rw
        (
          tested (busy k),
          marktbl_hash_add_full (busy k) s shape ip id mark full,
          ◌>>=◌,
          if◌then◌else◌,
        )
        refl

  pub add_no_memory :
      s.elem_num < s.max_ip_cnt
      → k.supply 0 ≡ false
      → qmark_add_hash ip id mark (up (idle k) s) ≡ done (alloc_fail, up (idle (spent k)) s)
  unfolding qmark_add_hash qos_marktbl_hashtbl_add
  add_no_memory room dry =
      rw
        (
          tested (busy k),
          marktbl_hash_add_no_memory (busy k) s shape ip id mark room absent dry,
          ◌>>=◌,
          if◌then◌else◌,
        )
        refl

  pub add_run :
      s.elem_num < s.max_ip_cnt
      → k.supply 0 ≡ true
      → qmark_add_hash ip id mark (up (idle k) s)
        ≡ done (ok, up (idle (spent k)) (attach s ip id mark))
  unfolding qmark_add_hash qos_marktbl_hashtbl_add
  add_run room given =
      rw
        (
          tested (busy k),
          marktbl_hash_add_run (busy k) s shape ip id mark room absent given low high,
          ◌>>=◌,
          if◌then◌else◌,
        )
        refl

module _ {T : Type 0} (tc : TcRules T) (k : Kernel T) (s : Tables) (c : IsConsistent s)
    (ip id mark : ℕ) (absent : view s.ht ip ≡ none) (low : 0 < id) (high : id ≤ length s.rules)
    (is_mark : IsMark s mark) where
  -- Insertion succeeds if there is room, memory, and a rate that the traffic control part takes.
  pub use_mark_run :
      s.elem_num < s.max_ip_cnt
      → k.supply 0 ≡ true
      → IsSafeRule tc (rule_at s.rules (id - 1))
      → (t : T) × (use_mark tc ip id mark (up (idle k) s)
          ≡ done ((ok, mark), up (idle (record (spent k) { traffic = t })) (attach s ip id mark)))
  unfolding use_mark call_tc
  use_mark_run room given safe =
      let (t, quiet) =
        tc.add_rule_safe (rule_at (attach s ip id mark).rules (id - 1)) mark k.traffic (
          safe_congr tc (rule_at s.rules (id - 1)) (rule_at (attach s ip id mark).rules (id - 1))
            (sym (settings-attach s ip id mark (id - 1))) safe) in
      (
        t,
        rw
            (
              add_run k s c.shape ip id mark absent low high is_mark room given,
              get_rule_run (busy (spent k)) (attach s ip id mark) id low
                  (rw (length-attach s ip id mark c absent room low high) high)
                  (rw (length-attach s ip id mark c absent room low high) c.shape.rules_limit),
              quiet,
              ◌>>=◌,
              if◌then◌else◌,
              is_ok,
              not,
            )
            refl,
      )

  -- The two failures: too many addresses, or no memory.
  module _
      (failing : (s.elem_num ≡ s.max_ip_cnt)
        ⊎ ((s.elem_num < s.max_ip_cnt) × (k.supply 0 ≡ false))) where
    add_fails :
        (status : Status) × (h : Kernel T) × (is_ok status ≡ false)
        × (h.reset_flag ≡ k.reset_flag)
        × (qmark_add_hash ip id mark (up (idle k) s) ≡ done (status, up (idle h) s))
    add_fails = elim failing [
      | inl full ↦
          (over_max, k, refl, refl, add_full k s c.shape ip id mark absent low high is_mark full)
      | inr (room, dry) ↦ (
        alloc_fail,
        spent k,
        refl,
        refl,
        add_no_memory k s c.shape ip id mark absent low high is_mark room dry,
      )
    ]

    pub use_mark_refused_last :
        is_last_use (rule_at s.rules (id - 1)) ≡ true
        → (h : Kernel T) × (h.reset_flag ≡ k.reset_flag)
          × (use_mark tc ip id mark (up (idle k) s)
              ≡ done
                  ((error, mark), up (idle h) (set_bit (set_mark s (id - 1) 0) (slot mark) false)))
    unfolding use_mark
    use_mark_refused_last last =
        let (status, h, bad, flag, run) = add_fails in
        (
          h,
          flag,
          rw
              (
                run,
                bad,
                give_back_last s c id mark low high is_mark h last,
                ◌>>=◌,
                if◌then◌else◌,
                not,
              )
              refl,
        )

    pub use_mark_refused_shared :
        is_last_use (rule_at s.rules (id - 1)) ≡ false
        → (h : Kernel T) × (h.reset_flag ≡ k.reset_flag)
          × (use_mark tc ip id mark (up (idle k) s) ≡ done ((error, mark), up (idle h) s))
    unfolding use_mark
    use_mark_refused_shared shared =
        let (status, h, bad, flag, run) = add_fails in
        (
          h,
          flag,
          rw
              (
                run,
                bad,
                give_back_shared s c id mark low high is_mark h shared,
                ◌>>=◌,
                if◌then◌else◌,
                not,
              )
              refl,
        )
