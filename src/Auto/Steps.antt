-- ===== src/Auto/Steps.antt =====
-- The two halves of qmark_alloc_mark_auto on tables that are up.
use mathlib.Core.Path.{subst}
use ip_qos.Base.{ℕ, ◌-◌, ◌≤◌, ◌<◌, ◌≡◌, refl, true, false, length, if◌then◌else◌, ◌==◌, arith}
use ip_qos.Api.{is_last_use, is_private, qmark_alloc_mark}
use ip_qos.Auto.{choose_mark}
use ip_qos.Bitmap.Marks.{mark_of, next_bit, alloc_mark_full, alloc_mark_run}
use ip_qos.Consistent.{IsShaped, rule_at, settings, settings-set}
use ip_qos.Consistent.Insert.{attach}
use ip_qos.Consistent.Marks.{set_bit, set_mark}
use ip_qos.Kernel.{Kernel, RuletblNode, done, ok, error, ◌>>=◌}
use ip_qos.State.{Tables, up, idle, busy}
use ip_qos.Table.Runs.{get_rule_run, put_rule_run}
use ip_qos.TcRules.{TcRules, IsSafeRule}

module _ {T : Type 0} (k : Kernel T) (s : Tables) (shape : IsShaped s) where
  pub qmark_alloc_mark_none :
      s.max_ip_cnt ≤ next_bit s
      → qmark_alloc_mark (up (idle k) s) ≡ done ((error, 0), up (idle k) s)
  unfolding qmark_alloc_mark
  qmark_alloc_mark_none full = rw (alloc_mark_full (busy k) s shape full, ◌>>=◌) refl

  pub qmark_alloc_mark_run :
      next_bit s < s.max_ip_cnt
      → qmark_alloc_mark (up (idle k) s)
        ≡ done ((ok, mark_of (next_bit s)), up (idle k) (set_bit s (next_bit s) true))
  unfolding qmark_alloc_mark
  qmark_alloc_mark_run room =
      let some_mark : (mark_of (next_bit s) == 0) ≡ false = ground arith in
      rw (alloc_mark_run (busy k) s shape room, some_mark, ◌>>=◌, if◌then◌else◌) refl

  module _ (id : ℕ) (low : 0 < id) (high : id ≤ length s.rules) where
    abbrev i : ℕ
    i = id - 1

    -- A new mark cannot be had.
    pub choose_mark_full :
        is_last_use (rule_at s.rules i) ≡ true
        → s.max_ip_cnt ≤ next_bit s
        → choose_mark id (up (idle k) s) ≡ done ((error, 0), up (idle k) s)
    unfolding choose_mark
    choose_mark_full new full =
        rw (get_rule_run (idle k) s id low high shape.rules_limit, ◌>>=◌)
          (ground (arith, qmark_alloc_mark_none full))

    pub choose_mark_private :
        is_private (rule_at s.rules i) ≡ true
        → next_bit s < s.max_ip_cnt
        → choose_mark id (up (idle k) s)
          ≡ done ((ok, mark_of (next_bit s)), up (idle k) (set_bit s (next_bit s) true))
    unfolding choose_mark
    choose_mark_private private room =
        rw (get_rule_run (idle k) s id low high shape.rules_limit, private, ◌>>=◌, if◌then◌else◌)
          (qmark_alloc_mark_run room)

    pub choose_mark_first :
        is_private (rule_at s.rules i) ≡ false
        → ((rule_at s.rules i).count == 0) ≡ true
        → next_bit s < s.max_ip_cnt
        → choose_mark id (up (idle k) s)
          ≡ done (
            (ok, mark_of (next_bit s)),
            up (idle k) (set_mark (set_bit s (next_bit s) true) i (mark_of (next_bit s))),
          )
    unfolding choose_mark
    choose_mark_first share unused room =
        rw
          (
            get_rule_run (idle k) s id low high shape.rules_limit,
            share,
            unused,
            qmark_alloc_mark_run room,
            get_rule_run (idle k) (set_bit s (next_bit s) true) id low high shape.rules_limit,
            put_rule_run (idle k) (set_bit s (next_bit s) true) id low high shape.rules_limit,
            ◌>>=◌,
            if◌then◌else◌,
          )
          refl

    pub choose_mark_joined :
        is_private (rule_at s.rules i) ≡ false
        → ((rule_at s.rules i).count == 0) ≡ false
        → choose_mark id (up (idle k) s) ≡ done ((ok, (rule_at s.rules i).mark), up (idle k) s)
    unfolding choose_mark
    choose_mark_joined share used =
        rw
          (get_rule_run (idle k) s id low high shape.rules_limit, share, used, ◌>>=◌, if◌then◌else◌)
          refl

-- What the traffic control part takes depends on the rule's settings only.
pub safe_congr :
    {T : Type 0} (tc : TcRules T) (r r' : RuletblNode)
    → settings r ≡ settings r'
    → IsSafeRule tc r
    → IsSafeRule tc r'
safe_congr tc r r' same safe = subst (IsSafeRule tc) same safe

pub settings-attach :
    (s : Tables) (ip id mark j : ℕ)
    → settings (rule_at (attach s ip id mark).rules j) ≡ settings (rule_at s.rules j)
settings-attach s ip id mark j = settings-set s.rules (id - 1) j _ refl

-- The second half, with a mark that is set in the bitmap.
