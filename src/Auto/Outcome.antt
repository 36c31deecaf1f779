-- ===== src/Auto/Outcome.antt =====
-- What qmark_alloc_mark_auto does to the tables for an address that has no node.
use ip_qos.Base.{ℕ, ◌-◌, ◌≤◌, ◌<◌, ◌≡◌, inl, inr, none, length, Bool-cases, arith, ltb}
use ip_qos.Api.{is_last_use, is_private}
use ip_qos.Bitmap.Marks.{next_bit}
use ip_qos.Consistent.{IsConsistent, rule_at}
use ip_qos.Kernel.{Kernel}
use ip_qos.State.{Tables}
use ip_qos.Table.Buckets.{view}
use ip_qos.TcRules.{TcRules, IsSafeRule}
use ip_qos.Auto.Endings.{Ending, ends_reset, ends_full, ends_joined}
use ip_qos.Auto.New.{ends_private, ends_first}

module _ {T : Type 0} (tc : TcRules T) (k : Kernel T) (s : Tables) (ip id old : ℕ)
    (c : IsConsistent s) (absent : view s.ht ip ≡ none) (low : 0 < id) (high : id ≤ length s.rules)
    (safe : IsSafeRule tc (rule_at s.rules (id - 1))) where
  abbrev i : ℕ
  i = id - 1

  abbrev z : ℕ
  z = next_bit s

  -- From consistent tables, for an address without a node and a rule id in range with safe rates,
  -- qmark_alloc_mark_auto does not fault and keeps the tables consistent; it either gives the
  -- address a node with a valid mark, which was free or is the shared rule's, or returns error
  -- with no visible change.
  pub qmark_alloc_mark_auto-Allocation : Ending tc k s ip id old c absent low high safe
  qmark_alloc_mark_auto-Allocation = elim (Bool-cases k.reset_flag) [
    | inl reset ↦ ends_reset tc k s ip id old c absent low high safe reset
    | inr open_now ↦ elim (Bool-cases (is_last_use (rule_at s.rules i))) [
      | inr used ↦ ends_joined tc k s ip id old c absent low high safe open_now used
      | inl new ↦ elim (Bool-cases (ltb z s.max_ip_cnt)) [
        | inr full ↦ ends_full tc k s ip id old c absent low high safe open_now new (ground arith)
        | inl room ↦ elim (Bool-cases (is_private (rule_at s.rules i))) [
          | inl private ↦
              ends_private tc k s ip id old c absent low high safe open_now new (ground arith)
                private
          | inr share ↦
              ends_first tc k s ip id old c absent low high safe open_now new (ground arith) share
        ]
      ]
    ]
  ]
