-- ===== src/Rules.antt =====
-- The rule table: an array of max_rule_cnt rules, reached by `id - 1`.
-- kmod/qos_marktbl_main.c, qos_ruletbl_init and _exit, qmark_add_rule, qmark_del_rule and
-- qmark_flush_rule. Printing is left out.
pub mod Outcome
use ip_qos.Base.{ℕ, Bool, true, false, replicate, if◌then◌else◌}
use ip_qos.Base.Word.{items_for}
use ip_qos.Kernel.{
  M, Status, ok, error, null, live, done, RuletblNode, kmalloc, lock_op, unlock_op, get_rule,
  put_rule, ◌>>=◌, ◌>>◌,
}

-- memset to zero.
abbrev pub zero_rule : RuletblNode
zero_rule = record {
  mode = 0;
  mark = 0;
  count = 0;
  on = false;
  devid = 0;
  rate = 0;
  rate_mate = 0;
  rate_min = 0;
  rate_min_mate = 0;
}

module _ {T : Type 0} where
  -- sizeof(ruletbl_node_t) is 36.
  unfoldable pub qos_ruletbl_init : M T Status
  qos_ruletbl_init = do
    max_rule_cnt ← λ k. done (k.max_rule_cnt, k)
    given ← kmalloc
    if given
        then (λ k.
            done
              (ok, record k { ruletbl = live (replicate (items_for 36 max_rule_cnt) zero_rule) }))
        else (λ k. done (error, record k { ruletbl = null }))

  unfoldable pub qos_ruletbl_exit : M T (Unit {0})
  qos_ruletbl_exit k = done (tt, record k { ruletbl = null })

  -- `mark` and `count` of the rule stay.
  unfoldable pub qmark_add_rule : ℕ → ℕ → ℕ → ℕ → ℕ → ℕ → ℕ → M T (Unit {0})
  qmark_add_rule id mode devid rate rate_mate rate_min rate_min_mate = do
    lock_op
    r ← get_rule id
    put_rule id (record r {
      on = true;
      mode = mode;
      devid = devid;
      rate = rate;
      rate_mate = rate_mate;
      rate_min = rate_min;
      rate_min_mate = rate_min_mate;
    })
    unlock_op

  unfoldable pub qmark_del_rule : ℕ → M T (Unit {0})
  qmark_del_rule id = do
    lock_op
    put_rule id zero_rule
    r ← get_rule id
    put_rule id (record r { on = false })
    unlock_op

  unfoldable pub qmark_flush_rule : M T (Unit {0})
  unfolding qos_ruletbl_init qos_ruletbl_exit
  qmark_flush_rule = do lock_op; qos_ruletbl_exit; _ ← qos_ruletbl_init; unlock_op
