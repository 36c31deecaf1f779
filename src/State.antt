-- ===== src/State.antt =====
-- The module's tables while it is up: no pointer is null, and head->lock is free.
use ip_qos.Base.{ℕ, Bool, true, false, List}
use ip_qos.Kernel.{Kernel, RuletblNode, Chain, live}

pub record Tables : Type 0 where
  pub elem_num : ℕ
  pub size : ℕ
  pub ht : List Chain
  pub rules : List RuletblNode
  pub bits : List Bool
  pub max_ip_cnt : ℕ
  pub max_rule_cnt : ℕ

-- The kernel `k` with these tables; the rest of `k` is what the tables do not decide.
abbrev pub up : {T : Type 0} → Kernel T → Tables → Kernel T
up k s = record k {
  marktbl = live (record { elem_num = s.elem_num; size = s.size; ht = s.ht; lock = false });
  ruletbl = live s.rules;
  bitmap = live s.bits;
  max_ip_cnt = s.max_ip_cnt;
  max_rule_cnt = s.max_rule_cnt;
}

-- `k` while nobody holds qmark_op_lock, and while it is held.
abbrev pub idle : {T : Type 0} → Kernel T → Kernel T
idle k = record k { op_lock = false }

abbrev pub busy : {T : Type 0} → Kernel T → Kernel T
busy k = record k { op_lock = true }
