-- ===== src/Fresh.antt =====
-- The tables after qmark_set_spec, which makes them anew, and after the first initialisation.
-- kmod/qos_marktbl_main.c, qmark_set_spec.
pub mod Spec
pub mod Wrapped
use ip_qos.Base.{ℕ, false, [], replicate}
use ip_qos.Bitmap.{long_bits}
use ip_qos.Rules.{zero_rule}
use ip_qos.State.{Tables}

-- No address, no rule set, no mark taken.
abbrev pub fresh : ℕ → ℕ → Tables
fresh ip_spec rule_spec = record {
  elem_num = 0;
  size = ip_spec;
  ht = replicate ip_spec [];
  rules = replicate rule_spec zero_rule;
  bits = replicate (long_bits ip_spec) false;
  max_ip_cnt = ip_spec;
  max_rule_cnt = rule_spec;
}
