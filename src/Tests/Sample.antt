-- ===== src/Tests/Sample.antt =====
-- Small tables: room for 4 addresses and 2 rules, of which rule 2 is in share mode, with address 7
-- under rule 1.
use ip_qos.Base.{
  ℕ, zero, suc, ◌-◌, if◌then◌else◌, ◌==◌, ◌≡◌, refl, inl, true, false, none, some, arith,
}
use ip_qos.Conntrack.{NfConn, EventBits}
use ip_qos.Consistent.{IsConsistent, IsMark, rule_at}
use ip_qos.Consistent.Insert.{attach, new_node, fresh, view-attach}
use ip_qos.Consistent.Insert.Keeps.{attach-IsConsistent}
use ip_qos.Consistent.Marks.{set_bit, IsUnused, take_bit-IsConsistent}
use ip_qos.Consistent.Replace.{replace, replace-IsConsistent}
use ip_qos.DataPath.Step.{IsReady}
use ip_qos.Fresh
use ip_qos.Fresh.Spec.{fresh-IsConsistent}
use ip_qos.Kernel.{Kernel, done, null, RuletblNode}
use ip_qos.State.{Tables}
use ip_qos.Table.Buckets.{view, view-replicate}
use ip_qos.Target.{XtQmarkTginfo, SkBuff}
use ip_qos.TcRules.{TcRules}

-- A traffic control part that counts the rules that it has.
abbrev pub counter : TcRules ℕ
counter = record {
  add_rule = λ r mark t. done (suc t);
  del_rule = λ r mark t. done (t - 1);
  IsSafe = λ rate rate_mate rate_min rate_min_mate. Unit;
  add_rule_safe = λ r mark t safe. (suc t, refl);
  del_rule_safe = λ r mark t. (t - 1, refl);
}

abbrev pub kernel : Kernel ℕ
kernel = record {
  marktbl = null;
  ruletbl = null;
  bitmap = null;
  reset_flag = false;
  op_lock = false;
  max_ip_cnt = 4;
  max_rule_cnt = 2;
  supply = λ n. true;
  traffic = 0;
}

abbrev pub shared_rule : RuletblNode
shared_rule = record {
  mode = 1;
  mark = 0;
  count = 0;
  on = true;
  devid = 1;
  rate = 100;
  rate_mate = 100;
  rate_min = 50;
  rate_min_mate = 50;
}

abbrev pub empty : Tables
empty = replace (Fresh.fresh 4 2) 1 shared_rule

pub empty-IsConsistent : IsConsistent empty
empty-IsConsistent =
    replace-IsConsistent (Fresh.fresh 4 2)
      (fresh-IsConsistent 4 2 (omega arith) (omega arith) (omega arith)) 1 shared_rule (omega arith)
      (inl (refl, refl))

abbrev taken : Tables
taken = set_bit empty 0 true

taken-IsConsistent : IsConsistent taken
taken-IsConsistent = take_bit-IsConsistent empty empty-IsConsistent 0 (omega arith)

view_taken : (q : ℕ) → view taken.ht q ≡ none
view_taken q = view-replicate 4 q

unused : IsUnused taken 0x800
unused = record {
  by_nodes = λ q n e. ground (arith, view_taken q);
  by_rules = λ i h mode used. absurd (used (none_used i));
}
  where
    none_used : (i : ℕ) → (rule_at taken.rules i).count ≡ 0
    none_used zero = refl
    none_used (suc zero) = refl
    none_used (suc (suc i)) = refl

is_mark : IsMark taken 0x800
is_mark = (omega arith, refl, omega arith, refl)

abbrev pub sample : Tables
sample = attach taken 7 1 0x800

pub sample-IsConsistent : IsConsistent sample
sample-IsConsistent =
    attach-IsConsistent taken 7 1 0x800 taken-IsConsistent (view_taken 7) (omega arith)
      (omega arith) (omega arith) is_mark (fresh unused (λ mode. absurd (mode refl)))

pub sample_view : (q : ℕ) → view sample.ht q ≡ (if 7 == q then some (new_node 7 1 0x800) else none)
sample_view q = ground (
  arith,
  view_taken q,
  view-attach taken 7 1 0x800 taken-IsConsistent (view_taken 7) (omega arith) (omega arith)
      (omega arith) q,
)

pub sample-IsReady : IsReady counter sample
sample-IsReady = record { consistent = sample-IsConsistent; safe = λ i. tt }

abbrev pub bits : EventBits
bits = record { ipct_destroy = 2; ipct_mark = 6 }

-- A connection that address 9 opened to address 80.
abbrev pub connection : NfConn
connection = record {
  l3num = 2;
  untracked = false;
  mark = 0x1000;
  original_src = 9;
  original_dst = 80;
  reply_src = 80;
}

abbrev pub target : ℕ → XtQmarkTginfo
target id = record { mask = 0xff_f800; id = id; dir = 0 }

abbrev pub sent_by : ℕ → SkBuff
sent_by ip = record { header = some (record { saddr = ip; daddr = 80 }); mark = 5 }
