-- ===== src/Tests/Traffic.antt =====
-- The traffic control part and the control device at concrete inputs, and the mark table with that
-- part under it.
use ip_qos.Base.{
  ℕ, zero, suc, ◌-◌, ◌/◌, ◌^◌, ◌≤◌, ◌<◌, ◌≡◌, ◌≢◌, ◌⊎◌, refl, Bool, true, false, List, [], ◌∷◌,
  some, length, if◌then◌else◌, ◌==◌, arith,
}
use ip_qos.Bitmap.{shift_down}
use ip_qos.Bitmap.Laws.{bit}
use ip_qos.Consistent.{rule_at, slot}
use ip_qos.DataPath.{Event, packet, conntrack, AllValid, all_nil, all_cons, handle_all}
use ip_qos.DataPath.Step.{IsReady}
use ip_qos.DataPath.Trace.{handle_all_apart}
use ip_qos.Ioctl.{QmarkHash, einval, success, hash_chk, hash_del, qmark_cdev_ioctl}
use ip_qos.Ioctl.Safe.{
  Answered, mark_in, drop_reference, qmark_cdev_ioctl_check, qmark_cdev_ioctl-IsConsistent,
}
use ip_qos.Kernel.{Kernel, done, fault, division_by_zero, null, MarktblNode, RuletblNode}
use ip_qos.State.{Tables, up, idle}
use ip_qos.Table.Buckets.{view}
use ip_qos.Tc.{
  byte_rate, find_cell_log, class_id, qmark_tc_calc_rtable, filter_request, qmark_tc_add_rule,
  tc_htb_class_modify, class_request, tc_htb_opt_parse,
}
use ip_qos.Netlink.{
  Host, NetDevice, Traffic, newtfilter, sizeof_req, tca_kind, tca_options, tca_fw_mask,
  tca_fw_classid, kind_fw, nest, word,
}
use ip_qos.Tc.Classes.{class_id-injective}
use ip_qos.Tc.Interface.{traffic_control, qmark_tc_add_rule-safe}
use ip_qos.Tc.Rates.{find_cell_log_lem}
use ip_qos.Tc.Requests.{Convertible, filter_request_lem}
use ip_qos.Tc.Sent.{online}
use ip_qos.TcRules.{IsSafeRule}
use ip_qos.Tests.Sample.{
  counter, kernel, shared_rule, sample, sample-IsConsistent, bits, connection, target, sent_by,
}

abbrev host : Host
host = record { ticks_per_msec = 15625; eth_p_all = 3 }

abbrev lan : NetDevice
lan = record { ifindex = 2; mtu = 1500 }

abbrev wan : NetDevice
wan = record { ifindex = 3; mtu = 1500 }

abbrev free : ℕ → Bool
free i = false

-- A rate of 32 bits whose product with 1000 wraps, to 1 byte per second, stops the kernel.
abbrev wrapping_rule : RuletblNode
wrapping_rule = record shared_rule { rate_min_mate = 115_964_117 }

wrapping_rate :
    (byte_rate 125 115_964_117 ≡ 1)
    × (qmark_tc_add_rule host wrapping_rule 0x1000 (online host lan wan free [])
        ≡ fault division_by_zero)
unfolding byte_rate qmark_tc_add_rule tc_htb_class_modify class_request tc_htb_opt_parse
    qmark_tc_calc_rtable
wrapping_rate = (refl, refl)

shared_rates : Convertible 50 100
unfolding byte_rate
shared_rates = (omega arith, omega arith)

no_rates : Convertible 0 0
unfolding byte_rate
no_rates = (omega arith, omega arith)

sample-IsReady_traffic : IsReady (traffic_control host) sample
sample-IsReady_traffic = record { consistent = sample-IsConsistent; safe = safe }
  where
    safe : (i : ℕ) → IsSafeRule (traffic_control host) (rule_at sample.rules i)
    safe zero = (no_rates, no_rates)
    safe (suc zero) = (shared_rates, shared_rates)
    safe (suc (suc i)) = (no_rates, no_rates)

abbrev router : Kernel Traffic
router = record {
  marktbl = null;
  ruletbl = null;
  bitmap = null;
  reset_flag = false;
  op_lock = false;
  max_ip_cnt = 4;
  max_rule_cnt = 2;
  supply = λ n. true;
  traffic = online host lan wan free [];
}

-- Two clients of the shared rule send, and one of them closes its connection.
abbrev busy_day : List Event
busy_day =
    packet (target 2) (sent_by 9)
    ∷ packet (target 2) (sent_by 10)
    ∷ packet (target 1) (sent_by 7)
    ∷ conntrack 0b100 (some connection)
    ∷ []

busy_day-AllValid : AllValid (length sample.rules) busy_day
busy_day-AllValid =
    all_cons (omega arith, omega arith)
      (all_cons (omega arith, omega arith)
        (all_cons (omega arith, omega arith) (all_cons tt all_nil)))

handle_all_apart_example :
    (h : Kernel Traffic) × (s' : Tables) × (handle_all
        (traffic_control host)
        bits
        busy_day
        (up (idle router) sample)
      ≡ done (tt, up (idle h) s'))
    × ((q q' : ℕ) (n n' : MarktblNode)
        → view s'.ht q ≡ some n
        → view s'.ht q' ≡ some n'
        → q ≢ q'
        → (n.id ≢ n'.id) ⊎ ((rule_at s'.rules (n.id - 1)).mode ≡ 0)
        → n.mark ≢ n'.mark)
    × ((q : ℕ) (n : MarktblNode)
        → view s'.ht q ≡ some n
        → (0x800 ≤ n.mark) × (slot n.mark < s'.max_ip_cnt) × (bit s'.bits (slot n.mark) ≡ true))
handle_all_apart_example =
    handle_all_apart (traffic_control host) bits busy_day router sample sample-IsReady_traffic
      busy_day-AllValid

qmark_tc_add_rule-safe_example :
    IsSafeRule (traffic_control host) shared_rule
    × ((t' : Traffic) × (qmark_tc_add_rule host shared_rule 0x1000 (online host lan wan free [])
          ≡ done t'))
qmark_tc_add_rule-safe_example =
    qmark_tc_add_rule-safe host shared_rule 0x1000 (online host lan wan free []) (omega arith)
      (omega arith) (omega arith) (omega arith)

filter_request_lem_example :
    ((filter_request host newtfilter true shared_rule 0x1000 lan).nlmsg_len ≤ sizeof_req)
    × ((filter_request host newtfilter true shared_rule 0x1000 lan).tcm_ifindex ≡ 2)
    × ((filter_request host newtfilter true shared_rule 0x1000 lan).tcm_handle ≡ 0x1000)
    × ((filter_request host newtfilter true shared_rule 0x1000 lan).attrs
        ≡ record { attr_type = tca_kind; rta_len = 7; data_of = kind_fw }
          ∷ record { attr_type = tca_options; rta_len = 20; data_of = nest }
          ∷ record { attr_type = tca_fw_mask; rta_len = 8; data_of = word 0xff_f800 }
          ∷ record {
            attr_type = tca_fw_classid;
            rta_len = 8;
            data_of = word (class_id shared_rule (shift_down 0x1000));
          }
          ∷ [])
filter_request_lem_example = filter_request_lem host shared_rule 0x1000 lan newtfilter true

class_id-injective_example :
    (shared_rule.devid ≡ shared_rule.devid) × (shift_down 0x1000 ≡ shift_down 0x1000)
class_id-injective_example =
    class_id-injective shared_rule shared_rule (shift_down 0x1000) (shift_down 0x1000) (omega arith)
      (omega arith) (omega arith) (omega arith) (omega arith) (omega arith) refl

abbrev bps : ℕ
bps = 125

find_cell_log_lem_example :
    (1500 / 2 ^ find_cell_log 32 1500 0 ≤ 255)
    × ((j : ℕ) → j < find_cell_log 32 1500 0 → 255 < 1500 / 2 ^ j)
find_cell_log_lem_example = find_cell_log_lem 1500 (omega arith)

abbrev asked : QmarkHash
asked = record { ip = 7; id = 1; mark = 0 }

qmark_cdev_ioctl_check_example :
    qmark_cdev_ioctl counter (λ lan_dev wan_dev t. t) (hash_chk asked) (up (idle kernel) sample)
    ≡ done (
      if asked.ip == 0 then einval else success (some (mark_in (view sample.ht asked.ip))),
      up (idle kernel) sample,
    )
qmark_cdev_ioctl_check_example =
    qmark_cdev_ioctl_check counter (λ lan_dev wan_dev t. t) kernel sample sample-IsConsistent asked

qmark_cdev_ioctl-IsConsistent_example :
    Answered counter (λ lan_dev wan_dev t. t) kernel sample sample-IsConsistent (hash_del asked)
qmark_cdev_ioctl-IsConsistent_example =
    qmark_cdev_ioctl-IsConsistent counter (λ lan_dev wan_dev t. t) kernel sample sample-IsConsistent
      (hash_del asked) (drop_reference asked)
