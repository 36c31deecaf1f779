-- ===== src/Tests/Listings.antt =====
-- What the listings show of a small table, and a fair queue for its mark.
use ip_qos.Base.{ℕ, ◌≡◌, refl, true, false, List, [], ◌∷◌, some, length}
use ip_qos.Kernel.{MarktblNode, done}
use ip_qos.Listing.{qmark_list_rule, qmark_list_hash, qmark_dump}
use ip_qos.Listing.Shown.{marks_from, rules_of, marks_of, qmark_dump_lem}
use ip_qos.Netlink.{NetDevice, RtnlReq, Traffic, newqdisc, qmark_tc_addattr, qmark_tc_rtnl_talk}
use ip_qos.State.{up, idle}
use ip_qos.Table.{find}
use ip_qos.Table.Buckets.{view}
use ip_qos.Tc.{class_id, class_minor, on_devices, request, sfq_request, tc_sfq_qdisc_modify}
use ip_qos.Tests.Sample.{kernel, sample, sample-IsConsistent, shared_rule}

shown_marks : marks_of sample ≡ ((1, 0x800) ∷ [])
unfolding marks_from
shown_marks = refl

qmark_dump_lem_example :
    (nodes : List MarktblNode) × (qmark_list_rule (up (idle kernel) sample)
      ≡ done (rules_of true sample, up (idle kernel) sample))
    × (qmark_list_hash (up (idle kernel) sample) ≡ done (nodes, up (idle kernel) sample))
    × (qmark_dump (up (idle kernel) sample)
        ≡ done ((rules_of false sample, nodes, marks_of sample), up (idle kernel) sample))
    × ((q : ℕ) → find q nodes ≡ view sample.ht q)
    × (length nodes ≡ sample.elem_num)
qmark_dump_lem_example = qmark_dump_lem kernel sample sample-IsConsistent.shape

abbrev lan : NetDevice
lan = record { ifindex = 2; mtu = 1500 }

abbrev wan : NetDevice
wan = record { ifindex = 3; mtu = 1500 }

abbrev network : Traffic
network = record { lan_dev = some lan; wan_dev = some wan; rtnl_is_locked = λ i. false; sent = [] }

abbrev fair_queue : NetDevice → RtnlReq
fair_queue dev = record (sfq_request newqdisc true shared_rule 0x1000 dev) { ack = true }

-- Class 1:2002, with the queue 2002:0 below it.
fair_queues :
    (tc_sfq_qdisc_modify newqdisc true shared_rule 0x1000 network).sent
    ≡ (fair_queue wan ∷ fair_queue lan ∷ [])
unfolding tc_sfq_qdisc_modify on_devices qmark_tc_rtnl_talk
fair_queues = refl

fair_queue_ids :
    ((fair_queue lan).tcm_handle ≡ 0x2002_0000) × ((fair_queue lan).tcm_parent ≡ 0x1_2002)
unfolding sfq_request class_minor class_id request qmark_tc_addattr
fair_queue_ids = (refl, refl)
