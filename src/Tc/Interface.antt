-- ===== src/Tc/Interface.antt =====
-- The traffic control part as the mark table uses it.
use ip_qos.Base.{ℕ, ◌<◌, ◌≡◌, refl, true, false, none, some, arith}
use ip_qos.Kernel.{done, RuletblNode}
use ip_qos.Tc.{
  tc_htb_class_modify, class_request, tc_fw_filter_modify, tc_pfifo_qdisc_modify, qmark_tc_add_rule,
  qmark_tc_del_rule,
}
use ip_qos.Netlink.{
  Host, Traffic, newqdisc, newtclass, deltclass, newtfilter, deltfilter, qmark_tc_rtnl_talk,
}
use ip_qos.Tc.Rates.{byte_rate_bounds}
use ip_qos.Tc.Requests.{Convertible, class_request_new}
use ip_qos.Tc.Sent.{IsSafeRates}
use ip_qos.TcRules.{TcRules, IsSafeRule}

module _ (host : Host) (rn : RuletblNode) (mark : ℕ) where
  -- Any answer of dev_get_by_name will do.
  class_modify_new :
      (t : Traffic)
      → IsSafeRates host rn.rate rn.rate_mate rn.rate_min rn.rate_min_mate
      → (t' : Traffic) × (tc_htb_class_modify host newtclass true rn mark t ≡ done t')
  unfolding tc_htb_class_modify
  class_modify_new t (down, upwards) =
      elim t.lan_dev
        as (λ d.
          (t' : Traffic) × (tc_htb_class_modify host newtclass true rn mark
              (record t { lan_dev = d })
            ≡ done t')) [
              | none ↦ (record t { lan_dev = none }, refl)
              | some lan ↦
                  let (c, run) =
                    class_request_new host rn mark rn.rate_min_mate rn.rate_mate lan down in
                  elim t.wan_dev
                    as (λ d.
                      (t' : Traffic) × (tc_htb_class_modify host newtclass true rn mark
                          (record t { lan_dev = some lan; wan_dev = d })
                        ≡ done t')) [
                          | none ↦ (
                            qmark_tc_rtnl_talk c (record t { lan_dev = some lan; wan_dev = none }),
                            rw (run, tc_htb_class_modify) refl,
                          )
                          | some wan ↦
                              let (c', run') =
                                class_request_new host rn mark rn.rate_min rn.rate wan upwards in
                              (
                                qmark_tc_rtnl_talk c' (
                                    qmark_tc_rtnl_talk c
                                      (record t { lan_dev = some lan; wan_dev = some wan })),
                                rw (run, run', tc_htb_class_modify) refl,
                              )
                        ]
            ]

  pub add_rule_safe :
      (t : Traffic)
      → IsSafeRates host rn.rate rn.rate_mate rn.rate_min rn.rate_min_mate
      → (t' : Traffic) × (qmark_tc_add_rule host rn mark t ≡ done t')
  unfolding qmark_tc_add_rule
  add_rule_safe t safe =
      let (t₁, run) = class_modify_new t safe in
      (
        tc_fw_filter_modify host newtfilter true rn mark
            (tc_pfifo_qdisc_modify newqdisc true rn mark t₁),
        rw (run, qmark_tc_add_rule) refl,
      )

  class_modify_del :
      (t : Traffic)
      → (t' : Traffic) × (tc_htb_class_modify host deltclass false rn mark t ≡ done t')
  unfolding tc_htb_class_modify class_request
  class_modify_del t =
      elim t.lan_dev
        as (λ d.
          (t' : Traffic) × (tc_htb_class_modify host deltclass false rn mark
              (record t { lan_dev = d })
            ≡ done t')) [
              | none ↦ (_, refl)
              | some lan ↦
                  elim t.wan_dev
                    as (λ d.
                      (t' : Traffic) × (tc_htb_class_modify host deltclass false rn mark
                          (record t { lan_dev = some lan; wan_dev = d })
                        ≡ done t')) [ none ↦ (_, refl) | some wan ↦ (_, refl) ]
            ]

  pub del_rule_safe : (t : Traffic) → (t' : Traffic) × (qmark_tc_del_rule host rn mark t ≡ done t')
  unfolding qmark_tc_del_rule
  del_rule_safe t = class_modify_del (tc_fw_filter_modify host deltfilter false rn mark t)

-- kmod/qos_marktbl_tc.c fills the interface.
abbrev pub traffic_control : Host → TcRules Traffic
traffic_control host = record {
  add_rule = qmark_tc_add_rule host;
  del_rule = qmark_tc_del_rule host;
  IsSafe = IsSafeRates host;
  add_rule_safe = λ r mark t safe. add_rule_safe host r mark t safe;
  del_rule_safe = del_rule_safe host;
}

-- A rule whose four rates are below 4294968 Kbit is safe for the mark table, and qmark_tc_add_rule
-- returns for it, whatever devices there are and whether rtnetlink is locked or not.
pub qmark_tc_add_rule-safe :
    (host : Host) (rn : RuletblNode) (mark : ℕ) (t : Traffic)
    → rn.rate < 4_294_968
    → rn.rate_mate < 4_294_968
    → rn.rate_min < 4_294_968
    → rn.rate_min_mate < 4_294_968
    → IsSafeRule (traffic_control host) rn
      × ((t' : Traffic) × (qmark_tc_add_rule host rn mark t ≡ done t'))
qmark_tc_add_rule-safe host rn mark t a b c d =
    let safe : IsSafeRates host rn.rate rn.rate_mate rn.rate_min rn.rate_min_mate =
      ((convertible rn.rate_min_mate rn.rate_mate d b), (convertible rn.rate_min rn.rate c a)) in
    (safe, add_rule_safe host rn mark t safe)
  where
    convertible : (rate ceil : ℕ) → rate < 4_294_968 → ceil < 4_294_968 → Convertible rate ceil
    convertible rate ceil h h' = (
      omega (arith, (byte_rate_bounds 125 rate (omega arith) h).0),
      omega (arith, (byte_rate_bounds 125_000_000 ceil (omega arith) h').0),
    )
