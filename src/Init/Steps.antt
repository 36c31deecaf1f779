-- ===== src/Init/Steps.antt =====
-- The calls of qos_marktbl_init that follow qmark_dev_init: they succeed, or what was made before
-- is taken away.
use ip_qos.Base.{suc, ◌<◌, ◌≡◌, refl, true, false, leb, arith, Bool-cases, inl, inr, if◌then◌else◌}
use ip_qos.Base.Word.{items_for}
use ip_qos.Init.{ctnotifier_label, init_notifier, init_marktbl, init_ruletbl}
use ip_qos.Init.Device.{with_registry}
use ip_qos.Kernel.{Kernel, ok, error, null, dangling, ◌>>=◌}
use ip_qos.Registry.{Registry}
use ip_qos.Rules.{qos_ruletbl_init}
use ip_qos.State.{up, idle}
use ip_qos.Table.Setup.{qos_marktbl_hashtbl_init}
use ip_qos.Table.Setup.Exit.{qos_marktbl_hashtbl_exit_run}
use ip_qos.Init.Clean.{
  HasConnections, loaded, refused, Ends, tables_of, with_bitmap, with_rules, tables_wide,
  closed-IsClean, ruletbl_label_lem, marktbl_label_lem,
}

module _ (r : Registry) (connected : HasConnections r) (silent : r.notifier ≡ false) where
  init_notifier_lem :
      (k : Kernel Registry)
      → Ends (tables_of k) (init_notifier (up (idle (with_registry k r)) (tables_of k)))
  unfolding init_notifier ctnotifier_label
  init_notifier_lem k = elim (Bool-cases (r.answers 0)) [
    | inl given ↦
        rw given
          (ok, _, refl, loaded (record { tables = refl; connected = connected; notified = refl }))
    | inr failed ↦
        let r' : Registry = record r { answers = λ n. r.answers (suc n); notifier = false } in
        rw
          (
            failed,
            qos_marktbl_hashtbl_exit_run (idle (with_registry k r')) (tables_of k) (tables_wide k),
            ◌>>=◌,
          )
          (
            error,
            _,
            marktbl_label_lem r' connected refl
                (record (up (idle k) (tables_of k)) { marktbl = null }) error,
            refused error (λ e. cc e)
                (closed-IsClean r' connected refl (record k { marktbl = null }) r'.answers
                  (λ h e. cc e)),
          )
  ]

  init_marktbl_lem :
      (k : Kernel Registry)
      → k.max_ip_cnt < 0x4000_0000
      → Ends (tables_of k) (init_marktbl (with_rules (with_registry k r)))
  unfolding init_marktbl qos_marktbl_hashtbl_init
  init_marktbl_lem k small = elim (Bool-cases (k.supply 0)) [
    | inr no_head ↦
        rw (no_head, ◌>>=◌, if◌then◌else◌)
          (
            error,
            _,
            marktbl_label_lem r connected silent
                (record (with_rules k) { marktbl = null; supply = λ n. k.supply (suc n) }) error,
            refused error (λ e. cc e)
                (closed-IsClean r connected silent
                  (record k { marktbl = null; supply = λ n. k.supply (suc n) }) r.answers
                  (λ h e. cc e)),
          )
    | inl head ↦ elim (Bool-cases (k.supply 1)) [
      | inr no_ht ↦
          rw (head, no_ht, ◌>>=◌, if◌then◌else◌)
            (
              error,
              _,
              marktbl_label_lem r connected silent
                  (record (with_rules k) {
                    marktbl = dangling;
                    supply = λ n. k.supply (suc (suc n));
                  })
                  error,
              refused error (λ e. cc e)
                  (closed-IsClean r connected silent
                    (record k { marktbl = dangling; supply = λ n. k.supply (suc (suc n)) })
                    r.answers (λ h e. cc e)),
            )
      | inl ht ↦
          let enough : leb k.max_ip_cnt (items_for 4 k.max_ip_cnt) ≡ true = ground arith in
          rw (head, ht, enough, ◌>>=◌, if◌then◌else◌)
            (init_notifier_lem (record k { supply = λ n. k.supply (suc (suc n)) }))
    ]
  ]

  pub init_ruletbl_lem :
      (k : Kernel Registry)
      → k.marktbl ≡ null
      → k.max_ip_cnt < 0x4000_0000
      → k.max_rule_cnt < 119_304_648
      → Ends (tables_of k) (init_ruletbl (with_bitmap (with_registry k r)))
  unfolding init_ruletbl qos_ruletbl_init
  init_ruletbl_lem k no_marktbl small few = elim (Bool-cases (k.supply 0)) [
    | inr no_rules ↦
        rw (no_rules, ◌>>=◌, if◌then◌else◌)
          (
            error,
            _,
            ruletbl_label_lem r connected silent
                (record (with_bitmap k) { ruletbl = null; supply = λ n. k.supply (suc n) }) error,
            refused error (λ e. cc e)
                (closed-IsClean r connected silent (record k { supply = λ n. k.supply (suc n) })
                  r.answers (λ h e. cc (e, no_marktbl))),
          )
    | inl rules ↦
        let enough : items_for 36 k.max_rule_cnt ≡ k.max_rule_cnt = omega arith in
        rw (rules, enough, ◌>>=◌, if◌then◌else◌)
          (init_marktbl_lem (record k { supply = λ n. k.supply (suc n) }) small)
  ]
