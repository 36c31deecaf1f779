-- ===== src/Init/Outcome.antt =====
-- What loading and unloading the module leaves behind, on every path.
use mathlib.Core.Path.{subst}
use ip_qos.Consistent.{IsConsistent}
use ip_qos.Fresh.Spec.{fresh-IsConsistent}
use ip_qos.Base.{
  ◌<◌, ap, ◌∙◌, ℕ, suc, ◌≤◌, ◌≡◌, refl, false, Bool, Bool-cases, inl, inr, none, if◌then◌else◌,
  length,
}
use ip_qos.Bitmap.{mark_bitmap_init, mark_bitmap_exit}
use ip_qos.Init.{
  bitmap_label, dev_label, init_dev, init_sock, qos_marktbl_init, qos_marktbl_exit, qmark_dev_init,
}
use ip_qos.Init.Device.{
  DeviceMade, made, unmade, without_device, with_registry, qmark_dev_init_lem, qmark_dev_exit_lem,
}
use ip_qos.Init.Socket.{qmark_tc_sock_init_lem, qmark_tc_sock_exit_lem}
use ip_qos.Kernel.{Kernel, Status, ok, error, alloc_fail, done, null, is_ok, ◌>>=◌}
use ip_qos.Registry.{Registry, Handle, no_handle, held}
use ip_qos.Rules.{qos_ruletbl_exit}
use ip_qos.State.{Tables, up, idle}
use ip_qos.Table.Setup.Exit.{qos_marktbl_hashtbl_exit_run}
use ip_qos.Init.Clean.{
  IsClean, HasConnections, Loading, loaded, refused, Ends, tables_of, with_bitmap, tables_wide,
  closed-IsClean,
}
use ip_qos.Init.Steps.{init_ruletbl_lem}

-- The module's state before it is loaded. The sizes are TC_MAX_IP_CNT and MAX_RULE_CNT; what counts
-- is that their tables have less than 2 ^ 32 bytes.
pub record IsUnloaded (k : Kernel Registry) : Type 0 where
  pub ip_cnt_small : k.max_ip_cnt < 0x4000_0000
  pub rule_cnt_small : k.max_rule_cnt < 119_304_648
  pub marktbl_null : k.marktbl ≡ null
  pub ruletbl_null : k.ruletbl ≡ null
  pub region_none : k.traffic.region ≡ none
  pub cdev_null : k.traffic.qmark_cdev ≡ no_handle
  pub class_null : k.traffic.qmark_class ≡ no_handle
  pub device_absent : k.traffic.device ≡ false
  pub sock_null : k.traffic.qmark_sock ≡ no_handle
  pub notifier_absent : k.traffic.notifier ≡ false

module _ (k : Kernel Registry) (r : Registry) (no_marktbl : k.marktbl ≡ null)
    (no_ruletbl : k.ruletbl ≡ null) (there : r.qmark_sock ≡ held) (silent : r.notifier ≡ false)
    (small : k.max_ip_cnt < 0x4000_0000) (few : k.max_rule_cnt < 119_304_648) where
  after_device :
      (ret : Status) (r' : Registry)
      → qmark_dev_init (with_registry (with_bitmap k) r)
        ≡ done (ret, with_registry (with_bitmap k) r')
      → DeviceMade r.qmark_sock r.notifier ret r'
      → Ends (tables_of k) (init_dev (with_bitmap (with_registry k r)))
  unfolding init_dev dev_label bitmap_label mark_bitmap_exit
  after_device _ _ run (made r' has sock notifier) =
      rw (run, ◌>>=◌)
        (init_ruletbl_lem r' (has, sock ∙ there) (notifier ∙ silent) k no_marktbl small few)
  after_device _ _ run (unmade r' bare sock notifier) =
      rw (run, qmark_tc_sock_exit_lem (with_bitmap k) r' (sock ∙ there), ◌>>=◌)
        (
          error,
          _,
          refl,
          refused error (λ e. cc e)
              (record {
                no_marktbl = λ h e. cc (e, no_marktbl);
                no_ruletbl = no_ruletbl;
                no_bitmap = refl;
                unlocked = refl;
                bare = bare;
                no_sock = refl;
                no_notifier = notifier ∙ silent;
              }),
        )

init_dev_lem :
    (r : Registry)
    → r.region ≡ none
    → r.qmark_cdev ≡ no_handle
    → r.qmark_class ≡ no_handle
    → r.device ≡ false
    → r.qmark_sock ≡ held
    → r.notifier ≡ false
    → (k : Kernel Registry) → k.marktbl ≡ null
    → k.ruletbl ≡ null
    → k.max_ip_cnt < 0x4000_0000
    → k.max_rule_cnt < 119_304_648
    → Ends (tables_of k) (init_dev (with_bitmap (with_registry k r)))
init_dev_lem r region cdev class device there silent k no_marktbl no_ruletbl small few =
    let (ret, r', run, d) = qmark_dev_init_lem (with_bitmap k) r region cdev class device in
    after_device k r no_marktbl no_ruletbl there silent small few ret r' run d

module _ (k : Kernel Registry) (u : IsUnloaded k) where
  nothing_made :
      (later answers : ℕ → Bool) (sock : Handle)
      → sock ≡ no_handle
      → IsClean (record (idle k) {
        bitmap = null;
        supply = later;
        traffic = record k.traffic { answers = answers; qmark_sock = sock };
      })
  nothing_made later answers sock no_sock = record {
    no_marktbl = λ h e. cc (e, u.marktbl_null);
    no_ruletbl = u.ruletbl_null;
    no_bitmap = refl;
    unlocked = refl;
    bare = (u.region_none, λ e. cc (e, u.cdev_null), λ e. cc (e, u.class_null), u.device_absent);
    no_sock = no_sock;
    no_notifier = u.notifier_absent;
  }

  init_sock_lem :
      (later : ℕ → Bool)
      → Ends (tables_of k) (init_sock (record (with_bitmap k) { supply = later }))
  unfolding init_sock bitmap_label mark_bitmap_exit
  init_sock_lem later =
      let (ret, answers, run) =
        qmark_tc_sock_init_lem (record (with_bitmap k) { supply = later }) k.traffic u.sock_null in
      elim (Bool-cases (is_ok ret)) [
        | inl good ↦
            rw (run, good, ◌>>=◌, if◌then◌else◌)
              (init_dev_lem (record k.traffic { answers = answers; qmark_sock = held })
                u.region_none u.cdev_null u.class_null u.device_absent refl u.notifier_absent
                (record k { supply = later }) u.marktbl_null u.ruletbl_null u.ip_cnt_small
                u.rule_cnt_small)
        | inr bad ↦
            rw (run, bad, ◌>>=◌, if◌then◌else◌)
              (
                ret,
                _,
                refl,
                refused ret (λ e. cc (ap is_ok e, bad)) (nothing_made _ _ no_handle refl),
              )
      ]

  -- From an unloaded module, whose tables have less than 2 ^ 32 bytes, qos_marktbl_init returns,
  -- whatever allocations and registrations fail: with ok the tables are fresh and the device, the
  -- socket and the notifier are there, and with any other result no memory is held, no
  -- registration is left and nothing was freed twice.
  pub qos_marktbl_init_lem : Ends (tables_of k) (qos_marktbl_init k)
  unfolding qos_marktbl_init mark_bitmap_init
  qos_marktbl_init_lem = elim (Bool-cases (k.supply 0)) [
    | inl bitmap ↦ rw (bitmap, ◌>>=◌, if◌then◌else◌) (init_sock_lem (λ n. k.supply (suc n)))
    | inr no_bitmap ↦
        rw (no_bitmap, ◌>>=◌, if◌then◌else◌)
          (
            alloc_fail,
            _,
            refl,
            refused alloc_fail (λ e. cc e) (nothing_made _ _ k.traffic.qmark_sock u.sock_null),
          )
  ]

pub qos_marktbl_exit-IsClean :
    (h : Kernel Registry) (s : Tables)
    → s.size ≤ length s.ht
    → HasConnections h.traffic
    → (k' : Kernel Registry) × (qos_marktbl_exit (up (idle h) s) ≡ done (tt, k')) × IsClean k'
unfolding qos_marktbl_exit qos_ruletbl_exit mark_bitmap_exit
qos_marktbl_exit-IsClean h s wide connected =
    let r : Registry = record h.traffic { notifier = false } in
    let k : Kernel Registry = record (up (idle (with_registry h r)) s) {
      marktbl = null;
      ruletbl = null;
    } in
    (
      _,
      rw
          (
            qos_marktbl_hashtbl_exit_run (idle (with_registry h r)) s wide,
            qmark_dev_exit_lem k r connected.0,
            qmark_tc_sock_exit_lem k (without_device r) connected.1,
            ◌>>=◌,
          )
          refl,
      closed-IsClean r connected refl (record (up (idle h) s) { marktbl = null }) r.answers
          (λ h e. cc e),
    )

-- The kernel `k'` runs with fresh tables, and unloading takes everything away.
abbrev pub Unloads : (k k' : Kernel Registry) → Type 0
Unloads k k' =
    (k' ≡ up (idle k') (tables_of k))
    × HasConnections k'.traffic
    × ((left : Kernel Registry) × (qos_marktbl_exit k' ≡ done (tt, left)) × IsClean left)

module _ (k k' : Kernel Registry) where
  unload : (ret : Status) → ret ≡ ok → Loading (tables_of k) k' ret → Unloads k k'
  unload _ good (refused ret bad clean) = absurd (bad good)
  unload _ good (loaded l) = (
    l.tables,
    l.connected,
    rw l.tables (qos_marktbl_exit-IsClean k' (tables_of k) (tables_wide k) l.connected),
  )

  -- Where qos_marktbl_init has returned ok for an unloaded module with 1 to 2097151 addresses, the
  -- tables are fresh and consistent, and qos_marktbl_exit then returns and leaves no memory and no
  -- registration.
  pub load_unload :
      IsUnloaded k
      → 0 < k.max_ip_cnt
      → k.max_ip_cnt < 0x20_0000
      → qos_marktbl_init k ≡ done (ok, k')
      → IsConsistent (tables_of k) × Unloads k k'
  load_unload u pos small good =
      let (ret, k'', run, l) = qos_marktbl_init_lem k u in
      let same : k'' ≡ k' = cc (run, good) in
      (
        fresh-IsConsistent k.max_ip_cnt k.max_rule_cnt pos small u.rule_cnt_small,
        unload ret (cc (run, good)) (subst (λ x. Loading (tables_of k) x ret) same l),
      )
