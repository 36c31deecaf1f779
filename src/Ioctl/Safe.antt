-- ===== src/Ioctl/Safe.antt =====
-- Which commands are safe while addresses use the tables, and what they answer.
use ip_qos.Base.{
  ℕ, ◌-◌, ◌≤◌, ◌<◌, ◌≡◌, refl, ◌⊎◌, inl, inr, true, false, Bool-cases, Option-cases, Option, none,
  some, length, if◌then◌else◌, ◌==◌, ltb, arith,
}
use ip_qos.Api.Delete.{answer, qmark_del_hash-Released}
use ip_qos.Api.Reset.{qmark_reset_lem}
use ip_qos.Auto.{call_tc}
use ip_qos.Bitmap.Marks.{mark_of, next_bit, alloc_mark_full, alloc_mark_run}
use ip_qos.Api.{qmark_alloc_mark, qmark_del_hash}
use ip_qos.Consistent.{IsConsistent, rule_at}
use ip_qos.Consistent.Marks.{set_bit, take_bit-IsConsistent}
use ip_qos.Ioctl.{
  QmarkRule, QmarkHash, Command, Reply, rule_add, rule_del, rule_lst, hash_del, hash_chk, hash_lst,
  mark_alo, dump, reset, netdev_set, other, einval, success, qmark_cdev_ioctl,
}
use ip_qos.Kernel.{Kernel, done, MarktblNode, Status, is_ok, ◌>>=◌}
use ip_qos.Rules.Outcome.{qmark_add_rule-IsConsistent, qmark_del_rule-IsConsistent}
use ip_qos.Listing.Shown.{qmark_list_rule_run, qmark_list_hash_run, qmark_dump_run}
use ip_qos.State.{Tables, up, idle, busy}
use ip_qos.Table.Buckets.{view}
use ip_qos.Target.Marking.{qmark_find_hash_found, qmark_find_hash_missing}
use ip_qos.TcRules.{TcRules}
use ip_qos.Text.{Text}

-- Commands that harm no address, with their conditions.
pub data IsHarmless (s : Tables) : Command → Type 0 where
  add_unused :
      (qr : QmarkRule)
      → 0 < qr.id
      → qr.id ≤ length s.rules
      → ((rule_at s.rules (qr.id - 1)).count ≡ 0) ⊎ (qr.mode ≡ (rule_at s.rules (qr.id - 1)).mode)
      → IsHarmless s (rule_add qr)
  del_unused :
      (qr : QmarkRule)
      → 0 < qr.id
      → qr.id ≤ length s.rules
      → (rule_at s.rules (qr.id - 1)).count ≡ 0
      → IsHarmless s (rule_del qr)
  list_rules : IsHarmless s rule_lst
  drop_reference : (qh : QmarkHash) → IsHarmless s (hash_del qh)
  check : (qh : QmarkHash) → IsHarmless s (hash_chk qh)
  list_hash : IsHarmless s hash_lst
  reserve : IsHarmless s mark_alo
  dump_all : IsHarmless s dump
  end_reset : IsHarmless s (reset 0)
  set_netdev : (lan_dev wan_dev : Text) → IsHarmless s (netdev_set lan_dev wan_dev)
  unknown : IsHarmless s other

-- The mark that a lookup answers.
abbrev pub mark_in : Option MarktblNode → ℕ
mark_in none = 0
mark_in (some n) = n.mark

module _ {T : Type 0} (tc : TcRules T) (set_devices : Text → Text → T → T) (k : Kernel T)
    (s : Tables) (c : IsConsistent s) where
  abbrev pub Answered : Command → Type 0
  Answered cmd =
      (reply : Reply) × (h : Kernel T) × (s' : Tables) × (qmark_cdev_ioctl tc set_devices cmd
          (up (idle k) s)
        ≡ done (reply, up (idle h) s'))
      × IsConsistent s'

  -- From consistent tables the HASH_CHK command answers -EINVAL for address 0, and otherwise the
  -- mark of the address or 0 where it has none, and changes nothing.
  pub qmark_cdev_ioctl_check :
      (qh : QmarkHash)
      → qmark_cdev_ioctl tc set_devices (hash_chk qh) (up (idle k) s)
        ≡ done (
          if qh.ip == 0 then einval else success (some (mark_in (view s.ht qh.ip))),
          up (idle k) s,
        )
  unfolding qmark_cdev_ioctl
  qmark_cdev_ioctl_check qh = elim (Bool-cases (qh.ip == 0)) [
    | inl zero_ip ↦ rw (zero_ip, if◌then◌else◌) refl
    | inr some_ip ↦ elim (Option-cases (view s.ht qh.ip)) [
      | inl absent ↦
          rw
            (
              some_ip,
              qmark_find_hash_missing (idle k) s c qh.ip absent,
              absent,
              ◌>>=◌,
              if◌then◌else◌,
            )
            refl
      | inr (n, here) ↦
          rw (some_ip, qmark_find_hash_found (idle k) s c qh.ip n here, here, ◌>>=◌, if◌then◌else◌)
            refl
    ]
  ]

  deleted :
      (qh : QmarkHash) (a : Status × ℕ) (s' : Tables)
      → (qh.ip == 0) ≡ false
      → qmark_del_hash qh.ip 0 (up (idle k) s) ≡ done (a, up (idle k) s')
      → IsConsistent s'
      → Answered (hash_del qh)
  unfolding qmark_cdev_ioctl
  deleted qh a s' some_ip run d = elim (Bool-cases (is_ok a.0)) [
    | inl removed ↦ (success none, k, s', rw (some_ip, run, removed, ◌>>=◌, if◌then◌else◌) refl, d)
    | inr kept ↦ (einval, k, s', rw (some_ip, run, kept, ◌>>=◌, if◌then◌else◌) refl, d)
  ]

  delete : (qh : QmarkHash) → Answered (hash_del qh)
  unfolding qmark_cdev_ioctl
  delete qh = elim (Bool-cases (qh.ip == 0)) [
    | inl zero_ip ↦ (einval, k, s, rw (zero_ip, if◌then◌else◌) refl, c)
    | inr some_ip ↦
        let (s', run, d, _) = qmark_del_hash-Released k s c qh.ip 0 in
        deleted qh (answer (view s.ht qh.ip) 0) s' some_ip run d
  ]

  allocate : Answered mark_alo
  unfolding qmark_cdev_ioctl qmark_alloc_mark
  allocate = elim (Bool-cases (ltb (next_bit s) s.max_ip_cnt)) [
    | inl room ↦
        let valid : (mark_of (next_bit s) == 0) ≡ false = ground arith in
        (
          success (some (mark_of (next_bit s))),
          k,
          set_bit s (next_bit s) true,
          rw (alloc_mark_run (busy k) s c.shape (ground arith), valid, ◌>>=◌, if◌then◌else◌) refl,
          take_bit-IsConsistent s c (next_bit s) (ground (arith, c.shape.bits_width)),
        )
    | inr full ↦ (
      success (some 0),
      k,
      s,
      rw (alloc_mark_full (busy k) s c.shape (ground arith), ◌>>=◌, if◌then◌else◌) refl,
      c,
    )
  ]

  -- From consistent tables every harmless command of the control device returns, releases
  -- qmark_op_lock and keeps the tables consistent: adding a rule that no address uses or whose
  -- mode stays, deleting a rule that no address uses, dropping a reference, looking up, reserving
  -- a mark, ending a reset, setting the devices, the listings and unknown commands.
  pub qmark_cdev_ioctl-IsConsistent : (cmd : Command) → IsHarmless s cmd → Answered cmd
  unfolding qmark_cdev_ioctl call_tc
  qmark_cdev_ioctl-IsConsistent _ (add_unused qr low high may) =
      let (run, d) =
        qmark_add_rule-IsConsistent k s c qr.id low high qr.mode qr.devid qr.rate qr.rate_mate
          qr.rate_min qr.rate_min_mate may in
      (success none, k, _, rw (run, ◌>>=◌) refl, d)
  qmark_cdev_ioctl-IsConsistent _ (del_unused qr low high unused) =
      let (run, d) = qmark_del_rule-IsConsistent k s c qr.id low high unused in
      (success none, k, _, rw (run, ◌>>=◌) refl, d)
  qmark_cdev_ioctl-IsConsistent _ list_rules =
      (success none, k, s, rw (qmark_list_rule_run k s c.shape, ◌>>=◌) refl, c)
  qmark_cdev_ioctl-IsConsistent _ (drop_reference qh) = delete qh
  qmark_cdev_ioctl-IsConsistent _ (check qh) = (_, k, s, qmark_cdev_ioctl_check qh, c)
  qmark_cdev_ioctl-IsConsistent _ list_hash =
      (success none, k, s, rw (qmark_list_hash_run k s c.shape, ◌>>=◌) refl, c)
  qmark_cdev_ioctl-IsConsistent _ reserve = allocate
  qmark_cdev_ioctl-IsConsistent _ dump_all =
      (success none, k, s, rw (qmark_dump_run k s c.shape, ◌>>=◌) refl, c)
  qmark_cdev_ioctl-IsConsistent _ end_reset = (
    success none,
    record k { reset_flag = false },
    s,
    rw ((qmark_reset_lem k s 0).1 refl, ◌>>=◌) refl,
    c,
  )
  qmark_cdev_ioctl-IsConsistent _ (set_netdev lan_dev wan_dev) =
      (success none, record k { traffic = set_devices lan_dev wan_dev k.traffic }, s, refl, c)
  qmark_cdev_ioctl-IsConsistent _ unknown = (einval, k, s, refl, c)
