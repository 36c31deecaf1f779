-- ===== src/Target/Marking.antt =====
-- A packet leaves the target with the mark of its address, or as it came.
use ip_qos.Base.{
  ℕ, ◌-◌, ◌≤◌, ◌<◌, ◌≡◌, refl, inl, inr, false, none, some, length, if◌then◌else◌, ◌==◌,
  Option-cases, arith,
}
use ip_qos.Api.{qmark_find_hash}
use ip_qos.Auto.{qmark_alloc_mark_auto}
use ip_qos.Auto.Ends.{Allocated, Refused, Allocation, allocated, refused}
use ip_qos.Auto.Outcome.{qmark_alloc_mark_auto-Allocation}
use ip_qos.Consistent.{IsConsistent, rule_at}
use ip_qos.Kernel.{Kernel, done, MarktblNode, Status, ok, no_exist, ◌>>=◌}
use ip_qos.State.{Tables, up, idle}
use ip_qos.Table.{qos_marktbl_hashtbl_get}
use ip_qos.Table.Buckets.{view}
use ip_qos.Table.Runs.{marktbl_hash_get_found, marktbl_hash_get_missing, load_node_run}
use ip_qos.Target.{XtQmarkTginfo, IpHeader, packet_address, combine, qmark_handle}
use ip_qos.TcRules.{TcRules, IsSafeRule}

module _ {T : Type 0} (k : Kernel T) (s : Tables) (c : IsConsistent s) (ip : ℕ) where
  pub qmark_find_hash_found :
      (n : MarktblNode)
      → view s.ht ip ≡ some n
      → qmark_find_hash ip (up k s) ≡ done ((ok, n.mark), up k s)
  unfolding qmark_find_hash qos_marktbl_hashtbl_get
  qmark_find_hash_found n here =
      rw (marktbl_hash_get_found k s c.shape ip n here, load_node_run k s c.shape ip n here, ◌>>=◌)
        refl

  pub qmark_find_hash_missing :
      view s.ht ip ≡ none → qmark_find_hash ip (up k s) ≡ done ((no_exist, 0), up k s)
  unfolding qmark_find_hash qos_marktbl_hashtbl_get
  qmark_find_hash_missing absent = rw (marktbl_hash_get_missing k s c.shape ip absent, ◌>>=◌) refl

-- The packet's mark afterwards, and the tables.
pub data Marked (s : Tables) (ip id mask mark : ℕ) (s' : Tables) (mark' : ℕ) : Type 0 where
  -- The address had a node: the tables stay.
  known :
      (n : MarktblNode)
      → view s.ht ip ≡ some n
      → s' ≡ s
      → mark' ≡ combine mark mask n.mark
      → Marked s ip id mask mark s' mark'
  -- It has a new one.
  added :
      (m : ℕ)
      → view s.ht ip ≡ none
      → Allocated s ip id m s'
      → mark' ≡ combine mark mask m
      → Marked s ip id mask mark s' mark'
  -- It could have none.
  passed : view s.ht ip ≡ none → Refused s s' → mark' ≡ mark → Marked s ip id mask mark s' mark'

module _ {T : Type 0} (tc : TcRules T) (k : Kernel T) (s : Tables) (mark : ℕ) (info : XtQmarkTginfo)
    (iph : IpHeader) (c : IsConsistent s) (low : 0 < info.id) (high : info.id ≤ length s.rules)
    (safe : IsSafeRule tc (rule_at s.rules (info.id - 1))) where
  abbrev ip : ℕ
  ip = packet_address info iph

  abbrev pub Handled : Type 0
  Handled =
      (mark' : ℕ) × (h : Kernel T) × (s' : Tables) × (qmark_handle tc mark info iph (up (idle k) s)
        ≡ done (mark', up (idle h) s'))
      × IsConsistent s'
      × Marked s ip info.id info.mask mark s' mark'

  handle_known : (n : MarktblNode) → view s.ht ip ≡ some n → Handled
  unfolding qmark_handle
  handle_known n here =
      let (_, _, (big, _, _, _)) = c.marked ip n here in
      let marked : (n.mark == 0) ≡ false = ground arith in
      (
        combine mark info.mask n.mark,
        k,
        s,
        rw (qmark_find_hash_found (idle k) s c ip n here, marked, ◌>>=◌, if◌then◌else◌) refl,
        c,
        known n here refl refl,
      )

  handle_new : view s.ht ip ≡ none → Handled
  unfolding qmark_handle
  handle_new absent =
      let (status, m, h, s', flag, run, d, p) =
        qmark_alloc_mark_auto-Allocation tc k s ip info.id 0 c absent low high safe in
      finish status m h s' run d p
    where
      finish :
          (status : Status) (m : ℕ) (h : Kernel T) (s' : Tables)
          → qmark_alloc_mark_auto tc ip info.id 0 (up (idle k) s)
            ≡ done ((status, m), up (idle h) s')
          → IsConsistent s'
          → Allocation s ip info.id m s' status
          → Handled
      finish status m h s' run d (allocated a) = (
        combine mark info.mask m,
        h,
        s',
        rw (qmark_find_hash_missing (idle k) s c ip absent, run, ◌>>=◌, if◌then◌else◌) refl,
        d,
        added m absent a refl,
      )
      finish status m h s' run d (refused r) = (
        mark,
        h,
        s',
        rw (qmark_find_hash_missing (idle k) s c ip absent, run, ◌>>=◌, if◌then◌else◌) refl,
        d,
        passed absent r refl,
      )

  -- From consistent tables and a rule id in range with safe rates, the target does not fault and
  -- keeps the tables consistent; the packet gets the mark of its address's old or new node under
  -- the mask, or stays as it was where no mark can be had.
  pub qmark_handle-Marked : Handled
  qmark_handle-Marked = elim (Option-cases (view s.ht ip)) [
    | inl absent ↦ handle_new absent
    | inr (n, here) ↦ handle_known n here
  ]
