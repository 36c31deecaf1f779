-- ===== src/Init/Clean.antt =====
-- What it means that nothing of the module is left, and the labels of qos_marktbl_init that take
-- everything away.
use ip_qos.Base.{
  ℕ, ◌≤◌, ◌≡◌, ◌≢◌, refl, true, false, Bool, length, length-replicate, replicate, arith,
}
use ip_qos.Bitmap.{long_bits, mark_bitmap_exit}
use ip_qos.Fresh.{fresh}
use ip_qos.Init.{bitmap_label, dev_label, ruletbl_label, marktbl_label}
use ip_qos.Init.Device.{IsBare, HasDevice, without_device, with_registry, qmark_dev_exit_lem}
use ip_qos.Init.Socket.{qmark_tc_sock_exit_lem}
use ip_qos.Kernel.{Kernel, Status, ok, done, null, live, MarktblHead, ◌>>=◌, Result}
use ip_qos.Registry.{Registry, no_handle, held}
use ip_qos.Rules.{zero_rule, qos_ruletbl_exit}
use ip_qos.State.{Tables, up, idle}

-- No memory is held and nothing is registered.
pub record IsClean (k : Kernel Registry) : Type 0 where
  pub no_marktbl : (h : MarktblHead) → k.marktbl ≢ live h
  pub no_ruletbl : k.ruletbl ≡ null
  pub no_bitmap : k.bitmap ≡ null
  pub unlocked : k.op_lock ≡ false
  pub bare : IsBare k.traffic
  pub no_sock : k.traffic.qmark_sock ≡ no_handle
  pub no_notifier : k.traffic.notifier ≡ false

-- The device and the socket are there.
abbrev pub HasConnections : Registry → Type 0
HasConnections r = HasDevice r × (r.qmark_sock ≡ held)

-- The module is up with the tables `s`.
pub record IsLoaded (s : Tables) (k : Kernel Registry) : Type 0 where
  pub tables : k ≡ up (idle k) s
  pub connected : HasConnections k.traffic
  pub notified : k.traffic.notifier ≡ true

abbrev pub closed : Registry → Registry
closed r = record (without_device r) { qmark_sock = no_handle }

-- What qos_marktbl_init leaves, by its result.
pub data Loading (s : Tables) (k' : Kernel Registry) : Status → Type 0 where
  loaded : IsLoaded s k' → Loading s k' ok
  refused : (ret : Status) → ret ≢ ok → IsClean k' → Loading s k' ret

abbrev pub Ends : Tables → Result (Status × Kernel Registry) → Type 0
Ends s m = (ret : Status) × (k' : Kernel Registry) × (m ≡ done (ret, k')) × Loading s k' ret

abbrev pub tables_of : Kernel Registry → Tables
tables_of k = fresh k.max_ip_cnt k.max_rule_cnt

-- The kernel with its bitmap, and then with its rule table.
abbrev pub with_bitmap : Kernel Registry → Kernel Registry
with_bitmap k = record (idle k) { bitmap = live (replicate (long_bits k.max_ip_cnt) false) }

abbrev pub with_rules : Kernel Registry → Kernel Registry
with_rules k = record (with_bitmap k) { ruletbl = live (replicate k.max_rule_cnt zero_rule) }

pub tables_wide : (k : Kernel Registry) → (tables_of k).size ≤ length (tables_of k).ht
tables_wide k = rw length-replicate (omega arith)

module _ (r : Registry) (connected : HasConnections r) (silent : r.notifier ≡ false) where
  pub closed-IsClean :
      (k : Kernel Registry) (later : ℕ → Bool)
      → ((h : MarktblHead) → k.marktbl ≢ live h)
      → IsClean (record (idle k) {
        traffic = record (closed r) { answers = later };
        ruletbl = null;
        bitmap = null;
      })
  closed-IsClean k later no_marktbl = record {
    no_marktbl = no_marktbl;
    no_ruletbl = refl;
    no_bitmap = refl;
    unlocked = refl;
    bare = (refl, λ e. cc e, λ e. cc e, refl);
    no_sock = refl;
    no_notifier = silent;
  }

  pub ruletbl_label_lem :
      (k : Kernel Registry) (ret : Status)
      → ruletbl_label ret (with_registry k r)
        ≡ done (ret, record k { traffic = closed r; bitmap = null })
  unfolding ruletbl_label dev_label bitmap_label mark_bitmap_exit
  ruletbl_label_lem k ret =
      rw
        (
          qmark_dev_exit_lem k r connected.0,
          qmark_tc_sock_exit_lem k (without_device r) connected.1,
          ◌>>=◌,
        )
        refl

  pub marktbl_label_lem :
      (k : Kernel Registry) (ret : Status)
      → marktbl_label ret (with_registry k r)
        ≡ done (ret, record k { traffic = closed r; bitmap = null; ruletbl = null })
  unfolding marktbl_label qos_ruletbl_exit
  marktbl_label_lem k ret = ruletbl_label_lem (record k { ruletbl = null }) ret
