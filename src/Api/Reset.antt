-- ===== src/Api/Reset.antt =====
-- qmark_reset as it is written, and the table after a failed allocation.
use ip_qos.Base.{ℕ, suc, ◌≡◌, ◌≢◌, refl, true, false, if◌then◌else◌, ◌==◌, arith}
use ip_qos.Api.{qmark_reset, qmark_flush_hash, qmark_find_hash}
use ip_qos.Bitmap.{flush_mark}
use ip_qos.Consistent.{IsShaped}
use ip_qos.Kernel.{Kernel, done, fault, deadlock, use_after_free, dangling, ◌>>=◌}
use ip_qos.State.{Tables, up, idle, busy}
use ip_qos.Table.{marktbl_hash_get, hash_index, qos_marktbl_hashtbl_get}
use ip_qos.Table.Setup.{qos_marktbl_hashtbl_init}
use ip_qos.Table.Setup.Exit.{qos_marktbl_hashtbl_exit_run}

-- qmark_reset with a flag other than 0 takes qmark_op_lock twice and deadlocks, on any tables that
-- are up and with the lock free; with flag 0 it returns and only reset_flag changes.
pub qmark_reset_lem :
    {T : Type 0} (k : Kernel T) (s : Tables) (flag : ℕ)
    → (flag ≢ 0 → qmark_reset flag (up (idle k) s) ≡ fault deadlock)
      × (flag ≡ 0
          → qmark_reset flag (up (idle k) s)
            ≡ done (tt, up (idle (record k { reset_flag = false })) s))
unfolding qmark_reset qmark_flush_hash flush_mark
qmark_reset_lem k s flag = (
  (λ h. let test : (flag == 0) ≡ false = ground arith in rw (test, ◌>>=◌, if◌then◌else◌) refl),
  (λ h. let test : (flag == 0) ≡ true = ground arith in rw (test, if◌then◌else◌) refl),
)

-- On well-shaped tables, where the second allocation of qmark_flush_hash fails, it returns all the
-- same, and the next qmark_find_hash reads freed memory.
pub qmark_flush_hash_dangles :
    {T : Type 0} (k : Kernel T) (s : Tables) (src_ip : ℕ)
    → IsShaped s
    → k.supply 0 ≡ true
    → k.supply 1 ≡ false
    → (k' : Kernel T) × (qmark_flush_hash (up (idle k) s) ≡ done (tt, k'))
      × (qmark_find_hash src_ip k' ≡ fault use_after_free)
unfolding qmark_flush_hash qmark_find_hash qos_marktbl_hashtbl_get marktbl_hash_get hash_index
    qos_marktbl_hashtbl_init
qmark_flush_hash_dangles k s src_ip shape head_given dry = (
  record (up (idle (record k { supply = λ n. k.supply (suc (suc n)) })) s) { marktbl = dangling },
  rw
      (
        qos_marktbl_hashtbl_exit_run (busy k) s (omega (arith, shape.width)),
        head_given,
        dry,
        ◌>>=◌,
        if◌then◌else◌,
      )
      refl,
  refl,
)
