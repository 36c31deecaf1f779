-- ===== src/Conntrack.antt =====
-- The handler of connection tracking events.
-- kmod/qos_marktbl_main.c, qmark_conntrack_event. It always returns NOTIFY_DONE.
pub mod Release
pub mod Outcome
use ip_qos.Base.{
  ℕ, ◌^◌, Bool, true, false, not, ◌||◌, Option, none, some, if◌then◌else◌, ◌==◌, bit_and,
}
use ip_qos.Kernel.{M, done, pure, lock_op, unlock_op, get_rule, put_rule, ◌>>=◌, ◌>>◌}
use ip_qos.Bitmap.{free_mark}
use ip_qos.Table.{
  marktbl_hash_get, load_node, node_atomic_inc, node_atomic_dec, qos_marktbl_hashtbl_del,
}
use ip_qos.Api.{is_last_use, is_released}
use ip_qos.Auto.{call_tc}
use ip_qos.TcRules.{TcRules}

-- A tracked connection, as far as the handler reads it; the addresses are those of the tuples.
pub record NfConn : Type 0 where
  pub l3num : ℕ
  pub untracked : Bool
  pub mark : ℕ
  pub original_src : ℕ
  pub original_dst : ℕ
  pub reply_src : ℕ

-- The bit numbers of the kernel's enum ip_conntrack_events.
pub record EventBits : Type 0 where
  pub ipct_destroy : ℕ
  pub ipct_mark : ℕ

-- `events & (1 << n)`
abbrev pub has_event : ℕ → ℕ → Bool
has_event events n = not (bit_and events (2 ^ n) == 0)

abbrev pub mark_mask : ℕ
mark_mask = 0xff_f800

-- The early returns: not IPv4 (AF_INET is 2), untracked, or no mark.
unfoldable pub is_ignored : NfConn → Bool
is_ignored ct = not (ct.l3num == 2) || ct.untracked || bit_and ct.mark mark_mask == 0

unfoldable pub client_address : NfConn → ℕ
client_address ct = if ct.original_dst == ct.reply_src then ct.original_src else ct.reply_src

module _ {T : Type 0} where
  -- The branch of IPCT_DESTROY.
  unfoldable pub on_destroy : TcRules T → ℕ → M T (Unit {0})
  on_destroy tc ip_addr = do
    lock_op
    mark_node ← marktbl_hash_get ip_addr
    elim mark_node [
      | some p ↦ do
        node_atomic_dec p
        n ← load_node p
        if is_released n.count
            then (do
              (_, mark) ← qos_marktbl_hashtbl_del ip_addr
              r ← get_rule n.id
              if is_last_use r
                  then (do
                    put_rule n.id (record r { mark = 0 })
                    r' ← get_rule n.id
                    call_tc (tc.del_rule r' mark)
                    free_mark mark)
                  else pure tt)
            else pure tt
      | none ↦ pure tt
    ]
    unlock_op

  -- The branch of IPCT_MARK.
  unfoldable pub on_mark : ℕ → M T (Unit {0})
  on_mark ip_addr = do
    lock_op
    mark_node ← marktbl_hash_get ip_addr
    elim mark_node [ some p ↦ node_atomic_inc p | none ↦ pure tt ]
    unlock_op

  -- `item->ct` may be NULL.
  unfoldable pub qmark_conntrack_event : TcRules T → EventBits → ℕ → Option NfConn → M T (Unit {0})
  qmark_conntrack_event tc b events none = pure tt
  qmark_conntrack_event tc b events (some ct) =
      if is_ignored ct
      then pure tt
      else if has_event events b.ipct_destroy
      then on_destroy tc (client_address ct)
      else if has_event events b.ipct_mark
      then on_mark (client_address ct)
      else pure tt
