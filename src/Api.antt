-- ===== src/Api.antt =====
-- The module's operations on marks and hash entries.
-- kmod/qos_marktbl_main.c, qmark_find_hash to qmark_free_mark and qmark_flush_mark to qmark_reset. An operation
-- that writes through `uint32_t *mark` takes the old value where it matters, and returns the new
-- one.
pub mod Delete
pub mod Reset
pub mod Marks
use ip_qos.Base.{
  ℕ, zero, suc, ◌*◌, ◌/◌, ◌%◌, Bool, true, false, not, ◌||◌, ◌&&◌, List, [], ◌∷◌, Option, none,
  some, length, set, if◌then◌else◌, ◌==◌, bit_and,
}
use ip_qos.Base.Word.{is_positive}
use ip_qos.Kernel.{
  M, Status, ok, error, done, fault, Result, RuletblNode, pure, deref, lock_op, unlock_op, get_rule,
  put_rule, get_bounded, set_bounded, ◌>>=◌, ◌>>◌, is_ok, live,
}
use ip_qos.Bitmap.{alloc_mark, free_mark, flush_mark, mark_bitmap_init, mark_bitmap_exit}
use ip_qos.Table.{
  NodePointer, marktbl_hash_get, load_node, node_atomic_inc, node_atomic_dec,
  qos_marktbl_hashtbl_add, qos_marktbl_hashtbl_del, qos_marktbl_hashtbl_get,
}
use ip_qos.Table.Setup.{qos_marktbl_hashtbl_init, qos_marktbl_hashtbl_exit}
use ip_qos.Rules.{qos_ruletbl_init, qos_ruletbl_exit}
use ip_qos.TcRules.{TcRules}

-- `PRIV_MODE == mode`
abbrev pub is_private : RuletblNode → Bool
is_private r = r.mode == 0

-- `(PRIV_MODE == g_ruletbl[id-1].mode) || (0 == atomic_read(&(g_ruletbl[id-1].count)))`
abbrev pub is_last_use : RuletblNode → Bool
is_last_use r = is_private r || r.count == 0

-- `atomic_read(&mark_node->count) <= 0`
abbrev pub is_released : ℕ → Bool
is_released c = not (is_positive c)

module _ {T : Type 0} where
  unfoldable pub qmark_find_hash : ℕ → M T (Status × ℕ)
  qmark_find_hash src_ip = qos_marktbl_hashtbl_get src_ip

  unfoldable pub qmark_add_hash : ℕ → ℕ → ℕ → M T Status
  qmark_add_hash src_ip id mark = do
    lock_op
    ret ← qos_marktbl_hashtbl_add src_ip id mark
    unlock_op
    pure ret

  -- `*mark` stays `mark` where nothing is deleted.
  unfoldable pub qmark_del_hash : ℕ → ℕ → M T (Status × ℕ)
  qmark_del_hash src_ip mark = do
    lock_op
    mark_node ← marktbl_hash_get src_ip
    elim mark_node [
      | some p ↦ do
        node_atomic_dec p
        n ← load_node p
        if is_released n.count
            then (do
              (_, mark') ← qos_marktbl_hashtbl_del src_ip
              r ← get_rule n.id
              if is_last_use r
                  then (do
                    put_rule n.id (record r { mark = 0 })
                    free_mark mark'
                    unlock_op
                    pure (ok, mark'))
                  else (do unlock_op; pure (ok, mark')))
            else (do unlock_op; pure (error, mark))
      | none ↦ do unlock_op; pure (error, mark)
    ]

  unfoldable pub qmark_alloc_mark : M T (Status × ℕ)
  qmark_alloc_mark = do
    lock_op
    mark ← alloc_mark
    if mark == 0 then (do unlock_op; pure (error, mark)) else (do unlock_op; pure (ok, mark))

  unfoldable pub qmark_free_mark : ℕ → M T (Unit {0})
  qmark_free_mark mark = do lock_op; free_mark mark; unlock_op

  unfoldable pub qmark_flush_mark : M T (Unit {0})
  qmark_flush_mark = do lock_op; flush_mark; unlock_op

  unfoldable pub qmark_flush_hash : M T (Unit {0})
  qmark_flush_hash = do lock_op; qos_marktbl_hashtbl_exit; _ ← qos_marktbl_hashtbl_init; unlock_op

  unfoldable pub qmark_set_spec : ℕ → ℕ → M T (Unit {0})
  qmark_set_spec ip_spec rule_spec = do
    lock_op
    qos_marktbl_hashtbl_exit
    qos_ruletbl_exit
    mark_bitmap_exit
    λ k. done (tt, record k { max_rule_cnt = rule_spec })
    λ k. done (tt, record k { max_ip_cnt = ip_spec })
    _ ← mark_bitmap_init ip_spec
    _ ← qos_ruletbl_init
    _ ← qos_marktbl_hashtbl_init
    unlock_op

  -- `for (i = 0; i < max_rule_cnt; i++) atomic_set(&(g_ruletbl[i].count), 0);`
  unfoldable pub clear_counts : ℕ → ℕ → M T (Unit {0})
  clear_counts zero i = pure tt
  clear_counts (suc left) i = do
    rules ← λ k. deref k.ruletbl k
    r ← get_bounded rules i
    rules' ← set_bounded rules i (record r { count = 0 })
    λ k. done (tt, record k { ruletbl = live rules' })
    clear_counts left (suc i)

  -- qmark_flush_hash takes the lock that is held here.
  unfoldable pub qmark_reset : ℕ → M T (Unit {0})
  qmark_reset flag = if flag == 0 then (λ k. done (tt, record k { reset_flag = false })) else (do
    λ k. done (tt, record k { reset_flag = true })
    lock_op
    flush_mark
    qmark_flush_hash
    max_rule_cnt ← λ k. done (k.max_rule_cnt, k)
    clear_counts max_rule_cnt 0
    unlock_op)
