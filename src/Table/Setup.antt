-- ===== src/Table/Setup.antt =====
-- Making, emptying and freeing the hash table.
-- kmod/qos_marktbl_main.c, marktbl_hash_clean, qos_marktbl_hashtbl_init and _exit.
pub mod Exit
use ip_qos.Base.{ℕ, zero, suc, Bool, true, false, List, [], ◌∷◌, replicate, leb, if◌then◌else◌}
use ip_qos.Base.Word.{sub32, items_for}
use ip_qos.Kernel.{
  M, Status, ok, error, Pointer, null, out_of_bounds, raise, dangling, live, done, MarktblNode,
  Chain, MarktblHead, pure, kmalloc, get_head, put_head, get_bounded, set_bounded, lock_head,
  unlock_head, ◌>>=◌, ◌>>◌,
}

-- `if (g_marktbl_head)`
unfoldable is_null : Pointer MarktblHead → Bool
is_null null = true
is_null _ = false

module _ {T : Type 0} where
  -- hlist_for_each_entry_safe: each node leaves the chain, which ends empty.
  unfoldable clean_chain : Chain → M T (Unit {0})
  clean_chain [] = pure tt
  clean_chain (n ∷ c) = do
    head ← get_head
    put_head (record head { elem_num = sub32 head.elem_num 1 })
    clean_chain c

  -- The rounds that are left, and `i`.
  unfoldable clean_from : ℕ → ℕ → M T (Unit {0})
  unfolding clean_chain
  clean_from zero i = pure tt
  clean_from (suc left) i = do
    head ← get_head
    c ← get_bounded head.ht i
    clean_chain c
    head' ← get_head
    ht ← set_bounded head'.ht i []
    put_head (record head' { ht = ht })
    clean_from left (suc i)

  unfoldable pub marktbl_hash_clean : M T (Unit {0})
  unfolding clean_from
  marktbl_hash_clean = do lock_head; head ← get_head; clean_from head.size 0; unlock_head

  -- Where the second kmalloc fails, g_marktbl_head keeps the address that was freed. Where
  -- `htsize * sizeof(struct hlist_head)` wraps, INIT_HLIST_HEAD writes beyond what is allocated.
  unfoldable pub qos_marktbl_hashtbl_init : M T Status
  qos_marktbl_hashtbl_init = do
    htsize ← λ k. done (k.max_ip_cnt, k)
    head_given ← kmalloc
    if head_given
        then (do
          ht_given ← kmalloc
          if ht_given
              then (if leb htsize (items_for 4 htsize)
                  then (λ k. done (
                    ok,
                    record k {
                      marktbl = live (record {
                        elem_num = 0;
                        size = htsize;
                        ht = replicate htsize [];
                        lock = false;
                      });
                    },
                  ))
                  else raise out_of_bounds)
              else (λ k. done (error, record k { marktbl = dangling })))
        else (λ k. done (error, record k { marktbl = null }))

  unfoldable pub qos_marktbl_hashtbl_exit : M T (Unit {0})
  unfolding marktbl_hash_clean is_null
  qos_marktbl_hashtbl_exit = do
    head ← λ k. done (k.marktbl, k)
    if is_null head
        then pure tt
        else do marktbl_hash_clean; λ k. done (tt, record k { marktbl = null })
