-- ===== src/Table.antt =====
-- The hash table of marks, chained, keyed by address.
-- kmod/qos_marktbl_main.c, elem_over_limit and marktbl_hash_cmp to qos_marktbl_hashtbl_exit. A
-- pointer to a node is the bucket and the key by which it was found: reads and writes through it
-- go to the first node of that key. Printing is left out.
pub mod Chains
pub mod Buckets
pub mod Setup
pub mod Runs
use ip_qos.Base.{
  ℕ, suc, ◌+◌, ◌-◌, ◌%◌, Bool, true, false, List, [], ◌∷◌, Option, none, some, length, get_or, set,
  replicate, if◌then◌else◌, ltb, ◌==◌,
}
use ip_qos.Base.Word.{u32_mod, add32, sub32, atomic_inc, atomic_dec, is_positive}
use ip_qos.Hash.{hash_fn, key_bytes}
use ip_qos.Kernel.{
  M, Status, ok, error, count_nozero, no_exist, over_max, alloc_fail, null_pointer, use_after_free,
  division_by_zero, Fault, done, fault, null, dangling, live, MarktblNode, Chain, MarktblHead, pure,
  raise, get_bounded, set_bounded, kmalloc, get_head, put_head, lock_head, unlock_head, get_rule,
  put_rule, ◌>>=◌, ◌>>◌, is_ok,
}
use ip_qos.Bitmap.{test_mark}

-- marktbl_hash_cmp
abbrev pub marktbl_hash_cmp : MarktblNode → ℕ → Bool
marktbl_hash_cmp node src_ip = node.src_ip == src_ip

-- hlist_for_each_entry up to the first node that the comparison takes.
unfoldable pub find : ℕ → Chain → Option MarktblNode
find ip [] = none
find ip (n ∷ c) = if marktbl_hash_cmp n ip then some n else find ip c

-- __hlist_del of that node.
unfoldable pub hlist_del : ℕ → Chain → Chain
hlist_del ip [] = []
hlist_del ip (n ∷ c) = if marktbl_hash_cmp n ip then c else n ∷ hlist_del ip c

-- A write through a pointer to that node.
unfoldable pub set_count : ℕ → ℕ → Chain → Chain
set_count ip v [] = []
set_count ip v (n ∷ c) =
    if marktbl_hash_cmp n ip then record n { count = v } ∷ c else n ∷ set_count ip v c

pub record NodePointer : Type 0 where
  pub bucket : ℕ
  pub key : ℕ

module _ {T : Type 0} where
  unfoldable pub elem_over_limit : M T Bool
  elem_over_limit = do
    head ← get_head
    max_ip_cnt ← λ k. done (k.max_ip_cnt, k)
    pure (ltb max_ip_cnt (add32 head.elem_num 1))

  -- `hash_fn((void *)key, sizeof(marktbl_node_key_t)) % head->size`
  unfoldable pub hash_index : ℕ → M T ℕ
  hash_index ip = do
    head ← get_head
    if head.size == 0 then raise division_by_zero else pure (hash_fn (key_bytes ip) 4 % head.size)

  -- `head->ht[hash_index]`
  abbrev pub get_chain : ℕ → M T Chain
  get_chain i = do head ← get_head; get_bounded head.ht i

  abbrev pub put_chain : ℕ → Chain → M T (Unit {0})
  put_chain i c = do
    head ← get_head
    ht ← set_bounded head.ht i c
    put_head (record head { ht = ht })

  -- `*node`
  unfoldable pub load_node : NodePointer → M T MarktblNode
  load_node p = do
    c ← get_chain p.bucket
    elim (find p.key c) [ some n ↦ pure n | none ↦ raise use_after_free ]

  -- `atomic_inc(&node->count)` and `atomic_dec(&node->count)`
  unfoldable pub node_atomic_inc : NodePointer → M T (Unit {0})
  unfolding load_node
  node_atomic_inc p = do
    n ← load_node p
    c ← get_chain p.bucket
    put_chain p.bucket (set_count p.key (atomic_inc n.count) c)

  unfoldable pub node_atomic_dec : NodePointer → M T (Unit {0})
  unfolding load_node
  node_atomic_dec p = do
    n ← load_node p
    c ← get_chain p.bucket
    put_chain p.bucket (set_count p.key (atomic_dec n.count) c)

  unfoldable pub marktbl_hash_get : ℕ → M T (Option NodePointer)
  unfolding hash_index
  marktbl_hash_get key = do
    hash_index ← hash_index key
    lock_head
    c ← get_chain hash_index
    unlock_head
    elim (find key c) [
      | some n ↦ pure (some (record { bucket = hash_index; key = key }))
      | none ↦ pure none
    ]

  -- `atomic_inc(&(g_ruletbl[id-1].count))` and `atomic_dec`
  abbrev pub rule_atomic_inc : ℕ → M T (Unit {0})
  rule_atomic_inc id = do r ← get_rule id; put_rule id (record r { count = atomic_inc r.count })

  abbrev pub rule_atomic_dec : ℕ → M T (Unit {0})
  rule_atomic_dec id = do r ← get_rule id; put_rule id (record r { count = atomic_dec r.count })

  -- A node of that key sends the count through `mark_node`, which is still NULL.
  unfoldable pub marktbl_hash_add : ℕ → ℕ → ℕ → M T Status
  unfolding elem_over_limit hash_index
  marktbl_hash_add key id mark = do
    over ← elem_over_limit
    if over then pure over_max else do
      hash_index ← hash_index key
      lock_head
      c ← get_chain hash_index
      elim (find key c) [
        | some n ↦ raise null_pointer
        | none ↦ do
          given ← kmalloc
          if given
              then (do
                rule_atomic_inc id
                put_chain hash_index (record { src_ip = key; id = id; mark = mark; count = 0 } ∷ c)
                head ← get_head
                put_head (record head { elem_num = add32 head.elem_num 1 })
                unlock_head
                pure ok)
              else (do unlock_head; pure alloc_fail)
      ]

  -- The node that was taken out, where there is one.
  unfoldable pub marktbl_hash_remove : ℕ → M T (Status × Option MarktblNode)
  unfolding hash_index
  marktbl_hash_remove key = do
    hash_index ← hash_index key
    lock_head
    c ← get_chain hash_index
    elim (find key c) [
      | some entry ↦
          if is_positive entry.count then (do unlock_head; pure (count_nozero, none)) else (do
            put_chain hash_index (hlist_del key c)
            head ← get_head
            put_head (record head { elem_num = sub32 head.elem_num 1 })
            rule_atomic_dec entry.id
            unlock_head
            pure (ok, some entry))
      | none ↦ do unlock_head; pure (no_exist, none)
    ]

  unfoldable pub qos_marktbl_hashtbl_add : ℕ → ℕ → ℕ → M T Status
  qos_marktbl_hashtbl_add src_ip id mark = do
    allocated ← test_mark mark
    if allocated then marktbl_hash_add src_ip id mark else pure error

  -- The status and the new value of `*mark`.
  unfoldable pub qos_marktbl_hashtbl_del : ℕ → M T (Status × ℕ)
  qos_marktbl_hashtbl_del src_ip = do
    (ret, mark_node) ← marktbl_hash_remove src_ip
    elim mark_node [ some n ↦ pure (ret, if is_ok ret then n.mark else 0) | none ↦ pure (ret, 0) ]

  unfoldable pub qos_marktbl_hashtbl_get : ℕ → M T (Status × ℕ)
  qos_marktbl_hashtbl_get src_ip = do
    mark_node ← marktbl_hash_get src_ip
    elim mark_node [ some p ↦ do n ← load_node p; pure (ok, n.mark) | none ↦ pure (no_exist, 0) ]
