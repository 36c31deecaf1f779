-- ===== src/Table/Runs.antt =====
-- The hash table's functions run on tables that are up: no fault, and these tables afterwards.
use ip_qos.Base.{
  ℕ, suc, ◌-◌, ◌≤◌, ◌<◌, ◌≡◌, refl, true, false, List, [], some, none, length, get_or, set,
  get_elem?, get_elem?-get_or, lt→ltb, if◌then◌else◌, arith,
}
use ip_qos.Base.Word.{sub32, atomic_dec, atomic_inc, is_positive}
use ip_qos.Consistent.{IsShaped, rule_at}
use ip_qos.Consistent.Insert.{attach}
use ip_qos.Consistent.Recount.{recount}
use ip_qos.Consistent.Remove.{detach}
use ip_qos.Kernel.{
  Kernel, done, fault, null_pointer, ok, over_max, alloc_fail, count_nozero, no_exist, MarktblNode,
  RuletblNode, get_rule, put_rule, get_bounded, set_bounded, ◌>>=◌,
}
use ip_qos.Rules.{zero_rule}
use ip_qos.State.{Tables, up}
use ip_qos.Table.{
  NodePointer, hash_index, load_node, node_atomic_inc, node_atomic_dec, marktbl_hash_get,
  marktbl_hash_add, marktbl_hash_remove,
}
use ip_qos.Table.Buckets.{home, home-lt, chain_of, view}

module _ {T A : Type 0} (k : Kernel T) (xs : List A) (i : ℕ) (d : A) (h : i < length xs) where
  get_bounded_run : get_bounded xs i k ≡ done (get_or xs i d, k)
  get_bounded_run = rw (get_elem?-get_or xs i d h, get_bounded)

  set_bounded_run : (v : A) → set_bounded xs i v k ≡ done (set xs i v, k)
  set_bounded_run v = rw (lt→ltb i (length xs) h, set_bounded)

module _ {T : Type 0} (k : Kernel T) (s : Tables) (id : ℕ) (low : 0 < id)
    (high : id ≤ length s.rules) (fits : length s.rules < 0x1_0000_0000) where
  index : sub32 id 1 ≡ id - 1
  index = omega arith

  pub get_rule_run : get_rule id (up k s) ≡ done (rule_at s.rules (id - 1), up k s)
  get_rule_run = rw index (get_bounded_run (up k s) s.rules (id - 1) zero_rule (omega arith))

  pub put_rule_run :
      (r : RuletblNode)
      → put_rule id r (up k s) ≡ done (tt, up k (record s { rules = set s.rules (id - 1) r }))
  put_rule_run r = ground (arith, index)

-- The kernel after a kmalloc.
abbrev pub spent : {T : Type 0} → Kernel T → Kernel T
spent k = record k { supply = λ n. k.supply (suc n) }

-- What marktbl_hash_get returns where it finds the address.
abbrev pub pointer : Tables → ℕ → NodePointer
pointer s ip = record { bucket = home ip (length s.ht); key = ip }

module _ {T : Type 0} (k : Kernel T) (s : Tables) (shape : IsShaped s) (ip : ℕ) where
  hash_index_run : hash_index ip (up k s) ≡ done (home ip (length s.ht), up k s)
  unfolding hash_index home
  hash_index_run = ground (arith, shape.width, shape.pos)

  pos : 0 < length s.ht
  pos = omega (arith, shape.pos, shape.width)

  inside : home ip (length s.ht) < length s.ht
  inside = home-lt ip (length s.ht) pos

  chain_there : get_elem? s.ht (home ip (length s.ht)) ≡ some (chain_of s.ht ip)
  chain_there = get_elem?-get_or s.ht _ [] inside

  pub marktbl_hash_get_found :
      (n : MarktblNode)
      → view s.ht ip ≡ some n
      → marktbl_hash_get ip (up k s) ≡ done (some (pointer s ip), up k s)
  unfolding marktbl_hash_get view
  marktbl_hash_get_found n here = rw (hash_index_run, chain_there, here, ◌>>=◌, get_bounded) refl

  pub marktbl_hash_get_missing :
      view s.ht ip ≡ none → marktbl_hash_get ip (up k s) ≡ done (none, up k s)
  unfolding marktbl_hash_get view
  marktbl_hash_get_missing absent = ground (arith, hash_index_run, chain_there)

  pub load_node_run :
      (n : MarktblNode)
      → view s.ht ip ≡ some n
      → load_node (pointer s ip) (up k s) ≡ done (n, up k s)
  unfolding load_node view
  load_node_run n here = ground (arith, chain_there)

  pub node_atomic_dec_run :
      (n : MarktblNode)
      → view s.ht ip ≡ some n
      → node_atomic_dec (pointer s ip) (up k s)
        ≡ done (tt, up k (recount s ip (atomic_dec n.count)))
  unfolding node_atomic_dec view
  node_atomic_dec_run n here = ground (arith, chain_there, inside)

  pub node_atomic_inc_run :
      (n : MarktblNode)
      → view s.ht ip ≡ some n
      → node_atomic_inc (pointer s ip) (up k s)
        ≡ done (tt, up k (recount s ip (atomic_inc n.count)))
  unfolding node_atomic_inc view
  node_atomic_inc_run n here = ground (arith, chain_there, inside)

  -- A node that is in use stays.
  pub marktbl_hash_remove_busy :
      (n : MarktblNode)
      → view s.ht ip ≡ some n
      → is_positive n.count ≡ true
      → marktbl_hash_remove ip (up k s) ≡ done ((count_nozero, none), up k s)
  unfolding marktbl_hash_remove view
  marktbl_hash_remove_busy n here busy = ground (arith, hash_index_run, chain_there)

  pub marktbl_hash_remove_missing :
      view s.ht ip ≡ none → marktbl_hash_remove ip (up k s) ≡ done ((no_exist, none), up k s)
  unfolding marktbl_hash_remove view
  marktbl_hash_remove_missing absent = ground (arith, hash_index_run, chain_there)

  pub marktbl_hash_remove_run :
      (n : MarktblNode)
      → view s.ht ip ≡ some n
      → is_positive n.count ≡ false
      → 0 < n.id
      → n.id ≤ length s.rules
      → marktbl_hash_remove ip (up k s) ≡ done ((ok, some n), up k (detach s ip n))
  unfolding marktbl_hash_remove view
  marktbl_hash_remove_run n here free low high =
      let at_rule = get_elem?-get_or s.rules (n.id - 1) zero_rule (omega arith) in
      let idx : sub32 n.id 1 ≡ n.id - 1 = omega (arith, shape.rules_limit) in
      rw (hash_index_run, chain_there, here, free, ◌>>=◌, get_bounded, if◌then◌else◌)
        (ground (arith, inside, at_rule, idx))

  pub marktbl_hash_add_full :
      (id mark : ℕ)
      → s.elem_num ≡ s.max_ip_cnt
      → marktbl_hash_add ip id mark (up k s) ≡ done (over_max, up k s)
  unfolding marktbl_hash_add
  marktbl_hash_add_full id mark full = ground (arith, shape.limit)

  module _ (id mark : ℕ) (room : s.elem_num < s.max_ip_cnt) where
    -- On well-shaped tables with room, marktbl_hash_add of an address that has a node writes
    -- through a null pointer.
    pub marktbl_hash_add_twice :
        (n : MarktblNode)
        → view s.ht ip ≡ some n
        → marktbl_hash_add ip id mark (up k s) ≡ fault null_pointer
    unfolding marktbl_hash_add view
    marktbl_hash_add_twice n here = ground (arith, shape.limit, hash_index_run, chain_there)

    pub marktbl_hash_add_no_memory :
        view s.ht ip ≡ none
        → k.supply 0 ≡ false
        → marktbl_hash_add ip id mark (up k s) ≡ done (alloc_fail, up (spent k) s)
    unfolding marktbl_hash_add view
    marktbl_hash_add_no_memory absent dry = ground (arith, shape.limit, hash_index_run, chain_there)

    pub marktbl_hash_add_run :
        view s.ht ip ≡ none
        → k.supply 0 ≡ true
        → 0 < id
        → id ≤ length s.rules
        → marktbl_hash_add ip id mark (up k s) ≡ done (ok, up (spent k) (attach s ip id mark))
    unfolding marktbl_hash_add view
    marktbl_hash_add_run absent given low high =
        let at_rule = get_elem?-get_or s.rules (id - 1) zero_rule (omega arith) in
        let idx : sub32 id 1 ≡ id - 1 = omega (arith, shape.rules_limit) in
        ground (arith, shape.limit, hash_index_run, chain_there, inside, at_rule, idx)
