-- ===== src/Listing.antt =====
-- What the module writes to the kernel log when it lists its tables, as the values in the lines.
-- kmod/qos_marktbl_main.c, marktbl_hash_list, qos_marktbl_hashtbl_list, qmark_list_rule,
-- qmark_list_hash and qmark_dump.
pub mod Shown
use ip_qos.Base.{
  ℕ, zero, suc, ◌*◌, ◌%◌, Bool, true, false, ◌||◌, List, [], ◌∷◌, ◌++◌, if◌then◌else◌,
}
use ip_qos.Base.Word.{u32_mod}
use ip_qos.Kernel.{
  M, done, pure, MarktblNode, RuletblNode, deref, get_bounded, get_head, lock_op, unlock_op,
  lock_head, unlock_head, ◌>>=◌, ◌>>◌,
}
use ip_qos.Table.{get_chain}

module _ {T : Type 0} where
  -- The buckets that are left, and `i`.
  unfoldable list_chains : ℕ → ℕ → M T (List MarktblNode)
  list_chains zero i = pure []
  list_chains (suc left) i = do
    chain ← get_chain i
    later ← list_chains left (suc i)
    pure (chain ++ later)

  unfoldable pub marktbl_hash_list : M T (List MarktblNode)
  unfolding list_chains
  marktbl_hash_list = do
    lock_head
    head ← get_head
    nodes ← list_chains head.size 0
    unlock_head
    pure nodes

  -- The rules with their ids: all, or those that are on.
  unfoldable pub list_rules : Bool → ℕ → ℕ → M T (List (ℕ × RuletblNode))
  list_rules all zero i = pure []
  list_rules all (suc left) i = do
    rules ← λ k. deref k.ruletbl k
    r ← get_bounded rules i
    later ← list_rules all left (suc i)
    pure (if all || r.on then (suc i, r) ∷ later else later)

  -- The numbers and the marks of the bits that are set.
  unfoldable list_marks : ℕ → ℕ → M T (List (ℕ × ℕ))
  list_marks zero i = pure []
  list_marks (suc left) i = do
    bits ← λ k. deref k.bitmap k
    b ← get_bounded bits i
    later ← list_marks left (suc i)
    pure (if b then (suc i, suc i * 0x800 % u32_mod) ∷ later else later)

  unfoldable pub qmark_list_rule : M T (List (ℕ × RuletblNode))
  unfolding list_rules
  qmark_list_rule = do
    lock_op
    max_rule_cnt ← λ k. done (k.max_rule_cnt, k)
    rules ← list_rules true max_rule_cnt 0
    unlock_op
    pure rules

  unfoldable pub qmark_list_hash : M T (List MarktblNode)
  unfolding marktbl_hash_list
  qmark_list_hash = do lock_op; nodes ← marktbl_hash_list; unlock_op; pure nodes

  unfoldable pub qmark_dump : M T (List (ℕ × RuletblNode) × List MarktblNode × List (ℕ × ℕ))
  unfolding list_rules marktbl_hash_list list_marks
  qmark_dump = do
    lock_op
    max_rule_cnt ← λ k. done (k.max_rule_cnt, k)
    rules ← list_rules false max_rule_cnt 0
    nodes ← marktbl_hash_list
    max_ip_cnt ← λ k. done (k.max_ip_cnt, k)
    marks ← list_marks max_ip_cnt 0
    unlock_op
    pure (rules, nodes, marks)
