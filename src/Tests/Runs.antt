-- ===== src/Tests/Runs.antt =====
-- Whole runs at fixed inputs.
use ip_qos.Base.{ℕ, ◌≡◌, refl, Option, none, some}
use ip_qos.Api.{qmark_find_hash, qmark_add_hash, qmark_alloc_mark}
use ip_qos.Auto.{qmark_alloc_mark_auto, choose_mark, give_back, use_mark, give_mark, call_tc}
use ip_qos.Bitmap.{alloc_mark, free_mark, test_mark, find_first_zero_bit}
use ip_qos.Conntrack.{is_ignored, client_address, on_destroy, on_mark, qmark_conntrack_event}
use ip_qos.DataPath.{conntrack, handle_event}
use ip_qos.Hash.{hash_fn, key_bytes, word_at, mix, xor_shift, add_shift, add_not_shift}
use ip_qos.Kernel.{Kernel, M, Result, done, fault, ok, ◌>>=◌, ◌>>◌}
use ip_qos.State.{up, idle}
use ip_qos.Table.{
  find, hlist_del, set_count, hash_index, elem_over_limit, load_node, node_atomic_inc,
  node_atomic_dec, marktbl_hash_get, marktbl_hash_add, marktbl_hash_remove, qos_marktbl_hashtbl_add,
  qos_marktbl_hashtbl_del, qos_marktbl_hashtbl_get,
}
use ip_qos.Table.Buckets.{home}
use ip_qos.Tests.Sample.{counter, kernel, sample, bits, connection}

-- What a run returns.
abbrev answer : {T A : Type 0} → Result (A × Kernel T) → Option A
answer (done (a, k)) = some a
answer (fault e) = none

abbrev traffic_after : {T A : Type 0} → Result (A × Kernel T) → Option T
traffic_after (done (a, k)) = some k.traffic
traffic_after (fault e) = none

find_known : answer (qmark_find_hash 7 (up (idle kernel) sample)) ≡ some (ok, 0x800)
unfolding qmark_find_hash qos_marktbl_hashtbl_get marktbl_hash_get hash_index load_node find hash_fn
    key_bytes word_at mix xor_shift add_shift add_not_shift home
find_known = refl

next_mark : answer (qmark_alloc_mark (up (idle kernel) sample)) ≡ some (ok, 0x1000)
unfolding qmark_alloc_mark alloc_mark find_first_zero_bit
next_mark = refl

-- Two clients of the shared rule, of which one leaves.
abbrev two_clients : M ℕ ℕ
two_clients = do
  (_, mark) ← qmark_alloc_mark_auto counter 9 2 0
  _ ← qmark_alloc_mark_auto counter 10 2 0
  handle_event counter bits (conntrack 0b100 (some connection))
  (_, mark') ← qmark_find_hash 10
  λ k. done (mark', k)

shared_mark :
    (answer (two_clients (up (idle kernel) sample)) ≡ some 0x1000)
    × (traffic_after (two_clients (up (idle kernel) sample)) ≡ some 2)
unfolding qmark_alloc_mark_auto choose_mark give_back use_mark give_mark call_tc handle_event
    qmark_conntrack_event is_ignored client_address on_destroy on_mark qmark_find_hash
    qmark_add_hash qmark_alloc_mark alloc_mark free_mark test_mark find_first_zero_bit
    qos_marktbl_hashtbl_add qos_marktbl_hashtbl_del qos_marktbl_hashtbl_get marktbl_hash_get
    marktbl_hash_add marktbl_hash_remove hash_index elem_over_limit load_node node_atomic_inc
    node_atomic_dec find hlist_del set_count hash_fn key_bytes word_at mix xor_shift add_shift
    add_not_shift home
shared_mark = (refl, refl)
