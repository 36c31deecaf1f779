-- ===== src/Tests/Examples.antt =====
-- The theorems at concrete inputs where their conditions hold.
use ip_qos.Base.{
  ℕ, zero, suc, ◌≤◌, ◌<◌, ◌≡◌, ◌≢◌, refl, inr, ◌==◌, true, false, List, [], ◌∷◌, none, some, length,
  arith,
}
use ip_qos.Api.{
  qmark_reset, qmark_flush_hash, qmark_find_hash, qmark_alloc_mark, qmark_free_mark, qmark_set_spec,
}
use ip_qos.Api.Delete.{Deleted, qmark_del_hash-Released}
use ip_qos.Api.Marks.{qmark_alloc_mark-free, qmark_alloc_mark_full}
use ip_qos.Api.Reset.{qmark_reset_lem, qmark_flush_hash_dangles}
use ip_qos.Auto.Endings.{Ending}
use ip_qos.Auto.Outcome.{qmark_alloc_mark_auto-Allocation}
use ip_qos.Base.Word.{u32_mod}
use ip_qos.Bitmap.Laws.{bit}
use ip_qos.Conntrack.{on_destroy, on_mark}
use ip_qos.Conntrack.Outcome.{Released, on_destroy-Released}
use ip_qos.Consistent.Marks.{set_bit, set_bit-IsShaped}
use ip_qos.Consistent.{IsConsistent, IsShaped, slot}
use ip_qos.Consistent.Replace.{replace}
use ip_qos.DataPath.{Event, packet, conntrack, AllValid, all_nil, all_cons, handle_all}
use ip_qos.DataPath.Step.{Counted, IsReady, on_mark-Counted}
use ip_qos.DataPath.Trace.{Effects, handle_event-Effect, handle_all-Effects}
use ip_qos.DataPath.Trace
use ip_qos.Fresh.{fresh}
use ip_qos.Fresh.Spec.{qmark_set_spec-IsConsistent}
use ip_qos.Hash.{HashState, hash_fn, hash_loop, key_bytes}
use ip_qos.Hash.Bounds.{hash_loop-ends}
use ip_qos.Hash.Distinct.{hash_fn_distinct}
use ip_qos.Fresh.Wrapped.{qmark_set_spec_wrapped}
use ip_qos.Listing.{qmark_list_rule}
use ip_qos.Kernel.{Kernel, done, fault, out_of_bounds, deadlock, use_after_free, ok, error}
use ip_qos.Rules.{zero_rule, qmark_add_rule, qmark_del_rule}
use ip_qos.Rules.Outcome.{added, qmark_add_rule-IsConsistent, qmark_del_rule-IsConsistent}
use ip_qos.State.{Tables, up, idle}
use ip_qos.Table.Buckets.{view}
use ip_qos.Target.Marking.{Handled, qmark_handle-Marked}
use ip_qos.Tests.Sample.{
  counter, kernel, sample, sample-IsConsistent, sample_view, sample-IsReady, bits, connection,
  target, sent_by,
}

sample_absent : view sample.ht 9 ≡ none
sample_absent = sample_view 9

qmark_alloc_mark_auto-Allocation_example :
    Ending counter kernel sample 9 2 0 sample-IsConsistent sample_absent
      (omega arith)
      (omega arith)
      tt
qmark_alloc_mark_auto-Allocation_example =
    qmark_alloc_mark_auto-Allocation counter kernel sample 9 2 0 sample-IsConsistent sample_absent
      (omega arith) (omega arith) tt

qmark_handle-Marked_example :
    Handled counter kernel sample 5
      (target 2)
      (record { saddr = 9; daddr = 80 })
      sample-IsConsistent
      (omega arith)
      (omega arith)
      tt
qmark_handle-Marked_example =
    qmark_handle-Marked counter kernel sample 5 (target 2) (record { saddr = 9; daddr = 80 })
      sample-IsConsistent (omega arith) (omega arith) tt

on_destroy-Released_example :
    (t : ℕ) × (s' : Tables) × (on_destroy counter 7 (up (idle kernel) sample)
      ≡ done (tt, up (idle (record kernel { traffic = t })) s'))
    × IsConsistent s'
    × Released sample 7 s'
on_destroy-Released_example = on_destroy-Released counter kernel sample 7 sample-IsConsistent

on_mark-Counted_example :
    (s' : Tables) × (on_mark 7 (up (idle kernel) sample) ≡ done (tt, up (idle kernel) s'))
    × IsConsistent s'
    × Counted sample 7 s'
on_mark-Counted_example = on_mark-Counted kernel sample sample-IsConsistent 7

qmark_del_hash-Released_example : Deleted kernel sample sample-IsConsistent 7 0
qmark_del_hash-Released_example = qmark_del_hash-Released kernel sample sample-IsConsistent 7 0

handle_event-Effect_example :
    Trace.Handled counter bits kernel sample sample-IsReady (conntrack 0b100 (some connection))
handle_event-Effect_example =
    handle_event-Effect counter bits kernel sample sample-IsReady
      (conntrack 0b100 (some connection)) tt

-- Two clients of the shared rule send, and one of them closes its connection.
abbrev busy_day : List Event
busy_day =
    packet (target 2) (sent_by 9)
    ∷ packet (target 2) (sent_by 10)
    ∷ packet (target 1) (sent_by 7)
    ∷ conntrack 0b100 (some connection)
    ∷ []

busy_day-AllValid : AllValid (length sample.rules) busy_day
busy_day-AllValid =
    all_cons (omega arith, omega arith)
      (all_cons (omega arith, omega arith)
        (all_cons (omega arith, omega arith) (all_cons tt all_nil)))

handle_all-Effects_example :
    (h : Kernel ℕ) × (s' : Tables) × (handle_all counter bits busy_day (up (idle kernel) sample)
      ≡ done (tt, up (idle h) s'))
    × IsReady counter s'
    × (length s'.rules ≡ length sample.rules)
    × Effects bits sample s' busy_day
handle_all-Effects_example =
    handle_all-Effects counter bits busy_day kernel sample sample-IsReady busy_day-AllValid

qmark_set_spec-IsConsistent_example :
    (qmark_set_spec 8 3 (up (idle kernel) sample)
      ≡ done (tt, up (idle (record kernel { supply = λ n. true })) (fresh 8 3)))
    × IsConsistent (fresh 8 3)
    × ((q : ℕ) → view (fresh 8 3).ht q ≡ none)
qmark_set_spec-IsConsistent_example =
    qmark_set_spec-IsConsistent 8 3 (omega arith) (omega arith) (omega arith) kernel sample
      sample-IsConsistent.shape (λ i h. refl)

qmark_add_rule-IsConsistent_example :
    (qmark_add_rule 1 0 1 300 300 200 200 (up (idle kernel) sample)
      ≡ done (
        tt,
        up (idle kernel) (
            replace sample 0 (
              added kernel sample sample-IsConsistent 1
                (omega arith)
                (omega arith)
                0
                1
                300
                300
                200
                200)),
      ))
    × IsConsistent (
        replace sample 0 (
          added kernel sample sample-IsConsistent 1
            (omega arith)
            (omega arith)
            0
            1
            300
            300
            200
            200))
qmark_add_rule-IsConsistent_example =
    qmark_add_rule-IsConsistent kernel sample sample-IsConsistent 1 (omega arith) (omega arith) 0 1
      300 300 200 200 (inr refl)

qmark_del_rule-IsConsistent_example :
    (qmark_del_rule 2 (up (idle kernel) sample)
      ≡ done (tt, up (idle kernel) (replace sample 1 zero_rule)))
    × IsConsistent (replace sample 1 zero_rule)
qmark_del_rule-IsConsistent_example =
    qmark_del_rule-IsConsistent kernel sample sample-IsConsistent 2 (omega arith) (omega arith) refl

qmark_alloc_mark-free_example :
    (mark : ℕ) × (s' : Tables) × (qmark_alloc_mark (up (idle kernel) sample)
      ≡ done ((ok, mark), up (idle kernel) s'))
    × (slot mark ≤ 2)
    × (bit sample.bits (slot mark) ≡ false)
    × ((i : ℕ) → i < slot mark → bit sample.bits i ≡ true)
    × (bit s'.bits (slot mark) ≡ true)
    × (qmark_free_mark mark (up (idle kernel) s') ≡ done (tt, up (idle kernel) sample))
qmark_alloc_mark-free_example =
    qmark_alloc_mark-free kernel sample sample-IsConsistent.shape 2 (omega arith) refl

abbrev flag_on : ℕ
flag_on = 1

qmark_reset_lem_example :
    (flag_on ≢ 0 → qmark_reset flag_on (up (idle kernel) sample) ≡ fault deadlock)
    × (flag_on ≡ 0
        → qmark_reset flag_on (up (idle kernel) sample)
          ≡ done (tt, up (idle (record kernel { reset_flag = false })) sample))
qmark_reset_lem_example = qmark_reset_lem kernel sample flag_on

qmark_flush_hash_dangles_example :
    (k' : Kernel ℕ) × (qmark_flush_hash (up (idle (record kernel { supply = λ n. n == 0 })) sample)
      ≡ done (tt, k'))
    × (qmark_find_hash 7 k' ≡ fault use_after_free)
qmark_flush_hash_dangles_example =
    qmark_flush_hash_dangles (record kernel { supply = λ n. n == 0 }) sample 7
      sample-IsConsistent.shape refl refl

abbrev hashing : HashState
hashing = record { key = 1 ∷ 2 ∷ 3 ∷ 4 ∷ 5 ∷ 6 ∷ 7 ∷ 8 ∷ 9 ∷ []; len = 9; a = 9; b = 0x403_0201 }

hash_loop-ends_example : ((hash_loop 9 hashing).len < 8) × ((hash_loop 9 hashing).a < u32_mod)
hash_loop-ends_example = hash_loop-ends 9 hashing (omega arith) (omega arith)

hash_fn_distinct_example : hash_fn (key_bytes 0xc0a8_0101) 4 ≢ hash_fn (key_bytes 0xc0a8_0102) 4
hash_fn_distinct_example =
    hash_fn_distinct 0xc0a8_0101 0xc0a8_0102 (omega arith) (omega arith) (omega arith)

qmark_set_spec_wrapped_example :
    (k' : Kernel ℕ) × (qmark_set_spec 8 119_304_648 (up (idle kernel) sample) ≡ done (tt, k'))
    × (qmark_list_rule k' ≡ fault out_of_bounds)
qmark_set_spec_wrapped_example =
    qmark_set_spec_wrapped 8 119_304_648 (omega arith) (omega arith) (omega arith) kernel sample
      sample-IsConsistent.shape (λ i h. refl)

abbrev full : Tables
full = set_bit (set_bit (set_bit sample 1 true) 2 true) 3 true

full-IsShaped : IsShaped full
full-IsShaped =
    set_bit-IsShaped (set_bit (set_bit sample 1 true) 2 true)
      (set_bit-IsShaped (set_bit sample 1 true)
        (set_bit-IsShaped sample sample-IsConsistent.shape 1 true) 2 true)
      3 true

full_bits : (i : ℕ) → i < 4 → bit full.bits i ≡ true
full_bits zero h = refl
full_bits (suc zero) h = refl
full_bits (suc (suc zero)) h = refl
full_bits (suc (suc (suc zero))) h = refl
full_bits (suc (suc (suc (suc i)))) h = absurd (omega arith)

qmark_alloc_mark_full_example :
    qmark_alloc_mark (up (idle kernel) full) ≡ done ((error, 0), up (idle kernel) full)
qmark_alloc_mark_full_example = qmark_alloc_mark_full kernel full full-IsShaped full_bits
