-- ===== src/Tests/Interleaved.antt =====
-- Two packets that take turns.
use ip_qos.Base.{ℕ, ◌≡◌, ◌≤◌, ◌-◌, ◌≢◌, some, refl, Bool, true, false, List, [], ◌∷◌, arith}
use ip_qos.Kernel.{Kernel, done, fault, null_pointer}
use ip_qos.State.{Tables, up, idle}
use ip_qos.Bitmap.{find_first_zero_bit}
use ip_qos.Consistent.{IsConsistent}
use ip_qos.Consistent.Insert.{new_node}
use ip_qos.DataPath.Step.{IsReady}
use ip_qos.Table.Buckets.{view, view-replicate}
use ip_qos.Tests.Sample.{counter, kernel, empty, empty-IsConsistent, sample, sample-IsReady}
use ip_qos.Threads.{Phase, looks, installs, left, turns_of, take_turns}
use ip_qos.Threads.Apart.{take_turns-IsReady}
use ip_qos.Threads.Race.{take_turns-fault}
use ip_qos.Threads.Shared.{take_turns_split}
use ip_qos.Threads.Stages.{IsApart}

take_turns-fault_example :
    take_turns counter 9 1 9 1
      (true ∷ false ∷ true ∷ false ∷ true ∷ false ∷ [])
      looks
      looks
      (up (idle kernel) empty)
    ≡ fault null_pointer
unfolding find_first_zero_bit
take_turns-fault_example =
    take_turns-fault counter kernel empty empty-IsConsistent 9 1 (omega arith) (omega arith)
      (view-replicate 4 9) refl (omega arith) (omega arith) (omega arith) refl refl

take_turns_split_example :
    (m m' : ℕ) × (k' : Kernel ℕ) × (s' : Tables) × (take_turns counter 9 2 10 2
        (true ∷ false ∷ true ∷ false ∷ true ∷ false ∷ [])
        looks
        looks
        (up (idle kernel) empty)
      ≡ done ((installs m, installs m'), up (idle k') s'))
    × (view s'.ht 9 ≡ some (new_node 9 2 m))
    × (view s'.ht 10 ≡ some (new_node 10 2 m'))
    × (m ≢ m')
    × (¬ IsConsistent s')
unfolding find_first_zero_bit
take_turns_split_example =
    take_turns_split counter kernel empty empty-IsConsistent 9 10 2 (omega arith) (omega arith)
      (omega arith) (view-replicate 4 9) (view-replicate 4 10) (omega arith) refl (omega arith)
      (omega arith) (omega arith) refl refl refl

abbrev turns : List Bool
turns = true ∷ false ∷ true ∷ false ∷ true ∷ false ∷ true ∷ false ∷ []

take_turns-IsReady_example :
    (h : Kernel ℕ) × (s' : Tables) × (q q' : Phase) × (take_turns counter 9 1 10 1 turns looks looks
        (up (idle kernel) sample)
      ≡ done ((q, q'), up (idle h) s'))
    × IsReady counter s'
    × IsApart counter 9 1 10 1 s' q q'
    × (left q ≤ 4 - turns_of true turns)
    × (left q' ≤ 4 - turns_of false turns)
take_turns-IsReady_example =
    take_turns-IsReady counter 9 1 10 1 (omega arith) turns kernel sample sample-IsReady
      (omega arith, omega arith, refl) (omega arith, omega arith, refl)
