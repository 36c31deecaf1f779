-- ===== src/Tests/Marks.antt =====
-- Marks in use and marks that are free, after a sequence of events.
use ip_qos.Base.{
  if◌then◌else◌, ◌==◌, ℕ, zero, suc, ◌≡◌, refl, false, List, [], ◌∷◌, none, some, length,
  get_or-replicate, arith,
}
use ip_qos.Bitmap.Laws.{bit}
use ip_qos.Consistent.Insert.{new_node}
use ip_qos.DataPath.{Event, packet, conntrack, AllValid, all_nil, all_cons, handle_all}
use ip_qos.DataPath.Leaks.{IsTight, handle_all-IsTight}
use ip_qos.Kernel.{Kernel, done}
use ip_qos.Service.{Service}
use ip_qos.Service.Refines.{Modes, clients, handle_all-Service}
use ip_qos.State.{Tables, up, idle}
use ip_qos.Table.Buckets.{view}
use ip_qos.Tests.Sample.{
  counter, kernel, sample, sample_view, sample-IsReady, bits, connection, target, sent_by,
}

sample-IsTight : IsTight sample
sample-IsTight zero on = (7, new_node 7 1 0x800, sample_view 7, refl)
sample-IsTight (suc j) on = absurd (cc (get_or-replicate 31 j false, on))

-- A client comes and goes.
abbrev visit : List Event
visit = packet (target 2) (sent_by 9) ∷ conntrack 0b100 (some connection) ∷ []

visit-AllValid : AllValid (length sample.rules) visit
visit-AllValid = all_cons (omega arith, omega arith) (all_cons tt all_nil)

handle_all-IsTight_example :
    (h : Kernel ℕ) × (s' : Tables) × (handle_all counter bits visit (up (idle kernel) sample)
      ≡ done (tt, up (idle h) s'))
    × IsTight s'
    × (((q : ℕ) → view s'.ht q ≡ none) → (j : ℕ) → bit s'.bits j ≡ false)
handle_all-IsTight_example =
    handle_all-IsTight counter bits visit kernel sample sample-IsReady sample-IsTight visit-AllValid

-- Rule 1 is in private mode and rule 2 in share mode.
abbrev mode : ℕ → ℕ
mode id = if id == 2 then 1 else 0

sample-Modes : Modes mode sample
sample-Modes zero = refl
sample-Modes (suc zero) = refl
sample-Modes (suc (suc zero)) = refl
sample-Modes (suc (suc (suc id))) = ground arith

handle_all-Service_example :
    (h : Kernel ℕ) × (s' : Tables) × (handle_all counter bits visit (up (idle kernel) sample)
      ≡ done (tt, up (idle h) s'))
    × Service bits mode (clients sample) (clients s') visit
handle_all-Service_example =
    handle_all-Service counter bits mode visit kernel sample sample-IsReady sample-Modes
      visit-AllValid
