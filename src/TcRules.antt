-- ===== src/TcRules.antt =====
-- What the mark table asks of the traffic control part: kmod/qos_marktbl_tc.h.
use ip_qos.Base.{ℕ, ◌≡◌}
use ip_qos.Kernel.{Result, done, RuletblNode}

-- Both calls return nothing, and work on a state of their own.
pub record TcRules (T : Type 0) : Type 1 where
  pub add_rule : RuletblNode → ℕ → T → Result T
  pub del_rule : RuletblNode → ℕ → T → Result T
  -- The rates (rate, rate_mate, rate_min, rate_min_mate) that add_rule takes without a fault.
  pub IsSafe : ℕ → ℕ → ℕ → ℕ → Type 0
  pub add_rule_safe :
      (r : RuletblNode) (mark : ℕ) (t : T)
      → IsSafe r.rate r.rate_mate r.rate_min r.rate_min_mate
      → (t' : T) × (add_rule r mark t ≡ done t')
  pub del_rule_safe :
      (r : RuletblNode) (mark : ℕ) (t : T) → (t' : T) × (del_rule r mark t ≡ done t')

abbrev pub IsSafeRule : {T : Type 0} → TcRules T → RuletblNode → Type 0
IsSafeRule tc r = tc.IsSafe r.rate r.rate_mate r.rate_min r.rate_min_mate
