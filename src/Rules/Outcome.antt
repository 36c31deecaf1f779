-- ===== src/Rules/Outcome.antt =====
-- Setting up and deleting a rule, while addresses use the tables.
use ip_qos.Base.{
  ℕ, zero, suc, ◌-◌, ◌≤◌, ◌<◌, ◌≡◌, refl, ◌⊎◌, inl, inr, true, List, [], ◌∷◌, length, set,
  length-set, ap, arith,
}
use ip_qos.Consistent.{IsConsistent, rule_at}
use ip_qos.Consistent.Replace.{replace, replace-IsConsistent}
use ip_qos.Kernel.{Kernel, done, RuletblNode, ◌>>=◌}
use ip_qos.Rules.{zero_rule, qmark_add_rule, qmark_del_rule}
use ip_qos.State.{Tables, up, idle, busy}
use ip_qos.Table.Runs.{get_rule_run, put_rule_run}

module _ {T : Type 0} (k : Kernel T) (s : Tables) (c : IsConsistent s) (id : ℕ) (low : 0 < id)
    (high : id ≤ length s.rules) where
  abbrev i : ℕ
  i = id - 1

  -- The rule as qmark_add_rule leaves it.
  abbrev pub added : ℕ → ℕ → ℕ → ℕ → ℕ → ℕ → RuletblNode
  added mode devid rate rate_mate rate_min rate_min_mate = record (rule_at s.rules i) {
    on = true;
    mode = mode;
    devid = devid;
    rate = rate;
    rate_mate = rate_mate;
    rate_min = rate_min;
    rate_min_mate = rate_min_mate;
  }

  -- From consistent tables and for a rule id in range, where no address uses the rule or its mode
  -- stays, qmark_add_rule does not fault, changes that rule alone and keeps the tables consistent.
  pub qmark_add_rule-IsConsistent :
      (mode devid rate rate_mate rate_min rate_min_mate : ℕ)
      → ((rule_at s.rules (id - 1)).count ≡ 0) ⊎ (mode ≡ (rule_at s.rules (id - 1)).mode)
      → (qmark_add_rule id mode devid rate rate_mate rate_min rate_min_mate (up (idle k) s)
          ≡ done (
            tt,
            up
                (idle k)
                (replace s (id - 1) (added mode devid rate rate_mate rate_min rate_min_mate)),
          ))
        × IsConsistent (replace s (id - 1) (added mode devid rate rate_mate rate_min rate_min_mate))
  unfolding qmark_add_rule
  qmark_add_rule-IsConsistent mode devid rate rate_mate rate_min rate_min_mate may = (
    rw
        (
          get_rule_run (busy k) s id low high c.shape.rules_limit,
          put_rule_run (busy k) s id low high c.shape.rules_limit,
          ◌>>=◌,
        )
        refl,
    replace-IsConsistent s c i _ (omega arith)
        (elim may [ inl unused ↦ inl (unused, unused) | inr same ↦ inr (same, refl, refl) ]),
  )

  set_twice :
      (rules : List RuletblNode) (j : ℕ) (r r' : RuletblNode)
      → set (set rules j r) j r' ≡ set rules j r'
  set_twice [] j r r' = refl
  set_twice (x ∷ rules) zero r r' = refl
  set_twice (x ∷ rules) (suc j) r r' = ap (λ rest. x ∷ rest) (set_twice rules j r r')

  rule_at-set :
      (rules : List RuletblNode) (j : ℕ) (r : RuletblNode)
      → j < length rules
      → rule_at (set rules j r) j ≡ r
  rule_at-set [] j r h = absurd (omega arith)
  rule_at-set (x ∷ rules) zero r h = refl
  rule_at-set (x ∷ rules) (suc j) r h = rule_at-set rules j r (omega arith)

  -- From consistent tables and for a rule id in range, where no address uses the rule,
  -- qmark_del_rule does not fault, clears that rule alone and keeps the tables consistent.
  pub qmark_del_rule-IsConsistent :
      (rule_at s.rules (id - 1)).count ≡ 0
      → (qmark_del_rule id (up (idle k) s) ≡ done (tt, up (idle k) (replace s (id - 1) zero_rule)))
        × IsConsistent (replace s (id - 1) zero_rule)
  unfolding qmark_del_rule
  qmark_del_rule-IsConsistent unused =
      let d : IsConsistent (replace s i zero_rule) =
        replace-IsConsistent s c i zero_rule (omega arith) (inl (unused, refl)) in
      let high' : id ≤ length (replace s i zero_rule).rules = rw length-set high in
      (
        rw
            (
              put_rule_run (busy k) s id low high c.shape.rules_limit,
              get_rule_run (busy k) (replace s i zero_rule) id low high' d.shape.rules_limit,
              put_rule_run (busy k) (replace s i zero_rule) id low high' d.shape.rules_limit,
              rule_at-set s.rules i zero_rule (omega arith),
              set_twice s.rules i zero_rule,
              ◌>>=◌,
            )
            refl,
        d,
      )
