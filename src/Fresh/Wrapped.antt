-- ===== src/Fresh/Wrapped.antt =====
-- qmark_set_spec with more rules than a kmalloc of 32-bit size can hold.
use ip_qos.Base.{
  ℕ, zero, suc, ◌+◌, ◌≤◌, ◌<◌, ◌≡◌, refl, true, Bool, List, Bool-cases, inl, inr, ltb, leb, length,
  length-replicate, replicate, get_elem?-get_or, get_elem?-none, if◌then◌else◌, arith,
}
use ip_qos.Api.{qmark_set_spec}
use ip_qos.Base.Word.{items_for}
use ip_qos.Bitmap.{mark_bitmap_init, mark_bitmap_exit}
use ip_qos.Consistent.{IsShaped}
use ip_qos.Fresh.{fresh}
use ip_qos.Kernel.{Kernel, RuletblNode, done, fault, out_of_bounds, get_bounded, live, ◌>>=◌}
use ip_qos.Listing.{list_rules, qmark_list_rule}
use ip_qos.Rules.{zero_rule, qos_ruletbl_init, qos_ruletbl_exit}
use ip_qos.State.{Tables, up, idle, busy}
use ip_qos.Table.Setup.{qos_marktbl_hashtbl_init}
use ip_qos.Table.Setup.Exit.{qos_marktbl_hashtbl_exit_run}

list_rules_beyond :
    {T : Type 0} (k : Kernel T) (all : Bool) (rules : List RuletblNode) (left i : ℕ)
    → i ≤ length rules
    → length rules < i + left
    → list_rules all left i (record k { ruletbl = live rules }) ≡ fault out_of_bounds
unfolding list_rules
list_rules_beyond k all rules zero i low high = absurd (omega arith)
list_rules_beyond k all rules (suc left) i low high = elim (Bool-cases (ltb i (length rules))) [
  | inl more ↦
      rw (get_elem?-get_or rules i zero_rule (ground arith), ◌>>=◌, get_bounded)
        (rw (list_rules_beyond k all rules left (suc i) (ground arith) (omega arith), ◌>>=◌) refl)
  | inr past ↦ rw (get_elem?-none rules i (ground arith), ◌>>=◌, get_bounded) refl
]

module _ (ip_spec rule_spec : ℕ) (small : ip_spec < 0x20_0000) (many : 119_304_648 ≤ rule_spec)
    (word : rule_spec < 0x1_0000_0000) where
  -- The tables have fewer rules than max_rule_cnt.
  abbrev cut : Tables
  cut = record (fresh ip_spec rule_spec) { rules = replicate (items_for 36 rule_spec) zero_rule }

  -- With less than 2097152 addresses, from 119304648 rules on and with memory for its allocations,
  -- qmark_set_spec returns as if all were well, and the next qmark_list_rule reads beyond the rule
  -- table: the size in bytes has wrapped.
  pub qmark_set_spec_wrapped :
      {T : Type 0} (k : Kernel T) (s : Tables)
      → IsShaped s
      → ((i : ℕ) → i < 4 → k.supply i ≡ true)
      → (k' : Kernel T) × (qmark_set_spec ip_spec rule_spec (up (idle k) s) ≡ done (tt, k'))
        × (qmark_list_rule k' ≡ fault out_of_bounds)
  unfolding qmark_set_spec mark_bitmap_init mark_bitmap_exit qos_ruletbl_init qos_ruletbl_exit
      qos_marktbl_hashtbl_init qmark_list_rule
  qmark_set_spec_wrapped k s shape given =
      let buckets_fit : leb ip_spec (items_for 4 ip_spec) ≡ true = ground arith in
      let h : Kernel _ = record k { supply = λ n. k.supply (suc (suc (suc (suc n)))) } in
      (
        up (idle h) cut,
        rw
            (
              qos_marktbl_hashtbl_exit_run (busy k) s (omega (arith, shape.width)),
              given 0 (omega arith),
              given 1 (omega arith),
              given 2 (omega arith),
              given 3 (omega arith),
              buckets_fit,
              ◌>>=◌,
              if◌then◌else◌,
            )
            refl,
        rw
            (
              list_rules_beyond (up (busy h) cut) true cut.rules rule_spec 0 (omega arith)
                  (rw length-replicate (omega arith)),
              ◌>>=◌,
            )
            refl,
      )
