-- ===== src/DataPath/Step.antt =====
-- One event: it does not fault, and changes the tables as its handler says.
use ip_qos.Base.{
  ℕ, ◌≡◌, refl, ◌∙◌, sym, none, some, if◌then◌else◌, ◌==◌, ==_iff, Option-cases, inl, inr, arith,
}
use mathlib.Core.Path.{subst}
use ip_qos.Auto.Steps.{safe_congr}
use ip_qos.Base.Word.{atomic_inc}
use ip_qos.Conntrack.{on_mark}
use ip_qos.Consistent.{IsConsistent, rule_at, settings}
use ip_qos.Consistent.Recount.{recount, recount-IsConsistent, view-recount}
use ip_qos.Kernel.{Kernel, done, MarktblNode, ◌>>=◌}
use ip_qos.State.{Tables, up, idle, busy}
use ip_qos.Table.Buckets.{view}
use ip_qos.Table.Runs.{marktbl_hash_get_found, marktbl_hash_get_missing, node_atomic_inc_run}
use ip_qos.Target.Marking.{Marked, known, added, passed}
use ip_qos.TcRules.{TcRules, IsSafeRule}

-- What no event changes.
pub record Kept (s s' : Tables) : Type 0 where
  pub rules_kept : (i : ℕ) → settings (rule_at s'.rules i) ≡ settings (rule_at s.rules i)
  pub rule_cnt : s'.max_rule_cnt ≡ s.max_rule_cnt

pub Kept-refl : (s : Tables) → Kept s s
Kept-refl s = record { rules_kept = λ i. refl; rule_cnt = refl }

pub Kept-trans : (s s' s'' : Tables) → Kept s s' → Kept s' s'' → Kept s s''
Kept-trans s s' s'' h g = record {
  rules_kept = λ i. g.rules_kept i ∙ h.rules_kept i;
  rule_cnt = g.rule_cnt ∙ h.rule_cnt;
}

-- The node of `ip`, where there is one, gained a reference: `s'` after `s`.
pub record Counted (s : Tables) (ip : ℕ) (s' : Tables) : Type 0 where
  pub reads :
      (q : ℕ)
      → view s'.ht q ≡ (
          if ip == q
          then (elim (view s.ht ip) [
            | some n ↦ some (record n { count = atomic_inc n.count })
            | none ↦ none
          ])
          else view s.ht q)
  pub bits_kept : s'.bits ≡ s.bits
  pub kept : Kept s s'

pub Marked-Kept :
    (s : Tables) (ip id mask mark : ℕ) (s' : Tables) (mark' : ℕ)
    → Marked s ip id mask mark s' mark'
    → Kept s s'
Marked-Kept s ip id mask mark s' mark' (known n here same combined) =
    subst (Kept s) (sym same) (Kept-refl s)
Marked-Kept s ip id mask mark s' mark' (added m absent a combined) = record {
  rules_kept = a.rules_kept;
  rule_cnt = a.spec_kept.1;
}
Marked-Kept s ip id mask mark s' mark' (passed absent r combined) = record {
  rules_kept = r.rules_kept;
  rule_cnt = r.spec_kept.1;
}

-- The tables are consistent, and the rates of all rules are such that the traffic control part
-- takes them.
pub record IsReady {T : Type 0} (tc : TcRules T) (s : Tables) : Type 0 where
  pub consistent : IsConsistent s
  pub safe : (i : ℕ) → IsSafeRule tc (rule_at s.rules i)

pub IsReady-Kept :
    {T : Type 0} (tc : TcRules T) (s s' : Tables)
    → IsReady tc s
    → IsConsistent s'
    → Kept s s'
    → IsReady tc s'
IsReady-Kept tc s s' r c h = record {
  consistent = c;
  safe =
      λ i. safe_congr tc (rule_at s.rules i) (rule_at s'.rules i) (sym (h.rules_kept i)) (r.safe i);
}

module _ {T : Type 0} (k : Kernel T) (s : Tables) (c : IsConsistent s) (ip : ℕ) where
  on_mark_found :
      (n : MarktblNode)
      → view s.ht ip ≡ some n
      → on_mark ip (up (idle k) s) ≡ done (tt, up (idle k) (recount s ip (atomic_inc n.count)))
  unfolding on_mark
  on_mark_found n here =
      rw
        (
          marktbl_hash_get_found (busy k) s c.shape ip n here,
          node_atomic_inc_run (busy k) s c.shape ip n here,
          ◌>>=◌,
        )
        refl

  on_mark_missing : view s.ht ip ≡ none → on_mark ip (up (idle k) s) ≡ done (tt, up (idle k) s)
  unfolding on_mark
  on_mark_missing absent = rw (marktbl_hash_get_missing (busy k) s c.shape ip absent, ◌>>=◌) refl

  -- From consistent tables a connection that is marked does not fault, keeps the tables
  -- consistent, and adds one reference to the node of its address, where there is one.
  pub on_mark-Counted :
      (s' : Tables) × (on_mark ip (up (idle k) s) ≡ done (tt, up (idle k) s'))
      × IsConsistent s'
      × Counted s ip s'
  on_mark-Counted = elim (Option-cases (view s.ht ip)) [
    | inl absent ↦ (
      s,
      on_mark_missing absent,
      c,
      record {
        reads = λ q. ground (arith, ==_iff ip q, absent);
        bits_kept = refl;
        kept = Kept-refl s;
      },
    )
    | inr (n, here) ↦ (
      recount s ip (atomic_inc n.count),
      on_mark_found n here,
      recount-IsConsistent s ip (atomic_inc n.count) n c here,
      record {
        reads = λ q. rw here (view-recount s ip (atomic_inc n.count) n c here q);
        bits_kept = refl;
        kept = record { rules_kept = λ i. refl; rule_cnt = refl };
      },
    )
  ]
