-- ===== src/Auto/Ends.antt =====
-- What the second half of qmark_alloc_mark_auto ends with, and how results are described.
use ip_qos.Base.{
  ℕ, ◌-◌, ◌≤◌, ◌<◌, ◌≡◌, ◌≢◌, refl, ◌⊎◌, inl, inr, true, false, none, some, length, if◌then◌else◌,
  ◌==◌, Bool-cases, arith, ltb,
}
use ip_qos.Api.{is_last_use}
use ip_qos.Auto.{use_mark}
use ip_qos.Auto.Use.{use_mark_run, use_mark_refused_last, use_mark_refused_shared}
use ip_qos.Bitmap.Laws.{bit}
use ip_qos.Consistent.{IsConsistent, IsMark, rule_at, slot, settings}
use ip_qos.Consistent.Insert.{attach, new_node, Fits, fresh, joined}
use ip_qos.Consistent.Insert.Keeps.{attach-IsConsistent}
use ip_qos.Consistent.Marks.{
  set_bit, set_mark, free_bit-IsConsistent, set_mark-IsConsistent, set_mark-IsUnused, IsUnused,
}
use ip_qos.Kernel.{Kernel, done, Status, ok, error}
use ip_qos.State.{Tables, up, idle}
use ip_qos.Table.Buckets.{view}
use ip_qos.Table.Runs.{spent}
use ip_qos.TcRules.{TcRules, IsSafeRule}

-- The address has a node with a mark: a free one, or that of the rule's other users.
pub record Allocated (s : Tables) (ip id mark : ℕ) (s' : Tables) : Type 0 where
  pub reads : (q : ℕ) → view s'.ht q ≡ (if ip == q then some (new_node ip id mark) else view s.ht q)
  pub valid : IsMark s' mark
  pub fresh_mark : is_last_use (rule_at s.rules (id - 1)) ≡ true → bit s.bits (slot mark) ≡ false
  pub joined_mark :
      is_last_use (rule_at s.rules (id - 1)) ≡ false → mark ≡ (rule_at s.rules (id - 1)).mark
  pub bits_kept : (j : ℕ) → slot mark ≢ j → bit s'.bits j ≡ bit s.bits j
  pub rules_kept : (i : ℕ) → settings (rule_at s'.rules i) ≡ settings (rule_at s.rules i)
  pub spec_kept : (s'.max_ip_cnt ≡ s.max_ip_cnt) × (s'.max_rule_cnt ≡ s.max_rule_cnt)

-- Nothing that anybody can see has changed.
pub record Refused (s s' : Tables) : Type 0 where
  pub reads : (q : ℕ) → view s'.ht q ≡ view s.ht q
  pub bits_kept : (j : ℕ) → bit s'.bits j ≡ bit s.bits j
  pub counts_kept : (i : ℕ) → (rule_at s'.rules i).count ≡ (rule_at s.rules i).count
  pub rules_kept : (i : ℕ) → settings (rule_at s'.rules i) ≡ settings (rule_at s.rules i)
  pub spec_kept : (s'.max_ip_cnt ≡ s.max_ip_cnt) × (s'.max_rule_cnt ≡ s.max_rule_cnt)

pub data Allocation (s : Tables) (ip id mark : ℕ) (s' : Tables) : Status → Type 0 where
  allocated : Allocated s ip id mark s' → Allocation s ip id mark s' ok
  refused : Refused s s' → Allocation s ip id mark s' error

pub Refused-refl : (s : Tables) → Refused s s
Refused-refl s = record {
  reads = λ q. refl;
  bits_kept = λ j. refl;
  counts_kept = λ i. refl;
  rules_kept = λ i. refl;
  spec_kept = (refl, refl);
}

-- The run of the second half from `s`, with what is to be shown of its three ends.
module _ {T : Type 0} (tc : TcRules T) (k : Kernel T) (s : Tables) (c : IsConsistent s)
    (ip id mark : ℕ) (absent : view s.ht ip ≡ none) (low : 0 < id) (high : id ≤ length s.rules)
    (is_mark : IsMark s mark) (fits : Fits s id mark)
    (safe : IsSafeRule tc (rule_at s.rules (id - 1))) (P : Status → Tables → Type 0) where
  abbrev pub Ends : Type 0
  Ends =
      (status : Status) × (h : Kernel T) × (s' : Tables) × (h.reset_flag ≡ k.reset_flag)
      × (use_mark tc ip id mark (up (idle k) s) ≡ done ((status, mark), up (idle h) s'))
      × IsConsistent s'
      × P status s'

  given_back :
      is_last_use (rule_at s.rules (id - 1)) ≡ true
      → IsConsistent (set_bit (set_mark s (id - 1) 0) (slot mark) false)
  given_back last =
      let unused : IsUnused s mark = elim fits [
        | fresh u _ ↦ u
        | joined mode used _ ↦ absurd (ground arith)
      ] in
      let no_user : ((rule_at s.rules (id - 1)).mode ≡ 0) ⊎ ((rule_at s.rules (id - 1)).count ≡ 0) =
        ground arith in
      free_bit-IsConsistent (set_mark s (id - 1) 0)
        (set_mark-IsConsistent s c (id - 1) 0 (omega arith) no_user) mark is_mark
        (set_mark-IsUnused s c (id - 1) 0 (omega arith) mark no_user unused)

  pub use_mark_ends :
      (s.elem_num < s.max_ip_cnt → P ok (attach s ip id mark))
      → (is_last_use (rule_at s.rules (id - 1)) ≡ true
          → P error (set_bit (set_mark s (id - 1) 0) (slot mark) false))
      → (is_last_use (rule_at s.rules (id - 1)) ≡ false → P error s)
      → Ends
  use_mark_ends good bad_last bad_shared = elim (Bool-cases (ltb s.elem_num s.max_ip_cnt)) [
    | inl room ↦ elim (Bool-cases (k.supply 0)) [
      | inl given ↦
          let (t, run) =
            use_mark_run tc k s c ip id mark absent low high is_mark (ground arith) given safe in
          (
            ok,
            record (spent k) { traffic = t },
            attach s ip id mark,
            refl,
            run,
            attach-IsConsistent s ip id mark c absent (ground arith) low high is_mark fits,
            good (ground arith),
          )
      | inr dry ↦ fails (inr (ground arith, dry))
    ]
    | inr full ↦ fails (inl (ground (arith, c.shape.room)))
  ]
    where
      fails :
          (s.elem_num ≡ s.max_ip_cnt) ⊎ ((s.elem_num < s.max_ip_cnt) × (k.supply 0 ≡ false)) → Ends
      fails why = elim (Bool-cases (is_last_use (rule_at s.rules (id - 1)))) [
        | inl last ↦
            let (h, flag, run) =
              use_mark_refused_last tc k s c ip id mark absent low high is_mark why last in
            (error, h, _, flag, run, given_back last, bad_last last)
        | inr shared ↦
            let (h, flag, run) =
              use_mark_refused_shared tc k s c ip id mark absent low high is_mark why shared in
            (error, h, s, flag, run, c, bad_shared shared)
      ]
