-- ===== src/Conntrack/Outcome.antt =====
-- What the end of a connection does to the tables, as the callers see them.
use ip_qos.Base.{
  ℕ, ◌-◌, ◌<◌, ◌≡◌, ◌≢◌, refl, ◌∙◌, sym, true, false, Option, none, some, length, get_or-set,
  if◌then◌else◌, ◌==◌, ==_iff, Bool-cases, Option-cases, inl, inr, arith,
}
use mathlib.Core.Bool.{false≢true}
use ip_qos.Api.{is_last_use}
use ip_qos.Base.Word.{atomic_dec, is_positive}
use ip_qos.Bitmap.Laws.{bit}
use ip_qos.Conntrack.{on_destroy}
use ip_qos.Conntrack.Release.{
  dropped, s₁, s₂, s₄, c₁, c₂, c₄, here₁, on_destroy_more, on_destroy_shared, on_destroy_last,
  on_destroy_missing,
}
use ip_qos.Consistent.{
  IsConsistent, rule_at, slot, settings, settings-set, count_witness, users-share,
}
use ip_qos.Consistent.Recount.{view-recount}
use ip_qos.Consistent.Remove.{view-detach, view-detach_old, detach-mode, length-detach}
use ip_qos.Kernel.{Kernel, done, MarktblNode}
use ip_qos.State.{Tables, up, idle}
use ip_qos.Table.Buckets.{view}
use ip_qos.TcRules.{TcRules}

-- What is left of a node after one reference is dropped.
abbrev pub survivor : Option MarktblNode → Option MarktblNode
survivor none = none
survivor (some n) = if is_positive (atomic_dec n.count) then some (dropped n) else none

-- The node of `ip` lost a reference: `s'` after `s`.
pub record Released (s : Tables) (ip : ℕ) (s' : Tables) : Type 0 where
  pub reads : (q : ℕ) → view s'.ht q ≡ (if ip == q then survivor (view s.ht ip) else view s.ht q)
  -- Only the bit of its own mark can change.
  pub bits_kept :
      (j : ℕ)
      → ((n : MarktblNode) → view s.ht ip ≡ some n → slot n.mark ≢ j)
      → bit s'.bits j ≡ bit s.bits j
  -- It is cleared with the last node of the mark.
  pub freed :
      (n : MarktblNode)
      → view s.ht ip ≡ some n
      → ((q : ℕ) (m : MarktblNode) → view s'.ht q ≡ some m → m.mark ≢ n.mark)
      → bit s'.bits (slot n.mark) ≡ false
  -- It stays set only where another node has the mark.
  pub held :
      (n : MarktblNode)
      → view s.ht ip ≡ some n
      → bit s'.bits (slot n.mark) ≡ true
      → (q : ℕ) × (m : MarktblNode) × (view s'.ht q ≡ some m) × (m.mark ≡ n.mark)
  pub rules_kept : (i : ℕ) → settings (rule_at s'.rules i) ≡ settings (rule_at s.rules i)
  pub spec_kept : (s'.max_ip_cnt ≡ s.max_ip_cnt) × (s'.max_rule_cnt ≡ s.max_rule_cnt)

module _ (s : Tables) (c : IsConsistent s) (ip : ℕ) where
  pub Released-missing : view s.ht ip ≡ none → Released s ip s
  Released-missing absent = record {
    reads = λ q. ground (arith, ==_iff ip q, absent);
    bits_kept = λ j h. refl;
    freed = λ n here. ground (arith, absent);
    held = λ n here. absurd (cc (absent, here));
    rules_kept = λ i. refl;
    spec_kept = (refl, refl);
  }

  module _ (n : MarktblNode) (here : view s.ht ip ≡ some n) where
    abbrev i : ℕ
    i = n.id - 1

    same_mark : (m : MarktblNode) → view s.ht ip ≡ some m → n.mark ≡ m.mark
    same_mark m here' = ground arith

    pub Released-more : is_positive (atomic_dec n.count) ≡ true → Released s ip (s₁ s c ip n here)
    Released-more more = record {
      reads = λ q. rw (here, more) (view-recount s ip (atomic_dec n.count) n c here q);
      bits_kept = λ j h. refl;
      freed = λ m here' none_left.
          absurd (none_left ip (dropped n) (here₁ s c ip n here) (same_mark m here'));
      held = λ m here' on. (ip, dropped n, here₁ s c ip n here, same_mark m here');
      rules_kept = λ i. refl;
      spec_kept = (refl, refl);
    }

    module _ (gone : is_positive (atomic_dec n.count) ≡ false) where
      reads_gone :
          (q : ℕ)
          → view (s₂ s c ip n here).ht q
            ≡ (if ip == q then survivor (view s.ht ip) else view s.ht q)
      reads_gone q =
          rw (here, gone)
            (ground (
              arith,
              ==_iff ip q,
              view-detach (s₁ s c ip n here) ip (dropped n) (c₁ s c ip n here) (here₁ s c ip n here)
                  q,
              view-recount s ip (atomic_dec n.count) n c here q,
            ))

      -- A rule that is still shared has another node, and that has the mark.
      another :
          is_last_use (rule_at (s₂ s c ip n here).rules i) ≡ false
          → (q : ℕ) × (m : MarktblNode) × (view (s₂ s c ip n here).ht q ≡ some m)
            × (m.mark ≡ n.mark)
      another shared =
          let d = c₂ s c ip n here in
          let (low, high, _) = c.marked ip n here in
          let at_s₂ =
            length-detach (s₁ s c ip n here) ip (dropped n) (c₁ s c ip n here)
              (here₁ s c ip n here) in
          let (q, m, there, ids) =
            count_witness (s₂ s c ip n here) d i (omega (arith, at_s₂)) (ground arith) in
          let old =
            view-detach_old (s₁ s c ip n here) ip (dropped n) (c₁ s c ip n here)
              (here₁ s c ip n here) q m there in
          let mode : (rule_at (s₂ s c ip n here).rules i).mode ≢ 0 = ground arith in
          (
            q,
            m,
            there,
            sym (
                users-share (s₁ s c ip n here) (c₁ s c ip n here) ip q (dropped n) m
                  (here₁ s c ip n here) old (omega arith)
                  (rw
                    (detach-mode (s₁ s c ip n here) ip (dropped n) (c₁ s c ip n here)
                      (here₁ s c ip n here) i)
                    at mode)),
          )

      settings-s₂ :
          (j : ℕ) → settings (rule_at (s₂ s c ip n here).rules j) ≡ settings (rule_at s.rules j)
      settings-s₂ j = settings-set s.rules i j _ refl

      pub Released-shared :
          is_last_use (rule_at (s₂ s c ip n here).rules i) ≡ false
          → Released s ip (s₂ s c ip n here)
      Released-shared shared = record {
        reads = reads_gone;
        bits_kept = λ j h. refl;
        freed = λ m here' none_left.
            let (q, l, there, marks) = another shared in
            absurd (none_left q l there (marks ∙ same_mark m here'));
        held = λ m here' on.
            let (q, l, there, marks) = another shared in (q, l, there, marks ∙ same_mark m here');
        rules_kept = settings-s₂;
        spec_kept = (refl, refl);
      }

      clear :
          (m : MarktblNode)
          → view s.ht ip ≡ some m
          → bit (s₄ s c ip n here).bits (slot m.mark) ≡ false
      clear m here' =
          let (_, _, (_, _, small, _)) = c.marked ip n here in
          let inside : slot n.mark < length s.bits = omega (arith, c.shape.bits_width) in
          rw (← same_mark m here')
            (ground (arith, get_or-set s.bits (slot n.mark) (slot n.mark) false false inside))

      pub Released-last : Released s ip (s₄ s c ip n here)
      Released-last =
          let (_, _, (_, _, small, _)) = c.marked ip n here in
          let inside : slot n.mark < length s.bits = omega (arith, c.shape.bits_width) in
          record {
            reads = reads_gone;
            bits_kept = λ j h. ground (
              arith,
              get_or-set s.bits (slot n.mark) j false false inside,
              h n here,
              ==_iff (slot n.mark) j,
            );
            freed = λ m here' none_left. clear m here';
            held = λ m here' on. absurd (false≢true (sym (clear m here') ∙ on));
            rules_kept = λ j.
                settings-set (s₂ s c ip n here).rules i j
                  (record (rule_at (s₂ s c ip n here).rules i) { mark = 0 }) refl
                ∙ settings-s₂ j;
            spec_kept = (refl, refl);
          }

-- From consistent tables the end of a connection does not fault, keeps the tables consistent,
-- takes one reference from the address's node, removes the node with the last one, and clears the
-- mark's bit with its last node.
pub on_destroy-Released :
    {T : Type 0} (tc : TcRules T) (k : Kernel T) (s : Tables) (ip : ℕ)
    → IsConsistent s
    → (t : T) × (s' : Tables) × (on_destroy tc ip (up (idle k) s)
        ≡ done (tt, up (idle (record k { traffic = t })) s'))
      × IsConsistent s'
      × Released s ip s'
on_destroy-Released tc k s ip c = elim (Option-cases (view s.ht ip)) [
  | inl absent ↦
      (k.traffic, s, on_destroy_missing tc k s c ip absent, c, Released-missing s c ip absent)
  | inr (n, here) ↦ elim (Bool-cases (is_positive (atomic_dec n.count))) [
    | inl more ↦ (
      k.traffic,
      s₁ s c ip n here,
      on_destroy_more s c ip n here k tc more,
      c₁ s c ip n here,
      Released-more s c ip n here more,
    )
    | inr gone ↦ elim (Bool-cases (is_last_use (rule_at (s₂ s c ip n here).rules (n.id - 1)))) [
      | inl last ↦
          let (t, run) = on_destroy_last s c ip n here k tc gone last in
          (t, s₄ s c ip n here, run, c₄ s c ip n here last, Released-last s c ip n here gone)
      | inr shared ↦ (
        k.traffic,
        s₂ s c ip n here,
        on_destroy_shared s c ip n here k tc gone shared,
        c₂ s c ip n here,
        Released-shared s c ip n here gone shared,
      )
    ]
  ]
]
