-- ===== src/Consistent/Replace.antt =====
-- A rule is written anew: while nobody uses it, or with the same mode, mark and count.
use ip_qos.Base.{
  ℕ, ◌-◌, ◌<◌, ◌≡◌, ◌≢◌, ◌∙◌, sym, ◌⊎◌, inl, inr, some, length, set, length-set, get_or-set,
  if◌then◌else◌, ◌==◌, ==_iff, arith,
}
use ip_qos.Consistent.{IsConsistent, IsShaped, rule_at, count-pos}
use ip_qos.Kernel.{MarktblNode, RuletblNode}
use ip_qos.State.{Tables}
use ip_qos.Table.Buckets.{view}

abbrev pub replace : Tables → ℕ → RuletblNode → Tables
replace s i r = record s { rules = set s.rules i r }

-- What the new rule may change.
abbrev pub MayReplace : RuletblNode → RuletblNode → Type 0
MayReplace old new =
    ((old.count ≡ 0) × (new.count ≡ 0))
    ⊎ ((new.mode ≡ old.mode) × (new.mark ≡ old.mark) × (new.count ≡ old.count))

module _ (s : Tables) (c : IsConsistent s) (i : ℕ) (r : RuletblNode) (inside : i < length s.rules)
    (may : MayReplace (rule_at s.rules i) r) where
  at : (j : ℕ) → rule_at (replace s i r).rules j ≡ (if i == j then r else rule_at s.rules j)
  at j = get_or-set s.rules i j r _ inside

  pub length-replace : length (replace s i r).rules ≡ length s.rules
  length-replace = length-set s.rules i r

  count_kept : (j : ℕ) → (rule_at (replace s i r).rules j).count ≡ (rule_at s.rules j).count
  count_kept j = elim may [
    | inl (old, new) ↦ ground (arith, at j, ==_iff i j)
    | inr (mode, mark, count) ↦ ground (arith, at j, ==_iff i j)
  ]

  module _ (j : ℕ) (used : (rule_at s.rules j).count ≢ 0) where
    mode_kept : (rule_at (replace s i r).rules j).mode ≡ (rule_at s.rules j).mode
    mode_kept = elim may [
      | inl (old, new) ↦ ground (arith, at j, ==_iff i j)
      | inr (mode, mark, count) ↦ ground (arith, at j, ==_iff i j)
    ]

    mark_kept : (rule_at (replace s i r).rules j).mark ≡ (rule_at s.rules j).mark
    mark_kept = elim may [
      | inl (old, new) ↦ ground (arith, at j, ==_iff i j)
      | inr (mode, mark, count) ↦ ground (arith, at j, ==_iff i j)
    ]

  has_users :
      (q : ℕ) (n : MarktblNode) → view s.ht q ≡ some n → (rule_at s.rules (n.id - 1)).count ≢ 0
  has_users q n e = omega (arith, count-pos s c q n e)

  replace-IsShaped : IsShaped (replace s i r)
  replace-IsShaped = record {
    pos = c.shape.pos;
    width = c.shape.width;
    sized = c.shape.sized;
    limit = c.shape.limit;
    bits_width = c.shape.bits_width;
    rules_width = length-replace ∙ c.shape.rules_width;
    rules_limit = omega (arith, length-replace, c.shape.rules_limit);
    elems = c.shape.elems;
    room = c.shape.room;
    placed = c.shape.placed;
  }

  pub replace-IsConsistent : IsConsistent (replace s i r)
  replace-IsConsistent = record {
    shape = replace-IsShaped;
    counted = λ j h. count_kept j ∙ c.counted j (rw length-replace at h);
    marked = λ q n e.
        let (low, high, mark) = c.marked q n e in (low, omega (arith, length-replace), mark);
    separate = λ q q' n n' e e' far same.
        let (ids, mode) = c.separate q q' n n' e e' far same in
        (ids, rw (mode_kept (n.id - 1) (has_users q n e)) mode);
    shared = λ q n e mode.
        let used = has_users q n e in
        c.shared q n e (rw (mode_kept (n.id - 1) used) at mode) ∙ sym (mark_kept (n.id - 1) used);
    owned = λ j h mode used.
        let used' : (rule_at s.rules j).count ≢ 0 = rw (count_kept j) at used in
        rw (mark_kept j used')
          (c.owned j (rw length-replace at h) (rw (mode_kept j used') at mode) used');
    apart = λ j l h h' (mode, used) (mode', used') same.
        let u : (rule_at s.rules j).count ≢ 0 = rw (count_kept j) at used in
        let u' : (rule_at s.rules l).count ≢ 0 = rw (count_kept l) at used' in
        c.apart j l (rw length-replace at h) (rw length-replace at h')
          (rw (mode_kept j u) at mode, u) (rw (mode_kept l u') at mode', u')
          (sym (mark_kept j u) ∙ same ∙ mark_kept l u');
  }
