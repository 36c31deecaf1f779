-- ===== src/Consistent/Insert/Keeps.antt =====
-- The invariant after a node is put into the table.
use ip_qos.Base.{
  ℕ, suc, ◌-◌, ◌≤◌, ◌<◌, ◌≡◌, ◌≢◌, refl, ap, ◌∙◌, sym, inl, inr, none, some, length, ◌==◌, ==_iff,
  Bool-cases, arith,
}
use mathlib.Core.Path.{subst}
use ip_qos.Consistent.{IsConsistent, IsMark, IsActive, rule_at}
use ip_qos.Kernel.{MarktblNode}
use ip_qos.State.{Tables}
use ip_qos.Table.Buckets.{view}
use ip_qos.Consistent.Insert.{
  attach, new_node, Fits, fresh, joined, view-attach_cases, attach-mode, attach-mark,
  rule_at-attach, length-attach, attach-count, total-uses-attach, attach-IsShaped,
}

abbrev mark_of : MarktblNode → ℕ
mark_of n = n.mark

module _ (s : Tables) (ip id mark : ℕ) (c : IsConsistent s) (absent : view s.ht ip ≡ none)
    (room : s.elem_num < s.max_ip_cnt) (low : 0 < id) (high : id ≤ length s.rules) where
  abbrev i : ℕ
  i = id - 1

  abbrev node : MarktblNode
  node = new_node ip id mark

  -- The new node against an old one with the same mark.
  Fits-separate :
      Fits s id mark
      → (q : ℕ) (m : MarktblNode) → view s.ht q ≡ some m
      → m.mark ≡ mark
      → (m.id ≡ id) × ((rule_at s.rules i).mode ≢ 0)
  Fits-separate (fresh u _) q m e same = absurd (u.by_nodes q m e same)
  Fits-separate (joined mode used own) q m e same =
      ((c.owned i (omega arith) mode used).1 q m e (same ∙ own) ∙ omega arith, mode)

  Fits-own : Fits s id mark → (rule_at s.rules i).mode ≢ 0 → mark ≡ (rule_at s.rules i).mark
  Fits-own (fresh _ own) mode = (own mode).1
  Fits-own (joined _ _ own) mode = own

  module _ (is_mark : IsMark s mark) (fits : Fits s id mark) where
    separate' :
        (q q' : ℕ) (m m' : MarktblNode)
        → view (attach s ip id mark).ht q ≡ some m
        → view (attach s ip id mark).ht q' ≡ some m'
        → q ≢ q'
        → m.mark ≡ m'.mark
        → (m.id ≡ m'.id) × ((rule_at s.rules (m.id - 1)).mode ≢ 0)
    separate' q q' m m' e e' far same =
        elim (view-attach_cases s ip id mark c absent room low high q m e) [
          | inl (at_ip, p) ↦ elim (view-attach_cases s ip id mark c absent room low high q' m' e') [
            | inl (at_ip', _) ↦ absurd (far (at_ip ∙ sym at_ip'))
            | inr (_, old') ↦
                let (ids, mode) = Fits-separate fits q' m' old' (sym same ∙ ap mark_of p) in
                rw p (sym ids, mode)
          ]
          | inr (_, old) ↦ elim (view-attach_cases s ip id mark c absent room low high q' m' e') [
            | inl (_, p') ↦
                let (ids, mode) = Fits-separate fits q m old (same ∙ ap mark_of p') in
                rw (p', ids) (refl, mode)
            | inr (_, old') ↦ c.separate q q' m m' old old' far same
          ]
        ]

    shared' :
        (q : ℕ) (m : MarktblNode)
        → view (attach s ip id mark).ht q ≡ some m
        → (rule_at s.rules (m.id - 1)).mode ≢ 0
        → m.mark ≡ (rule_at s.rules (m.id - 1)).mark
    shared' q m e = elim (view-attach_cases s ip id mark c absent room low high q m e) [
      | inl (_, p) ↦ rw p (λ mode. Fits-own fits mode)
      | inr (_, old) ↦ c.shared q m old
    ]

    -- Nobody but the rule of the new node, if it is shared, has its mark.
    owned_elsewhere :
        (j : ℕ)
        → j < length s.rules
        → IsActive (rule_at s.rules j)
        → (rule_at s.rules j).mark ≡ mark
        → j ≡ i
    owned_elsewhere j h active same = elim fits [
      | fresh u _ ↦ absurd (u.by_rules j h active.0 active.1 same)
      | joined mode used own ↦ c.apart j i h (omega arith) active (mode, used) (same ∙ own)
    ]

    abbrev Owned : ℕ → Type 0
    Owned j =
        IsMark s (rule_at s.rules j).mark
        × ((q : ℕ) (m : MarktblNode)
            → view (attach s ip id mark).ht q ≡ some m
            → m.mark ≡ (rule_at s.rules j).mark
            → m.id ≡ suc j)

    self_kept : (rule_at s.rules i).mode ≢ 0 → Owned i
    self_kept mode =
        let own = Fits-own fits mode in
        (
          rw (← own) is_mark,
          λ q m e same. elim (view-attach_cases s ip id mark c absent room low high q m e) [
            | inl (_, p) ↦ rw p (omega arith)
            | inr (_, old) ↦ (Fits-separate fits q m old (same ∙ sym own)).0 ∙ omega arith
          ],
        )

    other_kept : (j : ℕ) → j < length s.rules → i ≢ j → IsActive (rule_at s.rules j) → Owned j
    other_kept j h far active =
        let (mark_ok, only) = c.owned j h active.0 active.1 in
        (
          mark_ok,
          λ q m e same. elim (view-attach_cases s ip id mark c absent room low high q m e) [
            | inl (_, p) ↦ absurd (far (sym (owned_elsewhere j h active (sym same ∙ ap mark_of p))))
            | inr (_, old) ↦ only q m old same
          ],
        )

    earlier_use :
        (j : ℕ)
        → j < length s.rules
        → i ≢ j
        → IsActive (rule_at (attach s ip id mark).rules j)
        → IsActive (rule_at s.rules j)
    earlier_use j h far (mode, used) = (
      rw (attach-mode s ip id mark c absent room low high j) at mode,
      ground (arith, rule_at-attach s ip id mark c absent room low high j, ==_iff i j),
    )

    apart_new :
        (j k : ℕ)
        → i ≡ j
        → i ≢ k
        → k < length s.rules
        → IsActive (rule_at (attach s ip id mark).rules j)
        → IsActive (rule_at (attach s ip id mark).rules k)
        → (rule_at s.rules j).mark ≢ (rule_at s.rules k).mark
    apart_new j k here far h a b same =
        let mode : (rule_at s.rules i).mode ≢ 0 =
          subst (λ t. (rule_at s.rules t).mode ≢ 0) (sym here)
            (rw (attach-mode s ip id mark c absent room low high j) at a.0) in
        let marks : (rule_at s.rules i).mark ≡ (rule_at s.rules j).mark =
          ap (λ t. (rule_at s.rules t).mark) here in
        far (
          sym (
            owned_elsewhere k h (earlier_use k h far b)
              (sym same ∙ sym marks ∙ sym (Fits-own fits mode))))

    apart' :
        (j k : ℕ)
        → j < length s.rules
        → k < length s.rules
        → IsActive (rule_at (attach s ip id mark).rules j)
        → IsActive (rule_at (attach s ip id mark).rules k)
        → (rule_at s.rules j).mark ≡ (rule_at s.rules k).mark
        → j ≡ k
    apart' j k h h' a b same = elim (Bool-cases (i == j)) [
      | inl here ↦ elim (Bool-cases (i == k)) [
        | inl there ↦ ground (arith, ==_iff i j, ==_iff i k)
        | inr off ↦
            absurd
              (apart_new j k (ground (arith, ==_iff i j)) (ground (arith, ==_iff i k)) h' a b same)
      ]
      | inr off ↦ elim (Bool-cases (i == k)) [
        | inl there ↦ absurd (
            apart_new k j (ground (arith, ==_iff i k)) (ground (arith, ==_iff i j)) h b a
              (sym same))
        | inr off' ↦
            c.apart j k h h' (earlier_use j h (ground (arith, ==_iff i j)) a)
              (earlier_use k h' (ground (arith, ==_iff i k)) b) same
      ]
    ]

    pub attach-IsConsistent : IsConsistent (attach s ip id mark)
    attach-IsConsistent = record {
      shape = attach-IsShaped s ip id mark c absent room low high;
      counted = λ j h. omega (
        arith,
        attach-count s ip id mark c absent room low high j
            (rw (length-attach s ip id mark c absent room low high) at h),
        c.counted j (rw (length-attach s ip id mark c absent room low high) at h),
        total-uses-attach s ip id mark c absent room low high (suc j),
      );
      marked = λ q m e.
          rw (length-attach s ip id mark c absent room low high)
            (elim (view-attach_cases s ip id mark c absent room low high q m e) [
              | inl (_, p) ↦ rw p (low, high, is_mark)
              | inr (_, old) ↦ c.marked q m old
            ]);
      separate = λ q q' m m' e e' far same.
          rw (attach-mode s ip id mark c absent room low high (m.id - 1))
            (separate' q q' m m' e e' far same);
      shared = λ q m e mode.
          rw (attach-mark s ip id mark c absent room low high (m.id - 1)) (
            shared' q m e
              (rw (attach-mode s ip id mark c absent room low high (m.id - 1)) at mode));
      owned = λ j h mode used.
          rw (attach-mark s ip id mark c absent room low high j) (elim (Bool-cases (i == j)) [
            | inl here ↦
                subst (λ t. (rule_at s.rules t).mode ≢ 0 → Owned t) (ground (arith, ==_iff i j))
                  self_kept (rw (attach-mode s ip id mark c absent room low high j) at mode)
            | inr off ↦
                let far : i ≢ j = ground (arith, ==_iff i j) in
                other_kept j (rw (length-attach s ip id mark c absent room low high) at h) far (
                  earlier_use j (rw (length-attach s ip id mark c absent room low high) at h) far
                    (mode, used))
          ]);
      apart = λ j k h h' a b same.
          apart' j k (rw (length-attach s ip id mark c absent room low high) at h)
            (rw (length-attach s ip id mark c absent room low high) at h') a b
            (sym (attach-mark s ip id mark c absent room low high j)
              ∙ same
              ∙ attach-mark s ip id mark c absent room low high k);
    }
