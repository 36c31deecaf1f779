-- ===== src/Consistent/Remove.antt =====
-- Taking a node out of the table, with the rule's count: what marktbl_hash_remove does to the
-- tables.
use ip_qos.Base.{
  ℕ, suc, ◌+◌, ◌-◌, ◌<◌, ◌≡◌, ◌≢◌, ap, ◌∙◌, sym, ◌⊎◌, inl, inr, none, some, length, set, length-set,
  get_or-set, if◌then◌else◌, ◌==◌, ==_iff, arith,
}
use ip_qos.Base.Word.{sub32, atomic_dec}
use ip_qos.Consistent.{IsConsistent, IsShaped, IsActive, rule_at, count-pos}
use ip_qos.Consistent.Marks.{IsUnused}
use ip_qos.Kernel.{MarktblNode}
use ip_qos.State.{Tables}
use ip_qos.Table.{hlist_del}
use ip_qos.Table.Chains.{
  uses, uses-le-length, find-hlist_del, occurs-hlist_del-le, uses-hlist_del, length-hlist_del,
  to_nat,
}
use ip_qos.Table.Buckets.{
  home, home-lt, chain_of, view, total, total-set, total_mono, set-IsPlaced, view-set,
}

abbrev pub detach : Tables → ℕ → MarktblNode → Tables
detach s ip n = record s {
  ht = set s.ht (home ip (length s.ht)) (hlist_del ip (chain_of s.ht ip));
  elem_num = sub32 s.elem_num 1;
  rules = set s.rules (n.id - 1) (record (rule_at s.rules (n.id - 1)) {
    count = atomic_dec (rule_at s.rules (n.id - 1)).count;
  });
}

module _ (s : Tables) (ip : ℕ) (n : MarktblNode) (c : IsConsistent s)
    (here : view s.ht ip ≡ some n) where
  pos : 0 < length s.ht
  pos = omega (arith, c.shape.pos, c.shape.width)

  abbrev i : ℕ
  i = n.id - 1

  inside : i < length s.rules
  inside = let (low, high, _) = c.marked ip n here in omega arith

  pub view-detach : (q : ℕ) → view (detach s ip n).ht q ≡ (if ip == q then none else view s.ht q)
  unfolding view
  view-detach =
      view-set s.ht ip _ pos none
        (λ q. find-hlist_del ip q (chain_of s.ht ip) (c.shape.placed q _).0)

  -- A node of the new map is another address's node of the old one.
  pub view-detach_old :
      (q : ℕ) (m : MarktblNode) → view (detach s ip n).ht q ≡ some m → view s.ht q ≡ some m
  view-detach_old q m e = ground (arith, view-detach q)

  total-uses-detach :
      (id : ℕ) → total (uses id) (detach s ip n).ht + to_nat (n.id == id) ≡ total (uses id) s.ht
  unfolding view
  total-uses-detach id = omega (
    arith,
    uses-hlist_del ip id (chain_of s.ht ip) n here,
    total-set (uses id) s.ht (home ip (length s.ht)) (hlist_del ip (chain_of s.ht ip))
        (home-lt ip _ pos),
  )

  elems_detach : total length (detach s ip n).ht + 1 ≡ s.elem_num
  unfolding view
  elems_detach = omega (
    arith,
    c.shape.elems,
    length-hlist_del ip (chain_of s.ht ip) n here,
    total-set length s.ht (home ip (length s.ht)) (hlist_del ip (chain_of s.ht ip))
        (home-lt ip _ pos),
  )

  pub rule_at-detach :
      (j : ℕ)
      → rule_at (detach s ip n).rules j ≡ (
          if i == j
          then record (rule_at s.rules i) { count = atomic_dec (rule_at s.rules i).count }
          else rule_at s.rules j)
  rule_at-detach j = get_or-set s.rules i j _ _ inside

  pub detach-mode : (j : ℕ) → (rule_at (detach s ip n).rules j).mode ≡ (rule_at s.rules j).mode
  detach-mode j = ground (arith, rule_at-detach j, ==_iff i j)

  detach-mark : (j : ℕ) → (rule_at (detach s ip n).rules j).mark ≡ (rule_at s.rules j).mark
  detach-mark j = ground (arith, rule_at-detach j, ==_iff i j)

  -- Counts stay far below 2 ^ 32.
  uses-small : (id : ℕ) → total (uses id) s.ht < 0x20_0000
  uses-small id = omega (
    arith,
    total_mono (uses id) length (uses-le-length id) s.ht,
    c.shape.elems,
    c.shape.room,
    c.shape.limit,
  )

  pub detach-count :
      (j : ℕ)
      → j < length s.rules
      → (rule_at (detach s ip n).rules j).count + to_nat (n.id == suc j) ≡ (rule_at s.rules j).count
  detach-count j h = ground (
    arith,
    rule_at-detach j,
    ==_iff i j,
    c.marked ip n here,
    count-pos s c ip n here,
    c.counted j h,
    uses-small (suc j),
  )

  pub length-detach : length (detach s ip n).rules ≡ length s.rules
  length-detach = length-set s.rules i _

  detach-IsShaped : IsShaped (detach s ip n)
  detach-IsShaped = record {
    pos = c.shape.pos;
    width = length-set s.ht _ _ ∙ c.shape.width;
    sized = c.shape.sized;
    limit = c.shape.limit;
    bits_width = c.shape.bits_width;
    rules_width = length-set s.rules i _ ∙ c.shape.rules_width;
    rules_limit = rw length-detach c.shape.rules_limit;
    elems = omega (arith, elems_detach, c.shape.room, c.shape.limit);
    room = omega (arith, elems_detach, c.shape.room, c.shape.limit);
    placed =
        set-IsPlaced s.ht ip _ pos c.shape.placed
          (λ q. omega (
            arith,
            occurs-hlist_del-le ip q (chain_of s.ht ip),
            (c.shape.placed q (home ip (length s.ht))).0,
          ))
          (λ q far. omega (
            arith,
            occurs-hlist_del-le ip q (chain_of s.ht ip),
            (c.shape.placed q (home ip (length s.ht))).1 far,
          ));
  }

  active :
      (j : ℕ)
      → j < length (detach s ip n).rules
      → IsActive (rule_at (detach s ip n).rules j)
      → IsActive (rule_at s.rules j)
  active j h (mode, used) =
      (rw (detach-mode j) at mode, omega (arith, detach-count j (rw length-detach at h)))

  pub detach-IsConsistent : IsConsistent (detach s ip n)
  detach-IsConsistent = record {
    shape = detach-IsShaped;
    counted = λ j h. omega (
      arith,
      length-detach,
      detach-count j (omega (arith, length-detach)),
      c.counted j (omega (arith, length-detach)),
      total-uses-detach (suc j),
    );
    marked = λ q m e. rw length-detach (c.marked q m (view-detach_old q m e));
    separate = λ q q' m m' e e' far same.
        rw (detach-mode (m.id - 1))
          (c.separate q q' m m' (view-detach_old q m e) (view-detach_old q' m' e') far same);
    shared = λ q m e mode.
        rw (detach-mark (m.id - 1))
          (c.shared q m (view-detach_old q m e) (rw (detach-mode (m.id - 1)) at mode));
    owned = λ j h mode used.
        let (mark, only) =
          c.owned j (rw length-detach at h) (rw (detach-mode j) at mode)
            (omega (arith, detach-count j (rw length-detach at h))) in
        rw (detach-mark j) (mark, λ q m e. only q m (view-detach_old q m e));
    apart = λ j k h h' a b same.
        c.apart j k (rw length-detach at h) (rw length-detach at h') (active j h a) (active k h' b)
          (sym (detach-mark j) ∙ same ∙ detach-mark k);
  }

  -- Where the rule is private, or has lost its last user, the mark of the node is free to go.
  pub detach-IsUnused :
      ((rule_at (detach s ip n).rules i).mode ≡ 0) ⊎ ((rule_at (detach s ip n).rules i).count ≡ 0)
      → IsUnused (detach s ip n) n.mark
  detach-IsUnused idle = record {
    by_nodes = λ q m e same.
        let far : q ≢ ip = λ p. ground (arith, view-detach q, ==_iff ip q) in
        let (ids, mode) = c.separate q ip m n (view-detach_old q m e) here far same in
        let used = count-pos (detach s ip n) detach-IsConsistent q m e in
        elim idle [
          | inl private ↦ mode (rw ids (sym (detach-mode i) ∙ private))
          | inr last ↦ absurd (omega (arith, last, rw ids at used))
        ];
    by_rules = λ j h mode used same.
        let mode' : (rule_at s.rules j).mode ≢ 0 = rw (detach-mode j) at mode in
        let ids : n.id ≡ suc j =
          (c.owned j (rw length-detach at h) mode'
              (omega (arith, detach-count j (rw length-detach at h)))).1
            ip n here (sym same ∙ detach-mark j) in
        let at_i : i ≡ j = omega arith in
        elim idle [
          | inl private ↦
              mode (sym (ap (λ k. (rule_at (detach s ip n).rules k).mode) at_i) ∙ private)
          | inr last ↦ used (sym (ap (λ k. (rule_at (detach s ip n).rules k).count) at_i) ∙ last)
        ];
  }
