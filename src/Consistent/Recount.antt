-- ===== src/Consistent/Recount.antt =====
-- A write of a node's reference count.
use ip_qos.Base.{
  ℕ, suc, ◌<◌, ◌≡◌, refl, ◌∙◌, some, length, set, if◌then◌else◌, ◌==◌, length-set, arith, sym,
  ==_iff, inl, inr, Bool-cases,
}
use ip_qos.Consistent.{IsConsistent, IsShaped}
use ip_qos.Kernel.{MarktblNode}
use ip_qos.State.{Tables}
use ip_qos.Table.{set_count}
use ip_qos.Table.Chains.{uses, find-set_count, occurs-set_count, uses-set_count, length-set_count}
use ip_qos.Table.Buckets.{home, home-lt, chain_of, view, total, total-set, set-IsPlaced, view-set}

-- The tables after `atomic_set(&node->count, v)` on the node of `ip`.
abbrev pub recount : Tables → ℕ → ℕ → Tables
recount s ip v = record s {
  ht = set s.ht (home ip (length s.ht)) (set_count ip v (chain_of s.ht ip));
}

module _ (s : Tables) (ip v : ℕ) (n : MarktblNode) (c : IsConsistent s)
    (here : view s.ht ip ≡ some n) where
  pos : 0 < length s.ht
  pos = omega (arith, c.shape.pos, c.shape.width)

  pub view-recount :
      (q : ℕ)
      → view (recount s ip v).ht q
        ≡ (if ip == q then some (record n { count = v }) else view s.ht q)
  unfolding view
  view-recount =
      view-set s.ht ip _ pos (some (record n { count = v }))
        (λ q. find-set_count ip v q (chain_of s.ht ip) n here)

  total-recount :
      (f : _ → ℕ)
      → f (set_count ip v (chain_of s.ht ip)) ≡ f (chain_of s.ht ip)
      → total f (recount s ip v).ht ≡ total f s.ht
  total-recount f same = omega (
    arith,
    same,
    total-set f s.ht (home ip (length s.ht)) (set_count ip v (chain_of s.ht ip)) (home-lt ip _ pos),
  )

  recount-IsShaped : IsShaped (recount s ip v)
  recount-IsShaped = record {
    pos = c.shape.pos;
    width = length-set s.ht _ _ ∙ c.shape.width;
    sized = c.shape.sized;
    limit = c.shape.limit;
    bits_width = c.shape.bits_width;
    rules_width = c.shape.rules_width;
    rules_limit = c.shape.rules_limit;
    elems = total-recount length (length-set_count ip v _) ∙ c.shape.elems;
    room = c.shape.room;
    placed =
        set-IsPlaced s.ht ip _ pos c.shape.placed
          (λ q. rw (occurs-set_count ip v q) (c.shape.placed q _).0)
          (λ q far. occurs-set_count ip v q _ ∙ (c.shape.placed q _).1 far);
  }

  -- Each node of the new map is a node of the old one, up to the count.
  view-recount_old :
      (q : ℕ) (m : MarktblNode)
      → view (recount s ip v).ht q ≡ some m
      → (m' : MarktblNode) × (view s.ht q ≡ some m') × (m.id ≡ m'.id) × (m.mark ≡ m'.mark)
  view-recount_old q m e = elim (Bool-cases (ip == q)) [
    | inl same ↦ (
      n,
      ground (arith, ==_iff ip q),
      ground (arith, view-recount q),
      ground (arith, view-recount q),
    )
    | inr other ↦ (m, ground (arith, view-recount q), refl, refl)
  ]

  -- Counting references in a node, up or down, keeps the tables consistent.
  pub recount-IsConsistent : IsConsistent (recount s ip v)
  recount-IsConsistent = record {
    shape = recount-IsShaped;
    counted =
        λ i h. c.counted i h ∙ sym (total-recount (uses (suc i)) (uses-set_count ip v (suc i) _));
    marked = λ q m e. let (m', e', i, k) = view-recount_old q m e in rw (i, k) (c.marked q m' e');
    separate = λ q q' m l e f.
        let (m', e', i, k) = view-recount_old q m e in
        let (l', f', i', k') = view-recount_old q' l f in
        rw (i, k, i', k') (c.separate q q' m' l' e' f');
    shared = λ q m e. let (m', e', i, k) = view-recount_old q m e in rw (i, k) (c.shared q m' e');
    owned = λ i h mode used.
        let (mark, only) = c.owned i h mode used in
        (mark, λ q m e. let (m', e', i, k) = view-recount_old q m e in rw (i, k) (only q m' e'));
    apart = c.apart;
  }
