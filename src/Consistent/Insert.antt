-- ===== src/Consistent/Insert.antt =====
-- Putting a node into the table, with the rule's count: what marktbl_hash_add does to the tables.
pub mod Keeps
use ip_qos.Base.{
  ℕ, suc, ◌+◌, ◌-◌, ◌≤◌, ◌<◌, ◌≡◌, ◌≢◌, refl, ap, ◌∙◌, sym, ◌⊎◌, inl, inr, ◌∷◌, none, some, length,
  set, length-set, get_or-set, if◌then◌else◌, ◌==◌, ==_iff, Bool-cases, arith,
}
use mathlib.Core.Path.{subst}
use ip_qos.Base.Word.{add32, atomic_inc}
use ip_qos.Consistent.{IsConsistent, IsShaped, IsMark, IsActive, rule_at}
use ip_qos.Consistent.Marks.{IsUnused}
use ip_qos.Kernel.{MarktblNode}
use ip_qos.State.{Tables}
use ip_qos.Table.{find}
use ip_qos.Table.Chains.{uses, occurs, uses-le-length, occurs-eq-zero, to_nat}
use ip_qos.Table.Buckets.{
  home, home-lt, chain_of, view, total, total-set, total_mono, set-IsPlaced, view-set,
}

abbrev pub new_node : ℕ → ℕ → ℕ → MarktblNode
new_node ip id mark = record { src_ip = ip; id = id; mark = mark; count = 0 }

abbrev pub attach : Tables → ℕ → ℕ → ℕ → Tables
attach s ip id mark = record s {
  ht = set s.ht (home ip (length s.ht)) (new_node ip id mark ∷ chain_of s.ht ip);
  elem_num = add32 s.elem_num 1;
  rules =
      set s.rules (id - 1)
        (record (rule_at s.rules (id - 1)) { count = atomic_inc (rule_at s.rules (id - 1)).count });
}

-- A mark that a new node of rule `id` may have: one that nobody has, and that is the rule's own in
-- share mode; or that which the users of the rule share already.
pub data Fits (s : Tables) (id mark : ℕ) : Type 0 where
  fresh :
      IsUnused s mark
      → ((rule_at s.rules (id - 1)).mode ≢ 0
          → ((rule_at s.rules (id - 1)).count ≡ 0) × (mark ≡ (rule_at s.rules (id - 1)).mark))
      → Fits s id mark
  joined :
      (rule_at s.rules (id - 1)).mode ≢ 0
      → (rule_at s.rules (id - 1)).count ≢ 0
      → mark ≡ (rule_at s.rules (id - 1)).mark
      → Fits s id mark

module _ (s : Tables) (ip id mark : ℕ) (c : IsConsistent s) (absent : view s.ht ip ≡ none)
    (room : s.elem_num < s.max_ip_cnt) (low : 0 < id) (high : id ≤ length s.rules) where
  pos : 0 < length s.ht
  pos = omega (arith, c.shape.pos, c.shape.width)

  abbrev i : ℕ
  i = id - 1

  abbrev node : MarktblNode
  node = new_node ip id mark

  pub view-attach :
      (q : ℕ) → view (attach s ip id mark).ht q ≡ (if ip == q then some node else view s.ht q)
  unfolding view find
  view-attach = view-set s.ht ip _ pos (some node) (λ q. refl)

  pub total-uses-attach :
      (j : ℕ) → total (uses j) (attach s ip id mark).ht ≡ total (uses j) s.ht + to_nat (id == j)
  unfolding uses
  total-uses-attach j = omega (
    arith,
    total-set (uses j) s.ht (home ip (length s.ht)) (node ∷ chain_of s.ht ip) (home-lt ip _ pos),
  )

  elems_attach : total length (attach s ip id mark).ht ≡ s.elem_num + 1
  elems_attach = omega (
    arith,
    c.shape.elems,
    total-set length s.ht (home ip (length s.ht)) (node ∷ chain_of s.ht ip) (home-lt ip _ pos),
  )

  pub rule_at-attach :
      (j : ℕ)
      → rule_at (attach s ip id mark).rules j ≡ (
          if i == j
          then record (rule_at s.rules i) { count = atomic_inc (rule_at s.rules i).count }
          else rule_at s.rules j)
  rule_at-attach j = get_or-set s.rules i j _ _ (omega arith)

  pub attach-mode :
      (j : ℕ) → (rule_at (attach s ip id mark).rules j).mode ≡ (rule_at s.rules j).mode
  attach-mode j = ground (arith, rule_at-attach j, ==_iff i j)

  pub attach-mark :
      (j : ℕ) → (rule_at (attach s ip id mark).rules j).mark ≡ (rule_at s.rules j).mark
  attach-mark j = ground (arith, rule_at-attach j, ==_iff i j)

  uses-small : (j : ℕ) → total (uses j) s.ht < 0x20_0000
  uses-small j = omega (
    arith,
    total_mono (uses j) length (uses-le-length j) s.ht,
    c.shape.elems,
    c.shape.room,
    c.shape.limit,
  )

  pub attach-count :
      (j : ℕ)
      → j < length s.rules
      → (rule_at (attach s ip id mark).rules j).count
        ≡ (rule_at s.rules j).count + to_nat (id == suc j)
  attach-count j h = ground (arith, rule_at-attach j, ==_iff i j, c.counted j h, uses-small (suc j))

  pub length-attach : length (attach s ip id mark).rules ≡ length s.rules
  length-attach = length-set s.rules i _

  pub attach-IsShaped : IsShaped (attach s ip id mark)
  unfolding occurs view
  attach-IsShaped = record {
    pos = c.shape.pos;
    width = length-set s.ht _ _ ∙ c.shape.width;
    sized = c.shape.sized;
    limit = c.shape.limit;
    bits_width = c.shape.bits_width;
    rules_width = length-set s.rules i _ ∙ c.shape.rules_width;
    rules_limit = rw length-attach c.shape.rules_limit;
    elems = omega (arith, elems_attach, c.shape.limit);
    room = omega (arith, c.shape.limit);
    placed =
        set-IsPlaced s.ht ip _ pos c.shape.placed
          (λ q. ground (
            arith,
            (c.shape.placed q (home ip (length s.ht))).0,
            occurs-eq-zero ip (chain_of s.ht ip),
            ==_iff ip q,
          ))
          (λ q far. ground (arith, (c.shape.placed q (home ip (length s.ht))).1, ==_iff ip q));
  }

  -- A node of the new map is the new one, or a node of the old map.
  pub view-attach_cases :
      (q : ℕ) (m : MarktblNode)
      → view (attach s ip id mark).ht q ≡ some m
      → ((q ≡ ip) × (m ≡ node)) ⊎ ((q ≢ ip) × (view s.ht q ≡ some m))
  view-attach_cases q m e = elim (Bool-cases (ip == q)) [
    | inl same ↦ inl (ground (arith, ==_iff ip q), ground (arith, view-attach q))
    | inr other ↦ inr (ground (arith, ==_iff ip q), ground (arith, view-attach q))
  ]
