-- ===== src/Consistent/Marks.antt =====
-- Changes of one bit, and of the mark kept in a rule, that no user of a mark can see.
use ip_qos.Base.{
  ℕ, ◌-◌, ◌<◌, ◌≡◌, ◌≢◌, ◌∙◌, sym, ◌⊎◌, inl, inr, Bool, true, false, some, length, set, length-set,
  get_or-set, if◌then◌else◌, ◌==◌, ==_iff, arith,
}
use ip_qos.Consistent.{
  IsConsistent, IsShaped, IsMark, IsActive, rule_at, count-pos, slot, slot-injective,
}
use ip_qos.Kernel.{MarktblNode, RuletblNode}
use ip_qos.State.{Tables}
use ip_qos.Table.Buckets.{view}

abbrev pub set_bit : Tables → ℕ → Bool → Tables
set_bit s j b = record s { bits = set s.bits j b }

-- No node and no shared rule has the mark.
pub record IsUnused (s : Tables) (mark : ℕ) : Type 0 where
  pub by_nodes : (q : ℕ) (n : MarktblNode) → view s.ht q ≡ some n → n.mark ≢ mark
  pub by_rules :
      (i : ℕ)
      → i < length s.rules
      → (rule_at s.rules i).mode ≢ 0
      → (rule_at s.rules i).count ≢ 0
      → (rule_at s.rules i).mark ≢ mark

pub set_bit-IsShaped : (s : Tables) → IsShaped s → (j : ℕ) (b : Bool) → IsShaped (set_bit s j b)
set_bit-IsShaped s shape j b = record {
  pos = shape.pos;
  width = shape.width;
  sized = shape.sized;
  limit = shape.limit;
  bits_width = omega (arith, length-set s.bits j b, shape.bits_width);
  rules_width = shape.rules_width;
  rules_limit = shape.rules_limit;
  elems = shape.elems;
  room = shape.room;
  placed = shape.placed;
}

module _ (s : Tables) (c : IsConsistent s) (j : ℕ) (inside : j < length s.bits) (b : Bool) where
  -- Marks in use stay marks if the bit is set, or is not theirs.
  pub set_bit-IsMark :
      (mark : ℕ) → (b ≡ false → slot mark ≢ j) → IsMark s mark → IsMark (set_bit s j b) mark
  set_bit-IsMark mark other (big, round, small, on) =
      (big, round, small, ground (arith, get_or-set s.bits j (slot mark) b false inside))

  set_bit-IsConsistent :
      ((q : ℕ) (n : MarktblNode) → view s.ht q ≡ some n → b ≡ false → slot n.mark ≢ j)
      → ((i : ℕ)
          → i < length s.rules
          → (rule_at s.rules i).mode ≢ 0
          → (rule_at s.rules i).count ≢ 0
          → b ≡ false
          → slot (rule_at s.rules i).mark ≢ j)
      → IsConsistent (set_bit s j b)
  set_bit-IsConsistent nodes rules = record {
    shape = set_bit-IsShaped s c.shape j b;
    counted = c.counted;
    marked = λ q n e.
        let (low, high, mark) = c.marked q n e in
        (low, high, set_bit-IsMark n.mark (nodes q n e) mark);
    separate = c.separate;
    shared = c.shared;
    owned = λ i h mode used.
        let (mark, only) = c.owned i h mode used in
        (set_bit-IsMark _ (rules i h mode used) mark, only);
    apart = c.apart;
  }

module _ (s : Tables) (c : IsConsistent s) where
  -- Setting a bit harms nobody.
  pub take_bit-IsConsistent : (j : ℕ) → j < length s.bits → IsConsistent (set_bit s j true)
  take_bit-IsConsistent j h =
      set_bit-IsConsistent s c j h true (λ q n e f. cc) (λ i k mode used f. cc)

  -- Clearing the bit of a mark that nobody has keeps the tables consistent.
  pub free_bit-IsConsistent :
      (mark : ℕ) → IsMark s mark → IsUnused s mark → IsConsistent (set_bit s (slot mark) false)
  free_bit-IsConsistent mark (big, round, small, on) u =
      set_bit-IsConsistent s c (slot mark) (omega (arith, c.shape.bits_width)) false
        (λ q n e f same.
          let (_, _, (big', round', _, _)) = c.marked q n e in
          u.by_nodes q n e (slot-injective _ _ big' big round' round same))
        (λ i h mode used f same.
          let ((big', round', _, _), _) = c.owned i h mode used in
          u.by_rules i h mode used (slot-injective _ _ big' big round' round same))

abbrev pub set_mark : Tables → ℕ → ℕ → Tables
set_mark s i v = record s { rules = set s.rules i (record (rule_at s.rules i) { mark = v }) }

module _ (s : Tables) (c : IsConsistent s) (i v : ℕ) (inside : i < length s.rules) where
  abbrev r : RuletblNode
  r = rule_at s.rules i

  pub rule_at-set_mark :
      (j : ℕ)
      → rule_at (set_mark s i v).rules j
        ≡ (if i == j then record r { mark = v } else rule_at s.rules j)
  rule_at-set_mark j = get_or-set s.rules i j _ _ inside

  set_mark-mode : (j : ℕ) → (rule_at (set_mark s i v).rules j).mode ≡ (rule_at s.rules j).mode
  set_mark-mode j = ground (arith, rule_at-set_mark j, ==_iff i j)

  pub set_mark-count :
      (j : ℕ) → (rule_at (set_mark s i v).rules j).count ≡ (rule_at s.rules j).count
  set_mark-count j = ground (arith, rule_at-set_mark j, ==_iff i j)

  set_mark-mark :
      (j : ℕ) → i ≢ j → (rule_at (set_mark s i v).rules j).mark ≡ (rule_at s.rules j).mark
  set_mark-mark j far = ground (arith, rule_at-set_mark j, ==_iff i j)

  pub set_mark-IsShaped : IsShaped (set_mark s i v)
  set_mark-IsShaped = record {
    pos = c.shape.pos;
    width = c.shape.width;
    sized = c.shape.sized;
    limit = c.shape.limit;
    bits_width = c.shape.bits_width;
    rules_width = length-set s.rules i _ ∙ c.shape.rules_width;
    rules_limit = omega (arith, length-set s.rules i (record r { mark = v }), c.shape.rules_limit);
    elems = c.shape.elems;
    room = c.shape.room;
    placed = c.shape.placed;
  }

  other :
      (r.mode ≡ 0) ⊎ (r.count ≡ 0)
      → (j : ℕ) → (rule_at s.rules j).mode ≢ 0
      → (rule_at s.rules j).count ≢ 0
      → i ≢ j
  other idle j mode used same = elim idle [
    | inl private ↦ mode (rw (← same) private)
    | inr unused ↦ used (rw (← same) unused)
  ]

  pub length-set_mark : length (set_mark s i v).rules ≡ length s.rules
  length-set_mark = length-set s.rules i _

  active : (j : ℕ) → IsActive (rule_at (set_mark s i v).rules j) → IsActive (rule_at s.rules j)
  active j (mode, used) = (rw (set_mark-mode j) at mode, rw (set_mark-count j) at used)

  -- The mark of a rule may change while the rule is private or has no user.
  pub set_mark-IsConsistent : (r.mode ≡ 0) ⊎ (r.count ≡ 0) → IsConsistent (set_mark s i v)
  set_mark-IsConsistent idle = record {
    shape = set_mark-IsShaped;
    counted = λ j h.
        set_mark-count j
        ∙ c.counted j (omega (arith, length-set s.rules i (record r { mark = v })));
    marked = λ q n e.
        let (low, high, mark) = c.marked q n e in
        (low, omega (arith, length-set s.rules i (record r { mark = v })), mark);
    separate = λ q q' n n' e e' far same.
        let (ids, mode) = c.separate q q' n n' e e' far same in
        (ids, rw (set_mark-mode (n.id - 1)) mode);
    shared = λ q n e mode.
        let far =
          other idle (n.id - 1) (rw (set_mark-mode (n.id - 1)) at mode)
            (omega (arith, count-pos s c q n e)) in
        c.shared q n e (rw (set_mark-mode (n.id - 1)) at mode) ∙ sym (set_mark-mark (n.id - 1) far);
    owned = λ j h mode used.
        let far = other idle j (rw (set_mark-mode j) at mode) (rw (set_mark-count j) at used) in
        rw (set_mark-mark j far) (
          c.owned j (omega (arith, length-set s.rules i (record r { mark = v })))
            (rw (set_mark-mode j) at mode) (rw (set_mark-count j) at used));
    apart = λ j k h h' a b same.
        let a' = active j a in
        let b' = active k b in
        c.apart j k (rw length-set_mark at h) (rw length-set_mark at h') a' b' (
          sym (set_mark-mark j (other idle j a'.0 a'.1))
          ∙ same
          ∙ set_mark-mark k (other idle k b'.0 b'.1));
  }

  pub set_mark-IsUnused :
      (mark : ℕ) → (r.mode ≡ 0) ⊎ (r.count ≡ 0) → IsUnused s mark → IsUnused (set_mark s i v) mark
  set_mark-IsUnused mark idle u = record {
    by_nodes = u.by_nodes;
    by_rules = λ j h mode used same.
        let mode' : (rule_at s.rules j).mode ≢ 0 = rw (set_mark-mode j) at mode in
        let used' : (rule_at s.rules j).count ≢ 0 = rw (set_mark-count j) at used in
        u.by_rules j (omega (arith, length-set s.rules i (record r { mark = v }))) mode' used'
          (sym (set_mark-mark j (other idle j mode' used')) ∙ same);
  }
