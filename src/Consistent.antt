-- ===== src/Consistent.antt =====
-- What holds of the tables while addresses come and go: the table is well formed, each rule counts
-- its nodes, and no mark that is in use is free or has two owners.
pub mod Recount
pub mod Marks
pub mod Insert
pub mod Remove
pub mod Replace
use ip_qos.Base.{
  ℕ, zero, suc, ◌+◌, ◌-◌, ◌/◌, ◌%◌, ◌≤◌, ◌<◌, ◌≡◌, ◌≢◌, Bool, true, List, [], ◌∷◌, some, length,
  get_or, set, refl, sym, ◌∙◌, arith,
}
use mathlib.Core.Path.{subst}
use ip_qos.Base.Word.{u32_mod, sub32}
use ip_qos.Bitmap.{shift_down}
use ip_qos.Bitmap.Laws.{bit}
use ip_qos.Kernel.{MarktblNode, RuletblNode}
use ip_qos.Rules.{zero_rule}
use ip_qos.State.{Tables}
use ip_qos.Table.Buckets.{view, total, total-uses_pos, uses-view, IsPlaced}
use ip_qos.Table.Chains.{uses}

abbrev pub rule_at : List RuletblNode → ℕ → RuletblNode
rule_at rules i = get_or rules i zero_rule

-- The bit that stands for a mark.
abbrev pub slot : ℕ → ℕ
slot mark = mark / 0x800 - 1

-- A mark that alloc_mark can have returned, and whose bit is set.
abbrev pub IsMark : Tables → ℕ → Type 0
IsMark s mark =
    (0x800 ≤ mark)
    × (mark % 0x800 ≡ 0)
    × (slot mark < s.max_ip_cnt)
    × (bit s.bits (slot mark) ≡ true)

-- A rule in share mode that has users.
abbrev pub IsActive : RuletblNode → Type 0
IsActive r = (r.mode ≢ 0) × (r.count ≢ 0)

pub record IsShaped (s : Tables) : Type 0 where
  pub pos : 0 < s.size
  pub width : length s.ht ≡ s.size
  pub sized : s.size ≡ s.max_ip_cnt
  -- So `(z + 1) << MARK_BASE` does not wrap.
  pub limit : s.max_ip_cnt < 0x20_0000
  pub bits_width : s.max_ip_cnt ≤ length s.bits
  pub rules_width : length s.rules ≡ s.max_rule_cnt
  pub rules_limit : length s.rules < u32_mod
  pub elems : total length s.ht ≡ s.elem_num
  pub room : s.elem_num ≤ s.max_ip_cnt
  pub placed : IsPlaced s.ht

pub record IsConsistent (s : Tables) : Type 0 where
  pub shape : IsShaped s
  pub counted : (i : ℕ) → i < length s.rules → (rule_at s.rules i).count ≡ total (uses (suc i)) s.ht
  pub marked :
      (q : ℕ) (n : MarktblNode)
      → view s.ht q ≡ some n
      → (0 < n.id) × (n.id ≤ length s.rules) × IsMark s n.mark
  -- Two addresses have one mark only as users of one rule in share mode.
  pub separate :
      (q q' : ℕ) (n n' : MarktblNode)
      → view s.ht q ≡ some n
      → view s.ht q' ≡ some n'
      → q ≢ q'
      → n.mark ≡ n'.mark
      → (n.id ≡ n'.id) × ((rule_at s.rules (n.id - 1)).mode ≢ 0)
  -- The users of a rule in share mode have the rule's mark.
  pub shared :
      (q : ℕ) (n : MarktblNode)
      → view s.ht q ≡ some n
      → (rule_at s.rules (n.id - 1)).mode ≢ 0
      → n.mark ≡ (rule_at s.rules (n.id - 1)).mark
  -- The mark of a rule that is shared now belongs to that rule.
  pub owned :
      (i : ℕ)
      → i < length s.rules
      → (rule_at s.rules i).mode ≢ 0
      → (rule_at s.rules i).count ≢ 0
      → IsMark s (rule_at s.rules i).mark
        × ((q : ℕ) (n : MarktblNode)
            → view s.ht q ≡ some n
            → n.mark ≡ (rule_at s.rules i).mark
            → n.id ≡ suc i)
  pub apart :
      (i j : ℕ)
      → i < length s.rules
      → j < length s.rules
      → IsActive (rule_at s.rules i)
      → IsActive (rule_at s.rules j)
      → (rule_at s.rules i).mark ≡ (rule_at s.rules j).mark
      → i ≡ j

-- The index that free_mark and test_mark compute.
pub sub32-slot :
    (mark : ℕ) → 0x800 ≤ mark → slot mark < 0x20_0000 → sub32 (shift_down mark) 1 ≡ slot mark
sub32-slot mark h small = omega arith

pub slot-injective :
    (m m' : ℕ) → 0x800 ≤ m → 0x800 ≤ m' → m % 0x800 ≡ 0 → m' % 0x800 ≡ 0 → slot m ≡ slot m' → m ≡ m'
slot-injective m m' p p' r r' e = omega arith

-- A rule that has a node counts it.
pub count-pos :
    (s : Tables)
    → IsConsistent s
    → (q : ℕ) (n : MarktblNode) → view s.ht q ≡ some n
    → 0 < (rule_at s.rules (n.id - 1)).count
count-pos s c q n e =
    let (low, high, _) = c.marked q n e in
    let same : suc (n.id - 1) ≡ n.id = omega arith in
    let nodes : (rule_at s.rules (n.id - 1)).count ≡ total (uses n.id) s.ht =
      subst (λ i. (rule_at s.rules (n.id - 1)).count ≡ total (uses i) s.ht) same
        (c.counted (n.id - 1) (omega arith)) in
    omega (arith, total-uses_pos s.ht q n (omega (arith, c.shape.pos, c.shape.width)) e)

-- A rule without what the handlers keep in it.
abbrev pub settings : RuletblNode → RuletblNode
settings r = record r { mark = 0; count = 0 }

pub settings-set :
    (rules : List RuletblNode) (i j : ℕ) (r : RuletblNode)
    → settings r ≡ settings (rule_at rules i)
    → settings (rule_at (set rules i r) j) ≡ settings (rule_at rules j)
settings-set [] i j r h = refl
settings-set (x ∷ rules) zero zero r h = h
settings-set (x ∷ rules) zero (suc j) r h = refl
settings-set (x ∷ rules) (suc i) zero r h = refl
settings-set (x ∷ rules) (suc i) (suc j) r h = settings-set rules i j r h

-- A rule with a count has a node.
pub count_witness :
    (s : Tables)
    → IsConsistent s
    → (i : ℕ) → i < length s.rules
    → (rule_at s.rules i).count ≢ 0
    → (q : ℕ) × (n : MarktblNode) × (view s.ht q ≡ some n) × (n.id ≡ suc i)
count_witness s c i h used = uses-view s.ht (suc i) c.shape.placed (omega (arith, c.counted i h))

-- All the users of a rule in share mode have one mark.
pub users-share :
    (s : Tables)
    → IsConsistent s
    → (q q' : ℕ) (n n' : MarktblNode) → view s.ht q ≡ some n
    → view s.ht q' ≡ some n'
    → n.id ≡ n'.id
    → (rule_at s.rules (n.id - 1)).mode ≢ 0
    → n.mark ≡ n'.mark
users-share s c q q' n n' e e' ids mode =
    c.shared q n e mode
    ∙ sym (
        subst (λ j. (rule_at s.rules (j - 1)).mode ≢ 0 → n'.mark ≡ (rule_at s.rules (j - 1)).mark)
          (sym ids) (c.shared q' n' e') mode)
