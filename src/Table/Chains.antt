-- ===== src/Table/Chains.antt =====
-- One chain: what find sees after a deletion and after a write through a node pointer, and how
-- many nodes a key and a rule have.
use ip_qos.Base.{
  ℕ, ◌+◌, ◌≤◌, ◌<◌, ◌≡◌, refl, Bool, true, false, [], ◌∷◌, none, some, length, if◌then◌else◌, ◌==◌,
  ==_refl, ==_iff, Bool-cases, inl, inr, arith,
}
use ip_qos.Kernel.{MarktblNode, Chain}
use ip_qos.Table.{find, hlist_del, set_count}

abbrev pub to_nat : Bool → ℕ
to_nat true = 1
to_nat false = 0

-- The nodes of one address, and those of one rule.
unfoldable pub occurs : ℕ → Chain → ℕ
occurs q [] = 0
occurs q (n ∷ c) = to_nat (n.src_ip == q) + occurs q c

unfoldable pub uses : ℕ → Chain → ℕ
uses id [] = 0
uses id (n ∷ c) = to_nat (n.id == id) + uses id c

pub uses-le-length : (id : ℕ) (c : Chain) → uses id c ≤ length c
unfolding uses
uses-le-length id [] = omega arith
uses-le-length id (n ∷ c) = ground (arith, uses-le-length id c)

pub find-eq-none : (q : ℕ) (c : Chain) → occurs q c ≡ 0 → find q c ≡ none
unfolding occurs find
find-eq-none q [] h = refl
find-eq-none q (n ∷ c) h = ground (arith, find-eq-none q c)

pub occurs-eq-zero : (q : ℕ) (c : Chain) → find q c ≡ none → occurs q c ≡ 0
unfolding occurs find
occurs-eq-zero q [] h = refl
occurs-eq-zero q (n ∷ c) h = ground (arith, occurs-eq-zero q c)

pub find-src_ip : (q : ℕ) (c : Chain) (n : MarktblNode) → find q c ≡ some n → n.src_ip ≡ q
unfolding find
find-src_ip q [] n h = ground arith
find-src_ip q (m ∷ c) n h = ground (arith, find-src_ip q c n)

pub uses-pos : (q : ℕ) (c : Chain) (n : MarktblNode) → find q c ≡ some n → 0 < uses n.id c
unfolding find uses
uses-pos q [] n h = ground arith
uses-pos q (m ∷ c) n h = ground (arith, uses-pos q c n)

module _ (k : ℕ) where
  pub occurs-hlist_del-le : (q : ℕ) (c : Chain) → occurs q (hlist_del k c) ≤ occurs q c
  unfolding occurs hlist_del
  occurs-hlist_del-le q [] = omega arith
  occurs-hlist_del-le q (n ∷ c) = ground (arith, occurs-hlist_del-le q c)

  pub find-hlist_del :
      (q : ℕ) (c : Chain)
      → occurs q c ≤ 1
      → find q (hlist_del k c) ≡ (if k == q then none else find q c)
  unfolding find hlist_del occurs
  find-hlist_del q [] h = ground arith
  find-hlist_del q (n ∷ c) h = ground (arith, find-hlist_del q c, find-eq-none q c)

  pub uses-hlist_del :
      (id : ℕ) (c : Chain) (n : MarktblNode)
      → find k c ≡ some n
      → uses id (hlist_del k c) + to_nat (n.id == id) ≡ uses id c
  unfolding find hlist_del uses
  uses-hlist_del id [] n h = ground arith
  uses-hlist_del id (m ∷ c) n h = ground (arith, uses-hlist_del id c n)

  pub length-hlist_del :
      (c : Chain) (n : MarktblNode) → find k c ≡ some n → length (hlist_del k c) + 1 ≡ length c
  unfolding find hlist_del
  length-hlist_del [] n h = ground arith
  length-hlist_del (m ∷ c) n h = ground (arith, length-hlist_del c n)

  module _ (v : ℕ) where
    pub find-set_count :
        (q : ℕ) (c : Chain) (n : MarktblNode)
        → find k c ≡ some n
        → find q (set_count k v c) ≡ (if k == q then some (record n { count = v }) else find q c)
    unfolding find set_count
    find-set_count q [] n h = ground arith
    find-set_count q (m ∷ c) n h = ground (arith, find-set_count q c n)

    pub occurs-set_count : (q : ℕ) (c : Chain) → occurs q (set_count k v c) ≡ occurs q c
    unfolding occurs set_count
    occurs-set_count q [] = refl
    occurs-set_count q (n ∷ c) = ground (arith, occurs-set_count q c)

    pub uses-set_count : (id : ℕ) (c : Chain) → uses id (set_count k v c) ≡ uses id c
    unfolding uses set_count
    uses-set_count id [] = refl
    uses-set_count id (n ∷ c) = ground (arith, uses-set_count id c)

    pub length-set_count : (c : Chain) → length (set_count k v c) ≡ length c
    unfolding set_count
    length-set_count [] = refl
    length-set_count (n ∷ c) = ground (arith, length-set_count c)

pub occurs-pos : (q : ℕ) (c : Chain) (n : MarktblNode) → find q c ≡ some n → 0 < occurs q c
unfolding occurs find
occurs-pos q [] n h = ground arith
occurs-pos q (m ∷ c) n h = ground (arith, occurs-pos q c n)

-- A rule that has a node in the chain has one that find sees.
pub uses_witness :
    (id : ℕ) (c : Chain)
    → ((q : ℕ) → occurs q c ≤ 1)
    → 0 < uses id c
    → (q : ℕ) × (n : MarktblNode) × (find q c ≡ some n) × (n.id ≡ id)
unfolding occurs uses find
uses_witness id [] once h = absurd (omega arith)
uses_witness id (m ∷ c) once h = elim (Bool-cases (m.id == id)) [
  | inl mine ↦ (m.src_ip, m, rw (==_refl m.src_ip), (==_iff m.id id).0 mine)
  | inr other ↦
      let (q, n, found, same) =
        uses_witness id c (λ q. omega (arith, once q)) (omega (arith, rw other at h)) in
      (q, n, ground (arith, once q, occurs-pos q c n found, found), same)
]
