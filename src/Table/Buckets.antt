-- ===== src/Table/Buckets.antt =====
-- The buckets together: where a node stands, how the table reads as a map from addresses to nodes,
-- and what a write to one bucket changes.
use ip_qos.Base.{
  ℕ, zero, suc, ◌+◌, ◌%◌, ◌≤◌, ◌<◌, ◌≡◌, ◌≢◌, refl, List, [], ◌∷◌, Option, none, some, length,
  get_or, set, replicate, length-set, get_or-set, get_or-replicate, if◌then◌else◌, ◌==◌, ==_iff,
  Bool-cases, inl, inr, arith,
}
use ip_qos.Hash.{hash_fn, key_bytes}
use ip_qos.Kernel.{MarktblNode, Chain}
use ip_qos.Table.{find}
use ip_qos.Table.Chains.{occurs, uses, uses-pos, uses_witness, occurs-pos}

-- The bucket of an address in a table of `size` buckets.
unfoldable pub home : ℕ → ℕ → ℕ
home ip size = hash_fn (key_bytes ip) 4 % size

pub home-lt : (ip size : ℕ) → 0 < size → home ip size < size
unfolding home
home-lt ip size h = omega arith

abbrev pub chain_of : List Chain → ℕ → Chain
chain_of ht ip = get_or ht (home ip (length ht)) []

-- The table as a map.
unfoldable pub view : List Chain → ℕ → Option MarktblNode
view ht q = find q (chain_of ht q)

-- An address has one node at most, and that in its home bucket.
abbrev pub IsPlaced : List Chain → Type 0
IsPlaced ht =
    (q i : ℕ)
    → (occurs q (get_or ht i []) ≤ 1) × (home q (length ht) ≢ i → occurs q (get_or ht i []) ≡ 0)

-- The sum of `f` over the buckets.
unfoldable pub total : (Chain → ℕ) → List Chain → ℕ
total f [] = 0
total f (c ∷ ht) = f c + total f ht

module _ (f : Chain → ℕ) where
  pub total-set :
      (ht : List Chain) (i : ℕ) (c : Chain)
      → i < length ht
      → total f (set ht i c) + f (get_or ht i []) ≡ total f ht + f c
  unfolding total
  total-set [] i c h = absurd (omega arith)
  total-set (x ∷ ht) zero c h = omega arith
  total-set (x ∷ ht) (suc i) c h = omega (arith, total-set ht i c (omega arith))

  pub get_or-le-total : (ht : List Chain) (i : ℕ) → i < length ht → f (get_or ht i []) ≤ total f ht
  unfolding total
  get_or-le-total [] i h = absurd (omega arith)
  get_or-le-total (x ∷ ht) zero h = omega arith
  get_or-le-total (x ∷ ht) (suc i) h = omega (arith, get_or-le-total ht i (omega arith))

  pub total-replicate : (n : ℕ) → f [] ≡ 0 → total f (replicate n []) ≡ 0
  unfolding total
  total-replicate zero h = refl
  total-replicate (suc n) h = omega (arith, total-replicate n h)

pub total_mono :
    (f g : Chain → ℕ) → ((c : Chain) → f c ≤ g c) → (ht : List Chain) → total f ht ≤ total g ht
unfolding total
total_mono f g le [] = omega arith
total_mono f g le (c ∷ ht) = omega (arith, le c, total_mono f g le ht)

-- A node of the map counts for its rule.
pub total-uses_pos :
    (ht : List Chain) (q : ℕ) (n : MarktblNode)
    → 0 < length ht
    → view ht q ≡ some n
    → 0 < total (uses n.id) ht
unfolding view
total-uses_pos ht q n pos h = omega (
  arith,
  uses-pos q (chain_of ht q) n h,
  get_or-le-total (uses n.id) ht (home q (length ht)) (home-lt q _ pos),
)

pub IsPlaced-replicate : (n : ℕ) → IsPlaced (replicate n [])
unfolding occurs
IsPlaced-replicate n q i = rw get_or-replicate (omega arith, λ _. refl)

pub view-replicate : (n q : ℕ) → view (replicate n []) q ≡ none
unfolding view find
view-replicate n q = rw get_or-replicate refl

-- All the writes replace the home chain of some address `k` by a chain `c`.
module _ (ht : List Chain) (k : ℕ) (c : Chain) (pos : 0 < length ht) where
  abbrev written : List Chain
  written = set ht (home k (length ht)) c

  pub set-IsPlaced :
      IsPlaced ht
      → ((q : ℕ) → occurs q c ≤ 1)
      → ((q : ℕ) → home q (length ht) ≢ home k (length ht) → occurs q c ≡ 0)
      → IsPlaced written
  set-IsPlaced placed once apart q i =
      rw (length-set, get_or-set ht (home k (length ht)) i c [] (home-lt k _ pos))
        (ground (arith, placed q i, once q, apart q))

  -- The map changes where the chain reads differently.
  pub view-set :
      (v : Option MarktblNode)
      → ((q : ℕ) → find q c ≡ (if k == q then v else find q (chain_of ht k)))
      → (q : ℕ) → view written q ≡ (if k == q then v else view ht q)
  unfolding view
  view-set v reads q =
      rw (length-set, get_or-set ht (home k (length ht)) _ c [] (home-lt k _ pos))
        (ground (arith, reads q))

total_witness :
    (f : Chain → ℕ) (ht : List Chain) → 0 < total f ht → (i : ℕ) × (0 < f (get_or ht i []))
unfolding total
total_witness f [] h = absurd (omega arith)
total_witness f (c ∷ ht) h = elim (Bool-cases (f c == 0)) [
  | inl empty ↦
      let (i, there) = total_witness f ht (omega (arith, (==_iff (f c) 0).0 empty)) in
      (suc i, there)
  | inr full ↦ (0, ground arith)
]

-- A rule that counts a node has one in the map.
pub uses-view :
    (ht : List Chain) (id : ℕ)
    → IsPlaced ht
    → 0 < total (uses id) ht
    → (q : ℕ) × (n : MarktblNode) × (view ht q ≡ some n) × (n.id ≡ id)
unfolding view
uses-view ht id placed h =
    let (i, there) = total_witness (uses id) ht h in
    let (q, n, found, same) = uses_witness id (get_or ht i []) (λ q. (placed q i).0) there in
    elim (Bool-cases (home q (length ht) == i)) [
      | inl home_here ↦ (q, n, rw ((==_iff _ i).0 home_here) found, same)
      | inr away ↦ absurd (
          omega (
            arith,
            occurs-pos q (get_or ht i []) n found,
            (placed q i).1 (ground (arith, ==_iff (home q (length ht)) i)),
          ))
    ]
