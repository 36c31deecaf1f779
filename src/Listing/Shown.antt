-- ===== src/Listing/Shown.antt =====
-- The listings on tables that are up, and what the list of nodes has to do with the table.
use ip_qos.Base.{
  ℕ, zero, suc, ◌+◌, ◌*◌, ◌%◌, ◌≤◌, ◌<◌, ◌≡◌, ◌∙◌, refl, ap, sym, Bool, true, false, ◌||◌, List, [],
  ◌∷◌, ◌++◌, none, some, length, get_or, if◌then◌else◌, ◌==◌, ==_iff, Bool-cases, Option-cases, inl,
  inr, get_elem?-get_or, arith,
}
use ip_qos.Base.Word.{u32_mod}
use ip_qos.Bitmap.Laws.{bit}
use ip_qos.Consistent.{IsShaped, rule_at}
use ip_qos.Kernel.{Kernel, MarktblNode, RuletblNode, Chain, done, get_bounded, live, ◌>>=◌}
use ip_qos.Listing.{
  list_chains, list_rules, list_marks, marktbl_hash_list, qmark_list_rule, qmark_list_hash,
  qmark_dump,
}
use ip_qos.Rules.{zero_rule}
use ip_qos.State.{Tables, up, idle, busy}
use ip_qos.Table.{find}
use ip_qos.Table.Buckets.{home, home-lt, view, total, IsPlaced}
use ip_qos.Table.Chains.{find-eq-none}

-- The buckets from `i` on, one after another.
unfoldable pub nodes_from : ℕ → ℕ → List Chain → List MarktblNode
nodes_from zero i ht = []
nodes_from (suc left) i ht = get_or ht i [] ++ nodes_from left (suc i) ht

unfoldable pub rules_from : Bool → ℕ → ℕ → List RuletblNode → List (ℕ × RuletblNode)
rules_from all zero i rules = []
rules_from all (suc left) i rules =
    let later = rules_from all left (suc i) rules in
    if all || (rule_at rules i).on then (suc i, rule_at rules i) ∷ later else later

unfoldable pub marks_from : ℕ → ℕ → List Bool → List (ℕ × ℕ)
marks_from zero i bits = []
marks_from (suc left) i bits =
    let later = marks_from left (suc i) bits in
    if bit bits i then (suc i, suc i * 0x800 % u32_mod) ∷ later else later

module _ {T : Type 0} (k : Kernel T) where
  list_chains_run :
      (left i n size : ℕ) (ht : List Chain) (lock : Bool)
      → i + left ≤ length ht
      → list_chains left i
          (record k { marktbl = live (record { elem_num = n; size = size; ht = ht; lock = lock }) })
        ≡ done (
          nodes_from left i ht,
          record k { marktbl = live (record { elem_num = n; size = size; ht = ht; lock = lock }) },
        )
  unfolding list_chains nodes_from
  list_chains_run zero i n size ht lock h = refl
  list_chains_run (suc left) i n size ht lock h =
      rw (get_elem?-get_or ht i [] (omega arith), ◌>>=◌, get_bounded)
        (rw (list_chains_run left (suc i) n size ht lock (omega arith), ◌>>=◌) refl)

  list_rules_run :
      (all : Bool) (left i : ℕ) (rules : List RuletblNode)
      → i + left ≤ length rules
      → list_rules all left i (record k { ruletbl = live rules })
        ≡ done (rules_from all left i rules, record k { ruletbl = live rules })
  unfolding list_rules rules_from
  list_rules_run all zero i rules h = refl
  list_rules_run all (suc left) i rules h =
      rw (get_elem?-get_or rules i zero_rule (omega arith), ◌>>=◌, get_bounded)
        (rw (list_rules_run all left (suc i) rules (omega arith), ◌>>=◌) refl)

  list_marks_run :
      (left i : ℕ) (bits : List Bool)
      → i + left ≤ length bits
      → list_marks left i (record k { bitmap = live bits })
        ≡ done (marks_from left i bits, record k { bitmap = live bits })
  unfolding list_marks marks_from
  list_marks_run zero i bits h = refl
  list_marks_run (suc left) i bits h =
      rw (get_elem?-get_or bits i false (omega arith), ◌>>=◌, get_bounded)
        (rw (list_marks_run left (suc i) bits (omega arith), ◌>>=◌) refl)

length-++ : (c d : Chain) → length (c ++ d) ≡ length c + length d
length-++ [] d = omega arith
length-++ (n ∷ c) d = omega (arith, length-++ c d)

nodes_from-suc :
    (left i : ℕ) (c : Chain) (ht : List Chain)
    → nodes_from left (suc i) (c ∷ ht) ≡ nodes_from left i ht
unfolding nodes_from
nodes_from-suc zero i c ht = refl
nodes_from-suc (suc left) i c ht =
    ap (λ later. get_or ht i [] ++ later) (nodes_from-suc left (suc i) c ht)

length-nodes_from : (ht : List Chain) → length (nodes_from (length ht) 0 ht) ≡ total length ht
unfolding nodes_from total
length-nodes_from [] = refl
length-nodes_from (c ∷ ht) =
    length-++ c (nodes_from (length ht) 1 (c ∷ ht))
    ∙ ap (λ n. length c + n) (ap length (nodes_from-suc (length ht) 0 c ht) ∙ length-nodes_from ht)

module _ (q : ℕ) where
  find-++_some : (c d : Chain) (n : MarktblNode) → find q c ≡ some n → find q (c ++ d) ≡ some n
  unfolding find
  find-++_some [] d n h = ground arith
  find-++_some (m ∷ c) d n h = ground (arith, find-++_some c d n)

  find-++_none : (c d : Chain) → find q c ≡ none → find q (c ++ d) ≡ find q d
  unfolding find
  find-++_none [] d h = refl
  find-++_none (m ∷ c) d h = ground (arith, find-++_none c d)

  module _ (ht : List Chain) (placed : IsPlaced ht) where
    abbrev at_home : ℕ
    at_home = home q (length ht)

    -- Of the buckets from `i` on.
    find_past : (left i : ℕ) → at_home < i → find q (nodes_from left i ht) ≡ none
    unfolding nodes_from find
    find_past zero i h = refl
    find_past (suc left) i h =
        find-++_none (get_or ht i []) (nodes_from left (suc i) ht)
          (find-eq-none q (get_or ht i []) ((placed q i).1 (omega arith)))
        ∙ find_past left (suc i) (omega arith)

    find_home :
        (left i : ℕ) → i ≤ at_home → at_home < i + left → find q (nodes_from left i ht) ≡ view ht q
    unfolding nodes_from find view
    find_home zero i h g = absurd (omega arith)
    find_home (suc left) i h g = elim (Bool-cases (i == at_home)) [
      | inl here ↦ elim (Option-cases (find q (get_or ht at_home []))) [
        | inl missing ↦ rw ((==_iff i at_home).0 here) (
            find-++_none (get_or ht at_home []) (nodes_from left (suc at_home) ht) missing
            ∙ find_past left (suc at_home) (omega arith)
            ∙ sym missing)
        | inr (n, found) ↦ rw ((==_iff i at_home).0 here) (
            find-++_some (get_or ht at_home []) (nodes_from left (suc at_home) ht) n found
            ∙ sym found)
      ]
      | inr before ↦
          find-++_none (get_or ht i []) (nodes_from left (suc i) ht)
            (find-eq-none q (get_or ht i []) ((placed q i).1 (ground (arith, ==_iff i at_home))))
          ∙ find_home left (suc i) (ground (arith, ==_iff i at_home)) (omega arith)
    ]

-- The nodes that a listing shows.
abbrev pub nodes_of : Tables → List MarktblNode
nodes_of s = nodes_from s.size 0 s.ht

abbrev pub rules_of : Bool → Tables → List (ℕ × RuletblNode)
rules_of all s = rules_from all s.max_rule_cnt 0 s.rules

abbrev pub marks_of : Tables → List (ℕ × ℕ)
marks_of s = marks_from s.max_ip_cnt 0 s.bits

module _ {T : Type 0} (k : Kernel T) (s : Tables) (shape : IsShaped s) where
  marktbl_hash_list_run : marktbl_hash_list (up k s) ≡ done (nodes_of s, up k s)
  unfolding marktbl_hash_list
  marktbl_hash_list_run =
      rw
        (
          list_chains_run (up k s) s.size 0 s.elem_num s.size s.ht true
              (omega (arith, shape.width)),
          ◌>>=◌,
        )
        refl

  pub qmark_list_rule_run : qmark_list_rule (up (idle k) s) ≡ done (rules_of true s, up (idle k) s)
  unfolding qmark_list_rule
  qmark_list_rule_run =
      rw
        (
          list_rules_run (up (busy k) s) true s.max_rule_cnt 0 s.rules
              (omega (arith, shape.rules_width)),
          ◌>>=◌,
        )
        refl

module _ {T : Type 0} (k : Kernel T) (s : Tables) (shape : IsShaped s) where
  pub qmark_list_hash_run : qmark_list_hash (up (idle k) s) ≡ done (nodes_of s, up (idle k) s)
  unfolding qmark_list_hash
  qmark_list_hash_run = rw (marktbl_hash_list_run (busy k) s shape, ◌>>=◌) refl

  pub qmark_dump_run :
      qmark_dump (up (idle k) s) ≡ done ((rules_of false s, nodes_of s, marks_of s), up (idle k) s)
  unfolding qmark_dump
  qmark_dump_run =
      rw
        (
          list_rules_run (up (busy k) s) false s.max_rule_cnt 0 s.rules
              (omega (arith, shape.rules_width)),
          ◌>>=◌,
          marktbl_hash_list_run (busy k) s shape,
          ◌>>=◌,
          list_marks_run (up (busy k) s) s.max_ip_cnt 0 s.bits (omega (arith, shape.bits_width)),
          ◌>>=◌,
        )
        refl

  find-nodes_of : (q : ℕ) → find q (nodes_of s) ≡ view s.ht q
  find-nodes_of q = rw (← shape.width) (
      find_home q s.ht shape.placed (length s.ht) 0 (omega arith)
        (omega (arith, home-lt q (length s.ht), shape.pos, shape.width)))

  length-nodes_of : length (nodes_of s) ≡ s.elem_num
  length-nodes_of = rw (← shape.width) (length-nodes_from s.ht) ∙ shape.elems

  -- On well-shaped tables with the lock free, qmark_list_rule, qmark_list_hash and qmark_dump
  -- return, change nothing and show the rules, or those that are on, the nodes and the marks whose
  -- bits are set; the nodes shown are as many as elem_num says, and the first one shown of any
  -- address is the node that a lookup of it finds.
  pub qmark_dump_lem :
      (nodes : List MarktblNode) × (qmark_list_rule (up (idle k) s)
        ≡ done (rules_of true s, up (idle k) s))
      × (qmark_list_hash (up (idle k) s) ≡ done (nodes, up (idle k) s))
      × (qmark_dump (up (idle k) s) ≡ done ((rules_of false s, nodes, marks_of s), up (idle k) s))
      × ((q : ℕ) → find q nodes ≡ view s.ht q)
      × (length nodes ≡ s.elem_num)
  qmark_dump_lem = (
    nodes_of s,
    qmark_list_rule_run k s shape,
    qmark_list_hash_run,
    qmark_dump_run,
    find-nodes_of,
    length-nodes_of,
  )
