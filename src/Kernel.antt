-- ===== src/Kernel.antt =====
-- The state of the mark table module and the monad its functions run in.
-- kmod/qos_marktbl_main.h and the globals of kmod/qos_marktbl_main.c; spinlocks, kmalloc and
-- pointers as the kernel's interface documents them.
use ip_qos.Base.{
  ℕ, suc, Bool, true, false, List, none, some, if◌then◌else◌, get_elem?, set, ltb, length,
}
use ip_qos.Base.Word.{sub32}

-- Return codes of kmod/qos_marktbl_main.h.
pub data Status : Type 0 where
  ok error count_nozero no_exist over_max alloc_fail exist : Status

-- `ret == OK`. All the other codes are negative.
abbrev pub is_ok : Status → Bool
is_ok ok = true
is_ok _ = false

-- What stops the kernel instead of returning.
pub data Fault : Type 0 where
  null_pointer use_after_free out_of_bounds deadlock division_by_zero : Fault

pub data Result {ℓ} (A : Type ℓ) : Type ℓ where
  done : A → Result A
  fault : Fault → Result A

-- A pointer that owns what it points at; `dangling` after a kfree that does not reset it.
pub data Pointer (A : Type 0) : Type 0 where
  null dangling : Pointer A
  live : A → Pointer A

pub record MarktblNode : Type 0 where
  pub src_ip : ℕ
  pub id : ℕ
  pub mark : ℕ
  pub count : ℕ

abbrev pub Chain : Type 0
Chain = List MarktblNode

pub record MarktblHead : Type 0 where
  pub elem_num : ℕ
  pub size : ℕ
  pub ht : List Chain
  pub lock : Bool

pub record RuletblNode : Type 0 where
  pub mode : ℕ
  pub mark : ℕ
  pub count : ℕ
  pub on : Bool
  pub devid : ℕ
  pub rate : ℕ
  pub rate_mate : ℕ
  pub rate_min : ℕ
  pub rate_min_mate : ℕ

-- The globals. `supply` decides the kmalloc calls to come; `Traffic` is the state of the traffic
-- control part, which this part hands on.
pub record Kernel (Traffic : Type 0) : Type 0 where
  pub marktbl : Pointer MarktblHead
  pub ruletbl : Pointer (List RuletblNode)
  pub bitmap : Pointer (List Bool)
  pub reset_flag : Bool
  pub op_lock : Bool
  pub max_ip_cnt : ℕ
  pub max_rule_cnt : ℕ
  pub supply : ℕ → Bool
  pub traffic : Traffic

abbrev pub M : Type 0 → Type 0 → Type 0
M T A = Kernel T → Result (A × Kernel T)

abbrev pub pure : {T A : Type 0} → A → M T A
pure a k = done (a, k)

infixl 5 ◌>>=◌ ◌>>◌
abbrev pub ◌>>=◌ : {T A B : Type 0} → M T A → (A → M T B) → M T B
◌>>=◌ m f k = elim (m k) [ done (a, k') ↦ f a k' | fault e ↦ fault e ]

abbrev pub ◌>>◌ : {T B : Type 0} → M T (Unit {0}) → M T B → M T B
m >> n = m >>= λ _. n

abbrev pub raise : {T A : Type 0} → Fault → M T A
raise e k = fault e

abbrev pub deref : {T A : Type 0} → Pointer A → M T A
deref null = raise null_pointer
deref dangling = raise use_after_free
deref (live a) = pure a

abbrev pub get_bounded : {T A : Type 0} → List A → ℕ → M T A
get_bounded xs i k = elim (get_elem? xs i) [ some a ↦ done (a, k) | none ↦ fault out_of_bounds ]

abbrev pub set_bounded : {T A : Type 0} → List A → ℕ → A → M T (List A)
set_bounded xs i v k = elim (ltb i (length xs)) [
  | true ↦ done (set xs i v, k)
  | false ↦ fault out_of_bounds
]

-- `spin_lock_bh(&qmark_op_lock)`: a second lock by the holder never returns.
abbrev pub lock_op : {T : Type 0} → M T (Unit {0})
lock_op k = elim k.op_lock [
  | true ↦ fault deadlock
  | false ↦ done (tt, record k { op_lock = true })
]

abbrev pub unlock_op : {T : Type 0} → M T (Unit {0})
unlock_op k = done (tt, record k { op_lock = false })

abbrev pub kmalloc : {T : Type 0} → M T Bool
kmalloc k = done (k.supply 0, record k { supply = λ n. k.supply (suc n) })

abbrev pub get_head : {T : Type 0} → M T MarktblHead
get_head k = deref k.marktbl k

abbrev pub put_head : {T : Type 0} → MarktblHead → M T (Unit {0})
put_head h k = done (tt, record k { marktbl = live h })

-- `spin_lock_bh(&head->lock)`
abbrev pub lock_head : {T : Type 0} → M T (Unit {0})
lock_head = do h ← get_head; if h.lock then raise deadlock else put_head (record h { lock = true })

abbrev pub unlock_head : {T : Type 0} → M T (Unit {0})
unlock_head = do h ← get_head; put_head (record h { lock = false })

-- `g_ruletbl[id-1]`; the index is computed in uint32_t.
abbrev pub get_rule : {T : Type 0} → ℕ → M T RuletblNode
get_rule id = do rules ← λ k. deref k.ruletbl k; get_bounded rules (sub32 id 1)

abbrev pub put_rule : {T : Type 0} → ℕ → RuletblNode → M T (Unit {0})
put_rule id r = do
  rules ← λ k. deref k.ruletbl k
  rules' ← set_bounded rules (sub32 id 1) r
  λ k. done (tt, record k { ruletbl = live rules' })
