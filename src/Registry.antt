-- ===== src/Registry.antt =====
-- What the kernel holds for the module beside its tables, and the calls that register and release
-- it: the device numbers, the character device, its class and node, the netlink socket and the
-- conntrack notifier.
-- The globals of kmod/qos_marktbl_ioctl.c and qmark_sock of kmod/qos_marktbl_tc.c; the calls are
-- the kernel's, as its interface documents them. `answers` decides the calls to come.
use ip_qos.Base.{ℕ, suc, Bool, true, false, Option, none, some, if◌then◌else◌, ◌==◌}
use ip_qos.Kernel.{M, done, null_pointer, use_after_free, pure, raise, ◌>>=◌, ◌>>◌}

-- A pointer that the kernel gave: null, an ERR_PTR, an object that was released, or a held one.
pub data Handle : Type 0 where
  no_handle error_handle released held : Handle

pub record Registry : Type 0 where
  pub answers : ℕ → Bool
  -- The number that alloc_chrdev_region gives.
  pub spare_major : ℕ
  pub qmark_cdev_major : ℕ
  -- The major number whose region is registered.
  pub region : Option ℕ
  pub qmark_cdev : Handle
  pub qmark_class : Handle
  -- /dev/qmarkctl
  pub device : Bool
  pub qmark_sock : Handle
  pub notifier : Bool

abbrev pub I : Type 0 → Type 0
I A = M Registry A

abbrev pub registry : I Registry
registry k = done (k.traffic, k)

abbrev pub put_registry : Registry → I (Unit {0})
put_registry r k = done (tt, record k { traffic = r })

-- The next call succeeds or fails.
abbrev pub ask : I Bool
ask k = done (
  k.traffic.answers 0,
  record k { traffic = record k.traffic { answers = λ n. k.traffic.answers (suc n) } },
)

abbrev pub is_no_handle : Handle → Bool
is_no_handle no_handle = true
is_no_handle _ = false

-- IS_ERR
abbrev pub is_error_handle : Handle → Bool
is_error_handle error_handle = true
is_error_handle _ = false

-- A release of what `h` points at.
abbrev pub put_handle : Handle → I (Unit {0})
put_handle held = pure tt
put_handle released = raise use_after_free
put_handle _ = raise null_pointer

-- register_chrdev_region for major number `m`
abbrev pub register_chrdev_region : ℕ → I Bool
register_chrdev_region m = do
  given ← ask
  r ← registry
  if given then (do put_registry (record r { region = some m }); pure true) else pure false

-- alloc_chrdev_region, with the major number that it writes; on failure that is 0.
abbrev pub alloc_chrdev_region : I (Bool × ℕ)
alloc_chrdev_region = do
  given ← ask
  r ← registry
  if given
      then (do put_registry (record r { region = some r.spare_major }); pure (true, r.spare_major))
      else pure (false, 0)

abbrev pub without : ℕ → Option ℕ → Option ℕ
without m none = none
without m (some n) = if m == n then none else some n

-- It ignores a region that is not registered.
abbrev pub unregister_chrdev_region : ℕ → I (Unit {0})
unregister_chrdev_region m = do
  r ← registry
  put_registry (record r { region = without m r.region })

abbrev pub cdev_alloc : I (Unit {0})
cdev_alloc = do
  given ← ask
  r ← registry
  put_registry (record r { qmark_cdev = if given then held else no_handle })

-- The last reference goes with it, so the object is freed.
abbrev pub cdev_del : I (Unit {0})
cdev_del = do
  r ← registry
  put_handle r.qmark_cdev
  put_registry (record r { qmark_cdev = released })

-- It returns an ERR_PTR on failure, never null.
abbrev pub class_create : I (Unit {0})
class_create = do
  given ← ask
  r ← registry
  put_registry (record r { qmark_class = if given then held else error_handle })

-- It does nothing for null and for an ERR_PTR.
abbrev pub class_destroy : I (Unit {0})
class_destroy = do
  r ← registry
  elim r.qmark_class [
    | no_handle ↦ pure tt
    | error_handle ↦ pure tt
    | released ↦ raise use_after_free
    | held ↦ put_registry (record r { qmark_class = released })
  ]

-- It returns an ERR_PTR on failure, never null.
abbrev pub device_create : I Handle
device_create = do
  given ← ask
  r ← registry
  put_registry (record r { device = given })
  pure (if given then held else error_handle)

abbrev pub device_destroy : I (Unit {0})
device_destroy = do r ← registry; put_registry (record r { device = false })

abbrev pub sock_create_kern : I Bool
sock_create_kern = do
  given ← ask
  r ← registry
  if given then (do put_registry (record r { qmark_sock = held }); pure true) else pure false

abbrev pub sock_release : I (Unit {0})
sock_release = do
  r ← registry
  put_handle r.qmark_sock
  put_registry (record r { qmark_sock = released })

abbrev pub nf_conntrack_register_notifier : I Bool
nf_conntrack_register_notifier = do
  given ← ask
  r ← registry
  put_registry (record r { notifier = given })
  pure given

abbrev pub nf_conntrack_unregister_notifier : I (Unit {0})
nf_conntrack_unregister_notifier = do r ← registry; put_registry (record r { notifier = false })
