-- ===== src/Init/Device.antt =====
-- What qmark_dev_init leaves, and that qmark_dev_exit takes it away.
use ip_qos.Base.{
  ℕ, Bool, suc, ◌≡◌, ◌≢◌, refl, true, false, Bool-cases, Option, none, some, inl, inr,
  if◌then◌else◌, ◌==◌, ==_refl,
}
use ip_qos.Init.{
  alloc_cdev_err, add_cdev_err, get_region, make_device, qmark_dev_init, remove_class, remove_cdev,
  qmark_dev_exit,
}
use ip_qos.Kernel.{Kernel, Status, ok, error, done, ◌>>=◌}
use ip_qos.Registry.{Registry, Handle, no_handle, released, held, error_handle, without}

-- Nothing of the device is registered.
abbrev pub IsBare : Registry → Type 0
IsBare r = (r.region ≡ none) × (r.qmark_cdev ≢ held) × (r.qmark_class ≢ held) × (r.device ≡ false)

-- The region of the major number, the device and its class are held.
abbrev pub HasDevice : Registry → Type 0
HasDevice r = (r.region ≡ some r.qmark_cdev_major) × (r.qmark_cdev ≡ held) × (r.qmark_class ≡ held)

-- The registry after qmark_dev_init, by its result; socket and notifier stay.
pub data DeviceMade (sock : Handle) (notifier : Bool) : Status → Registry → Type 0 where
  made :
      (r' : Registry)
      → HasDevice r'
      → r'.qmark_sock ≡ sock
      → r'.notifier ≡ notifier
      → DeviceMade sock notifier ok r'
  unmade :
      (r' : Registry)
      → IsBare r'
      → r'.qmark_sock ≡ sock
      → r'.notifier ≡ notifier
      → DeviceMade sock notifier error r'

abbrev pub with_registry : Kernel Registry → Registry → Kernel Registry
with_registry k r = record k { traffic = r }

without_self : (m : ℕ) → without m (some m) ≡ none
without_self m = rw (==_refl m) refl

abbrev pub without_device : Registry → Registry
without_device r = record r {
  region = none;
  qmark_cdev = no_handle;
  qmark_class = no_handle;
  device = false;
  qmark_cdev_major = 0;
}

without_region : (m : ℕ) (o : Option ℕ) → o ≡ some m → without m o ≡ none
without_region m o e = rw (e, ==_refl m) refl

module _ (k : Kernel Registry) where
  module _ (r : Registry) (devid : ℕ) (major : r.qmark_cdev_major ≡ devid)
      (region : r.region ≡ some devid) (no_class : r.qmark_class ≡ no_handle)
      (no_device : r.device ≡ false) where
    undone :
        (later : ℕ → Bool) (cdev class : Handle)
        → cdev ≢ held
        → class ≢ held
        → DeviceMade r.qmark_sock r.notifier error (record r {
          answers = later;
          region = without devid r.region;
          qmark_cdev = cdev;
          qmark_class = class;
        })
    undone later cdev class no_cdev unclassed =
        unmade _ (without_region devid r.region region, no_cdev, unclassed, no_device) refl refl

    done_with :
        (later : ℕ → Bool) (node : Bool)
        → DeviceMade r.qmark_sock r.notifier ok
            (record r { answers = later; qmark_cdev = held; qmark_class = held; device = node })
    done_with later node = made _ (rw major region, refl, refl) refl refl

    make_device_lem :
        (ret : Status) × (r' : Registry) × (make_device devid (with_registry k r)
          ≡ done (ret, with_registry k r'))
        × DeviceMade r.qmark_sock r.notifier ret r'
    unfolding make_device alloc_cdev_err add_cdev_err
    make_device_lem = elim (Bool-cases (r.answers 0)) [
      | inr no_cdev ↦
          rw no_cdev
            (error, _, refl, undone _ no_handle r.qmark_class (λ e. cc e) (λ e. cc (e, no_class)))
      | inl cdev ↦ elim (Bool-cases (r.answers 1)) [
        | inr not_added ↦
            rw (cdev, not_added)
              (error, _, refl, undone _ released r.qmark_class (λ e. cc e) (λ e. cc (e, no_class)))
        | inl added ↦ elim (Bool-cases (r.answers 2)) [
          | inr error_class ↦
              rw (cdev, added, error_class)
                (error, _, refl, undone _ released error_handle (λ e. cc e) (λ e. cc e))
          | inl class ↦ elim (Bool-cases (r.answers 3)) [
            | inr no_node ↦ rw (cdev, added, class, no_node) (ok, _, refl, done_with _ false)
            | inl node ↦ rw (cdev, added, class, node) (ok, _, refl, done_with _ true)
          ]
        ]
      ]
    ]

  -- Nothing of the device was ever made.
  module _ (r : Registry) (no_region : r.region ≡ none) (no_cdev : r.qmark_cdev ≡ no_handle)
      (no_class : r.qmark_class ≡ no_handle) (no_device : r.device ≡ false) where
    still_bare :
        (later : ℕ → Bool) (major : ℕ)
        → DeviceMade r.qmark_sock r.notifier error
            (record r { answers = later; qmark_cdev_major = major })
    still_bare later major =
        unmade _ (no_region, λ e. cc (e, no_cdev), λ e. cc (e, no_class), no_device) refl refl

    pub qmark_dev_init_lem :
        (ret : Status) × (r' : Registry) × (qmark_dev_init (with_registry k r)
          ≡ done (ret, with_registry k r'))
        × DeviceMade r.qmark_sock r.notifier ret r'
    unfolding qmark_dev_init get_region
    qmark_dev_init_lem = elim (Bool-cases (r.qmark_cdev_major == 0)) [
      | inl dynamic ↦ elim (Bool-cases (r.answers 0)) [
        | inr refused ↦ rw (dynamic, refused, ◌>>=◌, if◌then◌else◌) (error, _, refl, still_bare _ 0)
        | inl given ↦
            rw (dynamic, given, ◌>>=◌, if◌then◌else◌)
              (make_device_lem
                (record r {
                  answers = λ n. r.answers (suc n);
                  qmark_cdev_major = r.spare_major;
                  region = some r.spare_major;
                })
                r.spare_major refl refl no_class no_device)
      ]
      | inr fixed ↦ elim (Bool-cases (r.answers 0)) [
        | inr refused ↦
            rw (fixed, refused, ◌>>=◌, if◌then◌else◌)
              (error, _, refl, still_bare _ r.qmark_cdev_major)
        | inl given ↦
            rw (fixed, given, ◌>>=◌, if◌then◌else◌)
              (make_device_lem
                (record r { answers = λ n. r.answers (suc n); region = some r.qmark_cdev_major })
                r.qmark_cdev_major refl refl no_class no_device)
      ]
    ]

  -- qmark_dev_exit takes away what qmark_dev_init left.
  pub qmark_dev_exit_lem :
      (r : Registry)
      → HasDevice r
      → qmark_dev_exit (with_registry k r) ≡ done (tt, with_registry k (without_device r))
  unfolding qmark_dev_exit remove_class remove_cdev
  qmark_dev_exit_lem r h = rw (h.2, h.1, h.0, ==_refl, ◌>>=◌, if◌then◌else◌) refl
