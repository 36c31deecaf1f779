-- ===== src/Init.antt =====
-- Loading and unloading the module.
-- kmod/qos_marktbl_main.c, qos_marktbl_init and _exit; kmod/qos_marktbl_ioctl.c, qmark_dev_init
-- and _exit; kmod/qos_marktbl_tc.c, qmark_tc_sock_init and _exit. A label that a goto leads to is a
-- function. Any negative result of the kernel's calls is `error` here. The conntrack events are
-- configured.
pub mod Device
pub mod Socket
pub mod Clean
pub mod Steps
pub mod Outcome
use ip_qos.Base.{ℕ, Bool, true, false, not, if◌then◌else◌, ◌==◌}
use ip_qos.Bitmap.{mark_bitmap_init, mark_bitmap_exit}
use ip_qos.Kernel.{M, Status, ok, error, done, pure, ◌>>=◌, ◌>>◌, is_ok}
use ip_qos.Registry.{
  Registry, I, no_handle, registry, put_registry, ask, is_no_handle, is_error_handle,
  register_chrdev_region, alloc_chrdev_region, unregister_chrdev_region, cdev_alloc, cdev_del,
  class_create, class_destroy, device_create, device_destroy, sock_create_kern, sock_release,
  nf_conntrack_register_notifier, nf_conntrack_unregister_notifier,
}
use ip_qos.Rules.{qos_ruletbl_init, qos_ruletbl_exit}
use ip_qos.Table.Setup.{qos_marktbl_hashtbl_init, qos_marktbl_hashtbl_exit}

-- The labels of qmark_dev_init, for the major number `devid`.
unfoldable pub alloc_cdev_err : ℕ → I Status
alloc_cdev_err devid = do unregister_chrdev_region devid; pure error

unfoldable pub add_cdev_err : ℕ → I Status
unfolding alloc_cdev_err
add_cdev_err devid = do cdev_del; alloc_cdev_err devid

unfoldable pub create_device_err : ℕ → I Status
unfolding add_cdev_err
create_device_err devid = do class_destroy; add_cdev_err devid

-- The device number that qmark_dev_init gets.
unfoldable pub get_region : I (Bool × ℕ)
get_region = do
  r ← registry
  if r.qmark_cdev_major == 0
      then (do
        (given, devid) ← alloc_chrdev_region
        r' ← registry
        put_registry (record r' { qmark_cdev_major = devid })
        pure (given, devid))
      else (do given ← register_chrdev_region r.qmark_cdev_major; pure (given, r.qmark_cdev_major))

-- `owner` and `ops` of the device are left out.
unfoldable pub make_device : ℕ → I Status
unfolding alloc_cdev_err add_cdev_err create_device_err
make_device devid = do
  cdev_alloc
  r ← registry
  if is_no_handle r.qmark_cdev then alloc_cdev_err devid else do
    added ← ask
    if not added then add_cdev_err devid else do
      class_create
      r' ← registry
      if is_error_handle r'.qmark_class then add_cdev_err devid else do
        made ← device_create
        if is_no_handle made then create_device_err devid else pure ok

unfoldable pub qmark_dev_init : I Status
unfolding get_region make_device
qmark_dev_init = do (given, devid) ← get_region; if given then make_device devid else pure error

unfoldable pub remove_class : I (Unit {0})
remove_class = do
  device_destroy
  class_destroy
  r ← registry
  put_registry (record r { qmark_class = no_handle })

unfoldable pub remove_cdev : I (Unit {0})
remove_cdev = do
  cdev_del
  r ← registry
  unregister_chrdev_region r.qmark_cdev_major
  r' ← registry
  put_registry (record r' { qmark_cdev = no_handle; qmark_cdev_major = 0 })

unfoldable pub qmark_dev_exit : I (Unit {0})
unfolding remove_class remove_cdev
qmark_dev_exit = do
  r ← registry
  if is_no_handle r.qmark_class then pure tt else remove_class
  r' ← registry
  if is_no_handle r'.qmark_cdev then pure tt else remove_cdev

unfoldable pub qmark_tc_sock_exit : I (Unit {0})
qmark_tc_sock_exit = do
  r ← registry
  if is_no_handle r.qmark_sock
      then pure tt
      else (do sock_release; r' ← registry; put_registry (record r' { qmark_sock = no_handle }))

-- The label of qmark_tc_sock_init.
unfoldable pub sock_exit : I Status
unfolding qmark_tc_sock_exit
sock_exit = do qmark_tc_sock_exit; pure error

-- After sock_create_kern come kernel_setsockopt twice, kernel_bind and kernel_getsockname, and the
-- tests of the length and the family of the address that it wrote: six answers.
unfoldable pub qmark_tc_sock_init : I Status
unfolding sock_exit
qmark_tc_sock_init = do
  created ← sock_create_kern
  if not created then sock_exit else do
    sndbuf ← ask
    if not sndbuf then sock_exit else do
      rcvbuf ← ask
      if not rcvbuf then sock_exit else do
        bound ← ask
        if not bound then sock_exit else do
          named ← ask
          if not named then sock_exit else do
            long ← ask
            if not long
                then sock_exit
                else do netlink ← ask; if not netlink then sock_exit else pure ok

-- The labels of qos_marktbl_init, which returns `ret`. Its label sock_exit is `bitmap_label` here.
unfoldable pub bitmap_label : Status → I Status
bitmap_label ret = do mark_bitmap_exit; pure ret

unfoldable pub dev_label : Status → I Status
unfolding bitmap_label
dev_label ret = do qmark_tc_sock_exit; bitmap_label ret

unfoldable pub ruletbl_label : Status → I Status
unfolding dev_label
ruletbl_label ret = do qmark_dev_exit; dev_label ret

unfoldable pub marktbl_label : Status → I Status
unfolding ruletbl_label
marktbl_label ret = do qos_ruletbl_exit; ruletbl_label ret

unfoldable pub ctnotifier_label : Status → I Status
unfolding marktbl_label
ctnotifier_label ret = do qos_marktbl_hashtbl_exit; marktbl_label ret

-- The calls of qos_marktbl_init, each with those that follow it.
unfoldable pub init_notifier : I Status
unfolding ctnotifier_label
init_notifier = do
  registered ← nf_conntrack_register_notifier
  if registered then pure ok else ctnotifier_label error

unfoldable pub init_marktbl : I Status
unfolding init_notifier
init_marktbl = do
  ret ← qos_marktbl_hashtbl_init
  if is_ok ret then init_notifier else marktbl_label ret

unfoldable pub init_ruletbl : I Status
unfolding init_marktbl
init_ruletbl = do ret ← qos_ruletbl_init; if is_ok ret then init_marktbl else ruletbl_label ret

unfoldable pub init_dev : I Status
unfolding init_ruletbl
init_dev = do ret ← qmark_dev_init; if is_ok ret then init_ruletbl else dev_label ret

unfoldable pub init_sock : I Status
unfolding init_dev
init_sock = do ret ← qmark_tc_sock_init; if is_ok ret then init_dev else bitmap_label ret

unfoldable pub qos_marktbl_init : I Status
unfolding init_sock
qos_marktbl_init = do
  λ k. done (tt, record k { op_lock = false })
  max_ip_cnt ← λ k. done (k.max_ip_cnt, k)
  ret ← mark_bitmap_init max_ip_cnt
  if is_ok ret then init_sock else pure ret

unfoldable pub qos_marktbl_exit : I (Unit {0})
qos_marktbl_exit = do
  nf_conntrack_unregister_notifier
  qos_marktbl_hashtbl_exit
  qos_ruletbl_exit
  qmark_dev_exit
  qmark_tc_sock_exit
  mark_bitmap_exit
