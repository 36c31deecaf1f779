-- ===== src/Tests/Loading.antt =====
-- Loading and unloading the module at concrete answers of the kernel.
use ip_qos.Base.{◌≡◌, refl, true, false, none, ◌==◌, not, arith}
use ip_qos.Consistent.{IsConsistent}
use ip_qos.Init.{
  qos_marktbl_init, init_sock, init_dev, init_ruletbl, init_marktbl, init_notifier, get_region,
  make_device, qmark_dev_init, qmark_tc_sock_init, bitmap_label, dev_label, qmark_tc_sock_exit,
  add_cdev_err, alloc_cdev_err,
}
use ip_qos.Init.Clean.{Ends, tables_of}
use ip_qos.Init.Outcome.{IsUnloaded, Unloads, qos_marktbl_init_lem, load_unload}
use ip_qos.Bitmap.{mark_bitmap_init, mark_bitmap_exit}
use ip_qos.Rules.{qos_ruletbl_init}
use ip_qos.Table.Setup.{qos_marktbl_hashtbl_init}
use ip_qos.Kernel.{Kernel, null, done, Status, ok, error, Result}
use ip_qos.Registry.{Registry, no_handle}

abbrev nothing : Registry
nothing = record {
  answers = λ n. true;
  spare_major = 250;
  qmark_cdev_major = 0;
  region = none;
  qmark_cdev = no_handle;
  qmark_class = no_handle;
  device = false;
  qmark_sock = no_handle;
  notifier = false;
}

-- With the sizes of kmod/qos_marktbl_main.h.
abbrev unloaded : Kernel Registry
unloaded = record {
  marktbl = null;
  ruletbl = null;
  bitmap = null;
  reset_flag = false;
  op_lock = false;
  max_ip_cnt = 4096;
  max_rule_cnt = 128;
  supply = λ n. true;
  traffic = nothing;
}

unloaded-IsUnloaded : IsUnloaded unloaded
unloaded-IsUnloaded = record {
  ip_cnt_small = omega arith;
  rule_cnt_small = omega arith;
  marktbl_null = refl;
  ruletbl_null = refl;
  region_none = refl;
  cdev_null = refl;
  class_null = refl;
  device_absent = refl;
  sock_null = refl;
  notifier_absent = refl;
}

abbrev status_of : Result (Status × Kernel Registry) → Status
status_of (done (ret, k)) = ret
status_of _ = ok

-- The kernel answers the twelfth call, device_create, with an error: the module is loaded all the
-- same.
no_node :
    status_of (
      qos_marktbl_init
        (record unloaded { traffic = record nothing { answers = λ n. not (n == 11) } }))
    ≡ ok
unfolding qos_marktbl_init init_sock init_dev init_ruletbl init_marktbl init_notifier get_region
    make_device qmark_dev_init qmark_tc_sock_init mark_bitmap_init qos_ruletbl_init
    qos_marktbl_hashtbl_init
no_node = refl

-- cdev_add fails.
no_cdev :
    status_of (
      qos_marktbl_init
        (record unloaded { traffic = record nothing { answers = λ n. not (n == 9) } }))
    ≡ error
unfolding qos_marktbl_init init_sock init_dev init_ruletbl init_marktbl init_notifier get_region
    make_device qmark_dev_init qmark_tc_sock_init mark_bitmap_init add_cdev_err alloc_cdev_err
    dev_label bitmap_label qmark_tc_sock_exit mark_bitmap_exit
no_cdev = refl

qos_marktbl_init_lem_example : Ends (tables_of unloaded) (qos_marktbl_init unloaded)
qos_marktbl_init_lem_example = qos_marktbl_init_lem unloaded unloaded-IsUnloaded

abbrev after : Result (Status × Kernel Registry) → Kernel Registry
after (done (ret, k)) = k
after _ = unloaded

loaded_now : qos_marktbl_init unloaded ≡ done (ok, after (qos_marktbl_init unloaded))
unfolding qos_marktbl_init init_sock init_dev init_ruletbl init_marktbl init_notifier get_region
    make_device qmark_dev_init qmark_tc_sock_init mark_bitmap_init qos_ruletbl_init
    qos_marktbl_hashtbl_init
loaded_now = refl

load_unload_example :
    IsConsistent (tables_of unloaded) × Unloads unloaded (after (qos_marktbl_init unloaded))
load_unload_example =
    load_unload unloaded (after (qos_marktbl_init unloaded)) unloaded-IsUnloaded (omega arith)
      (omega arith) loaded_now
