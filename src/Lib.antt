-- ===== src/Lib.antt =====
-- Verification of ip_qos: per-address marks for traffic shaping on a router.
--
-- The kernel module kmod/ gives each client address a packet mark and keeps it while the address has
-- connections. A mark is (bit + 1) << 11 for a bit of a bitmap. Rules in private mode take a mark for
-- each address; the addresses of a rule in share mode have one mark together. The iptables target
-- xt_kmod/ looks up or allocates the mark of a packet's address; connection tracking events count
-- references up and down, and the last one frees the node and, with its last node, the mark. The
-- traffic control part installs a class and a filter for a mark.
--
-- Files:
-- - Base: Boolean tests and lists over native numbers, 32-bit words, bit operations.
-- - Kernel: the module's globals (kmod/qos_marktbl_main.h, kmod/qos_marktbl_main.c), the monad of
--   its functions, and what stops it: null or freed pointers, indices out of range, a second lock,
--   division by zero. Each kmalloc succeeds or fails as `supply` says.
-- - State: the tables of a module that is up, and the lock that is free or held.
-- - Hash: hash_fn. Bitmap: mark_bitmap_init to flush_mark. Table: the chained hash table,
--   elem_over_limit to qos_marktbl_hashtbl_exit. Rules: the rule table. Api: qmark_find_hash to
--   qmark_reset. Auto: qmark_alloc_mark_auto. Conntrack: qmark_conntrack_event.
--   All are of kmod/qos_marktbl_main.c.
-- - Listing: qmark_list_rule, qmark_list_hash and qmark_dump of the same file, as the values in the
--   lines that they print.
-- - Target: qmark_handle and qmark_tg of xt_kmod/xt_qmark.c.
-- - TcRules: what the table asks of the traffic control part, as an interface. Netlink: the
--   messages, qmark_tc_addattr and qmark_tc_rtnl_talk. Tc: qmark_tc_calc_rtable to
--   qmark_tc_del_rule, which fill the interface. Both are of kmod/qos_marktbl_tc.c.
-- - Ioctl: qmark_cdev_ioctl of kmod/qos_marktbl_ioctl.c.
-- - Registry: what the kernel holds for the module, and the calls that register and release it.
--   Init: qmark_dev_init and _exit of kmod/qos_marktbl_ioctl.c, qmark_tc_sock_init and _exit of
--   kmod/qos_marktbl_tc.c, qos_marktbl_init and _exit of kmod/qos_marktbl_main.c.
-- - Text: printf and sscanf of numbers and words. Extension: xt_lib/libxt_qmark.c, over a libxtables
--   that is a parameter. Options
--   and Tool: main of app/qmark.c, over the options that getopt_long finds.
-- - Consistent: the invariant that ties table, rule counts, marks and bitmap together, and the
--   changes that keep it. Fresh: the tables after qmark_set_spec.
-- - DataPath: packets and events, one after another. Service: what each event may do to the
--   clients, without tables.
-- - Threads: qmark_handle and qmark_alloc_mark_auto as steps of two packets that take turns. Apart:
--   different addresses of private rules; Race: one address; Shared: one rule in share mode.
-- - Tests: runs at fixed inputs, and the theorems applied to them.
--
-- Conventions: addresses, ids and marks are numbers below 2 ^ 32, with the wrap-around written out;
-- an atomic_t is its bit pattern. The host is little-endian with longs and a size_t of 32 bits, so
-- that the bytes of an address in memory are those of its number, lowest first; sizes in bytes wrap.
-- A node pointer is a bucket and a key. Operations that run under qmark_op_lock are atomic here, and
-- qmark_handle is one step outside Threads, where it has a step for each locked call; the other
-- operations are not cut into steps, also where qos_marktbl_hashtbl_get reads the mark of a node
-- after it has released head->lock. The loop of hash_fn has the key's length as fuel, of which each
-- round takes 4; the search for the cell size of a rate table has 32 rounds, one for each bit of an
-- mtu; printed numbers have 10 decimal or 8 hexadecimal digits at most; other loops recurse on
-- chains or on a count of rounds.
--
-- Not modelled: messages of the kernel and the layout of the listings' lines, registration of the
-- target and of the extension, help texts, scripts and build files.
pub mod Base
pub mod Kernel
pub mod State
pub mod Hash
pub mod Bitmap
pub mod Table
pub mod Rules
pub mod TcRules
pub mod Consistent
pub mod Api
pub mod Auto
pub mod Conntrack
pub mod Target
pub mod DataPath
pub mod Fresh
pub mod Tests
pub mod Netlink
pub mod Tc
pub mod Listing
pub mod Ioctl
pub mod Registry
pub mod Init
pub mod Text
pub mod Extension
pub mod Options
pub mod Tool
pub mod Service
pub mod Threads
