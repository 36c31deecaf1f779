-- ===== src/Ioctl.antt =====
-- The commands of the control device.
-- kmod/qos_marktbl_ioctl.c, qmark_cdev_ioctl; the making of the device is left out. A command that
-- reads a structure carries what copy_from_user leaves in the local copy: its result is the number
-- of bytes that are missing and never negative, so that the tests of `ret < 0` pass. What
-- a listing shows goes to the kernel log, and not to the caller.
pub mod Safe
use ip_qos.Base.{ℕ, Bool, true, false, Option, none, some, if◌then◌else◌, ◌==◌}
use ip_qos.Api.{
  qmark_find_hash, qmark_add_hash, qmark_del_hash, qmark_flush_hash, qmark_alloc_mark,
  qmark_free_mark, qmark_flush_mark, qmark_set_spec, qmark_reset,
}
use ip_qos.Auto.{call_tc}
use ip_qos.Kernel.{
  M, done, RuletblNode, Status, pure, deref, get_bounded, lock_op, unlock_op, is_ok, ◌>>=◌, ◌>>◌,
}
use ip_qos.Listing.{qmark_list_rule, qmark_list_hash, qmark_dump}
use ip_qos.Rules.{qmark_add_rule, qmark_del_rule, qmark_flush_rule}
use ip_qos.TcRules.{TcRules}
use ip_qos.Text.{Text}

pub record QmarkRule : Type 0 where
  pub id : ℕ
  pub mode : ℕ
  pub devid : ℕ
  pub rate : ℕ
  pub rate_mate : ℕ
  pub rate_min : ℕ
  pub rate_min_mate : ℕ

pub record QmarkHash : Type 0 where
  pub ip : ℕ
  pub id : ℕ
  pub mark : ℕ

-- enum qmark_ioc_t. All other numbers, of this magic or of another, are `other`.
pub data Command : Type 0 where
  rule_add rule_del : QmarkRule → Command
  rule_lst rule_flush : Command
  hash_add hash_del hash_chk : QmarkHash → Command
  hash_lst hash_flush : Command
  mark_alo : Command
  mark_free : ℕ → Command
  mark_flush dump : Command
  reset : ℕ → Command
  netdev_set : Text → Text → Command
  spec_set : ℕ → ℕ → Command
  tc_add tc_del : Command
  other : Command

-- What the call returns, -EINVAL or 0, and the mark that copy_to_user hands out.
pub data Reply : Type 0 where
  einval : Reply
  success : Option ℕ → Reply

-- `&g_ruletbl[0]`
abbrev pub first_rule : {T : Type 0} → M T RuletblNode
first_rule = do rules ← λ k. deref k.ruletbl k; get_bounded rules 0

-- `set_devices` writes the two device names, each of 16 bytes.
module _ {T : Type 0} (tc : TcRules T) (set_devices : Text → Text → T → T) where
  unfoldable pub qmark_cdev_ioctl : Command → M T Reply
  qmark_cdev_ioctl (rule_add qr) = do
    qmark_add_rule qr.id qr.mode qr.devid qr.rate qr.rate_mate qr.rate_min qr.rate_min_mate
    pure (success none)
  qmark_cdev_ioctl (rule_del qr) = do qmark_del_rule qr.id; pure (success none)
  qmark_cdev_ioctl rule_lst = do _ ← qmark_list_rule; pure (success none)
  qmark_cdev_ioctl rule_flush = do qmark_flush_rule; pure (success none)
  qmark_cdev_ioctl (hash_add qh) = if qh.ip == 0 then pure einval else (do
    ret ← qmark_add_hash qh.ip qh.id qh.mark
    if is_ok ret then pure (success none) else pure einval)
  qmark_cdev_ioctl (hash_del qh) = if qh.ip == 0 then pure einval else (do
    (ret, mark) ← qmark_del_hash qh.ip 0
    if is_ok ret then pure (success none) else pure einval)
  qmark_cdev_ioctl (hash_chk qh) =
      if qh.ip == 0
      then pure einval
      else (do (_, mark) ← qmark_find_hash qh.ip; pure (success (some mark)))
  qmark_cdev_ioctl hash_lst = do _ ← qmark_list_hash; pure (success none)
  qmark_cdev_ioctl hash_flush = do qmark_flush_hash; pure (success none)
  qmark_cdev_ioctl mark_alo = do (_, mark) ← qmark_alloc_mark; pure (success (some mark))
  qmark_cdev_ioctl (mark_free mark) = do qmark_free_mark mark; pure (success none)
  qmark_cdev_ioctl mark_flush = do qmark_flush_mark; pure (success none)
  qmark_cdev_ioctl dump = do _ ← qmark_dump; pure (success none)
  qmark_cdev_ioctl (reset flag) = do qmark_reset flag; pure (success none)
  qmark_cdev_ioctl (netdev_set lan_dev wan_dev) = do
    lock_op
    call_tc (λ t. done (set_devices lan_dev wan_dev t))
    unlock_op
    pure (success none)
  qmark_cdev_ioctl (spec_set max_ip_cnt max_rule_cnt) = do
    qmark_set_spec max_ip_cnt max_rule_cnt
    pure (success none)
  qmark_cdev_ioctl tc_add = do r ← first_rule; call_tc (tc.add_rule r 0x800); pure (success none)
  qmark_cdev_ioctl tc_del = do r ← first_rule; call_tc (tc.del_rule r 0x800); pure (success none)
  qmark_cdev_ioctl other = pure einval
