-- ===== src/Target.antt =====
-- The netfilter target that marks packets.
-- xt_kmod/xt_qmark.c, qmark_handle and qmark_tg. Registration with x_tables is left out.
pub mod Marking
use ip_qos.Base.{ℕ, Option, none, some, not, if◌then◌else◌, ◌==◌, bit_and, bit_xor}
use ip_qos.Base.Word.{not32}
use ip_qos.Kernel.{M, null_pointer, pure, raise, ◌>>=◌, is_ok}
use ip_qos.Api.{qmark_find_hash}
use ip_qos.Auto.{qmark_alloc_mark_auto}
use ip_qos.TcRules.{TcRules}

pub record XtQmarkTginfo : Type 0 where
  pub mask : ℕ
  pub id : ℕ
  pub dir : ℕ

pub record IpHeader : Type 0 where
  pub saddr : ℕ
  pub daddr : ℕ

-- A packet, as far as the target reads it.
pub record SkBuff : Type 0 where
  pub header : Option IpHeader
  pub mark : ℕ

unfoldable pub packet_address : XtQmarkTginfo → IpHeader → ℕ
packet_address info iph = if info.dir == 0 then iph.saddr else iph.daddr

-- `(skb->mark & ~mask) ^ mark`
unfoldable pub combine : ℕ → ℕ → ℕ → ℕ
combine skb_mark mask mark = bit_xor (bit_and skb_mark (not32 mask)) mark

module _ {T : Type 0} (tc : TcRules T) where
  -- The new mark of the packet.
  unfoldable pub qmark_handle : ℕ → XtQmarkTginfo → IpHeader → M T ℕ
  qmark_handle skb_mark info iph = do
    let ip_addr = packet_address info iph
    (_, mark) ← qmark_find_hash ip_addr
    if mark == 0
        then (do
          (ret, mark') ← qmark_alloc_mark_auto tc ip_addr info.id mark
          if is_ok ret then pure (combine skb_mark info.mask mark') else pure skb_mark)
        else pure (combine skb_mark info.mask mark)

  -- It returns XT_CONTINUE on every path. A null skb is reported, and read all the same.
  unfoldable pub qmark_tg : XtQmarkTginfo → Option SkBuff → M T SkBuff
  qmark_tg info none = raise null_pointer
  qmark_tg info (some skb) = elim skb.header [
    | none ↦ pure skb
    | some iph ↦ do mark ← qmark_handle skb.mark info iph; pure (record skb { mark = mark })
  ]
