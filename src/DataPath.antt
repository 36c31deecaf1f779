-- ===== src/DataPath.antt =====
-- The module at work: packets that meet the target, and connection tracking events, one after
-- another.
-- xt_kmod/xt_qmark.c, qmark_tg; kmod/qos_marktbl_main.c, qmark_conntrack_event.
pub mod Step
pub mod Trace
pub mod Leaks
use ip_qos.Base.{ℕ, ◌≤◌, ◌<◌, List, [], ◌∷◌, Option, some}
use ip_qos.Conntrack.{NfConn, EventBits, qmark_conntrack_event}
use ip_qos.Kernel.{M, pure, ◌>>=◌, ◌>>◌}
use ip_qos.Target.{XtQmarkTginfo, SkBuff, qmark_tg}
use ip_qos.TcRules.{TcRules}

-- The kernel calls the two handlers; qmark_op_lock and the softirq order put their bodies one after
-- another.
pub data Event : Type 0 where
  packet : XtQmarkTginfo → SkBuff → Event
  conntrack : ℕ → Option NfConn → Event

-- A packet's rule exists among `rule_cnt` rules.
abbrev pub IsValid : ℕ → Event → Type 0
IsValid rule_cnt (packet info skb) = (0 < info.id) × (info.id ≤ rule_cnt)
IsValid rule_cnt (conntrack events ct) = Unit

pub data AllValid (rule_cnt : ℕ) : List Event → Type 0 where
  all_nil : AllValid rule_cnt []
  all_cons :
      {e : Event} {es : List Event}
      → IsValid rule_cnt e
      → AllValid rule_cnt es
      → AllValid rule_cnt (e ∷ es)

module _ {T : Type 0} (tc : TcRules T) (b : EventBits) where
  unfoldable pub handle_event : Event → M T (Unit {0})
  handle_event (packet info skb) = do _ ← qmark_tg tc info (some skb); pure tt
  handle_event (conntrack events ct) = qmark_conntrack_event tc b events ct

  unfoldable pub handle_all : List Event → M T (Unit {0})
  handle_all [] = pure tt
  handle_all (e ∷ es) = do handle_event e; handle_all es
