-- ===== src/Auto.antt =====
-- Giving an address a mark on its first packet.
-- kmod/qos_marktbl_main.c, qmark_alloc_mark_auto.
pub mod Steps
pub mod Use
pub mod Ends
pub mod Endings
pub mod New
pub mod Outcome
use ip_qos.Base.{ℕ, Bool, true, false, not, if◌then◌else◌, ◌==◌}
use ip_qos.Kernel.{
  M, Status, ok, error, done, fault, Result, pure, lock_op, unlock_op, get_rule, put_rule, ◌>>=◌,
  ◌>>◌, is_ok,
}
use ip_qos.Api.{is_private, is_last_use, qmark_add_hash, qmark_alloc_mark, qmark_free_mark}
use ip_qos.TcRules.{TcRules}

-- A call of the traffic control part. Its state is apart from the tables.
unfoldable pub call_tc : {T : Type 0} → (T → Result T) → M T (Unit {0})
call_tc f k = elim (f k.traffic) [
  | done t ↦ done (tt, record k { traffic = t })
  | fault e ↦ fault e
]

-- The first half: a new mark in private mode and for the first user in share mode, else the
-- rule's mark.
unfoldable pub choose_mark : {T : Type 0} → ℕ → M T (Status × ℕ)
choose_mark id = do
  r ← get_rule id
  if is_private r
      then qmark_alloc_mark
      else if r.count == 0
      then (do
        (ret, mark) ← qmark_alloc_mark
        if is_ok ret
            then (do r' ← get_rule id; put_rule id (record r' { mark = mark }); pure (ret, mark))
            else pure (ret, mark))
      else pure (ok, r.mark)

-- After a failed insertion.
unfoldable pub give_back : {T : Type 0} → ℕ → ℕ → M T (Unit {0})
give_back id mark = do
  r ← get_rule id
  if is_last_use r then (do put_rule id (record r { mark = 0 }); qmark_free_mark mark) else pure tt

-- The second half: the hash entry, and the traffic control rule.
unfoldable pub use_mark : {T : Type 0} → TcRules T → ℕ → ℕ → ℕ → M T (Status × ℕ)
use_mark tc src_ip id mark = do
  added ← qmark_add_hash src_ip id mark
  if not (is_ok added)
      then (do give_back id mark; pure (error, mark))
      else (do lock_op; r ← get_rule id; call_tc (tc.add_rule r mark); unlock_op; pure (ok, mark))

-- All that follows the test of reset_flag.
unfoldable pub give_mark : {T : Type 0} → TcRules T → ℕ → ℕ → M T (Status × ℕ)
give_mark tc src_ip id = do
  (ret, mark) ← choose_mark id
  if not (is_ok ret) then pure (error, mark) else use_mark tc src_ip id mark

-- The status and the new value of `*mark`.
unfoldable pub qmark_alloc_mark_auto : {T : Type 0} → TcRules T → ℕ → ℕ → ℕ → M T (Status × ℕ)
qmark_alloc_mark_auto tc src_ip id mark = do
  reset ← λ k. done (k.reset_flag, k)
  if reset then pure (error, mark) else give_mark tc src_ip id
