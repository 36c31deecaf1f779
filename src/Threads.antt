-- ===== src/Threads.antt =====
-- Two packets at once: the steps of the target between its locked calls.
-- xt_kmod/xt_qmark.c, qmark_handle; kmod/qos_marktbl_main.c, qmark_alloc_mark_auto. A step takes
-- one locked call, with the accesses to reset_flag and the rule table about it.
pub mod Race
pub mod Shared
pub mod Stages
pub mod Choose
pub mod Add
pub mod Apart
use ip_qos.Base.{
  ℕ, suc, Bool, true, false, Option, none, some, List, [], ◌∷◌, not, if◌then◌else◌, ◌==◌,
}
use ip_qos.Api.{qmark_find_hash, qmark_add_hash}
use ip_qos.Auto.{choose_mark, give_back, call_tc}
use ip_qos.Kernel.{M, done, pure, lock_op, unlock_op, get_rule, is_ok, ◌>>=◌, ◌>>◌}
use ip_qos.TcRules.{TcRules}

-- How far the packet has come; at the end it has a mark or none.
pub data Phase : Type 0 where
  looks chooses : Phase
  adds gives_back installs : ℕ → Phase
  ends : Option ℕ → Phase

-- The turns that the packet still needs at most.
unfoldable pub left : Phase → ℕ
left looks = 4
left chooses = 3
left (adds mark) = 2
left (gives_back mark) = 1
left (installs mark) = 1
left (ends mark) = 0

module _ {T : Type 0} (tc : TcRules T) where
  -- The next step of a packet of the address `ip`, for the rule `id`.
  unfoldable pub step : ℕ → ℕ → Phase → M T Phase
  step ip id looks = do
    (_, mark) ← qmark_find_hash ip
    if mark == 0 then pure chooses else pure (ends (some mark))
  step ip id chooses = do
    reset ← λ k. done (k.reset_flag, k)
    if reset then pure (ends none) else (do
      (ret, mark) ← choose_mark id
      if is_ok ret then pure (adds mark) else pure (ends none))
  step ip id (adds mark) = do
    added ← qmark_add_hash ip id mark
    if is_ok added then pure (installs mark) else pure (gives_back mark)
  step ip id (gives_back mark) = do give_back id mark; pure (ends none)
  step ip id (installs mark) = do
    lock_op
    r ← get_rule id
    call_tc (tc.add_rule r mark)
    unlock_op
    pure (ends (some mark))
  step ip id (ends mark) = pure (ends mark)

  -- Two packets, of which each turn names the one that takes its step.
  unfoldable pub take_turns : ℕ → ℕ → ℕ → ℕ → List Bool → Phase → Phase → M T (Phase × Phase)
  take_turns ip id ip' id' [] first second = pure (first, second)
  take_turns ip id ip' id' (true ∷ turns) first second = do
    first' ← step ip id first
    take_turns ip id ip' id' turns first' second
  take_turns ip id ip' id' (false ∷ turns) first second = do
    second' ← step ip' id' second
    take_turns ip id ip' id' turns first second'

-- The turns of one of the packets.
unfoldable pub turns_of : Bool → List Bool → ℕ
turns_of b [] = 0
turns_of true (true ∷ turns) = suc (turns_of true turns)
turns_of true (false ∷ turns) = turns_of true turns
turns_of false (true ∷ turns) = turns_of false turns
turns_of false (false ∷ turns) = suc (turns_of false turns)
