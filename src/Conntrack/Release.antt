-- ===== src/Conntrack/Release.antt =====
-- The end of a connection: on_destroy takes one reference from the address's node, and with the
-- last one the node, its place in the rule's count and, where nobody else has it, its mark.
use ip_qos.Base.{
  ℕ, ◌-◌, ◌≤◌, ◌<◌, ◌≡◌, refl, ◌⊎◌, true, false, some, none, length, length-set, if◌then◌else◌,
  ==_refl, arith,
}
use mathlib.Core.Path.{subst}
use ip_qos.Api.{is_last_use}
use ip_qos.Auto.{call_tc}
use ip_qos.Base.Word.{atomic_dec, is_positive}
use ip_qos.Bitmap.Marks.{free_mark_run}
use ip_qos.Conntrack.{on_destroy}
use ip_qos.Consistent.{IsConsistent, rule_at, slot}
use ip_qos.Consistent.Marks.{
  set_bit, set_mark, set_mark-IsConsistent, set_mark-IsUnused, length-set_mark,
  free_bit-IsConsistent,
}
use ip_qos.Consistent.Recount.{recount, recount-IsConsistent, view-recount}
use ip_qos.Consistent.Remove.{detach, detach-IsConsistent, detach-IsUnused, length-detach}
use ip_qos.Kernel.{Kernel, done, MarktblNode, ok, ◌>>=◌}
use ip_qos.State.{Tables, up, idle, busy}
use ip_qos.Table.{load_node, qos_marktbl_hashtbl_del}
use ip_qos.Table.Buckets.{view, home}
use ip_qos.Table.Runs.{
  pointer, marktbl_hash_get_found, marktbl_hash_get_missing, node_atomic_dec_run, load_node_run,
  marktbl_hash_remove_run, get_rule_run, put_rule_run,
}
use ip_qos.TcRules.{TcRules}

-- The node with one reference less.
abbrev pub dropped : MarktblNode → MarktblNode
dropped n = record n { count = atomic_dec n.count }

module _ (s : Tables) (c : IsConsistent s) (ip : ℕ) (n : MarktblNode)
    (here : view s.ht ip ≡ some n) where
  abbrev pub s₁ : Tables
  s₁ = recount s ip (atomic_dec n.count)

  pub c₁ : IsConsistent s₁
  c₁ = recount-IsConsistent s ip (atomic_dec n.count) n c here

  pub here₁ : view s₁.ht ip ≡ some (dropped n)
  here₁ = ground (arith, view-recount s ip (atomic_dec n.count) n c here ip, ==_refl ip)

  abbrev pub s₂ : Tables
  s₂ = detach s₁ ip (dropped n)

  pub c₂ : IsConsistent s₂
  c₂ = detach-IsConsistent s₁ ip (dropped n) c₁ here₁

  abbrev pub s₃ : Tables
  s₃ = set_mark s₂ (n.id - 1) 0

  abbrev pub s₄ : Tables
  s₄ = set_bit s₃ (slot n.mark) false

  pub low : 0 < n.id
  low = let (l, _, _) = c.marked ip n here in l

  pub high : n.id ≤ length s.rules
  high = let (_, h, _) = c.marked ip n here in h

  pub high₂ : n.id ≤ length s₂.rules
  high₂ = rw (length-detach s₁ ip (dropped n) c₁ here₁) high

  module _ (last : is_last_use (rule_at s₂.rules (n.id - 1)) ≡ true) where
    idle_rule : ((rule_at s₂.rules (n.id - 1)).mode ≡ 0) ⊎ ((rule_at s₂.rules (n.id - 1)).count ≡ 0)
    idle_rule = ground arith

    pub inside : n.id - 1 < length s₂.rules
    inside = omega (arith, low, high, length-detach s₁ ip (dropped n) c₁ here₁)

    pub c₃ : IsConsistent s₃
    c₃ = set_mark-IsConsistent s₂ c₂ (n.id - 1) 0 inside idle_rule

    pub c₄ : IsConsistent s₄
    c₄ = free_bit-IsConsistent s₃ c₃ n.mark (let (_, _, m) = c.marked ip n here in m) (
        set_mark-IsUnused s₂ c₂ (n.id - 1) 0 inside n.mark idle_rule
          (detach-IsUnused s₁ ip (dropped n) c₁ here₁ idle_rule))

  module _ {T : Type 0} (k : Kernel T) where
    pub load_dropped : load_node (pointer s ip) (up k s₁) ≡ done (dropped n, up k s₁)
    load_dropped =
        subst
          (λ l.
            load_node (record { bucket = home ip l; key = ip }) (up k s₁)
            ≡ done (dropped n, up k s₁))
          (length-set s.ht _ _) (load_node_run k s₁ c₁.shape ip (dropped n) here₁)

    pub hashtbl_del_run :
        is_positive (atomic_dec n.count) ≡ false
        → qos_marktbl_hashtbl_del ip (up k s₁) ≡ done ((ok, n.mark), up k s₂)
    unfolding qos_marktbl_hashtbl_del
    hashtbl_del_run gone =
        rw (marktbl_hash_remove_run k s₁ c₁.shape ip (dropped n) here₁ gone low high, ◌>>=◌) refl

  module _ {T : Type 0} (k : Kernel T) where
    -- One reference of several.
    pub on_destroy_more :
        (tc : TcRules T)
        → is_positive (atomic_dec n.count) ≡ true
        → on_destroy tc ip (up (idle k) s) ≡ done (tt, up (idle k) s₁)
    unfolding on_destroy
    on_destroy_more tc more =
        rw
          (
            marktbl_hash_get_found (busy k) s c.shape ip n here,
            node_atomic_dec_run (busy k) s c.shape ip n here,
            load_dropped (busy k),
            more,
            ◌>>=◌,
            if◌then◌else◌,
          )
          refl

    module _ (tc : TcRules T) (gone : is_positive (atomic_dec n.count) ≡ false) where
      -- The last reference, in a rule that others share.
      pub on_destroy_shared :
          is_last_use (rule_at s₂.rules (n.id - 1)) ≡ false
          → on_destroy tc ip (up (idle k) s) ≡ done (tt, up (idle k) s₂)
      unfolding on_destroy
      on_destroy_shared shared =
          rw
            (
              marktbl_hash_get_found (busy k) s c.shape ip n here,
              node_atomic_dec_run (busy k) s c.shape ip n here,
              load_dropped (busy k),
              gone,
              hashtbl_del_run (busy k) gone,
              get_rule_run (busy k) s₂ n.id low high₂ c₂.shape.rules_limit,
              shared,
              ◌>>=◌,
              if◌then◌else◌,
            )
            refl

      -- The last reference, with nobody else to have the mark.
      pub on_destroy_last :
          is_last_use (rule_at s₂.rules (n.id - 1)) ≡ true
          → (t : T) × (on_destroy tc ip (up (idle k) s)
              ≡ done (tt, up (idle (record k { traffic = t })) s₄))
      unfolding on_destroy call_tc
      on_destroy_last last =
          let c₃' = c₃ last in
          let high₃ : n.id ≤ length s₃.rules =
            rw (length-set_mark s₂ c₂ (n.id - 1) 0 (inside last)) high₂ in
          let (t, quiet) = tc.del_rule_safe (rule_at s₃.rules (n.id - 1)) n.mark k.traffic in
          let (_, _, (big, _, small, _)) = c.marked ip n here in
          (
            t,
            rw
                (
                  marktbl_hash_get_found (busy k) s c.shape ip n here,
                  node_atomic_dec_run (busy k) s c.shape ip n here,
                  load_dropped (busy k),
                  gone,
                  hashtbl_del_run (busy k) gone,
                  get_rule_run (busy k) s₂ n.id low high₂ c₂.shape.rules_limit,
                  last,
                  put_rule_run (busy k) s₂ n.id low high₂ c₂.shape.rules_limit,
                  get_rule_run (busy k) s₃ n.id low high₃ c₃'.shape.rules_limit,
                  quiet,
                  free_mark_run (busy (record k { traffic = t })) s₃ c₃'.shape n.mark big small,
                  ◌>>=◌,
                  if◌then◌else◌,
                )
                refl,
          )

-- No node.
pub on_destroy_missing :
    {T : Type 0} (tc : TcRules T) (k : Kernel T) (s : Tables) (c : IsConsistent s) (ip : ℕ)
    → view s.ht ip ≡ none
    → on_destroy tc ip (up (idle k) s) ≡ done (tt, up (idle k) s)
unfolding on_destroy
on_destroy_missing tc k s c ip absent =
    rw (marktbl_hash_get_missing (busy k) s c.shape ip absent, ◌>>=◌) refl
