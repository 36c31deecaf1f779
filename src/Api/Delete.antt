-- ===== src/Api/Delete.antt =====
-- qmark_del_hash drops one reference, as the end of a connection does, and reports whether the node
-- is gone.
use ip_qos.Base.{
  ℕ, ◌-◌, ◌≡◌, refl, true, false, Option, none, some, if◌then◌else◌, Bool-cases, Option-cases, inl,
  inr,
}
use ip_qos.Api.{qmark_del_hash, is_last_use}
use ip_qos.Base.Word.{atomic_dec, is_positive}
use ip_qos.Bitmap.Marks.{free_mark_run}
use ip_qos.Conntrack.Outcome.{
  Released, Released-missing, Released-more, Released-shared, Released-last,
}
use ip_qos.Conntrack.Release.{
  s₁, s₂, s₃, s₄, c₁, c₂, c₃, c₄, low, high₂, load_dropped, hashtbl_del_run,
}
use ip_qos.Consistent.{IsConsistent, rule_at}
use ip_qos.Kernel.{Kernel, done, MarktblNode, Status, ok, error, ◌>>=◌}
use ip_qos.State.{Tables, up, idle, busy}
use ip_qos.Table.Buckets.{view}
use ip_qos.Table.Runs.{
  marktbl_hash_get_found, marktbl_hash_get_missing, node_atomic_dec_run, get_rule_run, put_rule_run,
}

-- What is returned for the node that was there: the status, and `*mark` after `old`.
abbrev pub answer : Option MarktblNode → ℕ → Status × ℕ
answer none old = (error, old)
answer (some n) old = if is_positive (atomic_dec n.count) then (error, old) else (ok, n.mark)

module _ {T : Type 0} (k : Kernel T) (s : Tables) (c : IsConsistent s) (ip old : ℕ) where
  abbrev pub Deleted : Type 0
  Deleted =
      (s' : Tables) × (qmark_del_hash ip old (up (idle k) s)
        ≡ done (answer (view s.ht ip) old, up (idle k) s'))
      × IsConsistent s'
      × Released s ip s'

  del_missing : view s.ht ip ≡ none → Deleted
  unfolding qmark_del_hash
  del_missing absent = (
    s,
    rw (marktbl_hash_get_missing (busy k) s c.shape ip absent, absent, ◌>>=◌) refl,
    c,
    Released-missing s c ip absent,
  )

  module _ (n : MarktblNode) (here : view s.ht ip ≡ some n) where
    del_more : is_positive (atomic_dec n.count) ≡ true → Deleted
    unfolding qmark_del_hash
    del_more more = (
      s₁ s c ip n here,
      rw
          (
            marktbl_hash_get_found (busy k) s c.shape ip n here,
            node_atomic_dec_run (busy k) s c.shape ip n here,
            load_dropped s c ip n here (busy k),
            here,
            more,
            ◌>>=◌,
            if◌then◌else◌,
          )
          refl,
      c₁ s c ip n here,
      Released-more s c ip n here more,
    )

    module _ (gone : is_positive (atomic_dec n.count) ≡ false) where
      del_shared : is_last_use (rule_at (s₂ s c ip n here).rules (n.id - 1)) ≡ false → Deleted
      unfolding qmark_del_hash
      del_shared shared = (
        s₂ s c ip n here,
        rw
            (
              marktbl_hash_get_found (busy k) s c.shape ip n here,
              node_atomic_dec_run (busy k) s c.shape ip n here,
              load_dropped s c ip n here (busy k),
              here,
              gone,
              hashtbl_del_run s c ip n here (busy k) gone,
              get_rule_run (busy k) (s₂ s c ip n here) n.id (low s c ip n here)
                  (high₂ s c ip n here) (c₂ s c ip n here).shape.rules_limit,
              shared,
              ◌>>=◌,
              if◌then◌else◌,
            )
            refl,
        c₂ s c ip n here,
        Released-shared s c ip n here gone shared,
      )

      del_last : is_last_use (rule_at (s₂ s c ip n here).rules (n.id - 1)) ≡ true → Deleted
      unfolding qmark_del_hash
      del_last last =
          let (_, _, (big, _, small, _)) = c.marked ip n here in
          (
            s₄ s c ip n here,
            rw
                (
                  marktbl_hash_get_found (busy k) s c.shape ip n here,
                  node_atomic_dec_run (busy k) s c.shape ip n here,
                  load_dropped s c ip n here (busy k),
                  here,
                  gone,
                  hashtbl_del_run s c ip n here (busy k) gone,
                  get_rule_run (busy k) (s₂ s c ip n here) n.id (low s c ip n here)
                      (high₂ s c ip n here) (c₂ s c ip n here).shape.rules_limit,
                  last,
                  put_rule_run (busy k) (s₂ s c ip n here) n.id (low s c ip n here)
                      (high₂ s c ip n here) (c₂ s c ip n here).shape.rules_limit,
                  free_mark_run (busy k) (s₃ s c ip n here) (c₃ s c ip n here last).shape n.mark big
                      small,
                  ◌>>=◌,
                  if◌then◌else◌,
                )
                refl,
            c₄ s c ip n here last,
            Released-last s c ip n here gone,
          )

  -- From consistent tables qmark_del_hash does not fault and keeps them consistent; it takes one
  -- reference from the address's node, and returns ok with the node's mark just where that was the
  -- last one.
  pub qmark_del_hash-Released : Deleted
  qmark_del_hash-Released = elim (Option-cases (view s.ht ip)) [
    | inl absent ↦ del_missing absent
    | inr (n, here) ↦ elim (Bool-cases (is_positive (atomic_dec n.count))) [
      | inl more ↦ del_more n here more
      | inr gone ↦ elim (Bool-cases (is_last_use (rule_at (s₂ s c ip n here).rules (n.id - 1)))) [
        | inl last ↦ del_last n here gone last
        | inr shared ↦ del_shared n here gone shared
      ]
    ]
  ]
