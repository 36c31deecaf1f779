-- ===== src/Fresh/Spec.antt =====
-- Fresh tables are consistent, and qmark_set_spec makes them.
use ip_qos.Base.{
  ℕ, suc, ◌<◌, ◌≡◌, refl, sym, true, none, [], length, length-replicate, get_or-replicate, leb,
  if◌then◌else◌, arith,
}
use ip_qos.Api.{qmark_set_spec}
use ip_qos.Base.Word.{items_for}
use ip_qos.Bitmap.{mark_bitmap_init, mark_bitmap_exit}
use ip_qos.Consistent.{IsConsistent, IsShaped}
use ip_qos.Fresh.{fresh}
use ip_qos.Kernel.{Kernel, done, ◌>>=◌}
use ip_qos.Rules.{zero_rule, qos_ruletbl_init, qos_ruletbl_exit}
use ip_qos.State.{Tables, up, idle, busy}
use ip_qos.Table.Buckets.{view, view-replicate, IsPlaced-replicate, total-replicate}
use ip_qos.Table.Chains.{uses}
use ip_qos.Table.Setup.{qos_marktbl_hashtbl_init}
use ip_qos.Table.Setup.Exit.{qos_marktbl_hashtbl_exit_run}

module _ (ip_spec rule_spec : ℕ) where
  module _ (pos : 0 < ip_spec) (small : ip_spec < 0x20_0000)
      (rules_small : rule_spec < 119_304_648) where
    fresh-IsShaped : IsShaped (fresh ip_spec rule_spec)
    fresh-IsShaped = record {
      pos = pos;
      width = length-replicate ip_spec [];
      sized = refl;
      limit = small;
      bits_width = rw length-replicate (omega arith);
      rules_width = length-replicate rule_spec zero_rule;
      rules_limit = rw length-replicate (omega arith);
      elems = total-replicate length ip_spec refl;
      room = omega arith;
      placed = IsPlaced-replicate ip_spec;
    }

    pub fresh-IsConsistent : IsConsistent (fresh ip_spec rule_spec)
    unfolding uses
    fresh-IsConsistent = record {
      shape = fresh-IsShaped;
      counted = λ i h. rw get_or-replicate (sym (total-replicate (uses (suc i)) ip_spec refl));
      marked = λ q n e. ground (arith, view-replicate ip_spec q);
      separate = λ q q' n n' e. ground (arith, view-replicate ip_spec q);
      shared = λ q n e. ground (arith, view-replicate ip_spec q);
      owned = λ i h mode. absurd (mode (rw get_or-replicate refl));
      apart = λ i j h h' (mode, _). absurd (mode (rw get_or-replicate refl));
    }

    -- With 1 to 2097151 addresses and less than 119304648 rules, so that no size in bytes wraps,
    -- and with memory for its allocations, qmark_set_spec returns from any well-shaped tables and
    -- leaves fresh, consistent tables of those sizes where no address has a node.
    pub qmark_set_spec-IsConsistent :
        {T : Type 0} (k : Kernel T) (s : Tables)
        → IsShaped s
        → ((i : ℕ) → i < 4 → k.supply i ≡ true)
        → (qmark_set_spec ip_spec rule_spec (up (idle k) s)
            ≡ done (
              tt,
              up
                  (idle (record k { supply = λ n. k.supply (suc (suc (suc (suc n)))) }))
                  (fresh ip_spec rule_spec),
            ))
          × IsConsistent (fresh ip_spec rule_spec)
          × ((q : ℕ) → view (fresh ip_spec rule_spec).ht q ≡ none)
    unfolding qmark_set_spec mark_bitmap_init mark_bitmap_exit qos_ruletbl_init qos_ruletbl_exit
        qos_marktbl_hashtbl_init
    qmark_set_spec-IsConsistent k s shape given =
        let rules_fit : items_for 36 rule_spec ≡ rule_spec = omega arith in
        let buckets_fit : leb ip_spec (items_for 4 ip_spec) ≡ true = ground arith in
        (
          rw
              (
                qos_marktbl_hashtbl_exit_run (busy k) s (omega (arith, shape.width)),
                given 0 (omega arith),
                given 1 (omega arith),
                given 2 (omega arith),
                given 3 (omega arith),
                rules_fit,
                buckets_fit,
                ◌>>=◌,
                if◌then◌else◌,
              )
              refl,
          fresh-IsConsistent,
          view-replicate ip_spec,
        )
