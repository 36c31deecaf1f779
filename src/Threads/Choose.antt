-- ===== src/Threads/Choose.antt =====
-- Looking up an address, choosing a mark and asking for its traffic control rule, while another
-- packet is on its way.
use ip_qos.Base.{
  ℕ, ◌-◌, ◌<◌, ◌≡◌, inl, inr, ◌∙◌, refl, sym, true, false, none, some, Bool-cases, Option-cases,
  length, ltb, if◌then◌else◌, ◌==◌, arith,
}
use ip_qos.Api.{is_private}
use ip_qos.Auto.{call_tc}
use ip_qos.Auto.Steps.{choose_mark_full, choose_mark_private}
use ip_qos.Bitmap.Marks.{mark_of, next_bit, next_bit-IsMark, next_bit-IsUnused, next_bit_new}
use ip_qos.Consistent.{rule_at}
use ip_qos.Consistent.Marks.{set_bit, set_bit-IsMark, take_bit-IsConsistent}
use ip_qos.DataPath.Step.{Kept-refl}
use ip_qos.Kernel.{Kernel, ◌>>=◌, is_ok}
use ip_qos.State.{Tables, idle, busy}
use ip_qos.Table.Buckets.{view}
use ip_qos.Table.Runs.{get_rule_run}
use ip_qos.Target.Marking.{qmark_find_hash_found, qmark_find_hash_missing}
use ip_qos.TcRules.{TcRules}
use ip_qos.Threads.{Phase, looks, chooses, adds, installs, ends, left, step}
use ip_qos.Threads.Stages.{
  Holds, Steps, Stage, choosing, adding, ended, Holds-adds, Stage-Holds, IsApart, IsApart-change,
}

module _ {T : Type 0} (tc : TcRules T) (k : Kernel T) (ip id ip' id' : ℕ) (s : Tables)
    (p' : Phase) where
  -- Nothing but the packet's own stage changes, and it holds no mark.
  pub goes_on :
      (p q : Phase)
      → IsApart tc ip id ip' id' s p p'
      → Stage s ip q
      → ((mark : ℕ) → ¬ Holds q mark)
      → IsApart tc ip id ip' id' s q p'
  goes_on p q a stage empty =
      IsApart-change tc ip id ip' id' s s p q p' a a.ready.consistent (Kept-refl s) stage
        (λ absent. absent) (λ mark h valid unused. (valid, unused))
        (λ mark mark' h h' same. empty mark h)

  pub step_looks : IsApart tc ip id ip' id' s looks p' → Steps tc k ip id ip' id' s p' looks
  unfolding step left
  step_looks a = elim (Option-cases (view s.ht ip)) [
    | inl absent ↦ (
      chooses,
      k,
      s,
      rw (qmark_find_hash_missing (idle k) s a.ready.consistent ip absent, ◌>>=◌, if◌then◌else◌)
          refl,
      goes_on looks chooses a (choosing absent) (λ mark h. elim h [ ]),
      omega arith,
    )
    | inr (n, here) ↦
        let (_, _, (big, _, _, _)) = a.ready.consistent.marked ip n here in
        let some_mark : (n.mark == 0) ≡ false = ground arith in
        (
          ends (some n.mark),
          k,
          s,
          rw
              (
                qmark_find_hash_found (idle k) s a.ready.consistent ip n here,
                some_mark,
                ◌>>=◌,
                if◌then◌else◌,
              )
              refl,
          goes_on looks (ends (some n.mark)) a (ended (some n.mark)) (λ mark h. elim h [ ]),
          omega arith,
        )
  ]

  pub step_installs :
      (mark : ℕ)
      → IsApart tc ip id ip' id' s (installs mark) p'
      → Steps tc k ip id ip' id' s p' (installs mark)
  unfolding step call_tc left
  step_installs mark a =
      let (low, high, _) = a.first_private in
      let (t, quiet) =
        tc.add_rule_safe (rule_at s.rules (id - 1)) mark k.traffic (a.ready.safe (id - 1)) in
      (
        ends (some mark),
        record k { traffic = t },
        s,
        rw (get_rule_run (busy k) s id low high a.ready.consistent.shape.rules_limit, quiet, ◌>>=◌)
            refl,
        goes_on (installs mark) (ends (some mark)) a (ended (some mark)) (λ mark h. elim h [ ]),
        omega arith,
      )

  -- The new mark is nobody's, nor the other packet's.
  chosen :
      IsApart tc ip id ip' id' s chooses p'
      → view s.ht ip ≡ none
      → next_bit s < s.max_ip_cnt
      → IsApart tc ip id ip' id' (set_bit s (next_bit s) true) (adds (mark_of (next_bit s))) p'
  chosen a absent room =
      let c = a.ready.consistent in
      let inside : next_bit s < length s.bits = omega (arith, c.shape.bits_width) in
      IsApart-change tc ip id ip' id' s (set_bit s (next_bit s) true) chooses
        (adds (mark_of (next_bit s))) p' a (take_bit-IsConsistent s c (next_bit s) inside)
        (record { rules_kept = λ i. refl; rule_cnt = refl })
        (adding (mark_of (next_bit s)) absent (next_bit-IsMark s c room)
          (next_bit-IsUnused s c room))
        (λ still. still)
        (λ mark h valid unused. (
          set_bit-IsMark s c (next_bit s) inside true mark (λ f. cc) valid,
          record { by_nodes = unused.by_nodes; by_rules = unused.by_rules },
        ))
        (λ mark mark' h h' same.
          next_bit_new s c room mark' (Stage-Holds s ip' mark' p' a.second h').0
            (sym same ∙ Holds-adds _ mark h))

  pub step_chooses :
      IsApart tc ip id ip' id' s chooses p'
      → view s.ht ip ≡ none
      → Steps tc k ip id ip' id' s p' chooses
  unfolding step left
  step_chooses a absent =
      let (low, high, mode) = a.first_private in
      let c = a.ready.consistent in
      let private : is_private (rule_at s.rules (id - 1)) ≡ true = ground (arith, mode) in
      let over = goes_on chooses (ends none) a (ended none) (λ mark h. elim h [ ]) in
      let h : Kernel T = record k { reset_flag = false } in
      elim (Bool-cases k.reset_flag) [
        | inl resetting ↦
            (ends none, k, s, rw (resetting, ◌>>=◌, if◌then◌else◌) refl, over, omega arith)
        | inr normal ↦ elim (Bool-cases (ltb (next_bit s) s.max_ip_cnt)) [
          | inr full ↦ (
            ends none,
            k,
            s,
            rw
                (
                  normal,
                  choose_mark_full h s c.shape id low high (ground (arith, private)) (ground arith),
                  ◌>>=◌,
                  if◌then◌else◌,
                  is_ok,
                )
                refl,
            over,
            omega arith,
          )
          | inl room ↦
              let fits : next_bit s < s.max_ip_cnt = ground arith in
              (
                adds (mark_of (next_bit s)),
                k,
                set_bit s (next_bit s) true,
                rw
                    (
                      normal,
                      choose_mark_private h s c.shape id low high private fits,
                      ◌>>=◌,
                      if◌then◌else◌,
                      is_ok,
                    )
                    refl,
                chosen a absent fits,
                omega arith,
              )
        ]
      ]
