-- ===== src/Threads/Add.antt =====
-- Putting an address into the table, or giving its mark back, while another packet is on its way.
use ip_qos.Base.{
  ℕ, ◌-◌, ◌≤◌, ◌<◌, ◌≡◌, ◌≢◌, ◌⊎◌, inl, inr, ◌∙◌, refl, sym, false, none, Bool-cases, length, ltb,
  if◌then◌else◌, ==_iff, arith,
}
use ip_qos.Auto.Steps.{settings-attach}
use ip_qos.Auto.Use.{add_full, add_no_memory, add_run, give_back_last}
use ip_qos.Consistent.{IsConsistent, IsMark, rule_at, settings-set, slot, slot-injective}
use ip_qos.Consistent.Insert.{
  attach, attach-mode, fresh, length-attach, rule_at-attach, view-attach, view-attach_cases,
}
use ip_qos.Consistent.Insert.Keeps.{attach-IsConsistent}
use ip_qos.Consistent.Marks.{
  IsUnused, set_bit, set_bit-IsMark, set_mark, set_mark-IsConsistent, set_mark-IsUnused,
  free_bit-IsConsistent,
}
use ip_qos.DataPath.Step.{Kept-refl}
use ip_qos.Kernel.{Kernel, ◌>>=◌, is_ok}
use ip_qos.State.{Tables}
use ip_qos.Table.Buckets.{view}
use ip_qos.Table.Runs.{spent}
use ip_qos.TcRules.{TcRules}
use ip_qos.Threads.{Phase, adds, gives_back, installs, ends, left, step}
use ip_qos.Threads.Stages.{
  Steps, to_add, to_free, freeing, installing, ended, Holds-gives_back, IsApart, IsApart-change,
}

module _ {T : Type 0} (tc : TcRules T) (k : Kernel T) (ip id ip' id' : ℕ) (far : ip ≢ ip')
    (s : Tables) (p' : Phase) where
  module _ (mark : ℕ) (a : IsApart tc ip id ip' id' s (gives_back mark) p') (valid : IsMark s mark)
      (unused : IsUnused s mark) where
    abbrev i : ℕ
    i = id - 1

    abbrev cleared : Tables
    cleared = set_mark s i 0

    inside : i < length s.rules
    inside = let (low, high, _) = a.first_private in omega arith

    private : ((rule_at s.rules i).mode ≡ 0) ⊎ ((rule_at s.rules i).count ≡ 0)
    private = inl a.first_private.2

    cleared-IsConsistent : IsConsistent cleared
    cleared-IsConsistent = set_mark-IsConsistent s a.ready.consistent i 0 inside private

    freed : IsApart tc ip id ip' id' (set_bit cleared (slot mark) false) (ends none) p'
    freed =
        let (big, round, small, _) = valid in
        let c = a.ready.consistent in
        IsApart-change tc ip id ip' id' s (set_bit cleared (slot mark) false) (gives_back mark)
          (ends none) p' a
          (free_bit-IsConsistent cleared cleared-IsConsistent mark valid
            (set_mark-IsUnused s c i 0 inside mark private unused))
          (record { rules_kept = λ j. settings-set s.rules i j _ refl; rule_cnt = refl })
          (ended none) (λ still. still)
          (λ m h v u.
            let u' = set_mark-IsUnused s c i 0 inside m private u in
            (
              set_bit-IsMark cleared cleared-IsConsistent (slot mark)
                  (omega (arith, c.shape.bits_width)) false m
                  (λ f same.
                    a.distinct mark m (to_free mark) h
                      (slot-injective mark m big v.0 round v.1 (sym same)))
                  v,
              record { by_nodes = u'.by_nodes; by_rules = u'.by_rules },
            ))
          (λ m m' h. elim h [ ])

    pub step_gives_back : Steps tc k ip id ip' id' s p' (gives_back mark)
    unfolding step left
    step_gives_back =
        let (low, high, mode) = a.first_private in
        (
          ends none,
          k,
          set_bit cleared (slot mark) false,
          rw
              (
                give_back_last s a.ready.consistent id mark low high valid k (ground (arith, mode)),
                ◌>>=◌,
              )
              refl,
          freed,
          omega arith,
        )

  module _ (mark : ℕ) (a : IsApart tc ip id ip' id' s (adds mark) p') (absent : view s.ht ip ≡ none)
      (valid : IsMark s mark) (unused : IsUnused s mark) where
    abbrev c : IsConsistent s
    c = a.ready.consistent

    low : 0 < id
    low = a.first_private.0

    high : id ≤ length s.rules
    high = a.first_private.1

    -- The mark is still in hand.
    kept_in_hand : IsApart tc ip id ip' id' s (gives_back mark) p'
    kept_in_hand =
        IsApart-change tc ip id ip' id' s s (adds mark) (gives_back mark) p' a c (Kept-refl s)
          (freeing mark valid unused) (λ still. still) (λ m h v u. (v, u))
          (λ m m' h h' same.
            a.distinct mark m' (to_add mark) h' (sym (Holds-gives_back mark m h) ∙ same))

    module _ (room : s.elem_num < s.max_ip_cnt) where
      attach-IsUnused : (m : ℕ) → mark ≢ m → IsUnused s m → IsUnused (attach s ip id mark) m
      attach-IsUnused m other u = record {
        by_nodes = λ q n e. elim (view-attach_cases s ip id mark c absent room low high q n e) [
          | inl (_, new) ↦ λ same. other (rw new at same)
          | inr (_, old) ↦ u.by_nodes q n old
        ];
        by_rules = λ i h mode used.
            let apart : id - 1 ≢ i = λ here.
              mode (
                attach-mode s ip id mark c absent room low high i
                ∙ rw (← here) a.first_private.2) in
            let same : rule_at (attach s ip id mark).rules i ≡ rule_at s.rules i =
              rule_at-attach s ip id mark c absent room low high i
              ∙ ground (arith, ==_iff (id - 1) i) in
            rw same (
              u.by_rules i (rw (length-attach s ip id mark c absent room low high) at h)
                (rw same at mode) (rw same at used));
      }

      attached : IsApart tc ip id ip' id' (attach s ip id mark) (installs mark) p'
      attached =
          IsApart-change tc ip id ip' id' s (attach s ip id mark) (adds mark) (installs mark) p' a
            (attach-IsConsistent s ip id mark c absent room low high valid
              (fresh unused (λ mode. absurd (mode a.first_private.2))))
            (record { rules_kept = settings-attach s ip id mark; rule_cnt = refl })
            (installing mark)
            (λ still.
              ground (arith, view-attach s ip id mark c absent room low high ip', ==_iff ip ip'))
            (λ m h v u. (v, attach-IsUnused m (a.distinct mark m (to_add mark) h) u))
            (λ m m' h. elim h [ ])

    pub step_adds : Steps tc k ip id ip' id' s p' (adds mark)
    unfolding step left
    step_adds = elim (Bool-cases (ltb s.elem_num s.max_ip_cnt)) [
      | inr full ↦ (
        gives_back mark,
        k,
        s,
        rw
            (
              add_full k s c.shape ip id mark absent low high valid (ground (arith, c.shape.room)),
              ◌>>=◌,
              if◌then◌else◌,
              is_ok,
            )
            refl,
        kept_in_hand,
        omega arith,
      )
      | inl room ↦
          let fits : s.elem_num < s.max_ip_cnt = ground arith in
          elim (Bool-cases (k.supply 0)) [
            | inl given ↦ (
              installs mark,
              spent k,
              attach s ip id mark,
              rw
                  (
                    add_run k s c.shape ip id mark absent low high valid fits given,
                    ◌>>=◌,
                    if◌then◌else◌,
                    is_ok,
                  )
                  refl,
              attached fits,
              omega arith,
            )
            | inr dry ↦ (
              gives_back mark,
              spent k,
              s,
              rw
                  (
                    add_no_memory k s c.shape ip id mark absent low high valid fits dry,
                    ◌>>=◌,
                    if◌then◌else◌,
                    is_ok,
                  )
                  refl,
              kept_in_hand,
              omega arith,
            )
          ]
    ]
