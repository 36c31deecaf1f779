-- ===== src/DataPath/Leaks.antt =====
-- No mark leaks: a bit is set only while a node has its mark.
use ip_qos.Base.{
  ℕ, ◌≡◌, ◌≢◌, ap, ◌∙◌, sym, true, false, List, none, some, length, ◌==◌, ==_iff, ==_refl,
  Bool-cases, Option-cases, inl, inr, arith,
}
use mathlib.Core.Path.{subst}
use ip_qos.Auto.Ends.{Allocated}
use ip_qos.Base.Word.{atomic_inc}
use ip_qos.Bitmap.Laws.{bit}
use ip_qos.Conntrack.{EventBits}
use ip_qos.Conntrack.Outcome.{Released}
use ip_qos.Consistent.{slot}
use ip_qos.Consistent.Insert.{new_node}
use ip_qos.DataPath.{Event, AllValid, handle_all}
use ip_qos.DataPath.Step.{Counted, IsReady}
use ip_qos.DataPath.Trace.{
  Effect, marked, no_header, released, counted, other_event, skipped, no_entry, Effects, no_events,
  then_events, handle_all-Effects,
}
use ip_qos.Kernel.{Kernel, MarktblNode, done}
use ip_qos.State.{Tables, up, idle}
use ip_qos.Table.Buckets.{view}
use ip_qos.Target.Marking.{Marked, known, added, passed}
use ip_qos.TcRules.{TcRules}

-- A node that has the mark of bit `j`.
abbrev pub Owner : Tables → ℕ → Type 0
Owner s j = (q : ℕ) × (n : MarktblNode) × (view s.ht q ≡ some n) × (slot n.mark ≡ j)

abbrev pub IsTight : Tables → Type 0
IsTight s = (j : ℕ) → bit s.bits j ≡ true → Owner s j

module _ (s s' : Tables) (tight : IsTight s) where
  same : s' ≡ s → IsTight s'
  same e = subst IsTight (sym e) tight

  added-IsTight : (ip id m : ℕ) → view s.ht ip ≡ none → Allocated s ip id m s' → IsTight s'
  added-IsTight ip id m absent a j on = elim (Bool-cases (slot m == j)) [
    | inl mine ↦
        (ip, new_node ip id m, ground (arith, a.reads ip, ==_refl ip), (==_iff (slot m) j).0 mine)
    | inr other ↦
        let (q, n, there, owns) =
          tight j (sym (a.bits_kept j (ground (arith, ==_iff (slot m) j))) ∙ on) in
        (q, n, ground (arith, a.reads q, ==_iff ip q), owns)
  ]

  passed-IsTight :
      ((q : ℕ) → view s'.ht q ≡ view s.ht q) → ((j : ℕ) → bit s'.bits j ≡ bit s.bits j) → IsTight s'
  passed-IsTight reads bits j on =
      let (q, n, there, owns) = tight j (sym (bits j) ∙ on) in (q, n, reads q ∙ there, owns)

  Counted-IsTight : (ip : ℕ) → Counted s ip s' → IsTight s'
  Counted-IsTight ip r j on =
      let (q, n, there, owns) = tight j (rw r.bits_kept at on) in
      elim (Bool-cases (ip == q)) [
        | inl here ↦ (
          q,
          record n { count = atomic_inc n.count },
          ground (arith, r.reads q, ==_iff ip q),
          owns,
        )
        | inr far ↦ (q, n, ground (arith, r.reads q), owns)
      ]

  Released-IsTight : (ip : ℕ) → Released s ip s' → IsTight s'
  Released-IsTight ip r j on = elim (Option-cases (view s.ht ip)) [
    | inl absent ↦
        let (q, n, there, owns) =
          tight j (sym (r.bits_kept j (λ n here. absurd (cc (absent, here)))) ∙ on) in
        (q, n, ground (arith, r.reads q, ==_iff ip q), owns)
    | inr (n, here) ↦ elim (Bool-cases (slot n.mark == j)) [
      | inl mine ↦
          let mine' = (==_iff (slot n.mark) j).0 mine in
          let (q, m, there, marks) = r.held n here (rw mine' on) in
          (q, m, there, ap slot marks ∙ mine')
      | inr other ↦
          let apart : slot n.mark ≢ j = ground (arith, ==_iff (slot n.mark) j) in
          let (q, m, there, owns) = tight j (sym (r.bits_kept j (λ n' here'. ground arith)) ∙ on) in
          (q, m, ground (arith, r.reads q, ==_iff ip q), owns)
    ]
  ]

  Marked-IsTight : (ip id mask mark mark' : ℕ) → Marked s ip id mask mark s' mark' → IsTight s'
  Marked-IsTight ip id mask mark mark' (known n here e combined) = same e
  Marked-IsTight ip id mask mark mark' (added m absent a combined) = added-IsTight ip id m absent a
  Marked-IsTight ip id mask mark mark' (passed absent r combined) =
      passed-IsTight r.reads r.bits_kept

  Effect-IsTight : (b : EventBits) (e : Event) → Effect b s s' e → IsTight s'
  Effect-IsTight b e (marked info skb iph mark' there m) = Marked-IsTight _ _ _ _ mark' m
  Effect-IsTight b e (no_header info skb there e') = same e'
  Effect-IsTight b e (released events ct read destroy r) = Released-IsTight _ r
  Effect-IsTight b e (counted events ct read stays mark r) = Counted-IsTight _ r
  Effect-IsTight b e (other_event events ct stays other e') = same e'
  Effect-IsTight b e (skipped events ct skip e') = same e'
  Effect-IsTight b e (no_entry events e') = same e'

Effects-IsTight :
    (b : EventBits) (s s' : Tables) (es : List Event) → IsTight s → Effects b s s' es → IsTight s'
Effects-IsTight b s s' es tight (no_events) = tight
Effects-IsTight b s s'' es tight (then_events {s' = t} {e = e} {es = rest} effect effects) =
    Effects-IsTight b t s'' rest (Effect-IsTight s t tight b e effect) effects

-- From ready tables where each set bit is the mark of some address's node, any sequence of valid
-- packets and connection tracking events leaves tables where this holds again; so when all
-- addresses are gone, no mark is in use.
pub handle_all-IsTight :
    {T : Type 0} (tc : TcRules T) (b : EventBits) (es : List Event) (k : Kernel T) (s : Tables)
    → IsReady tc s
    → IsTight s
    → AllValid (length s.rules) es
    → (h : Kernel T) × (s' : Tables) × (handle_all tc b es (up (idle k) s)
        ≡ done (tt, up (idle h) s'))
      × IsTight s'
      × (((q : ℕ) → view s'.ht q ≡ none) → (j : ℕ) → bit s'.bits j ≡ false)
handle_all-IsTight tc b es k s r tight valid =
    let (h, s', run, _, _, effects) = handle_all-Effects tc b es k s r valid in
    let tight' = Effects-IsTight b s s' es tight effects in
    (
      h,
      s',
      run,
      tight',
      λ empty j. elim (Bool-cases (bit s'.bits j)) [
        | inl on ↦ let (q, n, there, _) = tight' j on in absurd (cc (empty q, there))
        | inr off ↦ off
      ],
    )
