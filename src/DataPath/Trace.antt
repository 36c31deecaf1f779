-- ===== src/DataPath/Trace.antt =====
-- Any sequence of events: no fault, consistent tables, and addresses of different rules apart.
use ip_qos.Base.{
  ℕ, ◌-◌, ◌≤◌, ◌<◌, ◌≡◌, ◌≢◌, ◌⊎◌, Option-cases, refl, ◌∙◌, sym, List, [], ◌∷◌, Option, none, some,
  length, true, false, if◌then◌else◌, Bool-cases, inl, inr,
}
use mathlib.Core.Path.{subst}
use ip_qos.Bitmap.Laws.{bit}
use ip_qos.Conntrack.{
  NfConn, EventBits, is_ignored, has_event, client_address, qmark_conntrack_event,
}
use ip_qos.Conntrack.Outcome.{Released, on_destroy-Released}
use ip_qos.Consistent.{IsConsistent, rule_at, slot}
use ip_qos.DataPath.{
  Event, packet, conntrack, IsValid, AllValid, all_nil, all_cons, handle_event, handle_all,
}
use ip_qos.DataPath.Step.{
  Kept, Kept-refl, Counted, Marked-Kept, IsReady, IsReady-Kept, on_mark-Counted,
}
use ip_qos.Kernel.{Kernel, done, MarktblNode, ◌>>=◌}
use ip_qos.State.{Tables, up, idle}
use ip_qos.Table.Buckets.{view}
use ip_qos.Target.{XtQmarkTginfo, IpHeader, SkBuff, packet_address, qmark_tg}
use ip_qos.Target.Marking.{Marked, qmark_handle-Marked}
use ip_qos.TcRules.{TcRules}

-- What each event does to the tables, by the guards of its handler.
pub data Effect (b : EventBits) (s s' : Tables) : Event → Type 0 where
  marked :
      (info : XtQmarkTginfo) (skb : SkBuff) (iph : IpHeader) (mark' : ℕ)
      → skb.header ≡ some iph
      → Marked s (packet_address info iph) info.id info.mask skb.mark s' mark'
      → Effect b s s' (packet info skb)
  no_header :
      (info : XtQmarkTginfo) (skb : SkBuff)
      → skb.header ≡ none
      → s' ≡ s
      → Effect b s s' (packet info skb)
  released :
      (events : ℕ) (ct : NfConn)
      → is_ignored ct ≡ false
      → has_event events b.ipct_destroy ≡ true
      → Released s (client_address ct) s'
      → Effect b s s' (conntrack events (some ct))
  counted :
      (events : ℕ) (ct : NfConn)
      → is_ignored ct ≡ false
      → has_event events b.ipct_destroy ≡ false
      → has_event events b.ipct_mark ≡ true
      → Counted s (client_address ct) s'
      → Effect b s s' (conntrack events (some ct))
  other_event :
      (events : ℕ) (ct : NfConn)
      → has_event events b.ipct_destroy ≡ false
      → has_event events b.ipct_mark ≡ false
      → s' ≡ s
      → Effect b s s' (conntrack events (some ct))
  skipped :
      (events : ℕ) (ct : NfConn)
      → is_ignored ct ≡ true
      → s' ≡ s
      → Effect b s s' (conntrack events (some ct))
  no_entry : (events : ℕ) → s' ≡ s → Effect b s s' (conntrack events none)

pub Effect-Kept : (b : EventBits) (s s' : Tables) (e : Event) → Effect b s s' e → Kept s s'
Effect-Kept b s s' e (marked info skb iph mark' there m) = Marked-Kept s _ _ _ _ s' mark' m
Effect-Kept b s s' e (no_header info skb there same) = subst (Kept s) (sym same) (Kept-refl s)
Effect-Kept b s s' e (released events ct read destroy r) = record {
  rules_kept = r.rules_kept;
  rule_cnt = r.spec_kept.1;
}
Effect-Kept b s s' e (counted events ct read stays mark r) = r.kept
Effect-Kept b s s' e (other_event events ct stays other same) =
    subst (Kept s) (sym same) (Kept-refl s)
Effect-Kept b s s' e (skipped events ct skip same) = subst (Kept s) (sym same) (Kept-refl s)
Effect-Kept b s s' e (no_entry events same) = subst (Kept s) (sym same) (Kept-refl s)

-- The tables after a sequence of events, each by its relation.
pub data Effects (b : EventBits) : Tables → Tables → List Event → Type 0 where
  no_events : {s : Tables} → Effects b s s []
  then_events :
      {s s' s'' : Tables} {e : Event} {es : List Event}
      → Effect b s s' e
      → Effects b s' s'' es
      → Effects b s s'' (e ∷ es)

module _ {T : Type 0} (tc : TcRules T) (b : EventBits) where
  module _ (k : Kernel T) (s : Tables) (r : IsReady tc s) where
    abbrev pub Handled : Event → Type 0
    Handled e =
        (h : Kernel T) × (s' : Tables) × (handle_event tc b e (up (idle k) s)
          ≡ done (tt, up (idle h) s'))
        × IsConsistent s'
        × Effect b s s' e

    packet_handled :
        (info : XtQmarkTginfo) (skb : SkBuff)
        → IsValid (length s.rules) (packet info skb)
        → Handled (packet info skb)
    unfolding handle_event qmark_tg
    packet_handled info skb (low, high) = elim (Option-cases skb.header) [
      | inl there ↦ (k, s, rw (there, ◌>>=◌) refl, r.consistent, no_header info skb there refl)
      | inr (iph, there) ↦
          let (mark', h, s', run, d, m) =
            qmark_handle-Marked tc k s skb.mark info iph r.consistent low high
              (r.safe (info.id - 1)) in
          (h, s', rw (there, run, ◌>>=◌) refl, d, marked info skb iph mark' there m)
    ]

    conntrack_handled : (events : ℕ) (ct : Option NfConn) → Handled (conntrack events ct)
    unfolding handle_event qmark_conntrack_event
    conntrack_handled events none = (k, s, refl, r.consistent, no_entry events refl)
    conntrack_handled events (some ct) = elim (Bool-cases (is_ignored ct)) [
      | inl skip ↦ (k, s, rw (skip, if◌then◌else◌) refl, r.consistent, skipped events ct skip refl)
      | inr read ↦ elim (Bool-cases (has_event events b.ipct_destroy)) [
        | inl destroy ↦
            let (t, s', run, d, out) =
              on_destroy-Released tc k s (client_address ct) r.consistent in
            (
              record k { traffic = t },
              s',
              rw (read, destroy, if◌then◌else◌) run,
              d,
              released events ct read destroy out,
            )
        | inr stays ↦ elim (Bool-cases (has_event events b.ipct_mark)) [
          | inl mark ↦
              let (s', run, d, out) = on_mark-Counted k s r.consistent (client_address ct) in
              (
                k,
                s',
                rw (read, stays, mark, if◌then◌else◌) run,
                d,
                counted events ct read stays mark out,
              )
          | inr other ↦ (
            k,
            s,
            rw (read, stays, other, if◌then◌else◌) refl,
            r.consistent,
            other_event events ct stays other refl,
          )
        ]
      ]
    ]

    -- On ready tables a valid event does not fault, keeps the tables consistent, and changes them
    -- as the relation of its handler says, for every guard of the handlers.
    pub handle_event-Effect : (e : Event) → IsValid (length s.rules) e → Handled e
    handle_event-Effect (packet info skb) valid = packet_handled info skb valid
    handle_event-Effect (conntrack events ct) valid = conntrack_handled events ct

  pub handle_cons :
      (k h : Kernel T) (s s' : Tables) (e : Event) (es : List Event)
      → handle_event tc b e (up (idle k) s) ≡ done (tt, up (idle h) s')
      → handle_all tc b (e ∷ es) (up (idle k) s) ≡ handle_all tc b es (up (idle h) s')
  unfolding handle_all
  handle_cons k h s s' e es run = rw (run, ◌>>=◌) refl

  -- From ready tables any sequence of valid events runs without a fault, leaves qmark_op_lock free
  -- and the tables ready with as many rules, and each event changes the tables as the relation of
  -- its handler says.
  pub handle_all-Effects :
      (es : List Event) (k : Kernel T) (s : Tables)
      → IsReady tc s
      → AllValid (length s.rules) es
      → (h : Kernel T) × (s' : Tables) × (handle_all tc b es (up (idle k) s)
          ≡ done (tt, up (idle h) s'))
        × IsReady tc s'
        × (length s'.rules ≡ length s.rules)
        × Effects b s s' es
  unfolding handle_all
  handle_all-Effects [] k s r all_nil = (k, s, refl, r, refl, no_events)
  handle_all-Effects (e ∷ es) k s r (all_cons valid rest) =
      let (h, s', run, c, effect) = handle_event-Effect k s r e valid in
      let kept = Effect-Kept b s s' e effect in
      let same : length s'.rules ≡ length s.rules =
        c.shape.rules_width ∙ kept.rule_cnt ∙ sym r.consistent.shape.rules_width in
      let (h', s'', run', r', same', effects) =
        handle_all-Effects es h s' (IsReady-Kept tc s s' r c kept)
          (subst (λ n. AllValid n es) (sym same) rest) in
      (h', s'', handle_cons k h s s' e es run ∙ run', r', same' ∙ same, then_events effect effects)

  -- After any sequence of packets and connection tracking events, started from ready tables with
  -- every packet's rule id in range, no handler has faulted, addresses of different rules, and
  -- different addresses of a rule in private mode, have different marks, and each mark in use is
  -- in range with its bit set.
  pub handle_all_apart :
      (es : List Event) (k : Kernel T) (s : Tables)
      → IsReady tc s
      → AllValid (length s.rules) es
      → (h : Kernel T) × (s' : Tables) × (handle_all tc b es (up (idle k) s)
          ≡ done (tt, up (idle h) s'))
        × ((q q' : ℕ) (n n' : MarktblNode)
            → view s'.ht q ≡ some n
            → view s'.ht q' ≡ some n'
            → q ≢ q'
            → (n.id ≢ n'.id) ⊎ ((rule_at s'.rules (n.id - 1)).mode ≡ 0)
            → n.mark ≢ n'.mark)
        × ((q : ℕ) (n : MarktblNode)
            → view s'.ht q ≡ some n
            → (0x800 ≤ n.mark) × (slot n.mark < s'.max_ip_cnt) × (bit s'.bits (slot n.mark) ≡ true))
  handle_all_apart es k s r valid =
      let (h, s', run, r', _, _) = handle_all-Effects es k s r valid in
      (
        h,
        s',
        run,
        (λ q q' n n' e e' far differ same.
            let (ids, mode) = r'.consistent.separate q q' n n' e e' far same in
            elim differ [ inl other ↦ other ids | inr private ↦ mode private ]),
        (λ q n e. let (_, _, (big, _, small, on)) = r'.consistent.marked q n e in (big, small, on)),
      )
