-- ===== src/Service/Refines.antt =====
-- What the clients are in the tables, and each event beside the contract.
use ip_qos.Base.{
  Bool, ℕ, ◌-◌, ◌<◌, ◌≤◌, ◌≡◌, ◌≢◌, refl, sym, ap, ◌∙◌, true, false, Bool-cases, Option, none, some,
  List, [], ◌∷◌, length, if◌then◌else◌, ◌==◌, inl, inr, arith,
}
use mathlib.Core.Path.{subst}
use ip_qos.Api.{is_last_use}
use ip_qos.Base.Word.{atomic_inc, atomic_dec, is_positive}
use ip_qos.Target.{XtQmarkTginfo, IpHeader, SkBuff, packet_address}
use ip_qos.Auto.Ends.{Allocated}
use ip_qos.Conntrack.{client_address, EventBits}
use ip_qos.Conntrack.Outcome.{survivor}
use ip_qos.Consistent.{IsConsistent, rule_at, count_witness, count-pos}
use ip_qos.DataPath.{Event, packet, IsValid, AllValid, all_nil, all_cons, handle_all}
use ip_qos.DataPath.Step.{IsReady, IsReady-Kept}
use ip_qos.DataPath.Trace.{
  Effect, marked, no_header, released, counted, other_event, skipped, no_entry, Effect-Kept,
  handle_event-Effect, handle_cons,
}
use ip_qos.Kernel.{Kernel, MarktblNode, RuletblNode, done}
use ip_qos.Service
use ip_qos.Service.{Client, Clients, MayTake, alone, together, Serves, Service}
use ip_qos.State.{Tables, up, idle}
use ip_qos.Table.Buckets.{view}
use ip_qos.Target.Marking.{Marked, known, added, passed}
use ip_qos.TcRules.{TcRules}

-- The client that a node stands for.
abbrev client_of : MarktblNode → Client
client_of n = record { rule = n.id; mark = n.mark; refs = n.count }

abbrev found : Option MarktblNode → Option Client
found none = none
found (some n) = some (client_of n)

abbrev pub clients : Tables → Clients
clients s q = found (view s.ht q)

-- The modes of the rules by their ids.
abbrev pub Modes : (ℕ → ℕ) → Tables → Type 0
Modes mode s = (id : ℕ) → mode id ≡ (rule_at s.rules (id - 1)).mode

-- A client has a node.
node_of :
    (o : Option MarktblNode) (c : Client)
    → found o ≡ some c
    → (n : MarktblNode) × (o ≡ some n) × (client_of n ≡ c)
node_of none c e = absurd (cc e)
node_of (some n) c e = (n, refl, cc e)

-- When a mark is a rule's first, and when it is that of its users.
last_use : (r : RuletblNode) → is_last_use r ≡ true → r.mode ≢ 0 → r.count ≡ 0
last_use r last shared = ground arith

joins_use : (r : RuletblNode) → is_last_use r ≡ false → (r.mode ≢ 0) × (r.count ≢ 0)
joins_use r joins = ground arith

module _ (s : Tables) (c : IsConsistent s) (mode : ℕ → ℕ) (modes : Modes mode s) (ip id m : ℕ)
    (low : 0 < id) (high : id ≤ length s.rules) (s' : Tables) (a : Allocated s ip id m s') where
  abbrev r : RuletblNode
  r = rule_at s.rules (id - 1)

  take_alone : is_last_use r ≡ true → MayTake mode (clients s) id m
  take_alone last =
      alone
        (λ q cl e same.
          let (n, there, is) = node_of (view s.ht q) cl e in
          let (_, _, (_, _, _, on)) = c.marked q n there in
          let marks : n.mark ≡ m = ap (λ (c : Client). c.mark) is ∙ same in
          absurd (cc (a.fresh_mark last, rw marks at on)))
        (λ shared q cl e same.
          let (n, there, is) = node_of (view s.ht q) cl e in
          let ids : n.id ≡ id = ap (λ (c : Client). c.rule) is ∙ same in
          let counted = count-pos s c q n there in
          let unused = last_use r last (λ e. shared (modes id ∙ e)) in
          absurd (omega (arith, rw ids at counted, unused)))

  take_together : is_last_use r ≡ false → MayTake mode (clients s) id m
  take_together joins =
      let (shared, used) = joins_use r joins in
      let (q, n, there, ids) = count_witness s c (id - 1) (omega arith) used in
      let ids' : n.id ≡ id = omega (arith, ids) in
      let shared' : (rule_at s.rules (n.id - 1)).mode ≢ 0 = rw ids' shared in
      together (λ e. shared (sym (modes id) ∙ e)) q (client_of n) (ap found there) ids'
        (c.shared q n there shared' ∙ rw ids' (sym (a.joined_mark joins)))

  take : MayTake mode (clients s) id m
  take = elim (Bool-cases (is_last_use r)) [
    | inl last ↦ take_alone last
    | inr joins ↦ take_together joins
  ]

found-if :
    (t : Bool) (o p : Option MarktblNode)
    → found (if t then o else p) ≡ (if t then found o else found p)
found-if true o p = refl
found-if false o p = refl

found-survivor : (o : Option MarktblNode) → found (survivor o) ≡ Service.released (found o)
found-survivor none = refl
found-survivor (some n) = found-if (is_positive (atomic_dec n.count)) _ none

found-counted :
    (o : Option MarktblNode)
    → found (elim o [ some n ↦ some (record n { count = atomic_inc n.count }) | none ↦ none ])
      ≡ Service.retained (found o)
found-counted none = refl
found-counted (some n) = refl

module _ (b : EventBits) (mode : ℕ → ℕ) (s s' : Tables) (c : IsConsistent s)
    (modes : Modes mode s) where
  same_clients : s' ≡ s → (q : ℕ) → clients s' q ≡ clients s q
  same_clients same q = ap (λ t. clients t q) same

  Marked-Serves :
      (info : XtQmarkTginfo) (skb : SkBuff) (iph : IpHeader) (mark' : ℕ)
      → skb.header ≡ some iph
      → IsValid (length s.rules) (packet info skb)
      → Marked s (packet_address info iph) info.id info.mask skb.mark s' mark'
      → Serves b mode (clients s) (clients s') (packet info skb)
  Marked-Serves info skb iph mark' there valid (known n here same combined) =
      Serves.greets info skb iph (client_of n) there (ap found here) (same_clients same)
  Marked-Serves info skb iph mark' there valid (added m absent a combined) =
      Serves.admits info skb iph m there (ap found absent)
        (take s c mode modes (packet_address info iph) info.id m valid.0 valid.1 s' a)
        (λ q. ap found (a.reads q) ∙ found-if (packet_address info iph == q) _ _)
  Marked-Serves info skb iph mark' there valid (passed absent r combined) =
      Serves.turns_away info skb iph there (ap found absent) (λ q. ap found (r.reads q))

  Effect-Serves :
      (e : Event)
      → IsValid (length s.rules) e
      → Effect b s s' e
      → Serves b mode (clients s) (clients s') e
  Effect-Serves _ valid (marked info skb iph mark' there m) =
      Marked-Serves info skb iph mark' there valid m
  Effect-Serves _ valid (no_header info skb there same) =
      Serves.no_ipv4 info skb there (same_clients same)
  Effect-Serves _ valid (released events ct read destroy r) =
      Serves.releases events ct read destroy (λ q.
        ap found (r.reads q)
        ∙ found-if (client_address ct == q) _ _
        ∙ ap (λ o. if client_address ct == q then o else clients s q)
            (found-survivor (view s.ht (client_address ct))))
  Effect-Serves _ valid (counted events ct read stays mark r) =
      Serves.retains events ct read stays mark (λ q.
        ap found (r.reads q)
        ∙ found-if (client_address ct == q) _ _
        ∙ ap (λ o. if client_address ct == q then o else clients s q)
            (found-counted (view s.ht (client_address ct))))
  Effect-Serves _ valid (other_event events ct stays other same) =
      Serves.ignores events ct (inr (stays, other)) (same_clients same)
  Effect-Serves _ valid (skipped events ct skip same) =
      Serves.ignores events ct (inl skip) (same_clients same)
  Effect-Serves _ valid (no_entry events same) = Serves.no_connection events (same_clients same)

module _ {T : Type 0} (tc : TcRules T) (b : EventBits) (mode : ℕ → ℕ) where
  -- From ready tables any sequence of valid events runs without a fault, and the clients that the
  -- tables hold go through what the contract allows for each event: a packet of a new address
  -- makes it a client with a mark that nobody has or that the clients of its shared rule have, or
  -- none; a marked connection adds a reference, the end of one takes a reference and the last one
  -- the client; and all other events change nothing.
  pub handle_all-Service :
      (es : List Event) (k : Kernel T) (s : Tables)
      → IsReady tc s
      → Modes mode s
      → AllValid (length s.rules) es
      → (h : Kernel T) × (s' : Tables) × (handle_all tc b es (up (idle k) s)
          ≡ done (tt, up (idle h) s'))
        × Service b mode (clients s) (clients s') es
  unfolding handle_all
  handle_all-Service [] k s r modes all_nil = (k, s, refl, Service.rests)
  handle_all-Service (e ∷ es) k s r modes (all_cons valid rest) =
      let (h, s', run, c, effect) = handle_event-Effect tc b k s r e valid in
      let kept = Effect-Kept b s s' e effect in
      let same : length s'.rules ≡ length s.rules =
        c.shape.rules_width ∙ kept.rule_cnt ∙ sym r.consistent.shape.rules_width in
      let modes' : Modes mode s' =
        λ id. modes id ∙ sym (ap (λ (r : RuletblNode). r.mode) (kept.rules_kept (id - 1))) in
      let (h', s'', run', service) =
        handle_all-Service es h s' (IsReady-Kept tc s s' r c kept) modes'
          (subst (λ n. AllValid n es) (sym same) rest) in
      (
        h',
        s'',
        handle_cons tc b k h s s' e es run ∙ run',
        Service.then_serves (Effect-Serves b mode s s' r.consistent modes e valid effect) service,
      )
