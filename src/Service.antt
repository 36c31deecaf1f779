-- ===== src/Service.antt =====
-- What the module promises, without tables: clients with a rule, a mark and a number of
-- references, and what an event may do to them.
-- The contract of kmod/qos_marktbl_main.c and xt_kmod/xt_qmark.c, as the data path uses them.
pub mod Refines
use ip_qos.Base.{
  ◌⊎◌, ℕ, ◌≡◌, ◌≢◌, Option, none, some, List, [], ◌∷◌, if◌then◌else◌, ◌==◌, true, false,
}
use ip_qos.Base.Word.{atomic_inc, atomic_dec, is_positive}
use ip_qos.Conntrack.{NfConn, EventBits, is_ignored, has_event, client_address}
use ip_qos.DataPath.{Event, packet, conntrack}
use ip_qos.Target.{XtQmarkTginfo, IpHeader, SkBuff, packet_address}

pub record Client : Type 0 where
  pub rule : ℕ
  pub mark : ℕ
  pub refs : ℕ

-- The client of each address.
abbrev pub Clients : Type 0
Clients = ℕ → Option Client

-- The mark `mark` may be given to a new client of the rule `id`.
pub data MayTake (mode : ℕ → ℕ) (cs : Clients) (id mark : ℕ) : Type 0 where
  -- Nobody has it, and no client of a rule in share mode has another one.
  alone :
      ((q : ℕ) (c : Client) → cs q ≡ some c → c.mark ≢ mark)
      → (mode id ≢ 0 → (q : ℕ) (c : Client) → cs q ≡ some c → c.rule ≢ id)
      → MayTake mode cs id mark
  -- It is the mark of the clients of the rule, which is in share mode.
  together :
      mode id ≢ 0
      → (q : ℕ) (c : Client) → cs q ≡ some c
      → c.rule ≡ id
      → c.mark ≡ mark
      → MayTake mode cs id mark

-- One reference more, and one less; the last one takes the client away.
abbrev pub retained : Option Client → Option Client
retained none = none
retained (some c) = some (record c { refs = atomic_inc c.refs })

abbrev pub released : Option Client → Option Client
released none = none
released (some c) =
    if is_positive (atomic_dec c.refs) then some (record c { refs = atomic_dec c.refs }) else none

-- The clients after an event.
pub data Serves (b : EventBits) (mode : ℕ → ℕ) (cs cs' : Clients) : Event → Type 0 where
  -- The packet is no IPv4, its address is a client already, or it gets no mark.
  no_ipv4 :
      (info : XtQmarkTginfo) (skb : SkBuff)
      → skb.header ≡ none
      → ((q : ℕ) → cs' q ≡ cs q)
      → Serves b mode cs cs' (packet info skb)
  greets :
      (info : XtQmarkTginfo) (skb : SkBuff) (iph : IpHeader) (c : Client)
      → skb.header ≡ some iph
      → cs (packet_address info iph) ≡ some c
      → ((q : ℕ) → cs' q ≡ cs q)
      → Serves b mode cs cs' (packet info skb)
  turns_away :
      (info : XtQmarkTginfo) (skb : SkBuff) (iph : IpHeader)
      → skb.header ≡ some iph
      → cs (packet_address info iph) ≡ none
      → ((q : ℕ) → cs' q ≡ cs q)
      → Serves b mode cs cs' (packet info skb)
  -- The address becomes a client, without a reference.
  admits :
      (info : XtQmarkTginfo) (skb : SkBuff) (iph : IpHeader) (mark : ℕ)
      → skb.header ≡ some iph
      → cs (packet_address info iph) ≡ none
      → MayTake mode cs info.id mark
      → ((q : ℕ)
          → cs' q ≡ (
              if packet_address info iph == q
              then some (record { rule = info.id; mark = mark; refs = 0 })
              else cs q))
      → Serves b mode cs cs' (packet info skb)
  retains :
      (events : ℕ) (ct : NfConn)
      → is_ignored ct ≡ false
      → has_event events b.ipct_destroy ≡ false
      → has_event events b.ipct_mark ≡ true
      → ((q : ℕ)
          → cs' q ≡ (if client_address ct == q then retained (cs (client_address ct)) else cs q))
      → Serves b mode cs cs' (conntrack events (some ct))
  releases :
      (events : ℕ) (ct : NfConn)
      → is_ignored ct ≡ false
      → has_event events b.ipct_destroy ≡ true
      → ((q : ℕ)
          → cs' q ≡ (if client_address ct == q then released (cs (client_address ct)) else cs q))
      → Serves b mode cs cs' (conntrack events (some ct))
  ignores :
      (events : ℕ) (ct : NfConn)
      → (is_ignored ct ≡ true)
        ⊎ ((has_event events b.ipct_destroy ≡ false) × (has_event events b.ipct_mark ≡ false))
      → ((q : ℕ) → cs' q ≡ cs q)
      → Serves b mode cs cs' (conntrack events (some ct))
  no_connection :
      (events : ℕ) → ((q : ℕ) → cs' q ≡ cs q) → Serves b mode cs cs' (conntrack events none)

pub data Service (b : EventBits) (mode : ℕ → ℕ) : Clients → Clients → List Event → Type 0 where
  rests : {cs : Clients} → Service b mode cs cs []
  then_serves :
      {cs cs' cs'' : Clients} {e : Event} {es : List Event}
      → Serves b mode cs cs' e
      → Service b mode cs' cs'' es
      → Service b mode cs cs'' (e ∷ es)
