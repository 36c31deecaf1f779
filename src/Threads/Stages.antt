-- ===== src/Threads/Stages.antt =====
-- What two packets on their way may rely on, and which changes of the tables leave it to them.
use ip_qos.Base.{ℕ, ◌-◌, ◌≤◌, ◌<◌, ◌≡◌, ◌≢◌, ◌∙◌, refl, ap, sym, none, Option, length, arith}
use ip_qos.Consistent.{IsConsistent, IsMark, rule_at}
use ip_qos.Consistent.Marks.{IsUnused}
use ip_qos.DataPath.Step.{IsReady, IsReady-Kept, Kept}
use ip_qos.Kernel.{Kernel, RuletblNode, done}
use ip_qos.State.{Tables, up, idle}
use ip_qos.Table.Buckets.{view}
use ip_qos.TcRules.{TcRules}
use ip_qos.Threads.{Phase, looks, chooses, adds, gives_back, installs, ends, left, step}

-- The packet has a mark that is not in the tables.
pub data Holds : Phase → ℕ → Type 0 where
  to_add : (mark : ℕ) → Holds (adds mark) mark
  to_free : (mark : ℕ) → Holds (gives_back mark) mark

-- That mark is nobody else's, and a packet that is about to add its address has found none.
pub data Stage (s : Tables) (ip : ℕ) : Phase → Type 0 where
  looking : Stage s ip looks
  choosing : view s.ht ip ≡ none → Stage s ip chooses
  adding :
      (mark : ℕ) → view s.ht ip ≡ none → IsMark s mark → IsUnused s mark → Stage s ip (adds mark)
  freeing : (mark : ℕ) → IsMark s mark → IsUnused s mark → Stage s ip (gives_back mark)
  installing : (mark : ℕ) → Stage s ip (installs mark)
  ended : (mark : Option ℕ) → Stage s ip (ends mark)

pub Stage-Holds :
    (s : Tables) (ip mark : ℕ) (p : Phase)
    → Stage s ip p
    → Holds p mark
    → IsMark s mark × IsUnused s mark
Stage-Holds s ip mark _ (adding _ absent valid unused) (to_add _) = (valid, unused)
Stage-Holds s ip mark _ (freeing _ valid unused) (to_free _) = (valid, unused)
Stage-Holds s ip mark _ looking h = elim h [ ]
Stage-Holds s ip mark _ (choosing absent) h = elim h [ ]
Stage-Holds s ip mark _ (installing m) h = elim h [ ]
Stage-Holds s ip mark _ (ended m) h = elim h [ ]

pub Stage-change :
    (s s' : Tables) (ip : ℕ) (p : Phase)
    → Stage s ip p
    → (view s.ht ip ≡ none → view s'.ht ip ≡ none)
    → ((mark : ℕ)
        → Holds p mark
        → IsMark s mark
        → IsUnused s mark
        → IsMark s' mark × IsUnused s' mark)
    → Stage s' ip p
Stage-change s s' ip _ looking still kept = looking
Stage-change s s' ip _ (choosing absent) still kept = choosing (still absent)
Stage-change s s' ip _ (adding m absent valid unused) still kept =
    let (valid', unused') = kept m (to_add m) valid unused in adding m (still absent) valid' unused'
Stage-change s s' ip _ (freeing m valid unused) still kept =
    let (valid', unused') = kept m (to_free m) valid unused in freeing m valid' unused'
Stage-change s s' ip _ (installing m) still kept = installing m
Stage-change s s' ip _ (ended m) still kept = ended m

-- A rule in private mode.
abbrev pub IsPrivate : Tables → ℕ → Type 0
IsPrivate s id = (0 < id) × (id ≤ length s.rules) × ((rule_at s.rules (id - 1)).mode ≡ 0)

IsPrivate-Kept :
    (s s' : Tables) (id : ℕ)
    → IsConsistent s
    → IsConsistent s'
    → Kept s s'
    → IsPrivate s id
    → IsPrivate s' id
IsPrivate-Kept s s' id c c' kept (low, high, mode) = (
  low,
  omega (arith, c.shape.rules_width, c'.shape.rules_width, kept.rule_cnt),
  ap (λ (r : RuletblNode). r.mode) (kept.rules_kept (id - 1)) ∙ mode,
)

-- Two packets of private rules on their way over tables that are ready.
pub record IsApart {T : Type 0} (tc : TcRules T) (ip id ip' id' : ℕ) (s : Tables) (p p' : Phase)
    : Type 0 where
  pub ready : IsReady tc s
  pub first : Stage s ip p
  pub second : Stage s ip' p'
  pub first_private : IsPrivate s id
  pub second_private : IsPrivate s id'
  pub distinct : (mark mark' : ℕ) → Holds p mark → Holds p' mark' → mark ≢ mark'

pub IsApart-swap :
    {T : Type 0} (tc : TcRules T) (ip id ip' id' : ℕ) (s : Tables) (p p' : Phase)
    → IsApart tc ip id ip' id' s p p'
    → IsApart tc ip' id' ip id s p' p
IsApart-swap tc ip id ip' id' s p p' a = record {
  ready = a.ready;
  first = a.second;
  second = a.first;
  first_private = a.second_private;
  second_private = a.first_private;
  distinct = λ mark mark' h h' same. a.distinct mark' mark h' h (sym same);
}

-- The first packet goes on, and changes no rule's settings and nothing that the second relies on.
pub IsApart-change :
    {T : Type 0} (tc : TcRules T) (ip id ip' id' : ℕ) (s s' : Tables) (p q p' : Phase)
    → IsApart tc ip id ip' id' s p p'
    → IsConsistent s'
    → Kept s s'
    → Stage s' ip q
    → (view s.ht ip' ≡ none → view s'.ht ip' ≡ none)
    → ((mark : ℕ)
        → Holds p' mark
        → IsMark s mark
        → IsUnused s mark
        → IsMark s' mark × IsUnused s' mark)
    → ((mark mark' : ℕ) → Holds q mark → Holds p' mark' → mark ≢ mark')
    → IsApart tc ip id ip' id' s' q p'
IsApart-change tc ip id ip' id' s s' p q p' a c kept stage still marks distinct = record {
  ready = IsReady-Kept tc s s' a.ready c kept;
  first = stage;
  second = Stage-change s s' ip' p' a.second still marks;
  first_private = IsPrivate-Kept s s' id a.ready.consistent c kept a.first_private;
  second_private = IsPrivate-Kept s s' id' a.ready.consistent c kept a.second_private;
  distinct = distinct;
}

pub Holds-adds : (m mark : ℕ) → Holds (adds m) mark → mark ≡ m
Holds-adds m _ (to_add _) = refl

pub Holds-gives_back : (m mark : ℕ) → Holds (gives_back m) mark → mark ≡ m
Holds-gives_back m _ (to_free _) = refl

-- The step of a packet at `p` ends well.
abbrev pub Steps :
    {T : Type 0} → TcRules T → Kernel T → ℕ → ℕ → ℕ → ℕ → Tables → Phase → Phase → Type 0
Steps tc k ip id ip' id' s p' p =
    (q : Phase) × (h : Kernel _) × (s' : Tables) × (step tc ip id p (up (idle k) s)
      ≡ done (q, up (idle h) s'))
    × IsApart tc ip id ip' id' s' q p'
    × (left q ≤ left p - 1)
