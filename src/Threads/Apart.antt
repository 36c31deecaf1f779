-- ===== src/Threads/Apart.antt =====
-- Two packets of different addresses and private rules, whatever the order of their turns.
use ip_qos.Base.{ℕ, ◌-◌, ◌≤◌, ◌≡◌, ◌≢◌, refl, sym, true, false, Bool, List, [], ◌∷◌, arith}
use ip_qos.DataPath.Step.{IsReady}
use ip_qos.Kernel.{Kernel, done, ◌>>=◌}
use ip_qos.State.{Tables, up, idle}
use ip_qos.TcRules.{TcRules}
use ip_qos.Threads.{Phase, looks, ends, left, turns_of, step, take_turns}
use ip_qos.Threads.Add.{step_adds, step_gives_back}
use ip_qos.Threads.Choose.{step_looks, step_chooses, step_installs}
use ip_qos.Threads.Stages.{
  Steps, Stage, looking, choosing, adding, freeing, installing, ended, IsPrivate, IsApart,
  IsApart-swap,
}

module _ {T : Type 0} (tc : TcRules T) (k : Kernel T) (ip id ip' id' : ℕ) (far : ip ≢ ip')
    (s : Tables) (p' : Phase) where
  step_apart :
      (p : Phase) → IsApart tc ip id ip' id' s p p' → Stage s ip p → Steps tc k ip id ip' id' s p' p
  unfolding step left
  step_apart _ a looking = step_looks tc k ip id ip' id' s p' a
  step_apart _ a (choosing absent) = step_chooses tc k ip id ip' id' s p' a absent
  step_apart _ a (adding mark absent valid unused) =
      step_adds tc k ip id ip' id' far s p' mark a absent valid unused
  step_apart _ a (freeing mark valid unused) =
      step_gives_back tc k ip id ip' id' far s p' mark a valid unused
  step_apart _ a (installing mark) = step_installs tc k ip id ip' id' s p' mark a
  step_apart _ a (ended mark) = (ends mark, k, s, refl, a, omega arith)

module _ {T : Type 0} (tc : TcRules T) (ip id ip' id' : ℕ) (far : ip ≢ ip') where
  turns-IsApart :
      (turns : List Bool) (k : Kernel T) (s : Tables) (p p' : Phase)
      → IsApart tc ip id ip' id' s p p'
      → (h : Kernel T) × (s' : Tables) × (q q' : Phase) × (take_turns tc ip id ip' id' turns p p'
            (up (idle k) s)
          ≡ done ((q, q'), up (idle h) s'))
        × IsApart tc ip id ip' id' s' q q'
        × (left q ≤ left p - turns_of true turns)
        × (left q' ≤ left p' - turns_of false turns)
  unfolding take_turns turns_of
  turns-IsApart [] k s p p' a = (k, s, p, p', refl, a, omega arith, omega arith)
  turns-IsApart (true ∷ turns) k s p p' a =
      let (q, h, s', run, a', less) = step_apart tc k ip id ip' id' far s p' p a a.first in
      let (h', s'', r, r', rest, a'', own, others) = turns-IsApart turns h s' q p' a' in
      (h', s'', r, r', rw (run, ◌>>=◌) rest, a'', omega arith, omega arith)
  turns-IsApart (false ∷ turns) k s p p' a =
      let (q', h, s', run, a', less) =
        step_apart tc k ip' id' ip id (λ same. far (sym same)) s p p'
          (IsApart-swap tc ip id ip' id' s p p' a) a.second in
      let (h', s'', r, r', rest, a'', own, others) =
        turns-IsApart turns h s' p q' (IsApart-swap tc ip' id' ip id s' q' p a') in
      (h', s'', r, r', rw (run, ◌>>=◌) rest, a'', omega arith, omega arith)

  -- Two packets of different addresses and of rules in private mode may take their turns in any
  -- order: from ready tables no fault stops them, whatever allocations fail, the tables are ready
  -- again at the end, the marks that they still hold outside the tables are valid, used by nobody
  -- else and not the same, and a packet that has had four turns of its own is through.
  pub take_turns-IsReady :
      (turns : List Bool) (k : Kernel T) (s : Tables)
      → IsReady tc s
      → IsPrivate s id
      → IsPrivate s id'
      → (h : Kernel T) × (s' : Tables) × (q q' : Phase) × (take_turns tc ip id ip' id' turns looks
            looks
            (up (idle k) s)
          ≡ done ((q, q'), up (idle h) s'))
        × IsReady tc s'
        × IsApart tc ip id ip' id' s' q q'
        × (left q ≤ 4 - turns_of true turns)
        × (left q' ≤ 4 - turns_of false turns)
  unfolding left
  take_turns-IsReady turns k s r private private' =
      let (h, s', q, q', run, a, own, others) = turns-IsApart turns k s looks looks (record {
        ready = r;
        first = looking;
        second = looking;
        first_private = private;
        second_private = private';
        distinct = λ mark mark' h. elim h [ ];
      }) in
      (h, s', q, q', run, a.ready, a, own, others)
