-- ===== src/Tool/Quiet.antt =====
-- Invocations of the tool that harm no address, whatever their texts are.
use ip_qos.Base.{
  refl, arith, ℕ, ◌≡◌, true, false, Bool-cases, inl, inr, List, [], ◌∷◌, some, if◌then◌else◌, ◌==◌,
}
use ip_qos.Consistent.{IsConsistent}
use ip_qos.Ioctl.{Command, rule_lst, hash_del, hash_chk, hash_lst, mark_alo, dump}
use ip_qos.Ioctl.Safe.{
  IsHarmless, list_rules, drop_reference, check, list_hash, reserve, dump_all,
  qmark_cdev_ioctl-IsConsistent,
}
use ip_qos.Kernel.{Kernel, done, ◌>>=◌, M}
use ip_qos.State.{Tables, up, idle}
use ip_qos.TcRules.{TcRules}
use ip_qos.Text.{Text, sscanf}
use ip_qos.Options.{Locals, with_address, address_format}
use ip_qos.Tool.{command, ask_mark, take_mark, option_step, run_options, main}

-- Letters of options that list, look up, drop a reference or reserve a mark; -h; and the ? of an
-- option that is not known.
pub data IsQuiet (opt : ℕ) : Type 0 where
  lists_rules : opt ≡ b'l' → IsQuiet opt
  deletes_hash : opt ≡ b'D' → IsQuiet opt
  checks_hash : opt ≡ b'C' → IsQuiet opt
  lists_hash : opt ≡ b'L' → IsQuiet opt
  allocates : opt ≡ b'g' → IsQuiet opt
  dumps : opt ≡ b'z' → IsQuiet opt
  helps : opt ≡ b'h' → IsQuiet opt
  unknown : opt ≡ b'?' → IsQuiet opt

pub data AllQuiet : List (ℕ × Text) → Type 0 where
  quiet_nil : AllQuiet []
  quiet_cons :
      {opt : ℕ} {optarg : Text} {opts : List (ℕ × Text)}
      → IsQuiet opt
      → AllQuiet opts
      → AllQuiet ((opt, optarg) ∷ opts)

module _ {T : Type 0} (tc : TcRules T) (set_devices : Text → Text → T → T) where
  -- A run from these tables ends, with consistent tables.
  abbrev pub EndsWell : {A : Type 0} → M T A → Kernel T → Tables → Type 0
  EndsWell {A} m k s =
      (a : A) × (h : Kernel T) × (s' : Tables) × (m (up (idle k) s) ≡ done (a, up (idle h) s'))
      × IsConsistent s'

  module _ (k : Kernel T) (s : Tables) (c : IsConsistent s) where
    command-EndsWell :
        (opt : ℕ) (cmd : Command) (l : Locals)
        → IsHarmless s cmd
        → EndsWell (command tc set_devices opt cmd l) k s
    unfolding command
    command-EndsWell opt cmd l harmless =
        let (reply, h, s', run, d) =
          qmark_cdev_ioctl-IsConsistent tc set_devices k s c cmd harmless in
        rw (run, ◌>>=◌) (_, h, s', refl, d)

    ask_mark-EndsWell : (l : Locals) → EndsWell (ask_mark tc set_devices l) k s
    unfolding ask_mark
    ask_mark-EndsWell l =
        let (reply, h, s', run, d) =
          qmark_cdev_ioctl-IsConsistent tc set_devices k s c (hash_chk l.qh) (check l.qh) in
        rw (run, ◌>>=◌) (_, h, s', refl, d)

    take_mark-EndsWell : (l : Locals) → EndsWell (take_mark tc set_devices l) k s
    unfolding take_mark
    take_mark-EndsWell l =
        let (reply, h, s', run, d) =
          qmark_cdev_ioctl-IsConsistent tc set_devices k s c mark_alo reserve in
        rw (run, ◌>>=◌) (_, h, s', refl, d)

    -- The options but -h.
    option_step-EndsWell :
        (opt : ℕ) (optarg : Text) (l : Locals)
        → IsQuiet opt
        → (opt == b'h') ≡ false
        → EndsWell (option_step tc set_devices opt optarg l) k s
    unfolding option_step
    option_step-EndsWell opt optarg l (lists_rules e) other =
        rw e (command-EndsWell b'l' rule_lst l list_rules)
    option_step-EndsWell opt optarg l (deletes_hash e) other = rw e (
        command-EndsWell b'D' (hash_del _) (with_address (sscanf address_format optarg) l)
          (drop_reference _))
    option_step-EndsWell opt optarg l (checks_hash e) other =
        rw e (ask_mark-EndsWell (with_address (sscanf address_format optarg) l))
    option_step-EndsWell opt optarg l (lists_hash e) other =
        rw e (command-EndsWell b'L' hash_lst l list_hash)
    option_step-EndsWell opt optarg l (allocates e) other = rw e (take_mark-EndsWell l)
    option_step-EndsWell opt optarg l (dumps e) other = rw e (command-EndsWell b'z' dump l dump_all)
    option_step-EndsWell opt optarg l (helps e) other = absurd (ground (arith, e))
    option_step-EndsWell opt optarg l (unknown e) other = rw e (_, k, s, refl, c)

  run_options-EndsWell :
      (opts : List (ℕ × Text)) (l : Locals) (k : Kernel T) (s : Tables)
      → IsConsistent s
      → AllQuiet opts
      → EndsWell (run_options tc set_devices opts l) k s
  unfolding run_options
  run_options-EndsWell [] l k s c all = (l, k, s, refl, c)
  run_options-EndsWell ((opt, optarg) ∷ opts) l k s c (quiet_cons quiet all) =
      elim (Bool-cases (opt == b'h')) [
        | inl help ↦ rw (help, if◌then◌else◌) (_, k, s, refl, c)
        | inr other ↦
            let (l', h, s', run, d) = option_step-EndsWell k s c opt optarg l quiet other in
            let (l'', h', s'', run', d') = run_options-EndsWell opts l' h s' d all in
            (l'', h', s'', rw (other, run, ◌>>=◌, if◌then◌else◌) run', d')
      ]

  -- From consistent tables any run of the tool with options that list, look up, drop a reference,
  -- reserve a mark, show the usage or are unknown, whatever their texts, ends without a fault,
  -- releases the lock and keeps the tables consistent.
  pub main-EndsWell :
      (opts : List (ℕ × Text)) (l : Locals) (k : Kernel T) (s : Tables)
      → IsConsistent s
      → AllQuiet opts
      → EndsWell (main tc set_devices true opts l) k s
  unfolding main
  main-EndsWell opts l k s c all =
      let (l', h, s', run, d) = run_options-EndsWell opts l k s c all in
      (some l', h, s', rw (run, ◌>>=◌) refl, d)
