-- ===== src/Tool/Rule.antt =====
-- The tool's -a, from the text of a rule to the rule table.
use ip_qos.Base.{ℕ, ◌-◌, ◌≤◌, ◌<◌, ◌≡◌, ◌⊎◌, refl, ◌∙◌, ap, List, [], ◌∷◌, ◌++◌, length, true}
use ip_qos.Consistent.{IsConsistent, rule_at}
use ip_qos.Consistent.Replace.{replace}
use ip_qos.Ioctl.{QmarkRule, rule_add, qmark_cdev_ioctl}
use ip_qos.Kernel.{Kernel, done, ◌>>=◌}
use ip_qos.Rules.Outcome.{qmark_add_rule-IsConsistent}
use ip_qos.State.{Tables, up, idle}
use ip_qos.TcRules.{TcRules}
use ip_qos.Text.{Text, Directive, Value, num, number, blank, sscanf, print_unsigned}
use ip_qos.Text.Scan.{Stops-space, sscanf-number}
use ip_qos.Options.{Locals, with_rule, rule_format}
use ip_qos.Tool.{command, option_step}
use ip_qos.Tool.Reading.{spaced}

-- A number of a rule is below 2 ^ 31, so that %d reads it.
pub record IsReadable (qr : QmarkRule) : Type 0 where
  pub id_small : qr.id < 0x8000_0000
  pub mode_small : qr.mode < 0x8000_0000
  pub devid_small : qr.devid < 0x8000_0000
  pub rate_small : qr.rate < 0x8000_0000
  pub rate_mate_small : qr.rate_mate < 0x8000_0000
  pub rate_min_small : qr.rate_min < 0x8000_0000
  pub rate_min_mate_small : qr.rate_min_mate < 0x8000_0000

-- A space and a number, and what follows.
abbrev pub after_space : ℕ → Text → Text
after_space v rest = 32 ∷ print_unsigned v ++ rest

abbrev after_mode : QmarkRule → Text
after_mode qr = after_space qr.devid (
    after_space qr.rate
      (after_space qr.rate_mate (after_space qr.rate_min (after_space qr.rate_min_mate []))))

-- `id mode devid rate rate_mate rate_min rate_min_mate`
abbrev pub rule_text : QmarkRule → Text
rule_text qr = print_unsigned qr.id ++ after_space qr.mode (after_mode qr)

-- One more number of a format.
more :
    (ds : List Directive) (v w : ℕ) (rest : Text) (vs : List Value)
    → v < 0x8000_0000
    → sscanf ds (after_space w rest) ≡ vs
    → sscanf (blank ∷ number ∷ ds) (after_space v (after_space w rest)) ≡ num v ∷ vs
more ds v w rest vs small read =
    spaced ds v (after_space w rest) small (Stops-space (print_unsigned w ++ rest))
    ∙ ap (λ vs. num v ∷ vs) read

module _ (qr : QmarkRule) (small : IsReadable qr) where
  abbrev numbers : List Value
  numbers =
      num qr.id
      ∷ num qr.mode
      ∷ num qr.devid
      ∷ num qr.rate
      ∷ num qr.rate_mate
      ∷ num qr.rate_min
      ∷ num qr.rate_min_mate
      ∷ sscanf [] []

  sscanf-rule : sscanf rule_format (rule_text qr) ≡ numbers
  sscanf-rule =
      sscanf-number _ qr.id _ (Stops-space (print_unsigned qr.mode ++ after_mode qr)) small.id_small
      ∙ ap (λ vs. num qr.id ∷ vs)
          (more _ qr.mode qr.devid _ _ small.mode_small (
            more _ qr.devid qr.rate _ _ small.devid_small (
              more _ qr.rate qr.rate_mate _ _ small.rate_small (
                more _ qr.rate_mate qr.rate_min _ _ small.rate_mate_small (
                  more _ qr.rate_min qr.rate_min_mate _ _ small.rate_min_small
                    (spaced [] qr.rate_min_mate [] small.rate_min_mate_small tt))))))

module _ {T : Type 0} (tc : TcRules T) (set_devices : Text → Text → T → T) (k : Kernel T)
    (s : Tables) (c : IsConsistent s) (l : Locals) (qr : QmarkRule) where
  -- The tables with the rule of the text; mark and count of the rule stay.
  abbrev pub with_text : Tables
  with_text = replace s (qr.id - 1) (record (rule_at s.rules (qr.id - 1)) {
    on = true;
    mode = qr.mode;
    devid = qr.devid;
    rate = qr.rate;
    rate_mate = qr.rate_mate;
    rate_min = qr.rate_min;
    rate_min_mate = qr.rate_min_mate;
  })

  -- With the text of a rule whose numbers are below 2 ^ 31, whose id is in range and which no
  -- address uses or whose mode stays, qmark -a writes just that rule's values into the rule table
  -- and keeps the tables consistent.
  pub option_step_add :
      IsReadable qr
      → 0 < qr.id
      → qr.id ≤ length s.rules
      → ((rule_at s.rules (qr.id - 1)).count ≡ 0) ⊎ (qr.mode ≡ (rule_at s.rules (qr.id - 1)).mode)
      → (option_step tc set_devices b'a' (rule_text qr) l (up (idle k) s)
          ≡ done (record l { qr = qr }, up (idle k) with_text))
        × IsConsistent with_text
  unfolding option_step command qmark_cdev_ioctl
  option_step_add small low high may =
      let (run, d) =
        qmark_add_rule-IsConsistent k s c qr.id low high qr.mode qr.devid qr.rate qr.rate_mate
          qr.rate_min qr.rate_min_mate may in
      (
        ap
              (λ vs.
                command tc set_devices b'a' (rule_add (with_rule vs l.qr))
                  (record l { qr = with_rule vs l.qr }) (up (idle k) s))
              (sscanf-rule qr small)
            ∙ rw (run, ◌>>=◌) refl,
        d,
      )
