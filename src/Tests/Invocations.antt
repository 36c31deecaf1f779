-- ===== src/Tests/Invocations.antt =====
-- The command line tool at concrete options.
use ip_qos.Base.{
  not, Bool, inr, ℕ, ◌≡◌, refl, true, false, ◌&&◌, List, [], ◌∷◌, some, if◌then◌else◌, ◌==◌, arith,
}
use ip_qos.Consistent.{IsConsistent}
use ip_qos.Kernel.{done}
use ip_qos.State.{up, idle}
use ip_qos.Text.{
  Text, codes, print_unsigned, scan_int, sscanf, scan_unsigned, scan_digits, digit_value, scan_sign,
  skip_spaces,
}
use ip_qos.Ioctl.{QmarkRule}
use ip_qos.Tool.Quiet.{
  AllQuiet, quiet_nil, quiet_cons, deletes_hash, checks_hash, allocates, dumps, helps, EndsWell,
  main-EndsWell,
}
use ip_qos.Tool.Rule.{rule_text, with_text, option_step_add}
use ip_qos.Tool.Lookup.{asked, answer, lines, option_step_check}
use ip_qos.Api.{qmark_find_hash}
use ip_qos.Ioctl.{qmark_cdev_ioctl}
use ip_qos.Options.{optstring, long_options, Locals, start, mark_line}
use ip_qos.Tool.{run_options, option_step, main}
use ip_qos.Tool.Reading.{dotted}
use ip_qos.Tests.Sample.{counter, kernel, sample, sample-IsConsistent}
use ip_qos.Table.{qos_marktbl_hashtbl_get, marktbl_hash_get, find, load_node}
use ip_qos.Table.Buckets.{home}
use ip_qos.Hash.{hash_fn, mix, xor_shift, add_not_shift, add_shift, word_at, key_bytes}

-- Locals in which an address was read before.
abbrev second : Locals
second = record (start 0 0) { qh = record { ip = 0x100; id = 0; mark = 0 } }

option_step_check_example :
    option_step counter (λ lan wan t. t) b'C' (dotted 10 0 0 7 []) second (up (idle kernel) sample)
    ≡ done (
      record second {
        ip0 = 10;
        ip1 = 0;
        ip2 = 0;
        ip3 = 7;
        qh = record {
          ip = asked counter (λ lan wan t. t) kernel sample sample-IsConsistent second 10 0 0 7;
          id = 0;
          mark = answer counter (λ lan wan t. t) kernel sample sample-IsConsistent second 10 0 0 7;
        };
        out = lines counter (λ lan wan t. t) kernel sample sample-IsConsistent second 10 0 0 7;
      },
      up (idle kernel) sample,
    )
option_step_check_example =
    option_step_check counter (λ lan wan t. t) kernel sample sample-IsConsistent second 10 0 0 7
      (omega arith) (omega arith) (omega arith) (omega arith)

-- A fresh run finds the mark of 0.0.0.7, and a second lookup in the same run asks for 0.0.0.14.
lookups :
    main counter
      (λ lan wan t. t)
      true
      ((b'C', codes "0.0.0.7") ∷ (b'C', codes "0.0.0.7") ∷ [])
      (start 0 0)
      (up (idle kernel) sample)
    ≡ done (
      some (record (start 0 0) {
        ip3 = 7;
        qh = record { ip = 14; id = 0; mark = 0 };
        out = mark_line 0x800 ∷ mark_line 0 ∷ [];
      }),
      up (idle kernel) sample,
    )
unfolding main run_options option_step qmark_cdev_ioctl qmark_find_hash sscanf scan_int
    scan_unsigned scan_digits digit_value scan_sign skip_spaces qos_marktbl_hashtbl_get
    marktbl_hash_get home hash_fn mix xor_shift add_not_shift add_shift word_at key_bytes find
    load_node
lookups = refl

abbrev rule : QmarkRule
rule = record {
  id = 1;
  mode = 0;
  devid = 3;
  rate = 800;
  rate_mate = 900;
  rate_min = 100;
  rate_min_mate = 200;
}

rule_shown : rule_text rule ≡ codes "1 0 3 800 900 100 200"
unfolding print_unsigned
rule_shown = refl

option_step_add_example :
    (option_step counter
        (λ lan wan t. t)
        b'a'
        (rule_text rule)
        (start 0 0)
        (up (idle kernel) sample)
      ≡ done (
        record (start 0 0) { qr = rule },
        up
            (idle kernel)
            (with_text counter (λ lan wan t. t) kernel sample sample-IsConsistent (start 0 0) rule),
      ))
    × IsConsistent
        (with_text counter (λ lan wan t. t) kernel sample sample-IsConsistent (start 0 0) rule)
option_step_add_example =
    option_step_add counter (λ lan wan t. t) kernel sample sample-IsConsistent (start 0 0) rule
      (omega arith) (omega arith) (omega arith) (inr refl)

abbrev session : List (ℕ × Text)
session =
    (b'D', codes "0.0.0.7")
    ∷ (b'C', codes "not an address")
    ∷ (b'g', [])
    ∷ (b'z', [])
    ∷ (b'h', [])
    ∷ []

session-AllQuiet : AllQuiet session
session-AllQuiet = quiet_cons (deletes_hash refl) (
    quiet_cons (checks_hash refl)
      (quiet_cons (allocates refl) (quiet_cons (dumps refl) (quiet_cons (helps refl) quiet_nil))))

main-EndsWell_example :
    EndsWell counter
      (λ lan wan t. t)
      (main counter (λ lan wan t. t) true session (start 0 0))
      kernel
      sample
main-EndsWell_example =
    main-EndsWell counter (λ lan wan t. t) session (start 0 0) kernel sample sample-IsConsistent
      session-AllQuiet

-- The letter has a colon behind it in the list of letters.
abbrev takes_text : ℕ → Text → Bool
takes_text letter [] = false
takes_text letter (c ∷ []) = false
takes_text letter (c ∷ d ∷ s) = if c == letter then d == b':' else takes_text letter (d ∷ s)

abbrev agree : List (Text × Bool × ℕ) → Bool
agree [] = true
agree ((name, required, letter) ∷ options) =
    (if takes_text letter optstring then required else not required) && agree options

-- The long names and the letters agree on which options have a text.
options_agree : agree long_options ≡ true
options_agree = refl
