-- ===== src/Tool.antt =====
-- The command line tool: it reads the text of each option and hands a command to the device.
-- app/qmark.c, main. getopt_long is not part of the repository: the options that it finds are an
-- argument, each with its letter and its text. Messages on the terminal are constructors; the
-- local variables live as long as the run.
pub mod Reading
pub mod Lookup
pub mod Quiet
pub mod Rule
use ip_qos.Base.{
  ℕ, ◌+◌, ◌*◌, ◌%◌, ◌^◌, Bool, true, false, not, ◌||◌, List, [], ◌∷◌, ◌++◌, Option, none, some,
  length, if◌then◌else◌, ltb, ◌==◌,
}
use ip_qos.Base.Word.{u32_mod}
use ip_qos.Ioctl.{
  QmarkRule, QmarkHash, Command, Reply, rule_add, rule_del, rule_lst, rule_flush, hash_add,
  hash_del, hash_chk, hash_lst, hash_flush, mark_alo, mark_free, mark_flush, dump, reset,
  netdev_set, spec_set, tc_add, tc_del, einval, success, qmark_cdev_ioctl,
}
use ip_qos.Kernel.{M, out_of_bounds, pure, raise, ◌>>=◌}
use ip_qos.TcRules.{TcRules}
use ip_qos.Text.{
  Text, codes, Directive, number, hex, word, blank, literal, Value, sscanf, num_at, str_at,
}
use ip_qos.Options.{
  Printed, Locals, start, optstring, long_options, address_format, rule_format, mark_format,
  add_octet, add_octets, with_rule, with_address, handed, report, print_mark, too_long, failed,
  mark_line, usage,
}

module _ {T : Type 0} (tc : TcRules T) (set_devices : Text → Text → T → T) where
  abbrev ioctl : Command → M T Reply
  ioctl cmd = qmark_cdev_ioctl tc set_devices cmd

  -- A command of which nothing comes back.
  unfoldable pub command : ℕ → Command → Locals → M T Locals
  command opt cmd l = do reply ← ioctl cmd; pure (report opt reply l)

  -- QMARK_IOC_HASH_CHK, and the mark that comes back.
  unfoldable pub ask_mark : Locals → M T Locals
  ask_mark l = do
    reply ← ioctl (hash_chk l.qh)
    let l' : Locals = record l { qh = record l.qh { mark = handed reply l.qh.mark } }
    pure (print_mark l'.qh.mark (report b'C' reply l'))

  unfoldable pub check_hash : Text → Locals → M T Locals
  unfolding ask_mark
  check_hash optarg l = ask_mark (with_address (sscanf address_format optarg) l)

  unfoldable pub take_mark : Locals → M T Locals
  take_mark l = do
    reply ← ioctl mark_alo
    let l' : Locals = record l { qm = handed reply l.qm }
    pure (print_mark l'.qm (report b'g' reply l'))

  unfoldable pub add_hash : Text → Locals → M T Locals
  unfolding command
  add_hash optarg l =
      let vs = sscanf (address_format ++ mark_format) optarg in
      let l' : Locals = record l {
        qh = record l.qh { mark = num_at vs 4 l.qh.mark; id = num_at vs 5 l.qh.id };
      } in
      let l'' = with_address vs l' in command b'A' (hash_add l''.qh) l''

  unfoldable pub set_netdev : Text → Locals → M T Locals
  unfolding command
  set_netdev optarg l =
      let vs = sscanf (word ∷ blank ∷ word ∷ []) optarg in
      let l' : Locals = record l {
        lan_dev = str_at vs 0 l.lan_dev;
        wan_dev = str_at vs 1 l.wan_dev;
      } in
      if too_long l'.lan_dev || too_long l'.wan_dev
      then raise out_of_bounds
      else command b'n' (netdev_set l'.lan_dev l'.wan_dev) l'

  -- One round of the loop, for every option but -h.
  unfoldable pub option_step : ℕ → Text → Locals → M T Locals
  unfolding command check_hash take_mark add_hash set_netdev
  option_step opt optarg l =
      if opt == b'a'
      then (let l' : Locals = record l { qr = with_rule (sscanf rule_format optarg) l.qr } in
          command opt (rule_add l'.qr) l')
      else if opt == b'd'
      then (let l' : Locals = record l {
        qr = record l.qr { id = num_at (sscanf (number ∷ []) optarg) 0 l.qr.id };
      } in
          command opt (rule_del l'.qr) l')
      else if opt == b'l'
      then command opt rule_lst l
      else if opt == b'x'
      then command opt rule_flush l
      else if opt == b'A'
      then add_hash optarg l
      else if opt == b'D'
      then (let l' = with_address (sscanf address_format optarg) l in
          command opt (hash_del l'.qh) l')
      else if opt == b'C'
      then check_hash optarg l
      else if opt == b'L'
      then command opt hash_lst l
      else if opt == b'X'
      then command opt hash_flush l
      else if opt == b'g'
      then take_mark l
      else if opt == b'f'
      then (let vs = sscanf (literal b'0' ∷ literal b'x' ∷ hex ∷ []) optarg in
          let l' : Locals = record l { qm = num_at vs 0 l.qm } in command opt (mark_free l'.qm) l')
      else if opt == b'F'
      then command opt mark_flush l
      else if opt == b'z'
      then command opt dump l
      else if opt == b'r'
      then (let l' : Locals = record l { qm = num_at (sscanf (number ∷ []) optarg) 0 l.qm } in
          command opt (reset l'.qm) l')
      else if opt == b'n'
      then set_netdev optarg l
      else if opt == b's'
      then (let vs = sscanf (number ∷ blank ∷ number ∷ []) optarg in
          let l' : Locals = record l {
            max_ip_cnt = num_at vs 0 l.max_ip_cnt;
            max_rule_cnt = num_at vs 1 l.max_rule_cnt;
          } in
          command opt (spec_set l'.max_ip_cnt l'.max_rule_cnt) l')
      else if opt == b't'
      then command opt tc_add l
      else if opt == b'u'
      then command opt tc_del l
      else pure (record l { out = l.out ++ (usage ∷ []) })

  -- -h ends the run.
  unfoldable pub run_options : List (ℕ × Text) → Locals → M T Locals
  run_options [] l = pure l
  run_options ((opt, optarg) ∷ opts) l =
      if opt == b'h'
      then pure (record l { out = l.out ++ (usage ∷ []) })
      else (do l' ← option_step opt optarg l; run_options opts l')

  -- `none` is -1, where /dev/qmarkctl cannot be opened.
  unfoldable pub main : Bool → List (ℕ × Text) → Locals → M T (Option Locals)
  main opened opts l = if opened then (do l' ← run_options opts l; pure (some l')) else pure none
