-- ===== src/Tests/Options.antt =====
-- The iptables extension at concrete options.
use ip_qos.Base.{
  ap, sym, ◌∙◌, Bool-cases, inr, ==_iff, ℕ, ◌<◌, ◌^◌, ◌≡◌, refl, inl, true, ◌&&◌, List, [], ◌∷◌,
  ◌++◌, Option, none, some, if◌then◌else◌, ◌==◌, bit_and, arith,
}
use ip_qos.Extension.{
  qmark_parse, OptionCall, IsNew, given, Xtables, qmark_check, qmark_save, qmark_print,
}
use ip_qos.Extension.Saved.{parse_options, no_info, IsWord, qmark_save-qmark_parse}
use ip_qos.Extension.Required.{gives, absent, qmark_check_lem}
use ip_qos.Target.{XtQmarkTginfo}
use ip_qos.Text.Scan.{scan_unsigned-print_digits}
use mathlib.Core.List.{append-nil}
use ip_qos.Text.{
  Text, codes, print_unsigned, print_hex, print_int, scan_int, scan_hex, sscanf, scan_unsigned,
  scan_digits, digit_value, scan_sign, skip_spaces, drop_prefix, number, hex, literal, blank, word,
  num, str, scan_word,
}

abbrev info : XtQmarkTginfo
info = record { mask = 0xff_f800; id = 12; dir = 1 }

saved : qmark_save info ≡ codes " --set-mask 0xfff800 --set-id 12 --set-dir 1"
unfolding qmark_save print_hex print_int
saved = refl

shown : qmark_print info ≡ codes " qmark mask 0xfff800 id 12 dir 1"
unfolding qmark_print print_hex print_int
shown = refl

-- A large id is saved as a negative number.
saved_large :
    qmark_save (record info { id = 0xffff_fffe })
    ≡ codes " --set-mask 0xfff800 --set-id -2 --set-dir 1"
unfolding qmark_save print_hex print_int
saved_large = refl

scanned :
    sscanf (number ∷ blank ∷ hex ∷ literal b',' ∷ word ∷ []) (codes " -7  0x1F, eth0 br")
    ≡ num 0xffff_fff9 ∷ num 31 ∷ str (codes "eth0") ∷ []
unfolding sscanf scan_int scan_hex scan_unsigned scan_sign skip_spaces drop_prefix scan_word
scanned = refl

not_scanned : sscanf (number ∷ blank ∷ number ∷ []) (codes "12 x3") ≡ num 12 ∷ []
unfolding sscanf scan_int scan_unsigned scan_sign skip_spaces
not_scanned = refl

-- A libxtables that reads numbers as strtoul does in base 0, but for octal ones, and takes each
-- option once.
abbrev whole : Option (ℕ × Text) → Option ℕ
whole none = none
whole (some (v, [])) = some v
whole (some (v, c ∷ rest)) = none

abbrev prefixed : Option (ℕ × Text) → Option ℕ
prefixed none = none
prefixed (some (v, [])) = some v
prefixed (some (v, c ∷ rest)) = whole (scan_unsigned 16 rest)

abbrev read : OptionCall → Option ℕ → Option OptionCall
read cb none = none
read cb (some v) = if bit_and cb.xflags (2 ^ cb.entry_id) == 0 then some (given cb v) else none

read_sets : (cb cb' : OptionCall) (v : Option ℕ) → read cb v ≡ some cb' → cb' ≡ given cb cb'.val
read_sets cb cb' none h = absurd (cc h)
read_sets cb cb' (some v) h = elim (Bool-cases (bit_and cb.xflags (2 ^ cb.entry_id) == 0)) [
  | inl new ↦
      let same : given cb v ≡ cb' = cc (rw (new, if◌then◌else◌) at h) in
      sym same ∙ ap (given cb) (ap (λ (c : OptionCall). c.val) same)
  | inr old ↦ absurd (cc (rw (old, if◌then◌else◌) at h))
]

read_new : (cb : OptionCall) (v : ℕ) → IsNew cb → read cb (some v) ≡ some (given cb v)
read_new cb v new = rw ((==_iff _ 0).1 new) refl

reads_decimal :
    (cb : OptionCall) (v : ℕ)
    → v < 0x1_0000_0000
    → IsNew cb
    → cb.arg ≡ print_unsigned v
    → read cb (prefixed (scan_unsigned 10 cb.arg)) ≡ some (given cb v)
unfolding print_unsigned
reads_decimal cb v small new shown =
    ap (λ (s : Text). read cb (prefixed (scan_unsigned 10 s))) (shown ∙ sym (append-nil _))
    ∙ ap (λ o. read cb (prefixed o))
        (scan_unsigned-print_digits 10 9 v [] (omega arith) (omega arith) (omega arith) tt)
    ∙ read_new cb v new

zero_x : (s : Text) → scan_unsigned 10 (codes "0x" ++ s) ≡ some (0, b'x' ∷ s)
unfolding scan_unsigned scan_digits digit_value
zero_x s = refl

hex_digits : (v : ℕ) → v < 0x1_0000_0000 → scan_unsigned 16 (print_hex v) ≡ some (v, [])
unfolding print_hex
hex_digits v small =
    ap (scan_unsigned 16) (sym (append-nil _))
    ∙ scan_unsigned-print_digits 16 7 v [] (omega arith) (omega arith) (omega arith) tt

reads_hex :
    (cb : OptionCall) (v : ℕ)
    → v < 0x1_0000_0000
    → IsNew cb
    → cb.arg ≡ codes "0x" ++ print_hex v
    → read cb (prefixed (scan_unsigned 10 cb.arg)) ≡ some (given cb v)
reads_hex cb v small new shown =
    ap (λ (s : Text). read cb (prefixed (scan_unsigned 10 s))) shown
    ∙ ap (λ o. read cb (prefixed o)) (zero_x (print_hex v))
    ∙ ap (λ o. read cb (whole o)) (hex_digits v small)
    ∙ read_new cb v new

abbrev libxtables : Xtables
libxtables = record {
  xtables_option_parse = λ cb. read cb (prefixed (scan_unsigned 10 cb.arg));
  sets_flag = λ cb cb'. read_sets cb cb' (prefixed (scan_unsigned 10 cb.arg));
  reads_decimal = reads_decimal;
  reads_hex = reads_hex;
}

qmark_save-qmark_parse_example :
    (mask id dir : Text) × (qmark_save info
      ≡ codes " --set-mask "
        ++ (mask ++ (codes " --set-id " ++ (id ++ (codes " --set-dir " ++ dir)))))
    × IsWord mask
    × IsWord id
    × IsWord dir
    × (parse_options libxtables ((0, mask) ∷ (1, id) ∷ (2, dir) ∷ []) no_info 0 ≡ some (info, 7))
    × ((qmark_check 7).passes ≡ true)
qmark_save-qmark_parse_example =
    qmark_save-qmark_parse libxtables info (omega arith) (omega arith) (omega arith)

abbrev two_options : List (ℕ × Text)
two_options = (2, codes "1") ∷ (0, codes "0xff") ∷ []

two_parsed :
    parse_options libxtables two_options no_info 0
    ≡ some (record { mask = 255; id = 0; dir = 1 }, 5)
unfolding qmark_parse scan_unsigned scan_digits digit_value
two_parsed = refl

qmark_check_lem_example :
    ((qmark_check 5).passes ≡ (gives 0 two_options && (gives 1 two_options && gives 2 two_options)))
    × ((qmark_check 5).missing
        ≡ absent 0 two_options ++ (absent 1 two_options ++ absent 2 two_options))
qmark_check_lem_example =
    qmark_check_lem libxtables two_options no_info (record { mask = 255; id = 0; dir = 1 }) 5
      two_parsed
