-- ===== src/Extension.antt =====
-- The iptables extension: how the options of the target are read, checked, shown and saved.
-- xt_lib/libxt_qmark.c, qmark_parse to qmark_save. struct xt_qmark_tginfo is the one of the target.
-- The help text and the registration are left out. libxtables is not part of the repository: its
-- parser is a parameter.
pub mod Saved
pub mod Required
use ip_qos.Base.{
  ℕ, ◌+◌, ◌^◌, ◌<◌, ◌≡◌, Bool, List, [], ◌∷◌, ◌++◌, Option, none, some, if◌then◌else◌, ◌==◌,
  bit_and, bit_or,
}
use ip_qos.Target.{XtQmarkTginfo}
use ip_qos.Text.{Text, codes, print_unsigned, print_hex, print_int}

-- struct xt_option_call: the entry's number, the text of the option, the options of the rule that
-- were given before, and the value that is read.
pub record OptionCall : Type 0 where
  pub entry_id : ℕ
  pub arg : Text
  pub xflags : ℕ
  pub val : ℕ

-- The option is new to the rule.
abbrev pub IsNew : OptionCall → Type 0
IsNew cb = bit_and cb.xflags (2 ^ cb.entry_id) ≡ 0

abbrev pub given : OptionCall → ℕ → OptionCall
given cb v = record cb { val = v; xflags = bit_or cb.xflags (2 ^ cb.entry_id) }

-- xtables_option_parse for options of type XTTYPE_UINT32: decimal numbers, and hexadecimal ones
-- after 0x; `none` where it ends the program with an error.
pub record Xtables : Type 0 where
  pub xtables_option_parse : OptionCall → Option OptionCall
  pub sets_flag :
      (cb cb' : OptionCall) → xtables_option_parse cb ≡ some cb' → cb' ≡ given cb cb'.val
  pub reads_decimal :
      (cb : OptionCall) (v : ℕ)
      → v < 0x1_0000_0000
      → IsNew cb
      → cb.arg ≡ print_unsigned v
      → xtables_option_parse cb ≡ some (given cb v)
  pub reads_hex :
      (cb : OptionCall) (v : ℕ)
      → v < 0x1_0000_0000
      → IsNew cb
      → cb.arg ≡ codes "0x" ++ print_hex v
      → xtables_option_parse cb ≡ some (given cb v)

-- The names of the options and their numbers.
abbrev pub qmark_opts : List (Text × ℕ)
qmark_opts = (codes "set-mask", 0) ∷ (codes "set-id", 1) ∷ (codes "set-dir", 2) ∷ []

-- `none` where xtables_error ends the program.
unfoldable pub qmark_parse :
    Xtables → OptionCall → XtQmarkTginfo → Option (OptionCall × XtQmarkTginfo)
qmark_parse x cb markinfo = elim (x.xtables_option_parse cb) [
  | none ↦ none
  | some cb' ↦
      if cb'.entry_id == 0
      then some (cb', record markinfo { mask = cb'.val })
      else if cb'.entry_id == 1
      then some (cb', record markinfo { id = cb'.val })
      else if cb'.entry_id == 2
      then some (cb', record markinfo { dir = cb'.val })
      else none
]

-- The options that are reported as missing, and whether the rule passes.
pub record Checked : Type 0 where
  pub missing : List ℕ
  pub passes : Bool

abbrev report : ℕ → ℕ → List ℕ
report xflags i = if bit_and xflags (2 ^ i) == 0 then i ∷ [] else []

unfoldable pub qmark_check : ℕ → Checked
qmark_check xflags = record {
  missing = report xflags 0 ++ (report xflags 1 ++ report xflags 2);
  passes = xflags == 7;
}

unfoldable pub qmark_print : XtQmarkTginfo → Text
qmark_print markinfo =
    codes " qmark mask 0x"
    ++ (print_hex markinfo.mask
        ++ (codes " id " ++ (print_int markinfo.id ++ (codes " dir " ++ print_int markinfo.dir))))

unfoldable pub qmark_save : XtQmarkTginfo → Text
qmark_save markinfo =
    codes " --set-mask 0x"
    ++ (print_hex markinfo.mask
        ++ (codes " --set-id "
            ++ (print_int markinfo.id ++ (codes " --set-dir " ++ print_int markinfo.dir))))
