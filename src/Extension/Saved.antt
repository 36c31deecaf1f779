-- ===== src/Extension/Saved.antt =====
-- A saved rule is read back, and the check of a rule's options.
use ip_qos.Base.{
  ℕ, ◌<◌, ◌≡◌, refl, true, false, List, [], ◌∷◌, ◌++◌, Option, none, some, lt→ltb, arith,
}
use ip_qos.Extension.{Xtables, qmark_parse, qmark_check, qmark_save}
use ip_qos.Target.{XtQmarkTginfo}
use ip_qos.Text.{
  Text, codes, is_space, digit_value, print_digits, print_unsigned, print_hex, print_int,
}
use ip_qos.Text.Digits.{AllDigits, print_digits-AllDigits}

-- A word of a command line: no white space in it.
abbrev pub IsWord : Text → Type 0
IsWord [] = Unit {0}
IsWord (c ∷ s) = (is_space c ≡ false) × IsWord s

AllDigits-IsWord : (base : ℕ) (s : Text) → base < 17 → AllDigits base s → IsWord s
unfolding digit_value
AllDigits-IsWord base [] small all = tt
AllDigits-IsWord base (c ∷ s) small all =
    (ground (arith, all.0), AllDigits-IsWord base s small all.1)

-- libxtables calls qmark_parse for each option of a rule, with the flags of those before.
abbrev pub parse_options :
    Xtables → List (ℕ × Text) → XtQmarkTginfo → ℕ → Option (XtQmarkTginfo × ℕ)
parse_options x [] markinfo xflags = some (markinfo, xflags)
parse_options x ((i, arg) ∷ options) markinfo xflags =
    elim (qmark_parse x (record { entry_id = i; arg = arg; xflags = xflags; val = 0 }) markinfo) [
      | none ↦ none
      | some (cb, markinfo') ↦ parse_options x options markinfo' cb.xflags
    ]

-- A rule's data before its options are read.
abbrev pub no_info : XtQmarkTginfo
no_info = record { mask = 0; id = 0; dir = 0 }

print_int_small : (v : ℕ) → v < 0x8000_0000 → print_int v ≡ print_unsigned v
unfolding print_int
print_int_small v small = rw (lt→ltb v 0x8000_0000 small) refl

print_int-IsWord : (v : ℕ) → v < 0x8000_0000 → IsWord (print_int v)
unfolding print_unsigned
print_int-IsWord v small = rw (print_int_small v small) (
    AllDigits-IsWord 10 (print_digits 10 10 v) (omega arith)
      (print_digits-AllDigits 10 (omega arith) (omega arith) 10 v))

print_hex-IsWord : (v : ℕ) → IsWord (print_hex v)
unfolding print_hex
print_hex-IsWord v =
    AllDigits-IsWord 16 (print_digits 16 8 v) (omega arith)
      (print_digits-AllDigits 16 (omega arith) (omega arith) 8 v)

module _ (x : Xtables) (markinfo : XtQmarkTginfo) where
  parse_lem :
      (mask id dir : Text)
      → mask ≡ codes "0x" ++ print_hex markinfo.mask
      → id ≡ print_unsigned markinfo.id
      → dir ≡ print_unsigned markinfo.dir
      → markinfo.mask < 0x1_0000_0000
      → markinfo.id < 0x8000_0000
      → markinfo.dir < 0x8000_0000
      → parse_options x ((0, mask) ∷ (1, id) ∷ (2, dir) ∷ []) no_info 0 ≡ some (markinfo, 7)
  unfolding qmark_parse
  parse_lem mask id dir is_mask is_id is_dir mask_small id_small dir_small =
      rw
        (
          parse_options,
          qmark_parse,
          x.reads_hex (record { entry_id = 0; arg = mask; xflags = 0; val = 0 }) markinfo.mask
              mask_small refl is_mask,
          x.reads_decimal (record { entry_id = 1; arg = id; xflags = 1; val = 0 }) markinfo.id
              (omega arith) refl is_id,
          x.reads_decimal (record { entry_id = 2; arg = dir; xflags = 3; val = 0 }) markinfo.dir
              (omega arith) refl is_dir,
        )
        refl

  -- For a 32-bit mask, and an id and a dir below 2 ^ 31, what qmark_save prints is the three
  -- options with one word each, and qmark_parse, called for these options in turn, gives the same
  -- data and flags that pass qmark_check.
  pub qmark_save-qmark_parse :
      markinfo.mask < 0x1_0000_0000
      → markinfo.id < 0x8000_0000
      → markinfo.dir < 0x8000_0000
      → (mask id dir : Text) × (qmark_save markinfo
          ≡ codes " --set-mask "
            ++ (mask ++ (codes " --set-id " ++ (id ++ (codes " --set-dir " ++ dir)))))
        × IsWord mask
        × IsWord id
        × IsWord dir
        × (parse_options x ((0, mask) ∷ (1, id) ∷ (2, dir) ∷ []) no_info 0 ≡ some (markinfo, 7))
        × ((qmark_check 7).passes ≡ true)
  unfolding qmark_save qmark_check
  qmark_save-qmark_parse mask_small id_small dir_small =
      let mask = codes "0x" ++ print_hex markinfo.mask in
      (
        mask,
        print_int markinfo.id,
        print_int markinfo.dir,
        refl,
        (refl, (refl, print_hex-IsWord markinfo.mask)),
        print_int-IsWord markinfo.id id_small,
        print_int-IsWord markinfo.dir dir_small,
        parse_lem mask (print_int markinfo.id) (print_int markinfo.dir) refl
            (print_int_small markinfo.id id_small) (print_int_small markinfo.dir dir_small)
            mask_small id_small dir_small,
        refl,
      )
