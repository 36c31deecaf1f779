-- ===== src/Extension/Required.antt =====
-- Every rule has to have all three options.
use ip_qos.Base.{
  ℕ, ◌+◌, ◌^◌, ◌≡◌, refl, ◌∙◌, sym, ap, ◌⊎◌, inl, inr, Bool, true, false, Bool-cases, ◌&&◌, ◌||◌,
  List, [], ◌∷◌, ◌++◌, Option, none, some, Option-cases, if◌then◌else◌, ◌==◌, bit_or, arith,
}
use ip_qos.Extension.{OptionCall, Xtables, qmark_parse, qmark_check, Checked}
use ip_qos.Extension.Saved.{parse_options}
use ip_qos.Target.{XtQmarkTginfo}
use ip_qos.Text.{Text}

-- Option `i` is among the options.
abbrev pub gives : ℕ → List (ℕ × Text) → Bool
gives i [] = false
gives i ((j, arg) ∷ options) = j == i || gives i options

abbrev weight : Bool → ℕ → ℕ
weight on w = if on then w else 0

-- The flags of a rule that has the options with `true`.
abbrev pub flags : Bool → Bool → Bool → ℕ
flags mask id dir = weight mask 1 + (weight id 2 + weight dir 4)

known_entry :
    (c cb' : OptionCall) (mask id dir info' : XtQmarkTginfo)
    → ◌≡◌ {A = Option (OptionCall × XtQmarkTginfo)}
        (if c.entry_id == 0
          then some (c, mask)
          else if c.entry_id == 1
          then some (c, id)
          else if c.entry_id == 2
          then some (c, dir)
          else none)
        (some (cb', info'))
    → ((c.entry_id ≡ 0) ⊎ (c.entry_id ≡ 1) ⊎ (c.entry_id ≡ 2)) × (c ≡ cb')
known_entry c cb' mask id dir info' h = elim (Bool-cases (c.entry_id == 0)) [
  | inl zero ↦ (inl (ground arith), cc (rw (zero, if◌then◌else◌) at h))
  | inr not_zero ↦ elim (Bool-cases (c.entry_id == 1)) [
    | inl one ↦ (inr (inl (ground arith)), cc (rw (not_zero, one, if◌then◌else◌) at h))
    | inr not_one ↦ elim (Bool-cases (c.entry_id == 2)) [
      | inl two ↦ (inr (inr (ground arith)), cc (rw (not_zero, not_one, two, if◌then◌else◌) at h))
      | inr not_two ↦ absurd (cc (rw (not_zero, not_one, not_two, if◌then◌else◌) at h))
    ]
  ]
]

-- One more option.
flags_step :
    (a b c : Bool) (i : ℕ)
    → (i ≡ 0) ⊎ (i ≡ 1) ⊎ (i ≡ 2)
    → bit_or (flags a b c) (2 ^ i) ≡ flags (i == 0 || a) (i == 1 || b) (i == 2 || c)
flags_step a b c i (inl zero) = rw zero (mask a b c)
  where
    mask : (a b c : Bool) → bit_or (flags a b c) 1 ≡ flags true b c
    mask true true true = refl
    mask true true false = refl
    mask true false true = refl
    mask true false false = refl
    mask false true true = refl
    mask false true false = refl
    mask false false true = refl
    mask false false false = refl
flags_step a b c i (inr (inl one)) = rw one (id a b c)
  where
    id : (a b c : Bool) → bit_or (flags a b c) 2 ≡ flags a true c
    id true true true = refl
    id true true false = refl
    id true false true = refl
    id true false false = refl
    id false true true = refl
    id false true false = refl
    id false false true = refl
    id false false false = refl
flags_step a b c i (inr (inr two)) = rw two (dir a b c)
  where
    dir : (a b c : Bool) → bit_or (flags a b c) 4 ≡ flags a b true
    dir true true true = refl
    dir true true false = refl
    dir true false true = refl
    dir true false false = refl
    dir false true true = refl
    dir false true false = refl
    dir false false true = refl
    dir false false false = refl

or_swap : (p q a : Bool) → q || (p || a) ≡ (p || q) || a
or_swap true true a = refl
or_swap true false a = refl
or_swap false true a = refl
or_swap false false a = refl

-- The options that the check reports.
abbrev pub absent : ℕ → List (ℕ × Text) → List ℕ
absent i options = if gives i options then [] else i ∷ []

check_flags :
    (a b c : Bool)
    → qmark_check (flags (a || false) (b || false) (c || false)) ≡ record {
      missing =
          (if a then [] else 0 ∷ []) ++ ((if b then [] else 1 ∷ []) ++ (if c then [] else 2 ∷ []));
      passes = a && (b && c);
    }
unfolding qmark_check
check_flags true true true = refl
check_flags true true false = refl
check_flags true false true = refl
check_flags true false false = refl
check_flags false true true = refl
check_flags false true false = refl
check_flags false false true = refl
check_flags false false false = refl

module _ (x : Xtables) where
  qmark_parse-some :
      (cb cb' : OptionCall) (info info' : XtQmarkTginfo)
      → qmark_parse x cb info ≡ some (cb', info')
      → ((cb.entry_id ≡ 0) ⊎ (cb.entry_id ≡ 1) ⊎ (cb.entry_id ≡ 2))
        × (cb'.xflags ≡ bit_or cb.xflags (2 ^ cb.entry_id))
  unfolding qmark_parse
  qmark_parse-some cb cb' info info' h = elim (Option-cases (x.xtables_option_parse cb)) [
    | inl stopped ↦ absurd (cc (rw (qmark_parse, stopped) at h))
    | inr (c, e) ↦
        let (entry, same) = known_entry c cb' _ _ _ info' (rw (qmark_parse, e) at h) in
        let set = x.sets_flag cb c e in
        let id : c.entry_id ≡ cb.entry_id = ap (λ (c : OptionCall). c.entry_id) set in
        (rw id at entry, ap (λ (c : OptionCall). c.xflags) (sym same ∙ set))
  ]

  parse_options-flags :
      (options : List (ℕ × Text)) (info info' : XtQmarkTginfo) (a b c : Bool) (f : ℕ)
      → parse_options x options info (flags a b c) ≡ some (info', f)
      → f ≡ flags (gives 0 options || a) (gives 1 options || b) (gives 2 options || c)
  parse_options-flags [] info info' a b c f h = cc h
  parse_options-flags ((i, arg) ∷ options) info info' a b c f h =
      elim (Option-cases
        (qmark_parse x (record { entry_id = i; arg = arg; xflags = flags a b c; val = 0 }) info)) [
          | inl stopped ↦ absurd (cc (rw (parse_options, stopped) at h))
          | inr ((cb, info''), e) ↦
              let (entry, set) = qmark_parse-some _ cb info info'' e in
              let flags' = set ∙ flags_step a b c i entry in
              let rest =
                parse_options-flags options info'' info' (i == 0 || a) (i == 1 || b) (i == 2 || c) f
                  (rw (parse_options, e, flags') at h) in
              rest
              ∙ rw
                  (
                    or_swap (i == 0) (gives 0 options) a,
                    or_swap (i == 1) (gives 1 options) b,
                    or_swap (i == 2) (gives 2 options) c,
                  )
                  refl
        ]

  -- Where qmark_parse has taken all options of a rule, in any order, qmark_check passes just if
  -- all three options are among them, and reports exactly the missing ones.
  pub qmark_check_lem :
      (options : List (ℕ × Text)) (info info' : XtQmarkTginfo) (xflags : ℕ)
      → parse_options x options info 0 ≡ some (info', xflags)
      → ((qmark_check xflags).passes ≡ (gives 0 options && (gives 1 options && gives 2 options)))
        × ((qmark_check xflags).missing
            ≡ absent 0 options ++ (absent 1 options ++ absent 2 options))
  qmark_check_lem options info info' xflags h =
      let set = parse_options-flags options info info' false false false xflags h in
      let checked =
        ap qmark_check set ∙ check_flags (gives 0 options) (gives 1 options) (gives 2 options) in
      (ap (λ (c : Checked). c.passes) checked, ap (λ (c : Checked). c.missing) checked)
