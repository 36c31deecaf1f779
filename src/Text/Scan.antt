-- ===== src/Text/Scan.antt =====
-- What is printed is read back: numbers in decimal and hexadecimal, in front of any text that does
-- not go on with a digit.
use ip_qos.Base.{
  ==_refl, length, length-append, ℕ, suc, ◌+◌, ◌*◌, ◌≤◌, ◌<◌, ◌≡◌, ◌≢◌, refl, ◌∙◌, ap, true, false,
  List, [], ◌∷◌, ◌++◌, if◌then◌else◌, ◌==◌, arith, some,
}
use ip_qos.Text.{
  Text, is_space, digit_value, no_digit, print_digits, print_unsigned, print_hex, skip_spaces,
  Directive, number, hex, blank, literal, num, sscanf, scan_digits, scan_unsigned, scan_sign,
  drop_prefix, scan_int, scan_hex,
}
use ip_qos.Text.Digits.{
  is_digit, AllDigits, value, Fits, print_digits-AllDigits, value-print_digits,
}

-- The text does not go on with a digit or with the x of a prefix.
abbrev pub Stops : Text → Type 0
Stops [] = Unit {0}
Stops (c ∷ s) = (digit_value c ≡ no_digit) × (c ≢ b'x') × (c ≢ b'X')

module _ (base : ℕ) (pos : 0 < base) (small : base ≤ 16) where
  scan_digits-append :
      (acc : ℕ) (s rest : Text)
      → AllDigits base s
      → Stops rest
      → scan_digits base acc (s ++ rest) ≡ (value base acc s, rest)
  unfolding scan_digits
  scan_digits-append acc [] [] all stops = refl
  scan_digits-append acc [] (c ∷ rest) all stops = ground (arith, stops.0)
  scan_digits-append acc (c ∷ s) rest all stops =
      rw (all.0, if◌then◌else◌) (scan_digits-append (acc * base + digit_value c) s rest all.1 stops)

  -- A text of digits that is not empty.
  scan_unsigned-append :
      (c : ℕ) (s rest : Text)
      → AllDigits base (c ∷ s)
      → Stops rest
      → scan_unsigned base (c ∷ s ++ rest) ≡ some (value base 0 (c ∷ s), rest)
  unfolding scan_unsigned
  scan_unsigned-append c s rest all stops =
      rw (all.0, if◌then◌else◌)
        (ap some (scan_digits-append (0 * base + digit_value c) s rest all.1 stops))

  plain :
      (c : ℕ)
      → is_digit base c ≡ true
      → (is_space c ≡ false) × ((c == b'-') ≡ false) × ((c == b'+') ≡ false)
  unfolding digit_value
  plain c h = ground arith

  skip_spaces-digit : (c : ℕ) (s : Text) → is_digit base c ≡ true → skip_spaces (c ∷ s) ≡ c ∷ s
  unfolding skip_spaces
  skip_spaces-digit c s h = rw ((plain c h).0) refl

  scan_sign-digit : (c : ℕ) (s : Text) → is_digit base c ≡ true → scan_sign (c ∷ s) ≡ (false, c ∷ s)
  unfolding scan_sign
  scan_sign-digit c s h = rw ((plain c h).1, (plain c h).2, if◌then◌else◌) refl

  signless :
      (c : ℕ) (s : Text) → is_digit base c ≡ true → scan_sign (skip_spaces (c ∷ s)) ≡ (false, c ∷ s)
  signless c s h = rw (skip_spaces-digit c s h, scan_sign-digit c s h) refl

drop_prefix-digits :
    (c : ℕ) (s rest : Text)
    → AllDigits 16 s
    → Stops rest
    → drop_prefix (c ∷ s ++ rest) ≡ c ∷ s ++ rest
unfolding drop_prefix digit_value
drop_prefix-digits c [] [] all stops = refl
drop_prefix-digits c [] (d ∷ rest) all stops = ground arith
drop_prefix-digits c (d ∷ s) rest all stops = ground (arith, all.0)

scan_int-digits :
    (s rest : Text)
    → 0 < length s
    → AllDigits 10 s
    → Stops rest
    → value 10 0 s < 0x8000_0000
    → scan_int (s ++ rest) ≡ some (value 10 0 s, rest)
unfolding scan_int
scan_int-digits [] rest some_digit all stops small = absurd (omega arith)
scan_int-digits (c ∷ s) rest some_digit all stops small =
    let signless' = signless 10 (omega arith) (omega arith) c (s ++ rest) all.0 in
    let digits = scan_unsigned-append 10 (omega arith) (omega arith) c s rest all stops in
    rw (scan_int, signless', digits, signless') (ground arith)

scan_hex-digits :
    (s rest : Text)
    → 0 < length s
    → AllDigits 16 s
    → Stops rest
    → value 16 0 s < 0x1_0000_0000
    → scan_hex (s ++ rest) ≡ some (value 16 0 s, rest)
unfolding scan_hex
scan_hex-digits [] rest some_digit all stops small = absurd (omega arith)
scan_hex-digits (c ∷ s) rest some_digit all stops small =
    let signless' = signless 16 (omega arith) (omega arith) c (s ++ rest) all.0 in
    let digits = scan_unsigned-append 16 (omega arith) (omega arith) c s rest all stops in
    rw (scan_hex, signless', drop_prefix-digits c s rest all.1 stops, digits, signless')
      (ground arith)

print_digits_nonempty : (base fuel v : ℕ) → 0 < length (print_digits base (suc fuel) v)
unfolding print_digits
print_digits_nonempty base fuel v = omega (arith, length-append {0})

-- A number below 2 ^ 31 that is printed in decimal is read back by %d.
pub scan_int-print_unsigned :
    (v : ℕ) (rest : Text)
    → v < 0x8000_0000
    → Stops rest
    → scan_int (print_unsigned v ++ rest) ≡ some (v, rest)
unfolding print_unsigned
scan_int-print_unsigned v rest small stops =
    let same = value-print_digits 10 (omega arith) (omega arith) 10 v (omega arith) in
    rw
      (
        scan_int-digits (print_digits 10 10 v) rest (print_digits_nonempty 10 9 v)
            (print_digits-AllDigits 10 (omega arith) (omega arith) 10 v) stops
            (omega (arith, same)),
        same,
      )
      refl

-- A number of 32 bits that is printed in hexadecimal is read back by %x.
pub scan_hex-print_hex :
    (v : ℕ) (rest : Text)
    → v < 0x1_0000_0000
    → Stops rest
    → scan_hex (print_hex v ++ rest) ≡ some (v, rest)
unfolding print_hex
scan_hex-print_hex v rest small stops =
    let same = value-print_digits 16 (omega arith) (omega arith) 8 v (omega arith) in
    rw
      (
        scan_hex-digits (print_digits 16 8 v) rest (print_digits_nonempty 16 7 v)
            (print_digits-AllDigits 16 (omega arith) (omega arith) 8 v) stops (omega (arith, same)),
        same,
      )
      refl

-- The digits alone, without a sign or a prefix.
scan_unsigned-digits :
    (base : ℕ) (s rest : Text)
    → 0 < base
    → base ≤ 16
    → 0 < length s
    → AllDigits base s
    → Stops rest
    → scan_unsigned base (s ++ rest) ≡ some (value base 0 s, rest)
scan_unsigned-digits base [] rest pos small some_digit all stops = absurd (omega arith)
scan_unsigned-digits base (c ∷ s) rest pos small some_digit all stops =
    scan_unsigned-append base pos small c s rest all stops

pub scan_unsigned-print_digits :
    (base fuel v : ℕ) (rest : Text)
    → 0 < base
    → base ≤ 16
    → Fits base (suc fuel) v
    → Stops rest
    → scan_unsigned base (print_digits base (suc fuel) v ++ rest) ≡ some (v, rest)
scan_unsigned-print_digits base fuel v rest pos small fits stops =
    scan_unsigned-digits base (print_digits base (suc fuel) v) rest pos small
      (print_digits_nonempty base fuel v) (print_digits-AllDigits base pos small (suc fuel) v) stops
    ∙ ap (λ (v : ℕ). some (v, rest)) (value-print_digits base pos small (suc fuel) v fits)

-- White space before a number is passed over.
pub scan_int-blank : (s : Text) → scan_int (32 ∷ s) ≡ scan_int s
unfolding scan_int skip_spaces
scan_int-blank s = refl

-- Numbers in a format.
module _ (ds : List Directive) (v : ℕ) (rest : Text) (stops : Stops rest) where
  pub sscanf-number :
      v < 0x8000_0000 → sscanf (number ∷ ds) (print_unsigned v ++ rest) ≡ num v ∷ sscanf ds rest
  unfolding sscanf
  sscanf-number small = rw (sscanf, scan_int-print_unsigned v rest small stops) refl

  pub sscanf-hex :
      v < 0x1_0000_0000 → sscanf (hex ∷ ds) (print_hex v ++ rest) ≡ num v ∷ sscanf ds rest
  unfolding sscanf
  sscanf-hex small = rw (sscanf, scan_hex-print_hex v rest small stops) refl

skip_spaces-digits :
    (s rest : Text) → 0 < length s → AllDigits 10 s → skip_spaces (s ++ rest) ≡ s ++ rest
skip_spaces-digits [] rest some_digit all = absurd (omega arith)
skip_spaces-digits (c ∷ s) rest some_digit all =
    skip_spaces-digit 10 (omega arith) (omega arith) c (s ++ rest) all.0

-- A space before a number.
pub sscanf-blank :
    (ds : List Directive) (v : ℕ) (rest : Text)
    → sscanf (blank ∷ ds) (32 ∷ print_unsigned v ++ rest) ≡ sscanf ds (print_unsigned v ++ rest)
unfolding sscanf skip_spaces print_unsigned
sscanf-blank ds v rest = ap (sscanf ds) (
    skip_spaces-digits (print_digits 10 10 v) rest (print_digits_nonempty 10 9 v)
      (print_digits-AllDigits 10 (omega arith) (omega arith) 10 v))

pub Stops-dot : (s : Text) → Stops (b'.' ∷ s)
unfolding digit_value
Stops-dot s = (refl, omega arith, omega arith)

pub Stops-space : (s : Text) → Stops (32 ∷ s)
unfolding digit_value
Stops-space s = (refl, omega arith, omega arith)

pub sscanf-literal :
    (ds : List Directive) (c : ℕ) (s : Text) → sscanf (literal c ∷ ds) (c ∷ s) ≡ sscanf ds s
unfolding sscanf
sscanf-literal ds c s = rw (==_refl c, if◌then◌else◌) refl
