-- ===== src/Text/Digits.antt =====
-- Printed digits are digits, and have the value that they were printed from.
use ip_qos.Base.{
  ℕ, zero, suc, ◌+◌, ◌*◌, ◌/◌, ◌%◌, ◌≤◌, ◌<◌, ◌≡◌, refl, ◌∙◌, true, Bool, Bool-cases, [], ◌∷◌, ◌++◌,
  if◌then◌else◌, ltb, ◌==◌, inl, inr, arith,
}
use native.Mathlib.Nat.{div-add-mod', mod-lt}
use ip_qos.Text.{Text, digit_value, digit_char, print_digits}

abbrev pub is_digit : ℕ → ℕ → Bool
is_digit base c = ltb (digit_value c) base

abbrev pub AllDigits : ℕ → Text → Type 0
AllDigits base [] = Unit {0}
AllDigits base (c ∷ s) = (is_digit base c ≡ true) × AllDigits base s

-- The number that a text of digits shows after `acc`.
abbrev pub value : ℕ → ℕ → Text → ℕ
value base acc [] = acc
value base acc (c ∷ s) = value base (acc * base + digit_value c) s

-- `fuel` digits are enough.
abbrev pub Fits : ℕ → ℕ → ℕ → Type 0
Fits base zero v = v ≡ 0
Fits base (suc fuel) v = Fits base fuel (v / base)

AllDigits-append :
    (base : ℕ) (s t : Text) → AllDigits base s → AllDigits base t → AllDigits base (s ++ t)
AllDigits-append base [] t hs ht = ht
AllDigits-append base (c ∷ s) t hs ht = (hs.0, AllDigits-append base s t hs.1 ht)

value-append :
    (base acc : ℕ) (s t : Text) → value base acc (s ++ t) ≡ value base (value base acc s) t
value-append base acc [] t = refl
value-append base acc (c ∷ s) t = value-append base (acc * base + digit_value c) s t

pub digit_value-digit_char : (d : ℕ) → d < 16 → digit_value (digit_char d) ≡ d
unfolding digit_value digit_char
digit_value-digit_char d h = ground arith

module _ (base : ℕ) (pos : 0 < base) (small : base ≤ 16) where
  last_digit : (v : ℕ) → digit_value (digit_char (v % base)) ≡ v % base
  last_digit v = digit_value-digit_char (v % base) (omega (arith, mod-lt v pos))

  whole : (v q : ℕ) → q ≡ v / base → q * base + digit_value (digit_char (v % base)) ≡ v
  whole v q e = rw (e, last_digit v) (div-add-mod' v base)

  pub print_digits-AllDigits : (fuel v : ℕ) → AllDigits base (print_digits base fuel v)
  unfolding print_digits
  print_digits-AllDigits zero v = tt
  print_digits-AllDigits (suc fuel) v =
      let last : is_digit base (digit_char (v % base)) ≡ true =
        ground (arith, last_digit v, mod-lt v pos) in
      elim (Bool-cases (v / base == 0)) [
        | inl single ↦ rw (single, if◌then◌else◌) (last, tt)
        | inr more ↦
            rw (more, if◌then◌else◌)
              (AllDigits-append base (print_digits base fuel (v / base)) _
                (print_digits-AllDigits fuel (v / base)) (last, tt))
      ]

  pub value-print_digits :
      (fuel v : ℕ) → Fits base fuel v → value base 0 (print_digits base fuel v) ≡ v
  unfolding print_digits
  value-print_digits zero v h = omega arith
  value-print_digits (suc fuel) v h = elim (Bool-cases (v / base == 0)) [
    | inl single ↦ rw (single, if◌then◌else◌) (whole v 0 (ground arith))
    | inr more ↦
        rw (more, if◌then◌else◌)
          (value-append base 0 (print_digits base fuel (v / base)) (digit_char (v % base) ∷ [])
            ∙ whole v (value base 0 (print_digits base fuel (v / base)))
                (value-print_digits fuel (v / base) h))
  ]
