-- ===== src/Text.antt =====
-- Texts as lists of character codes, and what printf and sscanf do with numbers and words.
-- The standard library of C, as far as app/qmark.c and xt_lib/libxt_qmark.c use it. long and int
-- have 32 bits. A number outside the range of its conversion is cut off at the end of the range.
pub mod Digits
pub mod Scan
use Prim.Native.Char.{code}
use Prim.Native.String.{String}
use ip_qos.Base.{
  ℕ, zero, suc, ◌+◌, ◌-◌, ◌*◌, ◌/◌, ◌%◌, Bool, true, false, ◌&&◌, ◌||◌, List, [], ◌∷◌, ◌++◌, Option,
  none, some, if◌then◌else◌, ltb, leb, ◌==◌,
}
use ip_qos.Base.Word.{u32_mod}

abbrev pub Text : Type 0
Text = List ℕ

abbrev pub codes : String → Text
codes String.[] = []
codes (String.◌∷◌ c s) = code c ∷ codes s

-- isspace
abbrev pub is_space : ℕ → Bool
is_space c = c == 32 || (leb 9 c && leb c 13)

abbrev pub no_digit : ℕ
no_digit = 99

-- The value of a digit of any base up to 16.
unfoldable pub digit_value : ℕ → ℕ
digit_value c =
    if leb b'0' c && leb c b'9'
    then c - 48
    else if leb b'a' c && leb c b'f'
    then c - 87
    else if leb b'A' c && leb c b'F'
    then c - 55
    else no_digit

unfoldable pub digit_char : ℕ → ℕ
digit_char d = if ltb d 10 then 48 + d else 87 + d

-- The digits of `v`, as many as the fuel allows.
unfoldable pub print_digits : ℕ → ℕ → ℕ → Text
unfolding digit_char
print_digits base zero v = []
print_digits base (suc fuel) v =
    let more = print_digits base fuel (v / base) in
    (if v / base == 0 then [] else more) ++ digit_char (v % base) ∷ []

-- %u and %x of a uint32_t; 32 bits have 10 decimal and 8 hexadecimal digits at most.
unfoldable pub print_unsigned : ℕ → Text
unfolding print_digits
print_unsigned v = print_digits 10 10 v

unfoldable pub print_hex : ℕ → Text
unfolding print_digits
print_hex v = print_digits 16 8 v

-- %d of a uint32_t, which is read as a signed number.
unfoldable pub print_int : ℕ → Text
unfolding print_unsigned
print_int v = if ltb v 0x8000_0000 then print_unsigned v else b'-' ∷ print_unsigned (u32_mod - v)

unfoldable pub skip_spaces : Text → Text
skip_spaces [] = []
skip_spaces (c ∷ s) = let rest = skip_spaces s in if is_space c then rest else c ∷ s

-- The digits at the start of a text, and what follows them.
unfoldable pub scan_digits : ℕ → ℕ → Text → ℕ × Text
unfolding digit_value
scan_digits base acc [] = (acc, [])
scan_digits base acc (c ∷ s) =
    let more = scan_digits base (acc * base + digit_value c) s in
    if ltb (digit_value c) base then more else (acc, c ∷ s)

-- At least one digit.
unfoldable pub scan_unsigned : ℕ → Text → Option (ℕ × Text)
unfolding scan_digits
scan_unsigned base [] = none
scan_unsigned base (c ∷ s) =
    if ltb (digit_value c) base then some (scan_digits base 0 (c ∷ s)) else none

unfoldable pub scan_sign : Text → Bool × Text
scan_sign [] = (false, [])
scan_sign (c ∷ s) =
    if c == b'-' then (true, s) else if c == b'+' then (false, s) else (false, c ∷ s)

-- The prefix 0x that %x allows.
unfoldable pub drop_prefix : Text → Text
drop_prefix (c ∷ d ∷ s) = if c == b'0' && (d == b'x' || d == b'X') then s else c ∷ d ∷ s
drop_prefix s = s

abbrev pub at_most : ℕ → ℕ → ℕ
at_most top v = if leb v top then v else top

-- The bit pattern of a signed number.
abbrev pub to_int : Bool → ℕ → ℕ
to_int negative v =
    if negative then (u32_mod - at_most 0x8000_0000 v) % u32_mod else at_most 0x7fff_ffff v

abbrev pub to_unsigned : Bool → ℕ → ℕ
to_unsigned negative v =
    let top = at_most 0xffff_ffff v in if negative then (u32_mod - top) % u32_mod else top

-- %d and %x
unfoldable pub scan_int : Text → Option (ℕ × Text)
scan_int s =
    let (negative, t) = scan_sign (skip_spaces s) in
    elim (scan_unsigned 10 t) [ none ↦ none | some (v, rest) ↦ some (to_int negative v, rest) ]

unfoldable pub scan_hex : Text → Option (ℕ × Text)
scan_hex s =
    let (negative, t) = scan_sign (skip_spaces s) in
    elim (scan_unsigned 16 (drop_prefix t)) [
      | none ↦ none
      | some (v, rest) ↦ some (to_unsigned negative v, rest)
    ]

-- The characters up to the next white space.
unfoldable pub scan_word : Text → Text × Text
scan_word [] = ([], [])
scan_word (c ∷ s) = let (w, rest) = scan_word s in if is_space c then ([], c ∷ s) else (c ∷ w, rest)

-- A piece of a format: %d, %x, %s, a space, or a character that has to be there.
pub data Directive : Type 0 where
  number hex word blank : Directive
  literal : ℕ → Directive

pub data Value : Type 0 where
  num : ℕ → Value
  str : Text → Value

-- The values that sscanf stores, up to the first piece that does not fit.
unfoldable pub sscanf : List Directive → Text → List Value
sscanf [] s = []
sscanf (number ∷ ds) s = elim (scan_int s) [ none ↦ [] | some (v, rest) ↦ num v ∷ sscanf ds rest ]
sscanf (hex ∷ ds) s = elim (scan_hex s) [ none ↦ [] | some (v, rest) ↦ num v ∷ sscanf ds rest ]
sscanf (word ∷ ds) s =
    let (w, rest) = scan_word (skip_spaces s) in
    elim w [ [] ↦ [] | c ∷ w' ↦ str (c ∷ w') ∷ sscanf ds rest ]
sscanf (blank ∷ ds) s = sscanf ds (skip_spaces s)
sscanf (literal c ∷ ds) [] = []
sscanf (literal c ∷ ds) (d ∷ s) = let rest = sscanf ds s in if c == d then rest else []

-- The values behind the arguments of a call: what is not stored stays.
abbrev pub num_at : List Value → ℕ → ℕ → ℕ
num_at [] i old = old
num_at (num v ∷ vs) zero old = v
num_at (str w ∷ vs) zero old = old
num_at (v ∷ vs) (suc i) old = num_at vs i old

abbrev pub str_at : List Value → ℕ → Text → Text
str_at [] i old = old
str_at (str w ∷ vs) zero old = w
str_at (num v ∷ vs) zero old = old
str_at (v ∷ vs) (suc i) old = str_at vs i old
