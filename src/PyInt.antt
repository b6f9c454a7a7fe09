-- ===== src/PyInt.antt =====
-- Python's `int(text, base)`, `hex`, `bin`, `f"{n:x}"` and `int.bit_length`, which format.py,
-- coerce.py and number_conversion.py are written with. Texts are ASCII.
pub mod RoundTrip
pub mod BitLength
use ida_pro_mcp.Prelude.{
  ℕ, zero, suc, ◌+◌, ◌-◌, ◌*◌, ◌/◌, ◌%◌, ℤ, pos, negsuc, Text, txt, strip, Bool, true, false, ◌&&◌,
  ◌||◌, not, Option, none, some, List, [], ◌∷◌, ◌++◌, ltb, leb, ◌==◌, if◌then◌else◌,
}

-- The value of a character as a digit; 99 where it is none.
unfoldable pub digit_value : ℕ → ℕ
digit_value c =
    if leb b'0' c && leb c b'9'
    then c - 48
    else if leb b'a' c && leb c b'z'
    then c - 87
    else if leb b'A' c && leb c b'Z'
    then c - 55
    else 99

pub data CharClass : Type 0 where
  underscore : CharClass
  digit : ℕ → CharClass
  no_digit : CharClass

unfoldable pub classify : ℕ → ℕ → CharClass
classify base c =
    if c == b'_'
    then CharClass.underscore
    else if ltb (digit_value c) base
    then CharClass.digit (digit_value c)
    else CharClass.no_digit

-- The digits, with single underscores between them: the value and the number of digits. `gap` says
-- that no underscore may stand here, and that the text may not end here.
unfoldable pub scan : ℕ → ℕ → ℕ → Bool → Text → Option (ℕ × ℕ)
scan base acc n gap [] = if gap then none else some (acc, n)
scan base acc n gap (c ∷ s) = elim (classify base c) [
  | CharClass.underscore ↦ if gap then none else scan base acc n true s
  | CharClass.digit d ↦ scan base (acc * base + d) (suc n) false s
  | CharClass.no_digit ↦ none
]

-- More than 4300 digits are refused in a base that is no power of two.
unfoldable pub digits : ℕ → Text → Option ℕ
digits base s = elim (scan base 0 0 true s) [
  | none ↦ none
  | some (v, n) ↦ if (base == 10) && ltb 4300 n then none else some v
]

-- After a prefix one underscore is allowed.
unfoldable pub prefixed : ℕ → Text → Option ℕ
prefixed base [] = none
prefixed base (c ∷ s) = if c == b'_' then digits base s else digits base (c ∷ s)

-- With base 0 a decimal number that starts with "0" must be zero.
unfoldable pub decimal_literal : Text → Option ℕ
decimal_literal s = elim (digits 10 s) [
  | none ↦ none
  | some zero ↦ some zero
  | some (suc v) ↦ elim s [ [] ↦ none | c ∷ _ ↦ if c == b'0' then none else some (suc v) ]
]

-- The base that the second character of a prefix names.
unfoldable pub prefix_base : ℕ → Option ℕ
prefix_base c =
    if (c == b'x') || (c == b'X')
    then some 16
    else if (c == b'o') || (c == b'O')
    then some 8
    else if (c == b'b') || (c == b'B')
    then some 2
    else none

-- `int(s, 0)` behind the sign
unfoldable pub auto_base : Text → Option ℕ
auto_base (z ∷ c ∷ s) =
    if z == b'0'
    then elim (prefix_base c) [ none ↦ decimal_literal (z ∷ c ∷ s) | some b ↦ prefixed b s ]
    else decimal_literal (z ∷ c ∷ s)
auto_base s = decimal_literal s

-- `int(s, 16)` behind the sign
unfoldable pub base_16 : Text → Option ℕ
base_16 (z ∷ c ∷ s) =
    if (z == b'0') && ((c == b'x') || (c == b'X')) then prefixed 16 s else digits 16 (z ∷ c ∷ s)
base_16 s = digits 16 s

unfoldable pub to_neg : ℕ → ℤ
to_neg zero = pos 0
to_neg (suc n) = negsuc n

unfoldable pub signed : (Text → Option ℕ) → Text → Option ℤ
signed f [] = none
signed f (c ∷ s) =
    if c == b'-'
    then elim (f s) [ none ↦ none | some n ↦ some (to_neg n) ]
    else if c == b'+'
    then elim (f s) [ none ↦ none | some n ↦ some (pos n) ]
    else elim (f (c ∷ s)) [ none ↦ none | some n ↦ some (pos n) ]

-- `int(text, 10)`, `int(text, 16)`, `int(text, 0)`; `none` is `ValueError`.
unfoldable pub int_10 : Text → Option ℤ
int_10 t = signed (digits 10) (strip t)

unfoldable pub int_16 : Text → Option ℤ
int_16 t = signed base_16 (strip t)

unfoldable pub int_0 : Text → Option ℤ
int_0 t = signed auto_base (strip t)

-- The character of a digit, in lower case.
unfoldable pub digit_char : ℕ → ℕ
digit_char d = if ltb d 10 then d + 48 else d + 87

-- The digits of a number, most significant first; the fuel is above the number.
unfoldable pub render : ℕ → ℕ → ℕ → Text
render base zero n = []
render base (suc fuel) n =
    let high = render base fuel (n / base) in
    if ltb n base then digit_char n ∷ [] else high ++ digit_char (n % base) ∷ []

-- `f"{n:x}"` for a number that is not negative
unfoldable pub hex_digits : ℕ → Text
hex_digits n = render 16 (suc n) n

-- `f"{value:x}"`: the sign stands first.
unfoldable pub format_x : ℤ → Text
format_x (pos n) = hex_digits n
format_x (negsuc n) = b'-' ∷ hex_digits (suc n)

-- `hex(value)` and `bin(value)`: the sign stands before the prefix.
unfoldable pub hex : ℤ → Text
hex (pos n) = txt "0x" ++ hex_digits n
hex (negsuc n) = txt "-0x" ++ hex_digits (suc n)

unfoldable pub bin : ℤ → Text
bin (pos n) = txt "0b" ++ render 2 (suc n) n
bin (negsuc n) = txt "-0b" ++ render 2 (suc (suc n)) (suc n)

-- `n.bit_length()` of a number that is not negative; the fuel is at least the number.
unfoldable pub bits : ℕ → ℕ → ℕ
bits zero n = 0
bits (suc fuel) n = let rest = bits fuel (n / 2) in if n == 0 then 0 else suc rest

-- `value.bit_length()` is that of the absolute value.
unfoldable pub bit_length : ℤ → ℕ
bit_length (pos n) = bits n n
bit_length (negsuc n) = bits (suc n) (suc n)

-- `str(value)`
unfoldable pub dec : ℤ → Text
dec (pos n) = render 10 (suc n) n
dec (negsuc n) = b'-' ∷ render 10 (suc (suc n)) (suc n)
