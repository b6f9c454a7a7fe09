-- ===== src/NumberConversion.antt =====
-- src/ida_pro_mcp/number_conversion.py: the `convert_number` tool.
pub mod Width
mod Tests
use ida_pro_mcp.Prelude.{
  ℕ, zero, suc, ◌+◌, ◌-◌, ◌*◌, ◌/◌, ◌%◌, ◌^◌, ℤ, pos, negsuc, ◌+ℤ◌, leb_ℤ, Text, txt, Bool, true,
  false, Option, none, some, List, [], ◌∷◌, ◌++◌, ltb, leb, ◌==◌, ◌&&◌, map, if◌then◌else◌,
}
use ida_pro_mcp.Errors.{Result, ok, raise, invalid_input, ◌>>=◌}
use ida_pro_mcp.PyInt.{int_0, hex, bin, dec, bit_length, hex_digits}
use ida_pro_mcp.Format.{join_space}

unfoldable pub max : ℕ → ℕ → ℕ
max a b = if ltb a b then b else a

unfoldable pub minimum_byte_width : ℤ → ℕ
minimum_byte_width (pos zero) = 1
minimum_byte_width (pos (suc n)) = max 1 ((bit_length (pos (suc n)) + 7) / 8)
minimum_byte_width (negsuc n) = max 1 ((bit_length (negsuc n +ℤ pos 1) + 8) / 8)

-- `raw.rstrip(b"\x00")`
unfoldable pub rstrip_null : List ℕ → List ℕ
rstrip_null [] = []
rstrip_null (b ∷ raw) = elim (rstrip_null raw) [
  | [] ↦ if b == 0 then [] else b ∷ []
  | c ∷ r ↦ b ∷ c ∷ r
]

unfoldable pub printable_chars : List ℕ → Option Text
printable_chars [] = some []
printable_chars (b ∷ raw) =
    if leb 32 b && leb b 126
    then elim (printable_chars raw) [ none ↦ none | some chars ↦ some (b ∷ chars) ]
    else none

unfoldable pub printable_ascii : List ℕ → Option Text
printable_ascii raw = printable_chars (rstrip_null raw)

-- The `width` low bytes of a number, least significant first.
unfoldable pub le_bytes : ℕ → ℕ → List ℕ
le_bytes zero n = []
le_bytes (suc w) n = (n % 256) ∷ le_bytes w (n / 256)

-- `value.to_bytes(width, "little", signed=False)`; `none` is `OverflowError`.
unfoldable pub to_bytes_unsigned : ℤ → ℕ → Option (List ℕ)
to_bytes_unsigned (pos n) width = if ltb n (256 ^ width) then some (le_bytes width n) else none
to_bytes_unsigned (negsuc n) width = none

-- `value.to_bytes(width, "little", signed=True)`, for a width above zero
unfoldable pub to_bytes_signed : ℤ → ℕ → Option (List ℕ)
to_bytes_signed (pos n) width =
    if ltb n (2 ^ (8 * width - 1)) then some (le_bytes width n) else none
to_bytes_signed (negsuc n) width =
    if ltb n (2 ^ (8 * width - 1)) then some (le_bytes width (256 ^ width - suc n)) else none

unfoldable pub too_big : ℤ → ℕ → Text
too_big value width =
    txt "Number " ++ (dec value ++ (txt " is too big for " ++ (dec (pos width) ++ txt " bytes")))

unfoldable pub or_too_big : ℤ → ℕ → Option (List ℕ) → Result (List ℕ)
or_too_big value width none = raise (too_big value width) invalid_input
or_too_big value width (some raw) = ok raw

-- Unsigned first where the value is not negative; the signed attempt follows an overflow.
unfoldable pub to_bytes_either_sign : ℤ → ℕ → Result (List ℕ)
to_bytes_either_sign value width =
    let signed = or_too_big value width (to_bytes_signed value width) in
    if leb_ℤ (pos 0) value
    then elim (to_bytes_unsigned value width) [ some raw ↦ ok raw | none ↦ signed ]
    else signed

-- `raw.hex(" ")`
unfoldable pub hex_byte : ℕ → Text
hex_byte b = if ltb b 16 then b'0' ∷ hex_digits b else hex_digits b

unfoldable pub hex_dump : List ℕ → Text
hex_dump raw = join_space (map hex_byte raw)

-- `ConvertedNumber` of models.py
pub record ConvertedNumber : Type 0 where
  pub decimal : ℤ
  pub hexadecimal : Text
  pub bytes : Text
  pub ascii : Option Text
  pub binary : Text

unfoldable pub render_number : ℤ → List ℕ → ConvertedNumber
render_number value raw = record {
  decimal = value;
  hexadecimal = hex value;
  bytes = hex_dump raw;
  ascii = printable_ascii raw;
  binary = bin value;
}

unfoldable pub parse_literal : Text → Result ℤ
parse_literal text = elim (int_0 text) [
  | none ↦ raise (txt "Invalid number: " ++ text) invalid_input
  | some v ↦ ok v
]

-- A given size that is not positive is refused; otherwise the width in bytes.
unfoldable pub chosen_width : ℤ → Option ℤ → Result ℕ
chosen_width value none = ok (minimum_byte_width value)
chosen_width value (some (pos (suc w))) = ok (suc w)
chosen_width value (some _) = raise (txt "size must be greater than zero") invalid_input

unfoldable pub convert_number : Text → Option ℤ → Result ConvertedNumber
convert_number text size = do
  value ← parse_literal text
  width ← chosen_width value size
  raw ← to_bytes_either_sign value width
  ok (render_number value raw)
