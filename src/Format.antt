-- ===== src/Format.antt =====
-- src/ida_pro_mcp/plugin/format.py: rendering and parsing of numbers, addresses and bytes.
pub mod RoundTrip
mod Tests
use ida_pro_mcp.Prelude.{
  ℕ, suc, ◌-◌, ◌*◌, ◌/◌, ◌%◌, ℤ, pos, negsuc, Text, txt, teq, strip, lower, length, take, drop,
  Bool, Option, none, some, List, [], ◌∷◌, ◌++◌, ◌||◌, map, ltb, if◌then◌else◌,
}
use ida_pro_mcp.Errors.{Result, ok, raise, invalid_input}
use ida_pro_mcp.PyInt.{format_x, int_10, int_16, int_0, hex_digits}

-- An argument of type `str | int`.
pub data TextOrInt : Type 0 where
  text : Text → TextOrInt
  int : ℤ → TextOrInt

unfoldable pub format_hex : ℤ → Text
format_hex value = txt "0x" ++ format_x value

unfoldable pub format_ea : ℤ → Text
format_ea ea = txt "0x" ++ format_x ea

-- `f"{b:#04x}"` of a byte: two digits at least behind the prefix.
unfoldable pub format_byte : ℕ → Text
format_byte b = txt "0x" ++ (if ltb b 16 then b'0' ∷ hex_digits b else hex_digits b)

-- `" ".join(...)`
unfoldable pub join_space : List Text → Text
join_space [] = []
join_space (t ∷ []) = t
join_space (t ∷ u ∷ ts) = t ++ b' ' ∷ join_space (u ∷ ts)

unfoldable pub format_bytes : List ℕ → Text
format_bytes raw = join_space (map format_byte raw)

-- `ValueError` with the text that stands in the source becomes an `IDAError`.
unfoldable pub or_invalid : Text → Option ℤ → Result ℤ
or_invalid message none = raise message invalid_input
or_invalid message (some v) = ok v

unfoldable pub parse_address : Text → Text → Result ℤ
parse_address address t =
    let message = txt "Failed to parse address: " ++ address in
    let prefix = lower (take 2 t) in
    if teq t []
    then raise (txt "Empty address") invalid_input
    else if teq prefix (txt "0d")
    then or_invalid message (int_10 (drop 2 t))
    else if teq prefix (txt "0x") || teq prefix (txt "0o") || teq prefix (txt "0b")
    then or_invalid message (int_0 t)
    else or_invalid message (int_16 t)

unfoldable pub parse_ea : TextOrInt → Result ℤ
parse_ea (int n) = ok n
parse_ea (text address) = parse_address address (strip address)

unfoldable pub parse_int : TextOrInt → Result ℤ
parse_int (int n) = ok n
parse_int (text t) = or_invalid (txt "Failed to parse integer: " ++ t) (int_0 (strip t))
