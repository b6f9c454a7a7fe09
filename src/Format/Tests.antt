-- ===== src/Format/Tests.antt =====
-- Runs of format.py at concrete inputs, and instances of its theorems.
use ida_pro_mcp.Prelude.{◌++◌, teq, lower, strip, ◌≡◌, refl, txt, pos, negsuc, [], ◌∷◌}
use ida_pro_mcp.Errors.{ok, raise, invalid_input}
use ida_pro_mcp.PyInt.{
  classify, digit_value, scan, digits, prefixed, decimal_literal, prefix_base, auto_base, base_16,
  to_neg, signed, int_10, int_16, int_0, hex_digits, format_x, render, digit_char,
}
use ida_pro_mcp.Format.{
  parse_address, or_invalid, format_byte, join_space, text, format_ea, format_bytes, parse_ea,
  parse_int,
}
use ida_pro_mcp.Format.RoundTrip.{parse_ea-format_ea, parse_ea-format_ea_negative}

format_ea_run : format_ea (pos 4198400) ≡ txt "0x401000"
unfolding format_ea format_x hex_digits render digit_char txt
format_ea_run = refl

format_bytes_run : format_bytes (1 ∷ 171 ∷ []) ≡ txt "0x01 0xab"
unfolding format_bytes join_space format_byte hex_digits render digit_char txt
format_bytes_run = refl

parse_ea_run :
    (parse_ea (text (txt " 401000 ")) ≡ ok (pos 4198400))
    × (parse_ea (text (txt "0d10")) ≡ ok (pos 10))
    × (parse_ea (text (txt "0x_1F")) ≡ ok (pos 31))
    × (parse_ea (text (txt "-10")) ≡ ok (negsuc 15))
    × (parse_ea (text (txt "0o18")) ≡ raise (txt "Failed to parse address: 0o18") invalid_input)
unfolding parse_ea parse_address or_invalid strip lower teq txt classify digit_value scan digits
    prefixed decimal_literal prefix_base auto_base base_16 to_neg signed int_10 int_16 int_0
parse_ea_run = (refl, refl, refl, refl, refl)

parse_int_run :
    (parse_int (text (txt "10")) ≡ ok (pos 10))
    × (parse_int (text (txt "010")) ≡ raise (txt "Failed to parse integer: 010") invalid_input)
unfolding parse_int or_invalid strip txt classify digit_value scan digits prefixed decimal_literal
    prefix_base auto_base base_16 to_neg signed int_10 int_16 int_0
parse_int_run = (refl, refl)

parse_ea-format_ea_example : parse_ea (text (format_ea (pos 4198400))) ≡ ok (pos 4198400)
parse_ea-format_ea_example = parse_ea-format_ea 4198400

parse_ea-format_ea_negative_example :
    parse_ea (text (format_ea (negsuc 4)))
    ≡ raise (txt "Failed to parse address: " ++ format_ea (negsuc 4)) invalid_input
parse_ea-format_ea_negative_example = parse_ea-format_ea_negative 4
