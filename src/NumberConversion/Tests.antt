-- ===== src/NumberConversion/Tests.antt =====
-- Runs of number_conversion.py at concrete inputs, and instances of its theorems.
use ida_pro_mcp.Prelude.{◌≡◌, refl, ◌<◌, ◌≤◌, ℕ, List, length, txt, arith, pos, negsuc, none, some}
use ida_pro_mcp.Errors.{ok}
use ida_pro_mcp.PyInt.{
  int_0, signed, auto_base, decimal_literal, digits, scan, classify, digit_value, to_neg,
  prefix_base, prefixed,
}
use ida_pro_mcp.Prelude.{strip}
use ida_pro_mcp.NumberConversion.{convert_number, render_number}
use ida_pro_mcp.NumberConversion.Width.{
  Represents, Fits, convert_number-inferred, convert_number-sized,
}

minus_129 : int_0 (txt "-129") ≡ some (negsuc 128)
unfolding int_0 signed auto_base decimal_literal digits scan classify digit_value to_neg strip txt
    prefix_base prefixed
minus_129 = refl

Fits-two : Fits (negsuc 128) 2
Fits-two = omega arith

no_fit_one : ¬ (Fits (negsuc 128) 1)
no_fit_one = λ h. omega arith

convert_number-inferred_example :
    (raw : List ℕ) × (convert_number (txt "-129") none ≡ ok (render_number (negsuc 128) raw))
    × Represents raw (negsuc 128)
    × (0 < length raw)
    × (length raw ≤ 2)
convert_number-inferred_example =
    convert_number-inferred (txt "-129") (negsuc 128) 2 minus_129 (omega arith) Fits-two

convert_number-sized_example :
    (raw : List ℕ) × (convert_number (txt "-129") (some (pos 2))
      ≡ ok (render_number (negsuc 128) raw))
    × (length raw ≡ 2)
    × Represents raw (negsuc 128)
convert_number-sized_example = convert_number-sized (txt "-129") (negsuc 128) 1 minus_129 Fits-two
