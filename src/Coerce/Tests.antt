-- ===== src/Coerce/Tests.antt =====
-- Runs of coerce.py at concrete inputs, and an instance of its theorem.
use ida_pro_mcp.Prelude.{pos, txt, ◌≡◌, refl, strip}
use ida_pro_mcp.Value.{Value, Float}
use ida_pro_mcp.Coerce.{
  ok, err, not_ge, Annotation, coerce, coerce_with, coerce_int, bounded, apply_bounds,
  check_metadata, check_doc, violates, below, whole, int_or,
}
use ida_pro_mcp.Coerce.Conforms.{Conforms}
use ida_pro_mcp.Coerce.Sound.{coerce-Conforms}
use ida_pro_mcp.PyInt.{int_10, classify, digit_value, scan, digits, to_neg, signed}
use ida_pro_mcp.Samples.{floats, count_type}

coerce_run :
    (coerce floats (Value.str (txt " 7 ")) count_type ≡ ok (Value.int (pos 7)))
    × (coerce floats (Value.int (pos 0)) count_type ≡ err not_ge)
    × (coerce floats (Value.float (Float.dyadic (pos 6) 1)) Annotation.int_type
        ≡ ok (Value.int (pos 3)))
unfolding coerce coerce_with coerce_int bounded apply_bounds check_metadata check_doc violates below
    whole int_10 classify digit_value scan digits to_neg signed strip txt int_or
coerce_run = (refl, refl, refl)

coerce-Conforms_example : Conforms count_type (Value.int (pos 7))
coerce-Conforms_example =
    coerce-Conforms floats count_type (Value.str (txt " 7 ")) (Value.int (pos 7)) (coerce_run.0)
