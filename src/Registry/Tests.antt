-- ===== src/Registry/Tests.antt =====
-- Instances of the theorems on registry.py.
use ida_pro_mcp.Prelude.{
  ℕ, pos, txt, teq, mem_text, true, ◌≡◌, refl, [], ◌∷◌, ◌⊎◌, inl, inr, ◌≢◌, if◌then◌else◌,
}
use ida_pro_mcp.Errors.{Raised}
use ida_pro_mcp.Value.{Value, Fields, end, field, keys, lookup, is_null}
use ida_pro_mcp.Coerce.{
  coerce, coerce_with, coerce_int, bounded, apply_bounds, check_metadata, check_doc, violates,
  below, optional, is_none_type,
}
use ida_pro_mcp.Registry.{
  Tool, returned, raised, kwargs, ok, register, find, nullable, annotation_allows_none, is_union,
  accepted, is_unresolved, method_names, accepted_params, param_names, required_names, minus,
  is_empty, build_kwargs, collect, validate, substitute, call_tool, dispatch,
}
use ida_pro_mcp.Registry.Arguments.{Accepted, build_kwargs_sound}
use ida_pro_mcp.Registry.Invariant.{IsValid, register-IsValid}
use ida_pro_mcp.Registry.Find.{Has, Named}
use ida_pro_mcp.Registry.Dispatch.{Called, dispatch_cases, dispatch_null, dispatch_null-only}
use ida_pro_mcp.Samples.{floats, wording, count_parameter, tool, empty_registry, registry}

abbrev params : Fields
params = field (txt "count") (Value.int (pos 3)) end

build_kwargs_run :
    build_kwargs floats wording (count_parameter ∷ []) (Value.object params) ≡ kwargs params
unfolding build_kwargs accepted_params param_names required_names accepted minus is_empty collect
    validate lookup keys mem_text teq txt coerce coerce_with coerce_int bounded apply_bounds
    check_metadata check_doc violates below
build_kwargs_run = refl

build_kwargs_sound_example :
    Accepted floats wording (count_parameter ∷ []) (Value.object params) params
build_kwargs_sound_example =
    build_kwargs_sound floats wording (count_parameter ∷ []) (Value.object params) params
      build_kwargs_run

register_run : register tool empty_registry ≡ ok registry
unfolding register accepted is_unresolved nullable annotation_allows_none is_union optional
    is_none_type mem_text method_names
register_run = refl

empty_registry-IsValid : IsValid empty_registry
unfolding method_names
empty_registry-IsValid = record { distinct = tt; callable = tt; marked = tt; known = tt }

register-IsValid_example : IsValid registry
register-IsValid_example =
    register-IsValid tool empty_registry registry empty_registry-IsValid register_run

registry-IsValid : IsValid registry
registry-IsValid = register-IsValid tool empty_registry registry empty_registry-IsValid register_run

dispatch_run :
    (dispatch floats wording registry (txt "f") (Value.object params) 0).0 ≡ returned Value.null
unfolding dispatch call_tool substitute is_null find build_kwargs accepted_params param_names
    required_names accepted minus is_empty collect validate lookup keys mem_text teq txt coerce
    coerce_with coerce_int bounded apply_bounds check_metadata check_doc violates below
dispatch_run = refl

dispatch_cases_example :
    (((t : Tool ℕ) → Has t registry.methods → t.name ≢ txt "f")
      × (e : Raised) × (dispatch floats wording registry (txt "f") (Value.object params) 0
          ≡ (raised e, 0)))
    ⊎ ((func : Tool ℕ) × Named registry.methods (txt "f") func
        × Called floats wording func
            (Value.object params)
            0
            (dispatch floats wording registry (txt "f") (Value.object params) 0))
dispatch_cases_example =
    dispatch_cases floats wording registry (txt "f") (Value.object params) 0 registry-IsValid

tool-Named : Named registry.methods (txt "f") tool
tool-Named = record { here = inl refl; name_is = refl; alone = λ other i n. only other i }
  where
    only : (other : Tool ℕ) → Has other registry.methods → other ≡ tool
    only other (inl e) = e
    only other (inr i) = absurd i

dispatch_null_example :
    (dispatch floats wording registry (txt "f") (Value.object params) 0).0
    ≡ returned (
        if nullable tool.return_hint
        then Value.null
        else Value.object (field (txt "ok") (Value.bool true) end))
dispatch_null_example =
    dispatch_null floats wording registry (txt "f") (Value.object params) 0 tool params
      registry-IsValid tool-Named build_kwargs_run refl

dispatch_null-only_example :
    (func : Tool ℕ) × Named registry.methods (txt "f") func
    × (nullable func.return_hint ≡ true)
    × (kw : Fields) × ((func.run kw 0).0 ≡ returned Value.null)
dispatch_null-only_example =
    dispatch_null-only floats wording registry (txt "f") (Value.object params) 0 registry-IsValid
      dispatch_run
