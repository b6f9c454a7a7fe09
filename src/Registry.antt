-- ===== src/Registry.antt =====
-- src/ida_pro_mcp/plugin/registry.py: the registry of tools and its dispatcher. A tool acts on the
-- state `S` of the IDA database. The wording of messages that quote `repr` is a parameter.
mod Names
pub mod Arguments
pub mod Invariant
pub mod Find
pub mod Dispatch
mod Tests
use ida_pro_mcp.Prelude.{
  ℕ, Text, txt, teq, mem_text, Bool, true, false, not, Option, none, some, List, [], ◌∷◌, ◌++◌,
  keep, map, any, all, ◌&&◌, ◌||◌, if◌then◌else◌,
}
use ida_pro_mcp.Errors.{ErrorCode, Raised, rpc_error, other}
use ida_pro_mcp.Value
use ida_pro_mcp.Value.{Value, Fields, end, field, lookup, has, keys, is_null}
use ida_pro_mcp.Coerce
use ida_pro_mcp.Coerce.{Annotation, Members, Floats, Coerced, CoercionError, coerce, optional}

-- `inspect.Parameter.kind`
pub data Kind : Type 0 where
  positional_only positional_or_keyword var_positional keyword_only var_keyword : Kind

-- A resolved annotation, or a string that was left over.
pub data Hint : Type 0 where
  hint : Annotation → Hint
  unresolved : Text → Hint

pub record Parameter : Type 0 where
  pub name : Text
  pub kind : Kind
  pub annotation : Hint
  -- `p.default is inspect.Parameter.empty`
  pub is_required : Bool

-- What a call returns or raises.
pub data Outcome (A : Type 0) : Type 0 where
  returned : A → Outcome A
  raised : Raised → Outcome A

pub record Tool (S : Type 0) : Type 0 where
  pub name : Text
  pub parameters : List Parameter
  pub return_hint : Option Annotation
  pub run : Fields → S → Outcome Value × S

-- `methods` is a dict that is filled in order; `unsafe` and `nullable_result` are sets.
pub record Registry (S : Type 0) : Type 0 where
  pub methods : List (Tool S)
  pub unsafe : List Text
  pub nullable_result : List Text

-- `kind in _ACCEPTED_PARAM_KINDS`
unfoldable pub accepted : Kind → Bool
accepted Kind.positional_or_keyword = true
accepted Kind.keyword_only = true
accepted _ = false

unfoldable pub annotation_allows_none : Annotation → Bool
annotation_allows_none Annotation.none_type = true
annotation_allows_none (Annotation.union ms) = optional ms
annotation_allows_none _ = false

unfoldable pub is_union : Annotation → Bool
is_union (Annotation.union ms) = true
is_union _ = false

unfoldable pub is_unresolved : Parameter → Bool
is_unresolved p = elim p.annotation [ Hint.hint a ↦ false | Hint.unresolved t ↦ true ]

-- Whether `register` puts a tool among those whose `None` is a value.
unfoldable pub nullable : Option Annotation → Bool
nullable none = false
nullable (some a) = annotation_allows_none a && is_union a

unfoldable pub method_names : {S : Type 0} → List (Tool S) → List Text
method_names = map (λ t. t.name)

-- `ValueError` of `register`, by its message.
pub data Misuse : Type 0 where
  duplicate_method unsupported_parameter unresolved_annotation : Misuse

pub data Registered (S : Type 0) : Type 0 where
  ok : Registry S → Registered S
  err : Misuse → Registered S

-- The messages of the dispatcher. Names that are listed are sorted by the wording.
pub data Message : Type 0 where
  method_not_found : Value → Message
  unexpected_fields missing_fields : List Text → Message
  params_not_object : Message
  invalid_value : Text → CoercionError → Message
  overflow unhashable_method : Message

-- The keyword arguments, or the exception.
pub data Kwargs : Type 0 where
  kwargs : Fields → Kwargs
  refused : Raised → Kwargs

module _ {S : Type 0} where
  unfoldable pub register : Tool S → Registry S → Registered S
  register func r =
      if mem_text func.name (method_names r.methods)
      then err duplicate_method
      else if any (λ p. not (accepted p.kind)) func.parameters
      then err unsupported_parameter
      else if any is_unresolved func.parameters
      then err unresolved_annotation
      else ok (record {
        methods = r.methods ++ func ∷ [];
        unsafe = r.unsafe;
        nullable_result =
            if nullable func.return_hint then func.name ∷ r.nullable_result else r.nullable_result;
      })

  unfoldable pub mark_unsafe : Tool S → Registry S → Registry S
  mark_unsafe func r = record r { unsafe = func.name ∷ r.unsafe }

  unfoldable pub is_unsafe : Registry S → Text → Bool
  is_unsafe r name = mem_text name r.unsafe

  unfoldable pub safe_methods : Registry S → List Text
  safe_methods r = keep (λ name. not (mem_text name r.unsafe)) (method_names r.methods)

  -- `self.methods[method]`
  unfoldable pub find : Text → List (Tool S) → Option (Tool S)
  find name [] = none
  find name (t ∷ ts) = if teq t.name name then some t else find name ts

-- The parameters by which a call may name its arguments.
unfoldable pub accepted_params : List Parameter → List Parameter
accepted_params = keep (λ p. accepted p.kind)

unfoldable pub param_names : List Parameter → List Text
param_names = map (λ p. p.name)

unfoldable pub required_names : List Parameter → List Text
required_names ps = param_names (keep (λ p. p.is_required) ps)

-- `a - b` on sets of names
unfoldable pub minus : List Text → List Text → List Text
minus names others = keep (λ t. not (mem_text t others)) names

unfoldable pub is_empty {ℓ} : {A : Type ℓ} → List A → Bool
is_empty [] = true
is_empty (x ∷ xs) = false

module _ (F : Floats) (wording : Message → Text) where
  unfoldable pub rpc : ErrorCode → Message → Raised
  rpc code message = rpc_error code (wording message)

  -- `_validate`
  unfoldable pub validate : Text → Value → Hint → Outcome Value
  validate name value (Hint.unresolved t) = returned value
  validate name value (Hint.hint a) = elim (coerce F value a) [
    | Coerced.ok v ↦ returned v
    | Coerced.err e ↦ raised (rpc ErrorCode.invalid_params (invalid_value name e))
    | Coerced.overflow ↦ raised (other (wording overflow))
  ]

  -- The dict comprehension: the parameters in order, those that the call names.
  unfoldable pub collect : List Parameter → Fields → Kwargs
  collect [] params = kwargs end
  collect (p ∷ ps) params = elim (lookup p.name params) [
    | none ↦ collect ps params
    | some v ↦ elim (validate p.name v p.annotation) [
      | raised e ↦ refused e
      | returned w ↦ elim (collect ps params) [
        | refused e ↦ refused e
        | kwargs rest ↦ kwargs (field p.name w rest)
      ]
    ]
  ]

  unfoldable pub build_kwargs : List Parameter → Value → Kwargs
  build_kwargs parameters (Value.object params) =
      let ps = accepted_params parameters in
      let extra = minus (keys params) (param_names ps) in
      let missing = minus (required_names ps) (keys params) in
      if not (is_empty extra)
      then refused (rpc ErrorCode.invalid_params (unexpected_fields extra))
      else if not (is_empty missing)
      then refused (rpc ErrorCode.invalid_params (missing_fields missing))
      else collect ps params
  build_kwargs parameters _ = refused (rpc ErrorCode.invalid_request params_not_object)

  -- `VOID_RESULT_MARKER`
  unfoldable pub void_result_marker : Value
  void_result_marker = Value.object (field (txt "ok") (Value.bool true) end)

  module _ {S : Type 0} where
    unfoldable pub substitute : Registry S → Text → Outcome Value → Outcome Value
    substitute r method (raised e) = raised e
    substitute r method (returned v) =
        returned
          (if is_null v && not (mem_text method r.nullable_result) then void_result_marker else v)

    unfoldable pub call_tool : Registry S → Tool S → Text → Value → S → Outcome Value × S
    call_tool r func method params s = elim (build_kwargs func.parameters params) [
      | refused e ↦ (raised e, s)
      | kwargs kw ↦ let (out, s') = func.run kw s in (substitute r method out, s')
    ]

    unfoldable pub dispatch : Registry S → Text → Value → S → Outcome Value × S
    dispatch r method params s = elim (find method r.methods) [
      | none ↦ (raised (rpc ErrorCode.method_not_found (method_not_found (Value.str method))), s)
      | some func ↦ call_tool r func method params s
    ]

    -- A method that is no text: a list or a dict is unhashable, and nothing else is a key.
    unfoldable pub dispatch_value : Registry S → Value → Value → S → Outcome Value × S
    dispatch_value r (Value.str method) params s = dispatch r method params s
    dispatch_value r (Value.list xs) params s = (raised (other (wording unhashable_method)), s)
    dispatch_value r (Value.object fs) params s = (raised (other (wording unhashable_method)), s)
    dispatch_value r v params s = (raised (rpc ErrorCode.method_not_found (method_not_found v)), s)
