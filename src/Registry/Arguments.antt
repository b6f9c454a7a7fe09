-- ===== src/Registry/Arguments.antt =====
-- The keyword arguments that `_build_kwargs` of plugin/registry.py gives a tool.
use ida_pro_mcp.Prelude.{
  Text, mem_text, true, false, none, some, List, [], ◌∷◌, All, ◌≡◌, refl, inl, inr, Bool-cases,
  Option-cases,
}
use ida_pro_mcp.Errors.{ErrorCode, Raised, other}
use ida_pro_mcp.Value.{Value, Fields, end, field, lookup, keys}
use ida_pro_mcp.Coerce.{Floats, Coerced, coerce}
use ida_pro_mcp.Coerce.Conforms.{Conforms}
use ida_pro_mcp.Coerce.Sound.{coerce-Conforms}
use ida_pro_mcp.Registry.{
  Parameter, Hint, Outcome, returned, raised, Message, invalid_value, overflow, Kwargs, kwargs,
  refused, rpc, validate, collect, build_kwargs, accepted_params, param_names, required_names,
  minus, is_empty,
}

-- An argument has the type that its parameter declares.
abbrev pub Fits : Hint → Value → Value → Type 0
Fits (Hint.hint a) given v = Conforms a v
Fits (Hint.unresolved t) given v = v ≡ given

-- The keyword arguments of a call: in the order of the parameters, one for each that the call
-- names, converted to the declared type.
pub data Arguments (params : Fields) : List Parameter → Fields → Type 0 where
  done : Arguments params [] end
  absent :
      (p : Parameter) (ps : List Parameter) (kw : Fields)
      → lookup p.name params ≡ none
      → Arguments params ps kw
      → Arguments params (p ∷ ps) kw
  given :
      (p : Parameter) (ps : List Parameter) (v w : Value) (kw : Fields)
      → lookup p.name params ≡ some v
      → Fits p.annotation v w
      → Arguments params ps kw
      → Arguments params (p ∷ ps) (field p.name w kw)

minus-nil :
    (names others : List Text)
    → is_empty (minus names others) ≡ true
    → All (λ n. mem_text n others ≡ true) names
unfolding minus is_empty
minus-nil [] others h = tt
minus-nil (n ∷ names) others h = elim (Bool-cases (mem_text n others)) [
  | inl e ↦ (e, minus-nil names others (rw e at h))
  | inr e ↦ absurd (nonempty (rw e at h))
]
  where
    nonempty : false ≡ true → ⊥
    nonempty h = cc

module _ (F : Floats) (wording : Message → Text) where
  validate-Fits :
      (name : Text) (v w : Value) (a : Hint) → validate F wording name v a ≡ returned w → Fits a v w
  unfolding validate
  validate-Fits name v w (Hint.unresolved t) h = cc
  validate-Fits name v w (Hint.hint a) h = coerce-Conforms F a v w (converted (coerce F v a) h)
    where
      converted :
          (r : Coerced Value)
          → elim r [
            | Coerced.ok u ↦ returned u
            | Coerced.err e ↦ raised (rpc F wording ErrorCode.invalid_params (invalid_value name e))
            | Coerced.overflow ↦ raised (other (wording overflow))
          ]
            ≡ returned w
          → r ≡ Coerced.ok w
      converted (Coerced.ok u) h = cc
      converted (Coerced.err e) h = cc
      converted Coerced.overflow h = cc

  kwargs-injective : (a b : Fields) → kwargs a ≡ kwargs b → a ≡ b
  kwargs-injective a b h = cc

  collect-Arguments :
      (ps : List Parameter) (params kw : Fields)
      → collect F wording ps params ≡ kwargs kw
      → Arguments params ps kw
  unfolding collect
  collect-Arguments [] params kw h = rw (← kwargs-injective end kw h) done
  collect-Arguments (p ∷ ps) params kw h = elim (Option-cases (lookup p.name params)) [
    | inl e ↦ absent p ps kw e (collect-Arguments ps params kw (rw (e, collect) at h))
    | inr (v, e) ↦
        converted v e (validate F wording p.name v p.annotation) refl (collect F wording ps params)
          (λ rest r. collect-Arguments ps params rest r) (rw (e, collect) at h)
  ]
    where
      converted :
          (v : Value)
          → lookup p.name params ≡ some v
          → (out : Outcome Value) → validate F wording p.name v p.annotation ≡ out
          → (tail : Kwargs) → ((rest : Fields) → tail ≡ kwargs rest → Arguments params ps rest)
          → elim out [
            | raised e ↦ refused e
            | returned w ↦ elim tail [
              | refused e ↦ refused e
              | kwargs rest ↦ kwargs (field p.name w rest)
            ]
          ]
            ≡ kwargs kw
          → Arguments params (p ∷ ps) kw
      converted v e (returned w) valid (kwargs rest) ih h =
          rw (← kwargs-injective (field p.name w rest) kw h)
            (given p ps v w rest e (validate-Fits p.name v w p.annotation valid) (ih rest refl))
      converted v e (returned w) valid (refused x) ih h = cc
      converted v e (raised x) valid tail ih h = cc

  object_sound :
      (parameters : List Parameter) (params kw : Fields)
      → build_kwargs F wording parameters (Value.object params) ≡ kwargs kw
      → let ps = accepted_params parameters in
        All (λ k. mem_text k (param_names ps) ≡ true) (keys params)
        × All (λ n. mem_text n (keys params) ≡ true) (required_names ps)
        × Arguments params ps kw
  unfolding build_kwargs
  object_sound parameters params kw h =
      elim (Bool-cases
        (is_empty (minus (keys params) (param_names (accepted_params parameters))))) [
          | inl e ↦
              elim (Bool-cases
                (is_empty (minus (required_names (accepted_params parameters)) (keys params)))) [
                  | inl m ↦ (
                    minus-nil _ _ e,
                    minus-nil _ _ m,
                    collect-Arguments (accepted_params parameters) params kw (rw (e, m) at h),
                  )
                  | inr m ↦ absurd (rejected _ (rw (e, m) at h))
                ]
          | inr e ↦ absurd (rejected _ (rw e at h))
        ]
    where
      rejected : (e : Raised) → refused e ≡ kwargs kw → ⊥
      rejected e h = cc

  -- What is known of arguments `passed` that got through, where `kw` are the tool's.
  abbrev pub Accepted : List Parameter → Value → Fields → Type 0
  Accepted parameters passed kw =
      let ps = accepted_params parameters in
      (params : Fields) × (passed ≡ Value.object params)
      × All (λ k. mem_text k (param_names ps) ≡ true) (keys params)
      × All (λ n. mem_text n (keys params) ≡ true) (required_names ps)
      × Arguments params ps kw

  -- A call gets through to its tool only with an object of arguments: every name in it is a
  -- parameter, every required parameter is there, and each argument that the tool is given has
  -- the declared type.
  pub build_kwargs_sound :
      (parameters : List Parameter) (passed : Value) (kw : Fields)
      → build_kwargs F wording parameters passed ≡ kwargs kw
      → Accepted parameters passed kw
  unfolding build_kwargs
  build_kwargs_sound parameters (Value.object params) kw h =
      let (known, complete, typed) = object_sound parameters params kw (unfold build_kwargs in h) in
      (params, refl, known, complete, typed)
  build_kwargs_sound parameters _ kw h = cc
