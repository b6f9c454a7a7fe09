-- ===== src/Registry/Dispatch.antt =====
-- Calls through `dispatch` of plugin/registry.py, and the safe methods.
use ida_pro_mcp.Prelude.{
  Text, teq, txt, ◌≢◌, none, mem_text, Bool, true, not, some, List, [], ◌∷◌, keep, ◌≡◌, refl, ap,
  sym, ◌∙◌, ◌⊎◌, inl, inr, arith, ◌||◌, ◌&&◌, if◌then◌else◌, Option-cases,
}
use ida_pro_mcp.Errors.{ErrorCode, Raised}
use ida_pro_mcp.Value.{Value, Fields, field, end, is_null}
use ida_pro_mcp.Coerce.{Floats}
use ida_pro_mcp.Registry.{
  Registry, Tool, Outcome, returned, raised, Message, Kwargs, kwargs, refused, rpc, build_kwargs,
  find, nullable, substitute, call_tool, dispatch, void_result_marker, mark_unsafe, safe_methods,
  method_names, method_not_found,
}
use ida_pro_mcp.Registry.Arguments.{Accepted, build_kwargs_sound}
use ida_pro_mcp.Registry.Invariant.{IsValid}
use mathlib.Core.Path.{subst}
use ida_pro_mcp.Registry.Find.{Has, Named, Has-All, find-none, find-Named}

keep_neither :
    (p q : Text → Bool) (xs : List Text)
    → keep (λ n. not (p n || q n)) xs ≡ keep (λ n. not (p n)) (keep (λ n. not (q n)) xs)
keep_neither p q [] = refl
keep_neither p q (x ∷ xs) = ground (arith, keep_neither p q xs)

module _ {S : Type 0} where
  -- Marking a tool unsafe takes its name, and no other, from the safe methods.
  pub safe_methods-mark_unsafe :
      (func : Tool S) (r : Registry S)
      → safe_methods (mark_unsafe func r) ≡ keep (λ n. not (teq n func.name)) (safe_methods r)
  unfolding safe_methods mark_unsafe mem_text
  safe_methods-mark_unsafe func r =
      keep_neither (λ n. teq n func.name) (λ n. mem_text n r.unsafe) (method_names r.methods)

-- What the caller of a tool is given: its `None` becomes `{"ok": true}`, unless the return
-- annotation is a union with `None`.
abbrev pub answer : {S : Type 0} → Tool S → Outcome Value → Outcome Value
answer func (raised e) = raised e
answer func (returned v) = returned (
    if is_null v && not (nullable func.return_hint)
    then Value.object (field (txt "ok") (Value.bool true) end)
    else v)

module _ (F : Floats) (wording : Message → Text) {S : Type 0} where
  substitute_lem :
      (r : Registry S) (func : Tool S) (method : Text) (out : Outcome Value)
      → IsValid r
      → Named r.methods method func
      → substitute F wording r method out ≡ answer func out
  unfolding substitute void_result_marker
  substitute_lem r func method (raised e) v n = refl
  substitute_lem r func method (returned x) v n =
      let mark : mem_text method r.nullable_result ≡ nullable func.return_hint =
        ap (λ k. mem_text k r.nullable_result) (sym n.name_is)
        ∙ Has-All _ r.methods func v.marked n.here in
      rw mark refl

  -- A call of the tool `func`, whose arguments are refused, or accepted and given to it.
  abbrev pub Called : Tool S → Value → S → Outcome Value × S → Type 0
  Called func params s run =
      ((e : Raised) × (build_kwargs F wording func.parameters params ≡ refused e)
        × (run ≡ (raised e, s)))
      ⊎ ((kw : Fields) × (build_kwargs F wording func.parameters params ≡ kwargs kw)
          × Accepted F wording func.parameters params kw
          × (run ≡ (answer func (func.run kw s).0, (func.run kw s).1)))

  called :
      (r : Registry S) (func : Tool S) (method : Text) (params : Value) (s : S)
      → IsValid r
      → Named r.methods method func
      → Called func params s (call_tool F wording r func method params s)
  unfolding call_tool
  called r func method params s v n =
      by_arguments (build_kwargs F wording func.parameters params) refl
    where
      by_arguments :
          (k : Kwargs)
          → build_kwargs F wording func.parameters params ≡ k
          → Called func params s (call_tool F wording r func method params s)
      by_arguments (refused e) b = inl (e, b, rw (call_tool, b) refl)
      by_arguments (kwargs kw) b = inr (
        kw,
        b,
        build_kwargs_sound F wording func.parameters params kw b,
        rw (call_tool, b)
            (ap (λ o. (o, (func.run kw s).1)) (substitute_lem r func method (func.run kw s).0 v n)),
      )

  dispatch-none :
      (r : Registry S) (method : Text) (params : Value) (s : S)
      → find method r.methods ≡ none
      → dispatch F wording r method params s ≡ (
        raised (rpc F wording ErrorCode.method_not_found (method_not_found (Value.str method))),
        s,
      )
  unfolding dispatch
  dispatch-none r method params s e = rw (dispatch, e) refl

  dispatch-some :
      (r : Registry S) (method : Text) (params : Value) (s : S) (func : Tool S)
      → find method r.methods ≡ some func
      → call_tool F wording r func method params s ≡ dispatch F wording r method params s
  unfolding dispatch
  dispatch-some r method params s func e = rw (dispatch, e) refl

  -- A call over a registry that `register` has built. If no tool has the name, it raises and
  -- leaves the database alone. Otherwise one tool has it. If the arguments are refused, the call
  -- raises and leaves the database alone. If not, they are of the types that the tool declares;
  -- the tool runs once, and the call gives its answer and ends in the state in which it ends.
  pub dispatch_cases :
      (r : Registry S) (method : Text) (params : Value) (s : S)
      → IsValid r
      → (((t : Tool S) → Has t r.methods → t.name ≢ method)
          × (e : Raised) × (dispatch F wording r method params s ≡ (raised e, s)))
        ⊎ ((func : Tool S) × Named r.methods method func
            × Called func params s (dispatch F wording r method params s))
  dispatch_cases r method params s v = elim (Option-cases (find method r.methods)) [
    | inl e ↦ inl (find-none method r.methods e, _, dispatch-none r method params s e)
    | inr (func, e) ↦
        let n = find-Named method r.methods func v.distinct e in
        inr (
          func,
          n,
          subst (Called func params s) (dispatch-some r method params s func e)
              (called r func method params s v n),
        )
  ]

  run_of :
      (r : Registry S) (method : Text) (params : Value) (s : S) (func : Tool S) (kw : Fields)
      → IsValid r
      → Named r.methods method func
      → build_kwargs F wording func.parameters params ≡ kwargs kw
      → dispatch F wording r method params s ≡ (answer func (func.run kw s).0, (func.run kw s).1)
  run_of r method params s func kw v n b = elim (dispatch_cases r method params s v) [
    | inl (absent, e, d) ↦ absurd (absent func n.here n.name_is)
    | inr (f, m, c) ↦ same (m.alone func n.here n.name_is) c
  ]
    where
      same :
          {f : Tool S}
          → func ≡ f
          → Called f params s (dispatch F wording r method params s)
          → dispatch F wording r method params s
            ≡ (answer func (func.run kw s).0, (func.run kw s).1)
      same e c =
          accepted (subst (λ f. Called f params s (dispatch F wording r method params s)) (sym e) c)
        where
          accepted :
              Called func params s (dispatch F wording r method params s)
              → dispatch F wording r method params s
                ≡ (answer func (func.run kw s).0, (func.run kw s).1)
          accepted (inl (x, refusal, d)) = absurd (both x (sym refusal ∙ b))
            where
              both : (x : Raised) → refused x ≡ kwargs kw → ⊥
              both x h = cc
          accepted (inr (kw', b', sound, d)) =
              subst
                (λ k.
                  dispatch F wording r method params s
                  ≡ (answer func (func.run k s).0, (func.run k s).1))
                (kwargs_inj kw' kw (sym b' ∙ b)) d
            where
              kwargs_inj : (k l : Fields) → kwargs k ≡ kwargs l → k ≡ l
              kwargs_inj k l h = cc

  answer-null :
      (func : Tool S) (out : Outcome Value)
      → answer func out ≡ returned Value.null
      → (out ≡ returned Value.null) × (nullable func.return_hint ≡ true)
  unfolding is_null
  answer-null func (raised e) h = cc
  answer-null func (returned Value.null) h = (refl, ground arith)
  answer-null func (returned _) h = cc

  null_run :
      (func : Tool S) (params : Value) (s : S) (run : Outcome Value × S)
      → Called func params s run
      → run.0 ≡ returned Value.null
      → (nullable func.return_hint ≡ true)
        × (kw : Fields) × ((func.run kw s).0 ≡ returned Value.null)
  null_run func params s run (inl (e, b, d)) h = absurd (not_both e (sym (ap (λ p. p.0) d) ∙ h))
    where
      not_both : (e : Raised) → raised e ≡ returned Value.null → ⊥
      not_both e h = cc
  null_run func params s run (inr (kw, b, sound, d)) h =
      let (gave, null_allowed) = answer-null func (func.run kw s).0 (sym (ap (λ p. p.0) d) ∙ h) in
      (null_allowed, kw, gave)

  null_answer :
      (func : Tool S)
      → answer func (returned Value.null)
        ≡ returned (
            if nullable func.return_hint
            then Value.null
            else Value.object (field (txt "ok") (Value.bool true) end))
  unfolding is_null
  null_answer func = grind arith

  -- Over a registry that `register` has built, when a tool is given its arguments and returns
  -- `None`: the call gives `None` if the return annotation of the tool is a union with `None`, and
  -- `{"ok": true}` if not.
  pub dispatch_null :
      (r : Registry S) (method : Text) (params : Value) (s : S) (func : Tool S) (kw : Fields)
      → IsValid r
      → Named r.methods method func
      → build_kwargs F wording func.parameters params ≡ kwargs kw
      → (func.run kw s).0 ≡ returned Value.null
      → (dispatch F wording r method params s).0
        ≡ returned (
            if nullable func.return_hint
            then Value.null
            else Value.object (field (txt "ok") (Value.bool true) end))
  dispatch_null r method params s func kw v n b gave =
      ap (λ p. p.0) (run_of r method params s func kw v n b)
      ∙ ap (answer func) gave
      ∙ null_answer func

  -- Over a registry that `register` has built, a call gives `None` only where the tool of its name
  -- has returned it, and has a return annotation that is a union with `None`.
  pub dispatch_null-only :
      (r : Registry S) (method : Text) (params : Value) (s : S)
      → IsValid r
      → (dispatch F wording r method params s).0 ≡ returned Value.null
      → (func : Tool S) × Named r.methods method func
        × (nullable func.return_hint ≡ true)
        × (kw : Fields) × ((func.run kw s).0 ≡ returned Value.null)
  dispatch_null-only r method params s v h = elim (dispatch_cases r method params s v) [
    | inl (absent, e, d) ↦ absurd (not_both e (sym (ap (λ p. p.0) d) ∙ h))
    | inr (func, n, c) ↦
        let (null_allowed, kw, gave) =
          null_run func params s (dispatch F wording r method params s) c h in
        (func, n, null_allowed, kw, gave)
  ]
    where
      not_both : (e : Raised) → raised e ≡ returned Value.null → ⊥
      not_both e h = cc
