-- ===== src/Registry/Invariant.antt =====
-- The registry of plugin/registry.py as `register` builds it.
use ida_pro_mcp.Prelude.{
  Text, teq, teq_refl, mem_text, Bool, true, false, not, List, [], ◌∷◌, ◌++◌, any, All, All-append,
  ◌≡◌, refl, Bool-cases, inl, inr, if◌then◌else◌,
}
use mathlib.Core.List.{map-append}
use ida_pro_mcp.Registry.{
  Registry, Tool, Misuse, ok, err, register, method_names, nullable, accepted, is_unresolved,
}
use ida_pro_mcp.Registry.Names.{
  Distinct, teq-sym_false, or_false, Distinct-snoc, not_known, known_after,
}

module _ {S : Type 0} where
  -- The parameters can all be given by name, and their annotations are resolved.
  pub record IsCallable (t : Tool S) : Type 0 where
    pub by_name : any (λ p. not (accepted p.kind)) t.parameters ≡ false
    pub resolved : any is_unresolved t.parameters ≡ false

  pub record IsValid (r : Registry S) : Type 0 where
    pub distinct : Distinct (method_names r.methods)
    pub callable : All IsCallable r.methods
    -- A tool is among the nullable ones exactly if its return annotation is a union with `None`.
    pub marked : All (λ t. mem_text t.name r.nullable_result ≡ nullable t.return_hint) r.methods
    pub known : All (λ n. mem_text n (method_names r.methods) ≡ true) r.nullable_result

module _ {S : Type 0} where
  after : Tool S → Registry S → Registry S
  after func r = record {
    methods = r.methods ++ func ∷ [];
    unsafe = r.unsafe;
    nullable_result =
        if nullable func.return_hint then func.name ∷ r.nullable_result else r.nullable_result;
  }

  no_misuse :
      (a b c : Bool) (m n k : Misuse) (x r' : Registry S)
      → (if a then err m else if b then err n else if c then err k else ok x) ≡ ok r'
      → (a ≡ false) × (b ≡ false) × (c ≡ false) × (x ≡ r')
  no_misuse true b c m n k x r' h = cc
  no_misuse false true c m n k x r' h = cc
  no_misuse false false true m n k x r' h = cc
  no_misuse false false false m n k x r' h = (refl, refl, refl, cc)

  register-inv :
      (func : Tool S) (r r' : Registry S)
      → register func r ≡ ok r'
      → (mem_text func.name (method_names r.methods) ≡ false)
        × IsCallable func
        × (after func r ≡ r')
  unfolding register after
  register-inv func r r' h =
      let (fresh, named, done, same) = no_misuse _ _ _ _ _ _ _ r' h in
      (fresh, record { by_name = named; resolved = done }, same)

  method_names-append :
      (ts : List (Tool S)) (func : Tool S)
      → method_names (ts ++ func ∷ []) ≡ method_names ts ++ func.name ∷ []
  unfolding method_names
  method_names-append ts func = rw map-append

  -- The marks of the tools that were there do not change.
  marked_before :
      (n : Text) (b : Bool) (nr : List Text) (ts : List (Tool S))
      → mem_text n (method_names ts) ≡ false
      → All (λ t. mem_text t.name nr ≡ nullable t.return_hint) ts
      → All (λ t. mem_text t.name (if b then n ∷ nr else nr) ≡ nullable t.return_hint) ts
  marked_before n b nr [] fresh h = tt
  marked_before n b nr (t ∷ ts) fresh (m, h) =
      let (ne, out) =
        or_false (teq n t.name) (mem_text n (method_names ts))
          (unfold mem_text method_names in fresh) in
      (unchanged b (teq-sym_false n t.name ne), marked_before n b nr ts out h)
    where
      unchanged :
          (b : Bool)
          → teq t.name n ≡ false
          → mem_text t.name (if b then n ∷ nr else nr) ≡ nullable t.return_hint
      unchanged true e = unfold mem_text in rw e m
      unchanged false e = m

  marked_new :
      (func : Tool S) (nr : List Text)
      → mem_text func.name nr ≡ false
      → mem_text func.name (if nullable func.return_hint then func.name ∷ nr else nr)
        ≡ nullable func.return_hint
  marked_new func nr fresh = elim (Bool-cases (nullable func.return_hint)) [
    | inl e ↦ rw e (unfold mem_text in rw teq_refl)
    | inr e ↦ rw e fresh
  ]

  after-IsValid :
      (func : Tool S) (r : Registry S)
      → IsValid r
      → mem_text func.name (method_names r.methods) ≡ false
      → IsCallable func
      → IsValid (after func r)
  unfolding after
  after-IsValid func r v fresh ok_func = record {
    distinct =
        rw method_names-append (Distinct-snoc (method_names r.methods) func.name v.distinct fresh);
    callable = All-append IsCallable r.methods (func ∷ []) v.callable (ok_func, tt);
    marked =
        All-append _ r.methods (func ∷ [])
          (marked_before func.name _ r.nullable_result r.methods fresh v.marked)
          (
            marked_new func r.nullable_result
                (not_known func.name _ r.nullable_result fresh v.known),
            tt,
          );
    known =
        rw method_names-append
          (known_after _ (method_names r.methods) r.nullable_result func.name v.known);
  }

  -- A registration that succeeds keeps the registry valid: names stay unique, every tool can be
  -- called by name with resolved annotations, and the nullable tools are those whose return
  -- annotation is a union with `None`.
  pub register-IsValid :
      (func : Tool S) (r r' : Registry S) → IsValid r → register func r ≡ ok r' → IsValid r'
  register-IsValid func r r' v h =
      let (fresh, callable, same) = register-inv func r r' h in
      rw (← same) (after-IsValid func r v fresh callable)
