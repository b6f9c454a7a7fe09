-- ===== src/Stack/Tests.antt =====
-- An instance of the theorem on `delete_stack_frame_variable`: a frame with a variable and the
-- return address, and an IDA that deletes what overlaps the range.
use ida_pro_mcp.Prelude.{
  ℕ, pos, txt, teq, leb, Bool, true, false, some, List, [], ◌∷◌, ◌≡◌, ◌⊎◌, inl, inr, refl, sym,
  keep, ◌||◌, ◌≤◌, ◌+◌, arith, Bool-cases, if◌then◌else◌,
}
use ida_pro_mcp.Errors.{ok}
use ida_pro_mcp.Stack.{
  Member, offset_bytes, size_bytes, Sdk, checked, find_member, resolve_in, extend, region_start,
  args_region_start, check_mutable, delete_stack_frame_variable,
}
use ida_pro_mcp.Stack.Protected.{
  In, end_bytes, IsProtected, DeletesWithin, AreApart, delete-IsProtected,
}
use mathlib.Core.Path.{subst}
use mathlib.Core.Option.{some-injective}

abbrev outside : ℕ → ℕ → Member ℕ → Bool
outside from to m = leb (offset_bytes m + size_bytes m) from || leb to (offset_bytes m)

abbrev Frame : Type 0
Frame = List (Member ℕ)

abbrev sdk : Sdk ℕ Frame
sdk = record {
  frame = λ func. some (some func);
  to_frame_pointer = λ func offset. pos offset;
  define_variable = λ func name at type. some func;
  set_member_type = λ func offset type. some func;
  delete_members = λ func from to. some (keep (outside from to) func);
}

outside_lem :
    (from to : ℕ) (m : Member ℕ)
    → (end_bytes m ≤ from) ⊎ (to ≤ offset_bytes m)
    → outside from to m ≡ true
outside_lem from to m (inl h) = ground arith
outside_lem from to m (inr h) = ground arith

kept :
    (from to : ℕ) (members : Frame) (m : Member ℕ)
    → In m members
    → (end_bytes m ≤ from) ⊎ (to ≤ offset_bytes m)
    → In m (keep (outside from to) members)
kept from to [] m i o = absurd i
kept from to (x ∷ members) m (inl e) o =
    subst
      (λ y. In m (
        if outside from to y
        then x ∷ keep (outside from to) members
        else keep (outside from to) members))
      e (rw (outside_lem from to m o) (inl e))
kept from to (x ∷ members) m (inr i) o = elim (Bool-cases (outside from to x)) [
  | inl b ↦ rw b (inr (kept from to members m i o))
  | inr b ↦ rw b (kept from to members m i o)
]

deletes-DeletesWithin : DeletesWithin sdk (λ name. ok 0)
deletes-DeletesWithin func after from to members framed deleted =
    let same = some-injective _ _ (some-injective _ _ framed) in
    (
      after,
      refl,
      λ m i o.
          subst (In m) (some-injective _ _ deleted)
            (kept from to func m (subst (In m) (sym same) i) o),
    )

abbrev variable : Member ℕ
variable = record { name = txt "v"; offset = 0; size = 64; type = 0; special = false; gap = false }

abbrev return_address : Member ℕ
return_address = record {
  name = txt "r";
  offset = 64;
  size = 64;
  type = 0;
  special = true;
  gap = false;
}

abbrev frame : Frame
frame = variable ∷ return_address ∷ []

frame-AreApart : AreApart sdk (λ name. ok 0) frame
unfolding offset_bytes size_bytes
frame-AreApart m n (inl e) (inl f) = inl (ground arith)
frame-AreApart m n (inl e) (inr (inl f)) = rw (e, f) (inr (inl (omega arith)))
frame-AreApart m n (inr (inl e)) (inl f) = rw (e, f) (inr (inr (omega arith)))
frame-AreApart m n (inr (inl e)) (inr (inl f)) = inl (ground arith)
frame-AreApart m n i (inr (inr f)) = absurd f
frame-AreApart m n (inr (inr e)) j = absurd e

deletes : delete_stack_frame_variable sdk (λ name. ok 0) frame (txt "v") ≡ ok (return_address ∷ [])
unfolding delete_stack_frame_variable resolve_in find_member check_mutable args_region_start
    region_start extend offset_bytes size_bytes checked teq txt
deletes = refl

delete-IsProtected_example :
    (left : Frame) × (sdk.frame (return_address ∷ []) ≡ some (some left))
    × ((m : Member ℕ) → In m frame → IsProtected frame m → In m left)
delete-IsProtected_example =
    delete-IsProtected sdk (λ name. ok 0) frame (return_address ∷ []) (txt "v") frame
      deletes-DeletesWithin refl frame-AreApart deletes
