-- ===== src/Stack/Protected.antt =====
-- What `delete_stack_frame_variable` and `rename_stack_frame_variable` do not touch.
use mathlib.Core.Path.{subst}
use ida_pro_mcp.Prelude.{
  ℕ, ◌+◌, ◌≤◌, ◌<◌, Text, teq, true, Option, none, some, List, [], ◌∷◌, ◌≡◌, ◌≢◌, ◌⊎◌, refl, inl,
  inr, Bool-cases, txt, arith,
}
use ida_pro_mcp.Errors.{Result, ok, err, ◌>>=◌}
use ida_pro_mcp.Stack.{
  Member, offset_bytes, size_bytes, Sdk, checked, find_member, resolve_in, extend, region_start,
  args_region_start, check_mutable, delete_stack_frame_variable,
}

module _ {T : Type 0} where
  abbrev pub In : Member T → List (Member T) → Type 0
  In m [] = ⊥
  In m (x ∷ xs) = (m ≡ x) ⊎ In m xs

  abbrev pub end_bytes : Member T → ℕ
  end_bytes m = offset_bytes m + size_bytes m

  -- Saved registers and the return address; and what lies behind all of these, if there are any.
  abbrev pub IsArgument : List (Member T) → Member T → Type 0
  IsArgument members m =
      ((n : Member T) → In n members → n.special ≡ true → end_bytes n ≤ offset_bytes m)
      × ((n : Member T) × In n members × (n.special ≡ true) × (0 < end_bytes n))

  abbrev pub IsProtected : List (Member T) → Member T → Type 0
  IsProtected members m = (m.special ≡ true) ⊎ IsArgument members m

  extend-le :
      (b c : ℕ) (m : Member T) → b ≤ c → (m.special ≡ true → end_bytes m ≤ c) → extend b m ≤ c
  unfolding extend
  extend-le b c m l h = elim (Bool-cases m.special) [
    | inl e ↦ ground (arith, h e)
    | inr e ↦ ground arith
  ]

  le-extend : (b : ℕ) (m : Member T) → b ≤ extend b m
  unfolding extend
  le-extend b m = ground arith

  end-le-extend : (b : ℕ) (n m : Member T) → n ≡ m → n.special ≡ true → end_bytes n ≤ extend b m
  unfolding extend
  end-le-extend b n m e s = subst (λ k. end_bytes n ≤ extend b k) e (ground arith)

  -- The loop finds the end of the last special member.
  region_start-le :
      (members : List (Member T)) (b c : ℕ)
      → b ≤ c
      → ((n : Member T) → In n members → n.special ≡ true → end_bytes n ≤ c)
      → region_start b members ≤ c
  unfolding region_start
  region_start-le [] b c l h = l
  region_start-le (m ∷ members) b c l h =
      region_start-le members (extend b m) c (extend-le b c m l (h m (inl refl)))
        (λ n i s. h n (inr i) s)

  le-region_start : (members : List (Member T)) (b : ℕ) → b ≤ region_start b members
  unfolding region_start
  le-region_start [] b = omega arith
  le-region_start (m ∷ members) b =
      omega (arith, le-extend b m, le-region_start members (extend b m))

  end-le-region_start :
      (members : List (Member T)) (b : ℕ) (n : Member T)
      → In n members
      → n.special ≡ true
      → end_bytes n ≤ region_start b members
  unfolding region_start
  end-le-region_start [] b n i s = absurd i
  end-le-region_start (m ∷ members) b n (inl e) s =
      omega (arith, end-le-extend b n m e s, le-region_start members (extend b m))
  end-le-region_start (m ∷ members) b n (inr i) s = end-le-region_start members (extend b m) n i s

  -- `check_mutable` lets no protected member through.
  check_mutable-refuses :
      (members : List (Member T)) (m : Member T) (name action : Text)
      → IsProtected members m
      → (u : Unit {0}) → check_mutable m (some (some members)) name action ≢ ok u
  unfolding check_mutable args_region_start
  check_mutable-refuses members m name action (inl e) u = λ h. ground arith
  check_mutable-refuses members m name action (inr (behind, (n, i, s, big))) u =
      let low = end-le-region_start members 0 n i s in
      let high = region_start-le members 0 (offset_bytes m) (omega arith) behind in
      λ h. ground arith

  spared :
      (members : List (Member T)) (m x : Member T) (name action : Text) (u : Unit {0})
      → check_mutable x (some (some members)) name action ≡ ok u
      → IsProtected members m
      → (m ≡ x) ⊎ (end_bytes m ≤ offset_bytes x) ⊎ (end_bytes x ≤ offset_bytes m)
      → (end_bytes m ≤ offset_bytes x) ⊎ (end_bytes x ≤ offset_bytes m)
  spared members m x name action u passed p (inl same) =
      absurd
        (check_mutable-refuses members x name action (subst (IsProtected members) same p) u passed)
  spared members m x name action u passed p (inr apart) = apart

  find_member-In :
      (members : List (Member T)) (name : Text) (m : Member T)
      → find_member name members ≡ ok m
      → In m members
  unfolding find_member
  find_member-In [] name m e = absurd cc
  find_member-In (x ∷ members) name m e = elim (Bool-cases (teq x.name name)) [
    | inl s ↦ inl (ground arith)
    | inr s ↦ inr (find_member-In members name m (ground arith))
  ]

bind-ok {ℓ κ} :
    {A : Type ℓ} {B : Type κ} (r : Result A) (f : A → Result B) {b : B}
    → (r >>= f) ≡ ok b
    → (a : A) × (r ≡ ok a) × (f a ≡ ok b)
bind-ok (ok a) f e = (a, refl, e)
bind-ok (err x) f e = absurd cc

checked-ok :
    {F : Type 0} (o : Option F) (message : Text) (func : F)
    → checked o message ≡ ok func
    → o ≡ some func
unfolding checked
checked-ok none message func e = absurd cc
checked-ok (some g) message func e = ground arith

module _ {T F : Type 0} (sdk : Sdk T F) (type_by_name : Text → Result T) where
  -- `delete_frame_members` deletes no member that lies outside the range that it is given.
  abbrev pub DeletesWithin : Type 0
  DeletesWithin =
      (func after : F) (from to : ℕ) (members : List (Member T))
      → sdk.frame func ≡ some (some members)
      → sdk.delete_members func from to ≡ some after
      → (left : List (Member T)) × (sdk.frame after ≡ some (some left))
        × ((m : Member T) → In m members → (end_bytes m ≤ from) ⊎ (to ≤ offset_bytes m) → In m left)

  -- Two members of a frame are the same, or do not overlap.
  abbrev pub AreApart : List (Member T) → Type 0
  AreApart members =
      (m n : Member T)
      → In m members
      → In n members
      → (m ≡ n) ⊎ (end_bytes m ≤ offset_bytes n) ⊎ (end_bytes n ≤ offset_bytes m)

  -- A variable that is deleted, by its name, from a frame of which the members do not overlap, when
  -- IDA deletes nothing outside the range that it is told: every saved register, the return address
  -- and every argument, which is a member behind all of these, is still in the frame.
  pub delete-IsProtected :
      (func after : F) (variable_name : Text) (members : List (Member T))
      → DeletesWithin
      → sdk.frame func ≡ some (some members)
      → AreApart members
      → delete_stack_frame_variable sdk type_by_name func variable_name ≡ ok after
      → (left : List (Member T)) × (sdk.frame after ≡ some (some left))
        × ((m : Member T) → In m members → IsProtected members m → In m left)
  unfolding delete_stack_frame_variable resolve_in
  delete-IsProtected func after variable_name members within framed apart done =
      let (member, found, rest) = bind-ok (resolve_in variable_name (sdk.frame func)) _ done in
      let (allowed, mutable, called) = bind-ok (check_mutable member (sdk.frame func) _ _) _ rest in
      let deleted = checked-ok _ _ after called in
      let (left, framed', kept) = within func after _ _ members framed deleted in
      let in_frame =
        find_member-In members variable_name member
          (subst (λ f. resolve_in variable_name f ≡ ok member) framed found) in
      let passed =
        subst (λ f. check_mutable member f variable_name (txt "delete") ≡ ok allowed) framed
          mutable in
      (
        left,
        framed',
        λ m i p.
            kept m i (spared members m member _ _ allowed passed p (apart m member i in_frame)),
      )
