-- ===== src/Coerce.antt =====
-- src/ida_pro_mcp/plugin/coerce.py and doc.py: conversion of JSON arguments to declared types.
-- Rounding an integer to a float and reading a float from text are the interpreter's: `Floats`.
pub mod Conforms
pub mod Sound
mod Tests
use ida_pro_mcp.Prelude.{
  ℕ, zero, suc, ◌*◌, ◌/◌, ◌%◌, ◌^◌, ◌+◌, ◌-◌, ℤ, pos, negsuc, eq_ℤ, ltb_ℤ, leb_ℤ, Text, txt, teq,
  strip, lower, mem_text, Bool, true, false, Option, none, some, List, [], ◌∷◌, ◌++◌, ◌==◌, ◌&&◌,
  ◌||◌, if◌then◌else◌,
}
use ida_pro_mcp.Value
use ida_pro_mcp.Value.{Value, Items, Float}
use ida_pro_mcp.PyInt.{int_10, to_neg}

-- `Doc`: a description, and bounds for numbers.
pub record Doc : Type 0 where
  pub description : Text
  pub ge : Option ℤ
  pub gt : Option ℤ

-- Entries of `Annotated` behind the type: a `Doc`, or metadata that is ignored.
pub data Metadata : Type 0 where
  doc : Doc → Metadata
  ignored : Metadata

-- The members of a `Literal`.
pub data Candidate : Type 0 where
  text : Text → Candidate
  int : ℤ → Candidate
  bool : Bool → Candidate

-- Annotations, as `typing.get_origin` and `get_args` take them apart. `any` stands for `None`,
-- `Any`, `object` and a missing annotation; `structured` for every other class.
mutual
  pub data Annotation : Type 0 where
    any none_type bool_type int_type float_type str_type structured : Annotation
    literal : List Candidate → Annotation
    union : Members → Annotation
    list_of : Annotation → Annotation
    annotated : Annotation → List Metadata → Annotation

  pub data Members : Type 0 where
    no_member : Members
    member : Annotation → Members → Members

-- `CoercionError`, by its message.
pub data CoercionError : Type 0 where
  not_none_value not_int non_integral bad_int_text not_bool not_float bad_float_text not_str :
      CoercionError
  not_list unexpected_none no_literal no_union_member not_ge not_gt : CoercionError

-- `overflow` is the interpreter's `OverflowError`, which is no `CoercionError`.
pub data Coerced {ℓ} (A : Type ℓ) : Type ℓ where
  ok : A → Coerced A
  err : CoercionError → Coerced A
  overflow : Coerced A

infixl 5 ◌>>=◌ ◌>>◌
abbrev pub ◌>>=◌ {ℓ κ} : {A : Type ℓ} {B : Type κ} → Coerced A → (A → Coerced B) → Coerced B
ok a >>= f = f a
err e >>= f = err e
overflow >>= f = overflow

abbrev pub ◌>>◌ {ℓ} : {B : Type ℓ} → Coerced (Unit {0}) → Coerced B → Coerced B
m >> k = m >>= λ _. k

-- What the interpreter does for floats: `float(n)` (`none` is `OverflowError`), and `float(text)`
-- (`none` is `ValueError`).
pub record Floats : Type 0 where
  pub of_int : ℤ → Option Float
  pub of_text : Text → Option Float

-- `value.is_integer()`, and `int(value)` where it is one.
unfoldable pub whole : Float → Option ℤ
whole (Float.dyadic (pos m) k) = if (m % 2 ^ k) == 0 then some (pos (m / 2 ^ k)) else none
whole (Float.dyadic (negsuc m) k) =
    if (suc m % 2 ^ k) == 0 then some (to_neg (suc m / 2 ^ k)) else none
whole _ = none

unfoldable pub bool_int : Bool → ℤ
bool_int true = pos 1
bool_int false = pos 0

unfoldable pub int_or : CoercionError → Option ℤ → Coerced Value
int_or e none = err e
int_or e (some n) = ok (Value.int n)

unfoldable pub coerce_int : Value → Coerced Value
coerce_int (Value.bool b) = ok (Value.int (bool_int b))
coerce_int (Value.int n) = ok (Value.int n)
coerce_int (Value.float x) = int_or non_integral (whole x)
coerce_int (Value.str t) = int_or bad_int_text (int_10 t)
coerce_int _ = err not_int

unfoldable pub true_words : List Text
true_words = txt "true" ∷ txt "1" ∷ txt "t" ∷ txt "y" ∷ txt "yes" ∷ txt "on" ∷ []

unfoldable pub false_words : List Text
false_words = txt "false" ∷ txt "0" ∷ txt "f" ∷ txt "n" ∷ txt "no" ∷ txt "off" ∷ []

-- `value in (0, 1)`, then `bool(value)`
unfoldable pub bool_of_int : ℤ → Coerced Value
bool_of_int n =
    if eq_ℤ n (pos 0)
    then ok (Value.bool false)
    else if eq_ℤ n (pos 1)
    then ok (Value.bool true)
    else err not_bool

unfoldable pub bool_of_whole : Option ℤ → Coerced Value
bool_of_whole none = err not_bool
bool_of_whole (some n) = bool_of_int n

unfoldable pub bool_of_word : Text → Coerced Value
bool_of_word word =
    if mem_text word true_words
    then ok (Value.bool true)
    else if mem_text word false_words
    then ok (Value.bool false)
    else err not_bool

unfoldable pub coerce_bool : Value → Coerced Value
coerce_bool (Value.bool b) = ok (Value.bool b)
coerce_bool (Value.int n) = bool_of_int n
coerce_bool (Value.float x) = bool_of_whole (whole x)
coerce_bool (Value.str t) = bool_of_word (lower (strip t))
coerce_bool _ = err not_bool

unfoldable pub float_or : Coerced Value → Option Float → Coerced Value
float_or failure none = failure
float_or failure (some x) = ok (Value.float x)

unfoldable pub coerce_float : Floats → Value → Coerced Value
coerce_float F (Value.bool b) = float_or overflow (F.of_int (bool_int b))
coerce_float F (Value.int n) = float_or overflow (F.of_int n)
coerce_float F (Value.float x) = ok (Value.float x)
coerce_float F (Value.str t) = float_or (err bad_float_text) (F.of_text t)
coerce_float F _ = err not_float

unfoldable pub coerce_str : Value → Coerced Value
coerce_str (Value.str t) = ok (Value.str t)
coerce_str _ = err not_str

-- `type(value) is type(candidate) and value == candidate`
unfoldable pub same : Value → Candidate → Bool
same (Value.str t) (Candidate.text u) = teq t u
same (Value.int n) (Candidate.int m) = eq_ℤ n m
same (Value.bool true) (Candidate.bool b) = b
same (Value.bool false) (Candidate.bool b) = if b then false else true
same _ _ = false

unfoldable pub coerce_literal : Value → List Candidate → Coerced Value
coerce_literal v [] = err no_literal
coerce_literal v (c ∷ allowed) = if same v c then ok v else coerce_literal v allowed

unfoldable pub scale : ℤ → ℕ → ℤ
scale (pos n) d = pos (n * d)
scale (negsuc n) d = to_neg (suc n * d)

-- `value < bound`, `value <= bound` of a number against an integer. Nothing holds of NaN.
unfoldable pub below : (ℤ → ℤ → Bool) → Value → ℤ → Bool
below test (Value.int n) bound = test n bound
below test (Value.float (Float.dyadic m k)) bound = test m (scale bound (2 ^ k))
below test (Value.float Float.minus_infinity) bound = true
below test _ bound = false

-- `bound is not None and value < bound`
unfoldable pub violates : (ℤ → ℤ → Bool) → Value → Option ℤ → Bool
violates test v none = false
violates test v (some bound) = below test v bound

unfoldable pub check_doc : Value → Doc → Coerced (Unit {0})
check_doc v d =
    if violates ltb_ℤ v d.ge
    then err not_ge
    else if violates leb_ℤ v d.gt
    then err not_gt
    else ok tt

unfoldable pub check_metadata : Value → List Metadata → Coerced (Unit {0})
check_metadata v [] = ok tt
check_metadata v (ignored ∷ metadata) = check_metadata v metadata
check_metadata v (doc d ∷ metadata) = do check_doc v d; check_metadata v metadata

-- `_apply_bounds`: only numbers that are no booleans are checked.
unfoldable pub apply_bounds : Value → List Metadata → Coerced (Unit {0})
apply_bounds (Value.int n) metadata = check_metadata (Value.int n) metadata
apply_bounds (Value.float x) metadata = check_metadata (Value.float x) metadata
apply_bounds _ metadata = ok tt

unfoldable pub bounded : Coerced Value → List Metadata → Coerced Value
bounded r metadata = do v ← r; apply_bounds v metadata; ok v

-- The list comprehension of `_coerce_list`, over the conversion of one item.
unfoldable pub each : (Value → Coerced Value) → Items → Coerced Items
each f Items.nil = ok Items.nil
each f (Items.cons v xs) = do w ← f v; ws ← each f xs; ok (Items.cons w ws)

unfoldable pub coerce_list : (Value → Coerced Value) → Value → Coerced Value
coerce_list f (Value.list xs) = do ws ← each f xs; ok (Value.list ws)
coerce_list f _ = err not_list

unfoldable pub coerce_none : Value → Coerced Value
coerce_none Value.null = ok Value.null
coerce_none _ = err not_none_value

unfoldable pub is_none_type : Annotation → Bool
is_none_type Annotation.none_type = true
is_none_type _ = false

-- `type(None) in members`
unfoldable pub optional : Members → Bool
optional no_member = false
optional (member a ms) = is_none_type a || optional ms

-- `len(concrete)`
unfoldable pub concrete_count : Members → ℕ
concrete_count no_member = 0
concrete_count (member a ms) = if is_none_type a then concrete_count ms else suc (concrete_count ms)

-- `coerce(value, member)`, and on a `CoercionError` the next member.
unfoldable pub or_else : Coerced Value → Coerced Value → Coerced Value
or_else (ok v) rest = ok v
or_else (err e) rest = rest
or_else overflow rest = overflow

-- `_coerce_union`, over what the only concrete member gives and what the loop gives.
unfoldable pub coerce_union : Members → Value → Coerced Value → Coerced Value → Coerced Value
coerce_union ms v single loop =
    if Value.is_null v
    then (if optional ms then ok Value.null else err unexpected_none)
    else if concrete_count ms == 1
    then single
    else loop

-- `coerce`, with the metadata that `_strip_annotated` has gathered so far.
unfoldable mutual
  pub coerce_with : Floats → Annotation → List Metadata → Value → Coerced Value
  coerce_with F (annotated a m) md v = coerce_with F a (md ++ m) v
  coerce_with F any md v = bounded (ok v) md
  coerce_with F structured md v = bounded (ok v) md
  coerce_with F none_type md v = bounded (coerce_none v) md
  coerce_with F bool_type md v = bounded (coerce_bool v) md
  coerce_with F int_type md v = bounded (coerce_int v) md
  coerce_with F float_type md v = bounded (coerce_float F v) md
  coerce_with F str_type md v = bounded (coerce_str v) md
  coerce_with F (literal cs) md v = bounded (coerce_literal v cs) md
  coerce_with F (list_of a) md v = bounded (coerce_list (coerce_with F a []) v) md
  coerce_with F (union ms) md v =
      let single = only_member F ms v in
      let loop = first_member F ms v in bounded (coerce_union ms v single loop) md

  pub only_member : Floats → Members → Value → Coerced Value
  only_member F no_member v = err no_union_member
  only_member F (member a ms) v =
      let here = coerce_with F a [] v in
      let rest = only_member F ms v in if is_none_type a then rest else here

  pub first_member : Floats → Members → Value → Coerced Value
  first_member F no_member v = err no_union_member
  first_member F (member a ms) v =
      let here = coerce_with F a [] v in
      let rest = first_member F ms v in if is_none_type a then rest else or_else here rest

unfoldable pub coerce : Floats → Value → Annotation → Coerced Value
coerce F value annotation = coerce_with F annotation [] value
