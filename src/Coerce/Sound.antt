-- ===== src/Coerce/Sound.antt =====
-- The values that `coerce` of plugin/coerce.py returns, by declared type.
use ida_pro_mcp.Prelude.{
  ℤ, Text, lower, strip, Bool, true, false, List, [], ◌∷◌, ◌++◌, ◌≡◌, ◌≢◌, refl, inl, inr, arith,
  Option, none, some, Bool-cases, if◌then◌else◌, ◌==◌,
}
use mathlib.Core.Path.{subst}
use ida_pro_mcp.PyInt.{int_10}
use ida_pro_mcp.Value
use ida_pro_mcp.Value.{Value, Items, Float}
use ida_pro_mcp.Coerce.{
  Annotation, any, none_type, bool_type, int_type, float_type, str_type, structured, literal, union,
  list_of, annotated, Members, no_member, member, Metadata, Candidate, CoercionError, int_or,
  bool_of_whole, not_bool, unexpected_none, Floats, Coerced, ok, err, overflow, ◌>>=◌, same, each,
  coerce_none, coerce_bool, coerce_int, coerce_float, coerce_str, coerce_literal, coerce_list,
  coerce_union, bounded, bool_int, coerce_with, only_member, first_member, coerce, or_else,
  is_none_type, optional, float_or, bool_of_int, bool_of_word, whole, concrete_count,
}
use ida_pro_mcp.Coerce.Conforms.{
  Within, Chosen, chosen, later, Conforms, of_any, of_structured, of_none, of_bool, of_int,
  of_float, of_str, of_literal, of_union, of_list, of_annotated, ConformsMember, here, there,
  ConformsItems, no_item, one_more, bounded-inv, Within-of_check, Within-append,
}

along : (P : Value → Type 0) (v w : Value) → ok v ≡ ok w → P v → P w
along P v w h = subst P (ground arith)

along_items : (P : Items → Type 0) (v w : Items) → ok v ≡ ok w → P v → P w
along_items P v w h = subst P (ground arith)

coerce_none-Conforms : (v w : Value) → coerce_none v ≡ ok w → Conforms none_type w
unfolding coerce_none
coerce_none-Conforms Value.null w h = along (Conforms none_type) Value.null w h of_none
coerce_none-Conforms _ w h = cc

coerce_str-Conforms : (v w : Value) → coerce_str v ≡ ok w → Conforms str_type w
unfolding coerce_str
coerce_str-Conforms (Value.str t) w h = along (Conforms str_type) (Value.str t) w h (of_str t)
coerce_str-Conforms _ w h = cc

int_or-Conforms :
    (e : CoercionError) (o : Option ℤ) (w : Value) → int_or e o ≡ ok w → Conforms int_type w
unfolding int_or
int_or-Conforms e none w h = cc
int_or-Conforms e (some n) w h = along (Conforms int_type) (Value.int n) w h (of_int n)

coerce_int-Conforms : (v w : Value) → coerce_int v ≡ ok w → Conforms int_type w
unfolding coerce_int
coerce_int-Conforms (Value.bool b) w h =
    along (Conforms int_type) (Value.int (bool_int b)) w h (of_int (bool_int b))
coerce_int-Conforms (Value.int n) w h = along (Conforms int_type) (Value.int n) w h (of_int n)
coerce_int-Conforms (Value.float x) w h = int_or-Conforms _ (whole x) w h
coerce_int-Conforms (Value.str t) w h = int_or-Conforms _ (int_10 t) w h
coerce_int-Conforms _ w h = cc

-- Booleans come out of three tests in a row.
bool_test :
    (p q : Bool) (x y w : Value)
    → (if p then ok x else if q then ok y else err not_bool) ≡ ok w
    → Conforms bool_type x
    → Conforms bool_type y
    → Conforms bool_type w
bool_test true q x y w h cx cy = along (Conforms bool_type) x w h cx
bool_test false true x y w h cx cy = along (Conforms bool_type) y w h cy
bool_test false false x y w h cx cy = cc

bool_of_int-Conforms : (n : ℤ) (w : Value) → bool_of_int n ≡ ok w → Conforms bool_type w
unfolding bool_of_int
bool_of_int-Conforms n w h = bool_test _ _ _ _ w h (of_bool false) (of_bool true)

bool_of_whole-Conforms : (o : Option ℤ) (w : Value) → bool_of_whole o ≡ ok w → Conforms bool_type w
unfolding bool_of_whole
bool_of_whole-Conforms none w h = cc
bool_of_whole-Conforms (some n) w h = bool_of_int-Conforms n w h

bool_of_word-Conforms : (t : Text) (w : Value) → bool_of_word t ≡ ok w → Conforms bool_type w
unfolding bool_of_word
bool_of_word-Conforms t w h = bool_test _ _ _ _ w h (of_bool true) (of_bool false)

coerce_bool-Conforms : (v w : Value) → coerce_bool v ≡ ok w → Conforms bool_type w
unfolding coerce_bool
coerce_bool-Conforms (Value.bool b) w h = along (Conforms bool_type) (Value.bool b) w h (of_bool b)
coerce_bool-Conforms (Value.int n) w h = bool_of_int-Conforms n w h
coerce_bool-Conforms (Value.float x) w h = bool_of_whole-Conforms (whole x) w h
coerce_bool-Conforms (Value.str t) w h = bool_of_word-Conforms (lower (strip t)) w h
coerce_bool-Conforms _ w h = cc

float_or-Conforms :
    (r : Coerced Value) (o : Option Float) (w : Value)
    → float_or r o ≡ ok w
    → ((v : Value) → r ≢ ok v)
    → Conforms float_type w
unfolding float_or
float_or-Conforms r none w h fails = absurd (fails w h)
float_or-Conforms r (some x) w h fails =
    along (Conforms float_type) (Value.float x) w h (of_float x)

coerce_float-Conforms : (F : Floats) (v w : Value) → coerce_float F v ≡ ok w → Conforms float_type w
unfolding coerce_float
coerce_float-Conforms F (Value.bool b) w h = float_or-Conforms _ _ w h (λ v e. cc)
coerce_float-Conforms F (Value.int n) w h = float_or-Conforms _ _ w h (λ v e. cc)
coerce_float-Conforms F (Value.float x) w h =
    along (Conforms float_type) (Value.float x) w h (of_float x)
coerce_float-Conforms F (Value.str t) w h = float_or-Conforms _ _ w h (λ v e. cc)
coerce_float-Conforms F _ w h = cc

coerce_literal-Chosen :
    (v : Value) (cs : List Candidate) (w : Value) → coerce_literal v cs ≡ ok w → Chosen cs w
unfolding coerce_literal
coerce_literal-Chosen v [] w h = cc
coerce_literal-Chosen v (c ∷ cs) w h = elim (Bool-cases (same v c)) [
  | inl e ↦ along (Chosen (c ∷ cs)) v w (rw (e, coerce_literal) at h) (chosen c cs v e)
  | inr e ↦ later c cs w (coerce_literal-Chosen v cs w (rw (e, coerce_literal) at h))
]

-- Conversions of items that are sound are sound over a list.
each-Conforms :
    (f : Value → Coerced Value) (a : Annotation)
    → ((v w : Value) → f v ≡ ok w → Conforms a w)
    → (xs ws : Items) → each f xs ≡ ok ws
    → ConformsItems a ws
unfolding each
each-Conforms f a sound Items.nil ws h = along_items (ConformsItems a) Items.nil ws h no_item
each-Conforms f a sound (Items.cons v xs) ws h =
    cell (f v) (each f xs) (λ w. sound v w) (λ us. each-Conforms f a sound xs us) h
  where
    cell :
        (r : Coerced Value) (s : Coerced Items)
        → ((w : Value) → r ≡ ok w → Conforms a w)
        → ((us : Items) → s ≡ ok us → ConformsItems a us)
        → (r >>= λ w. s >>= λ us. ok (Items.cons w us)) ≡ ok ws
        → ConformsItems a ws
    cell (ok w) (ok us) cw cus h =
        along_items (ConformsItems a) (Items.cons w us) ws h (one_more (cw w refl) (cus us refl))
    cell (ok w) (err e) cw cus h = cc
    cell (ok w) overflow cw cus h = cc
    cell (err e) s cw cus h = cc
    cell overflow s cw cus h = cc

coerce_list-Conforms :
    (f : Value → Coerced Value) (a : Annotation)
    → ((v w : Value) → f v ≡ ok w → Conforms a w)
    → (v w : Value) → coerce_list f v ≡ ok w
    → Conforms (list_of a) w
unfolding coerce_list
coerce_list-Conforms f a sound (Value.list xs) w h =
    wrapped (each f xs) (λ us. each-Conforms f a sound xs us) h
  where
    wrapped :
        (s : Coerced Items)
        → ((us : Items) → s ≡ ok us → ConformsItems a us)
        → (s >>= λ us. ok (Value.list us)) ≡ ok w
        → Conforms (list_of a) w
    wrapped (ok us) cus h = along (Conforms (list_of a)) (Value.list us) w h (of_list (cus us refl))
    wrapped (err e) cus h = cc
    wrapped overflow cus h = cc
coerce_list-Conforms f a sound _ w h = cc

optional-null : (ms : Members) → optional ms ≡ true → ConformsMember ms Value.null
unfolding optional is_none_type
optional-null no_member h = cc
optional-null (member none_type ms) h = here of_none
optional-null (member _ ms) h = there (optional-null ms h)

coerce_union-Conforms :
    (ms : Members) (v w : Value) (single loop : Coerced Value)
    → (single ≡ ok w → ConformsMember ms w)
    → (loop ≡ ok w → ConformsMember ms w)
    → coerce_union ms v single loop ≡ ok w
    → ConformsMember ms w
unfolding coerce_union
coerce_union-Conforms ms v w single loop cs cl h = elim (Bool-cases (Value.is_null v)) [
  | inl e ↦ elim (Bool-cases (optional ms)) [
    | inl o ↦ along (ConformsMember ms) Value.null w (rw (e, o) at h) (optional-null ms o)
    | inr o ↦ null_refused w (rw (e, o) at h)
  ]
  | inr e ↦ elim (Bool-cases (concrete_count ms == 1)) [
    | inl one ↦ cs (rw (e, one) at h)
    | inr more ↦ cl (rw (e, more) at h)
  ]
]
  where
    null_refused : (w : Value) → err unexpected_none ≡ ok w → ConformsMember ms w
    null_refused w h = cc

or_else-Conforms :
    (a : Annotation) (ms : Members) (w : Value) (r rest : Coerced Value)
    → (r ≡ ok w → Conforms a w)
    → (rest ≡ ok w → ConformsMember ms w)
    → or_else r rest ≡ ok w
    → ConformsMember (member a ms) w
unfolding or_else
or_else-Conforms a ms w (ok v) rest cr crest h = here (cr h)
or_else-Conforms a ms w (err e) rest cr crest h = there (crest h)
or_else-Conforms a ms w overflow rest cr crest h = cc

choose :
    (a : Annotation) (ms : Members) (w : Value) (r rest : Coerced Value) (skip : Bool)
    → (r ≡ ok w → Conforms a w)
    → (rest ≡ ok w → ConformsMember ms w)
    → (if skip then rest else r) ≡ ok w
    → ConformsMember (member a ms) w
choose a ms w r rest true cr crest h = there (crest h)
choose a ms w r rest false cr crest h = here (cr h)

choose_loop :
    (a : Annotation) (ms : Members) (w : Value) (r rest : Coerced Value) (skip : Bool)
    → (r ≡ ok w → Conforms a w)
    → (rest ≡ ok w → ConformsMember ms w)
    → (if skip then rest else or_else r rest) ≡ ok w
    → ConformsMember (member a ms) w
choose_loop a ms w r rest true cr crest h = there (crest h)
choose_loop a ms w r rest false cr crest h = or_else-Conforms a ms w r rest cr crest h

module _ (a : Annotation) (md : List Metadata) (w : Value) where
  -- A bounded conversion is sound if the conversion is.
  bounded-Conforms :
      (r : Coerced Value)
      → (r ≡ ok w → Conforms a w)
      → bounded r md ≡ ok w
      → Conforms a w × Within md w
  bounded-Conforms r sound h =
      let (same, checked) = bounded-inv r md w h in (sound same, Within-of_check w md checked)

mutual
  unfolding coerce_with only_member first_member

  sound :
      (F : Floats) (a : Annotation) (md : List Metadata) (v w : Value)
      → coerce_with F a md v ≡ ok w
      → Conforms a w × Within md w
  sound F (annotated a m) md v w h =
      let (c, within) = sound F a (md ++ m) v w h in
      let (outer, inner) = Within-append w md m within in (of_annotated c inner, outer)
  sound F any md v w h = bounded-Conforms any md w (ok v) (λ e. of_any w) h
  sound F structured md v w h = bounded-Conforms structured md w (ok v) (λ e. of_structured w) h
  sound F none_type md v w h = bounded-Conforms none_type md w _ (coerce_none-Conforms v w) h
  sound F bool_type md v w h = bounded-Conforms bool_type md w _ (coerce_bool-Conforms v w) h
  sound F int_type md v w h = bounded-Conforms int_type md w _ (coerce_int-Conforms v w) h
  sound F float_type md v w h = bounded-Conforms float_type md w _ (coerce_float-Conforms F v w) h
  sound F str_type md v w h = bounded-Conforms str_type md w _ (coerce_str-Conforms v w) h
  sound F (literal cs) md v w h =
      bounded-Conforms (literal cs) md w _ (λ e. of_literal (coerce_literal-Chosen v cs w e)) h
  sound F (list_of a) md v w h =
      bounded-Conforms (list_of a) md w _
        (coerce_list-Conforms (coerce_with F a []) a (λ u x e. (sound F a [] u x e).0) v w) h
  sound F (union ms) md v w h =
      bounded-Conforms (union ms) md w _
        (λ e.
          of_union
            (coerce_union-Conforms ms v w _ _ (sound_only F ms v w) (sound_first F ms v w) e))
        h

  sound_only :
      (F : Floats) (ms : Members) (v w : Value) → only_member F ms v ≡ ok w → ConformsMember ms w
  sound_only F no_member v w h = cc
  sound_only F (member a ms) v w h =
      choose a ms w _ _ (is_none_type a) (λ e. (sound F a [] v w e).0) (sound_only F ms v w) h

  sound_first :
      (F : Floats) (ms : Members) (v w : Value) → first_member F ms v ≡ ok w → ConformsMember ms w
  sound_first F no_member v w h = cc
  sound_first F (member a ms) v w h =
      choose_loop a ms w _ _ (is_none_type a) (λ e. (sound F a [] v w e).0) (sound_first F ms v w) h

-- Whatever `coerce` returns has the declared type. An integer or a float in it meets the declared
-- bounds, where infinity is above and minus infinity below each bound; NaN, which compares with
-- nothing, meets them all.
pub coerce-Conforms :
    (F : Floats) (a : Annotation) (v w : Value) → coerce F v a ≡ ok w → Conforms a w
unfolding coerce
coerce-Conforms F a v w h = (sound F a [] v w h).0
