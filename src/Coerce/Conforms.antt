-- ===== src/Coerce/Conforms.antt =====
-- The declared types of parameters as a predicate on values, with the bounds of plugin/coerce.py.
use ida_pro_mcp.Prelude.{
  ℤ, Text, Bool, true, false, List, [], ◌∷◌, ◌++◌, ◌≡◌, refl, ap, arith, Option, none, some, ◌≤ℤ◌,
  ◌^◌, ℕ, zero, suc, ◌*◌, ◌+◌, ◌≤◌, pos, negsuc, pos_part, neg_part, ltb_ℤ, leb_ℤ, All,
}
use ida_pro_mcp.Value.{Value, Items, Float}
use ida_pro_mcp.PyInt.{to_neg}
use ida_pro_mcp.Coerce.{
  Annotation, any, none_type, bool_type, int_type, float_type, str_type, structured, literal, union,
  list_of, annotated, Members, member, Metadata, doc, ignored, Doc, Candidate, Coerced, ok, err,
  overflow, ◌>>=◌, same, bounded, apply_bounds, check_metadata, check_doc, violates, below, scale,
}

-- The bounds of one entry of metadata, for an integer.
abbrev pub AtLeast : Option ℤ → ℤ → Type 0
AtLeast none n = Unit
AtLeast (some bound) n = bound ≤ℤ n

abbrev pub Above : Option ℤ → ℤ → Type 0
Above none n = Unit
Above (some bound) n = ¬ (n ≤ℤ bound)

abbrev pub InBounds : ℤ → Metadata → Type 0
InBounds n (doc d) = AtLeast d.ge n × Above d.gt n
InBounds n ignored = Unit

-- `bound * 2 ^ k ≤ m` and `m ≤ bound * 2 ^ k`, over the positive and negative parts.
abbrev pub UpTo : ℤ → ℤ → ℕ → Type 0
UpTo bound m k = pos_part bound * 2 ^ k + neg_part m ≤ pos_part m + neg_part bound * 2 ^ k

abbrev pub DownTo : ℤ → ℤ → ℕ → Type 0
DownTo bound m k = pos_part m + neg_part bound * 2 ^ k ≤ pos_part bound * 2 ^ k + neg_part m

-- The same for a float `m / 2 ^ k`. Infinity is above every bound, minus infinity below; NaN
-- compares with nothing, and meets every bound.
abbrev pub FloatAtLeast : Option ℤ → Float → Type 0
FloatAtLeast none x = Unit
FloatAtLeast (some bound) (Float.dyadic m k) = UpTo bound m k
FloatAtLeast (some bound) Float.infinity = Unit
FloatAtLeast (some bound) Float.minus_infinity = ⊥
FloatAtLeast (some bound) Float.nan = Unit

abbrev pub FloatAbove : Option ℤ → Float → Type 0
FloatAbove none x = Unit
FloatAbove (some bound) (Float.dyadic m k) = ¬ (DownTo bound m k)
FloatAbove (some bound) Float.infinity = Unit
FloatAbove (some bound) Float.minus_infinity = ⊥
FloatAbove (some bound) Float.nan = Unit

abbrev pub FloatInBounds : Float → Metadata → Type 0
FloatInBounds x (doc d) = FloatAtLeast d.ge x × FloatAbove d.gt x
FloatInBounds x ignored = Unit

-- The bounds of a value, if it is a number.
abbrev pub Within : List Metadata → Value → Type 0
Within md (Value.int n) = All (InBounds n) md
Within md (Value.float x) = All (FloatInBounds x) md
Within md _ = Unit

pub data Chosen : List Candidate → Value → Type 0 where
  chosen : (c : Candidate) (cs : List Candidate) (v : Value) → same v c ≡ true → Chosen (c ∷ cs) v
  later : (c : Candidate) (cs : List Candidate) (v : Value) → Chosen cs v → Chosen (c ∷ cs) v

-- A value has a declared type.
mutual
  pub data Conforms : Annotation → Value → Type 0 where
    of_any : (v : Value) → Conforms any v
    of_structured : (v : Value) → Conforms structured v
    of_none : Conforms none_type Value.null
    of_bool : (b : Bool) → Conforms bool_type (Value.bool b)
    of_int : (n : ℤ) → Conforms int_type (Value.int n)
    of_float : (x : Float) → Conforms float_type (Value.float x)
    of_str : (t : Text) → Conforms str_type (Value.str t)
    of_literal : {cs : List Candidate} {v : Value} → Chosen cs v → Conforms (literal cs) v
    of_union : {ms : Members} {v : Value} → ConformsMember ms v → Conforms (union ms) v
    of_list :
        {a : Annotation} {xs : Items} → ConformsItems a xs → Conforms (list_of a) (Value.list xs)
    of_annotated :
        {a : Annotation} {m : List Metadata} {v : Value}
        → Conforms a v
        → Within m v
        → Conforms (annotated a m) v

  pub data ConformsMember : Members → Value → Type 0 where
    here :
        {a : Annotation} {ms : Members} {v : Value} → Conforms a v → ConformsMember (member a ms) v
    there :
        {a : Annotation} {ms : Members} {v : Value}
        → ConformsMember ms v
        → ConformsMember (member a ms) v

  pub data ConformsItems : Annotation → Items → Type 0 where
    no_item : {a : Annotation} → ConformsItems a Items.nil
    one_more :
        {a : Annotation} {v : Value} {xs : Items}
        → Conforms a v
        → ConformsItems a xs
        → ConformsItems a (Items.cons v xs)

-- What a bounded conversion returns is what the conversion returned, within the bounds.
after_check :
    (r : Coerced (Unit {0})) (v w : Value) → (r >>= λ _. ok v) ≡ ok w → (v ≡ w) × (r ≡ ok tt)
after_check (ok u) v w h = (ground arith, refl)
after_check (err e) v w h = cc
after_check overflow v w h = cc

pub bounded-inv :
    (r : Coerced Value) (md : List Metadata) (w : Value)
    → bounded r md ≡ ok w
    → (r ≡ ok w) × (apply_bounds w md ≡ ok tt)
unfolding bounded
bounded-inv (ok v) md w h =
    let (same, within) = after_check (apply_bounds v md) v w h in (ap ok same, rw same at within)
bounded-inv (err e) md w h = cc
bounded-inv overflow md w h = cc

not_violates-ge : (n : ℤ) (g : Option ℤ) → violates ltb_ℤ (Value.int n) g ≡ false → AtLeast g n
unfolding violates below
not_violates-ge n none h = tt
not_violates-ge n (some bound) h = ground arith

not_violates-gt : (n : ℤ) (g : Option ℤ) → violates leb_ℤ (Value.int n) g ≡ false → Above g n
unfolding violates below
not_violates-gt n none h = tt
not_violates-gt n (some bound) h = λ le. ground arith

scale-parts :
    (b : ℤ) (d : ℕ)
    → (pos_part (scale b d) ≡ pos_part b * d) × (neg_part (scale b d) ≡ neg_part b * d)
unfolding scale to_neg
scale-parts (pos n) d = (refl, ground arith)
scale-parts (negsuc n) d = split (suc n * d)
  where
    split : (x : ℕ) → (pos_part (to_neg x) ≡ 0 * d) × (neg_part (to_neg x) ≡ x)
    split zero = (ground arith, refl)
    split (suc x) = (ground arith, refl)

not_violates-float_ge :
    (x : Float) (g : Option ℤ) → violates ltb_ℤ (Value.float x) g ≡ false → FloatAtLeast g x
unfolding violates below
not_violates-float_ge x none h = tt
not_violates-float_ge (Float.dyadic m k) (some bound) h =
    let (p, n) = scale-parts bound (2 ^ k) in ground arith
not_violates-float_ge Float.infinity (some bound) h = tt
not_violates-float_ge Float.minus_infinity (some bound) h = cc
not_violates-float_ge Float.nan (some bound) h = tt

not_violates-float_gt :
    (x : Float) (g : Option ℤ) → violates leb_ℤ (Value.float x) g ≡ false → FloatAbove g x
unfolding violates below
not_violates-float_gt x none h = tt
not_violates-float_gt (Float.dyadic m k) (some bound) h =
    let (p, n) = scale-parts bound (2 ^ k) in λ le. ground arith
not_violates-float_gt Float.infinity (some bound) h = tt
not_violates-float_gt Float.minus_infinity (some bound) h = cc
not_violates-float_gt Float.nan (some bound) h = tt

check_doc-inv :
    (v : Value) (d : Doc)
    → check_doc v d ≡ ok tt
    → (violates ltb_ℤ v d.ge ≡ false) × (violates leb_ℤ v d.gt ≡ false)
unfolding check_doc
check_doc-inv v d h = ground arith

-- What holds where each single check passes, holds of the metadata of which the check passes.
check_metadata-All :
    (P : Metadata → Type 0) (v : Value)
    → P ignored
    → ((d : Doc) → violates ltb_ℤ v d.ge ≡ false → violates leb_ℤ v d.gt ≡ false → P (doc d))
    → (md : List Metadata) → check_metadata v md ≡ ok tt
    → All P md
unfolding check_metadata
check_metadata-All P v skip single [] h = tt
check_metadata-All P v skip single (ignored ∷ md) h =
    (skip, check_metadata-All P v skip single md h)
check_metadata-All P v skip single (doc d ∷ md) h =
    let (first, rest) = both (check_doc v d) (check_metadata v md) h in
    let (ge, gt) = check_doc-inv v d first in
    (single d ge gt, check_metadata-All P v skip single md rest)
  where
    both : (r s : Coerced (Unit {0})) → (r >>= λ _. s) ≡ ok tt → (r ≡ ok tt) × (s ≡ ok tt)
    both (ok u) s h = (refl, h)
    both (err e) s h = cc
    both overflow s h = cc

pub Within-of_check : (v : Value) (md : List Metadata) → apply_bounds v md ≡ ok tt → Within md v
unfolding apply_bounds
Within-of_check (Value.int n) md h =
    check_metadata-All (InBounds n) (Value.int n) tt
      (λ d ge gt. (not_violates-ge n d.ge ge, not_violates-gt n d.gt gt)) md h
Within-of_check (Value.float x) md h =
    check_metadata-All (FloatInBounds x) (Value.float x) tt
      (λ d ge gt. (not_violates-float_ge x d.ge ge, not_violates-float_gt x d.gt gt)) md h
Within-of_check Value.null md h = tt
Within-of_check (Value.bool b) md h = tt
Within-of_check (Value.str t) md h = tt
Within-of_check (Value.list xs) md h = tt
Within-of_check (Value.object fs) md h = tt

All-split : (P : Metadata → Type 0) (md m : List Metadata) → All P (md ++ m) → All P md × All P m
All-split P [] m h = (tt, h)
All-split P (x ∷ md) m (first, h) = let (l, r) = All-split P md m h in ((first, l), r)

-- Bounds gathered from two layers of `Annotated` are those of both.
pub Within-append :
    (v : Value) (md m : List Metadata) → Within (md ++ m) v → Within md v × Within m v
Within-append (Value.int n) md m h = All-split (InBounds n) md m h
Within-append (Value.float x) md m h = All-split (FloatInBounds x) md m h
Within-append Value.null md m h = (tt, tt)
Within-append (Value.bool b) md m h = (tt, tt)
Within-append (Value.str t) md m h = (tt, tt)
Within-append (Value.list xs) md m h = (tt, tt)
Within-append (Value.object fs) md m h = (tt, tt)
