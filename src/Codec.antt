-- ===== src/Codec.antt =====
-- A codec of values, with which the interface `Json` is inhabited in the tests. It is not JSON.
use ida_pro_mcp.Prelude.{
  ℕ, zero, suc, ◌+◌, ◌<◌, pos, negsuc, Text, true, false, Option, none, some, List, [], ◌∷◌, ◌++◌,
  length, take, drop, take-append_self, drop-append_self, ◌==◌, ◌≡◌, refl, arith, if◌then◌else◌,
}
use ida_pro_mcp.Value.{Value, Items, Fields, Float, end, field}
use ida_pro_mcp.Client.{Json}

infixl 5 ◌>>=◌
abbrev ◌>>=◌ {ℓ κ} : {A : Type ℓ} {B : Type κ} → Option A → (A → Option B) → Option B
none >>= f = none
some a >>= f = f a

data Tag : Type 0 where
  t_null t_true t_false t_pos t_neg t_dyadic t_dyadic_neg t_inf t_minus_inf t_nan t_str t_list
        t_object :
      Tag

tag : ℕ → Tag
tag c =
    if c == 0
    then t_null
    else if c == 1
    then t_true
    else if c == 2
    then t_false
    else if c == 3
    then t_pos
    else if c == 4
    then t_neg
    else if c == 5
    then t_dyadic
    else if c == 6
    then t_dyadic_neg
    else if c == 7
    then t_inf
    else if c == 8
    then t_minus_inf
    else if c == 9
    then t_nan
    else if c == 10
    then t_str
    else if c == 11
    then t_list
    else t_object

unfoldable mutual
  pub put_value : Value → List ℕ → List ℕ
  put_value Value.null r = 0 ∷ r
  put_value (Value.bool true) r = 1 ∷ r
  put_value (Value.bool false) r = 2 ∷ r
  put_value (Value.int (pos n)) r = 3 ∷ n ∷ r
  put_value (Value.int (negsuc n)) r = 4 ∷ n ∷ r
  put_value (Value.float (Float.dyadic (pos m) k)) r = 5 ∷ m ∷ k ∷ r
  put_value (Value.float (Float.dyadic (negsuc m) k)) r = 6 ∷ m ∷ k ∷ r
  put_value (Value.float Float.infinity) r = 7 ∷ r
  put_value (Value.float Float.minus_infinity) r = 8 ∷ r
  put_value (Value.float Float.nan) r = 9 ∷ r
  put_value (Value.str t) r = 10 ∷ length t ∷ (t ++ r)
  put_value (Value.list xs) r = 11 ∷ put_items xs r
  put_value (Value.object fs) r = 12 ∷ put_fields fs r

  pub put_items : Items → List ℕ → List ℕ
  put_items Items.nil r = 0 ∷ r
  put_items (Items.cons v xs) r = 1 ∷ put_value v (put_items xs r)

  pub put_fields : Fields → List ℕ → List ℕ
  put_fields end r = 0 ∷ r
  put_fields (field k v fs) r = 1 ∷ length k ∷ (k ++ put_value v (put_fields fs r))

unfoldable mutual
  pub size : Value → ℕ
  size (Value.list xs) = suc (size_items xs)
  size (Value.object fs) = suc (size_fields fs)
  size _ = 1

  pub size_items : Items → ℕ
  size_items Items.nil = 1
  size_items (Items.cons v xs) = suc (size v + size_items xs)

  pub size_fields : Fields → ℕ
  size_fields end = 1
  size_fields (field k v fs) = suc (size v + size_fields fs)

-- A text behind its length.
get_text : List ℕ → Option (Text × List ℕ)
get_text [] = none
get_text (n ∷ r) = some (take n r, drop n r)

number : (ℕ → Value) → List ℕ → Option (Value × List ℕ)
number f [] = none
number f (n ∷ r) = some (f n, r)

two_numbers : (ℕ → ℕ → Value) → List ℕ → Option (Value × List ℕ)
two_numbers f (m ∷ k ∷ r) = some (f m k, r)
two_numbers f _ = none

mutual
  get_value : ℕ → List ℕ → Option (Value × List ℕ)
  get_value (suc n) (c ∷ r) = elim (tag c) [
    | t_null ↦ some (Value.null, r)
    | t_true ↦ some (Value.bool true, r)
    | t_false ↦ some (Value.bool false, r)
    | t_pos ↦ number (λ m. Value.int (pos m)) r
    | t_neg ↦ number (λ m. Value.int (negsuc m)) r
    | t_dyadic ↦ two_numbers (λ m k. Value.float (Float.dyadic (pos m) k)) r
    | t_dyadic_neg ↦ two_numbers (λ m k. Value.float (Float.dyadic (negsuc m) k)) r
    | t_inf ↦ some (Value.float Float.infinity, r)
    | t_minus_inf ↦ some (Value.float Float.minus_infinity, r)
    | t_nan ↦ some (Value.float Float.nan, r)
    | t_str ↦ (get_text r >>= λ p. some (Value.str p.0, p.1))
    | t_list ↦ (get_items n r >>= λ p. some (Value.list p.0, p.1))
    | t_object ↦ (get_fields n r >>= λ p. some (Value.object p.0, p.1))
  ]
  get_value _ _ = none

  get_items : ℕ → List ℕ → Option (Items × List ℕ)
  get_items (suc n) (c ∷ r) = elim (c == 0) [
    | true ↦ some (Items.nil, r)
    | false ↦ (get_value n r >>= λ p. (get_items n p.1 >>= λ q. some (Items.cons p.0 q.0, q.1)))
  ]
  get_items _ _ = none

  get_fields : ℕ → List ℕ → Option (Fields × List ℕ)
  get_fields (suc n) (c ∷ r) = elim (c == 0) [
    | true ↦ some (end, r)
    | false ↦
        (get_text r >>= λ t.
        (get_value n t.1 >>= λ p. (get_fields n p.1 >>= λ q. some (field t.0 p.0 q.0, q.1))))
  ]
  get_fields _ _ = none

get_text-put : (t : Text) (r : List ℕ) → get_text (length t ∷ (t ++ r)) ≡ some (t, r)
unfolding get_text
get_text-put t r = rw (take-append_self, drop-append_self) refl

positive : (n : ℕ) → 0 < suc n
positive n = omega arith

mutual
  unfolding put_value put_items put_fields size size_items size_fields get_value get_items
      get_fields tag number two_numbers

  get-put_value :
      (n : ℕ) (v : Value) (r : List ℕ) → size v < suc n → get_value n (put_value v r) ≡ some (v, r)
  get-put_value zero (Value.list xs) r h = absurd (omega arith)
  get-put_value zero (Value.object fs) r h = absurd (omega arith)
  get-put_value zero Value.null r h = absurd (omega arith)
  get-put_value zero (Value.bool b) r h = absurd (omega arith)
  get-put_value zero (Value.int z) r h = absurd (omega arith)
  get-put_value zero (Value.float x) r h = absurd (omega arith)
  get-put_value zero (Value.str t) r h = absurd (omega arith)
  get-put_value (suc n) Value.null r h = refl
  get-put_value (suc n) (Value.bool true) r h = refl
  get-put_value (suc n) (Value.bool false) r h = refl
  get-put_value (suc n) (Value.int (pos m)) r h = refl
  get-put_value (suc n) (Value.int (negsuc m)) r h = refl
  get-put_value (suc n) (Value.float (Float.dyadic (pos m) k)) r h = refl
  get-put_value (suc n) (Value.float (Float.dyadic (negsuc m) k)) r h = refl
  get-put_value (suc n) (Value.float Float.infinity) r h = refl
  get-put_value (suc n) (Value.float Float.minus_infinity) r h = refl
  get-put_value (suc n) (Value.float Float.nan) r h = refl
  get-put_value (suc n) (Value.str t) r h = rw (get_text-put t r) refl
  get-put_value (suc n) (Value.list xs) r h = rw (get-put_items n xs r (omega arith)) refl
  get-put_value (suc n) (Value.object fs) r h = rw (get-put_fields n fs r (omega arith)) refl

  get-put_items :
      (n : ℕ) (xs : Items) (r : List ℕ)
      → size_items xs < suc n
      → get_items n (put_items xs r) ≡ some (xs, r)
  get-put_items zero Items.nil r h = absurd (omega arith)
  get-put_items zero (Items.cons v xs) r h = absurd (omega arith)
  get-put_items (suc n) Items.nil r h = refl
  get-put_items (suc n) (Items.cons v xs) r h =
      rw (get-put_value n v (put_items xs r) (omega arith))
        (rw (get-put_items n xs r (omega arith)) refl)

  get-put_fields :
      (n : ℕ) (fs : Fields) (r : List ℕ)
      → size_fields fs < suc n
      → get_fields n (put_fields fs r) ≡ some (fs, r)
  get-put_fields zero end r h = absurd (omega arith)
  get-put_fields zero (field k v fs) r h = absurd (omega arith)
  get-put_fields (suc n) end r h = refl
  get-put_fields (suc n) (field k v fs) r h = rw (get_text-put k (put_value v (put_fields fs r))) (
      rw (get-put_value n v (put_fields fs r) (omega arith))
        (rw (get-put_fields n fs r (omega arith)) refl))

unfoldable pub dumps : Value → List ℕ
dumps v = size v ∷ put_value v []

pub loads : List ℕ → Option Value
loads [] = none
loads (n ∷ r) = (get_value n r >>= λ p. some p.0)

pub loads-dumps : (v : Value) → loads (dumps v) ≡ some v
unfolding loads dumps
loads-dumps v = rw (get-put_value (size v) v [] (omega arith)) refl

abbrev pub codec : Json
codec = record { dumps = dumps; loads = loads; loads-dumps = loads-dumps }
