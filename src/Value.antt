-- ===== src/Value.antt =====
-- The values that travel on the wire: what `json.loads` returns and a tool takes and gives.
use ida_pro_mcp.Prelude.{
  ℕ, ℤ, Text, teq, teq_iff, ◌≡◌, Bool, true, false, Option, none, some, List, [], ◌∷◌, ◌||◌, arith,
  if◌then◌else◌,
}

-- A Python float: a finite one is `mantissa / 2 ^ exponent`.
pub data Float : Type 0 where
  dyadic : ℤ → ℕ → Float
  infinity : Float
  minus_infinity : Float
  nan : Float

mutual
  pub data Value : Type 0 where
    null : Value
    bool : Bool → Value
    int : ℤ → Value
    float : Float → Value
    str : Text → Value
    list : Items → Value
    object : Fields → Value

  pub data Items : Type 0 where
    nil : Items
    cons : Value → Items → Items

  -- A dict with text keys, in insertion order.
  pub data Fields : Type 0 where
    end : Fields
    field : Text → Value → Fields → Fields

-- `d.get(k)`, with `none` where the key is missing
unfoldable pub lookup : Text → Fields → Option Value
lookup k end = none
lookup k (field j v fs) = if teq j k then some v else lookup k fs

unfoldable pub has : Text → Fields → Bool
has k end = false
has k (field j v fs) = teq j k || has k fs

-- `d[k] = v`
unfoldable pub put : Text → Value → Fields → Fields
put k v end = field k v end
put k v (field j w fs) = if teq j k then field j v fs else field j w (put k v fs)

-- `d.get(k, default)`
unfoldable pub get_or : Text → Value → Fields → Value
get_or k default fs = elim (lookup k fs) [ none ↦ default | some v ↦ v ]

unfoldable pub is_null : Value → Bool
is_null Value.null = true
is_null _ = false

pub lookup-put :
    (k j : Text) (v : Value) (fs : Fields)
    → lookup j (put k v fs) ≡ (if teq k j then some v else lookup j fs)
unfolding lookup put
lookup-put k j v end = ground arith
lookup-put k j v (field i w fs) =
    ground (arith, lookup-put k j v fs, teq_iff i k, teq_iff i j, teq_iff k j)

unfoldable pub keys : Fields → List Text
keys end = []
keys (field k v fs) = k ∷ keys fs

pub has_of_lookup : (k : Text) (fs : Fields) (v : Value) → lookup k fs ≡ some v → has k fs ≡ true
unfolding lookup has
has_of_lookup k end v h = cc
has_of_lookup k (field j w fs) v h = ground (arith, has_of_lookup k fs v)
