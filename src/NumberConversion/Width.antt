-- ===== src/NumberConversion/Width.antt =====
-- The width that `convert_number` of number_conversion.py chooses, and its bytes.
use native.Mathlib.Nat.{pow-suc, pow-le-pow_right}
use native.Mathlib.Numerals.{towards_suc}
use ida_pro_mcp.Prelude.{
  false, ℕ, zero, suc, ◌+◌, ◌-◌, ◌*◌, ◌/◌, ◌^◌, ◌≤◌, ◌<◌, ℤ, pos, negsuc, ◌+ℤ◌, leb_ℤ, Text, none,
  some, List, [], ◌∷◌, length, ◌≡◌, ◌↔◌, refl, ap, arith, ltb_of_lt, ltb_of_le, true,
}
use ida_pro_mcp.Errors.{ok, raise, invalid_input}
use ida_pro_mcp.PyInt.{bits, bit_length, int_0}
use ida_pro_mcp.PyInt.BitLength.{lt-pow_iff, pow_pos}
use ida_pro_mcp.NumberConversion.{
  max, minimum_byte_width, le_bytes, to_bytes_unsigned, to_bytes_signed, or_too_big, too_big,
  to_bytes_either_sign, chosen_width, parse_literal, render_number, convert_number,
}

-- The number that bytes stand for, least significant first.
abbrev pub from_le : List ℕ → ℕ
from_le [] = 0
from_le (b ∷ raw) = b + from_le raw * 256

-- The value that bytes stand for: unsigned, or in two's complement for a negative one.
abbrev pub Represents : List ℕ → ℤ → Type 0
Represents raw (pos n) = from_le raw ≡ n
Represents raw (negsuc n) = from_le raw + suc n ≡ 256 ^ length raw

-- Whether a width holds a value.
abbrev pub Fits : ℤ → ℕ → Type 0
Fits (pos n) w = n < 256 ^ w
Fits (negsuc n) w = n < 2 ^ (8 * w - 1)

not_lt : (a b : ℕ) → ¬ (a < b) → b ≤ a
not_lt a b h = omega arith

nonneg : (n : ℕ) → leb_ℤ (pos 0) (pos n) ≡ true
nonneg n = ground arith

negative : (n : ℕ) → leb_ℤ (pos 0) (negsuc n) ≡ false
negative n = ground arith

pow_256 : (w : ℕ) → 256 ^ w ≡ 2 ^ (8 * w)
pow_256 zero = refl
pow_256 (suc w) = rw (pow-suc, pow_256 w, eight_more w) (pow_plus_8 (8 * w))
  where
    eight_more : (w : ℕ) → 8 * suc w ≡ 8 * w + 8
    eight_more w = omega arith

    pow_plus_8 : (k : ℕ) → 2 ^ k * 256 ≡ 2 ^ (k + 8)
    pow_plus_8 k =
        simp towards_suc (
          rw (pow-suc, pow-suc, pow-suc, pow-suc, pow-suc, pow-suc, pow-suc, pow-suc) (omega arith))

pub length-le_bytes : (w n : ℕ) → length (le_bytes w n) ≡ w
unfolding le_bytes
length-le_bytes zero n = refl
length-le_bytes (suc w) n = omega (arith, length-le_bytes w (n / 256))

pub from_le-le_bytes : (w n : ℕ) → n < 256 ^ w → from_le (le_bytes w n) ≡ n
unfolding le_bytes
from_le-le_bytes zero n h = omega arith
from_le-le_bytes (suc w) n h =
    omega (arith, from_le-le_bytes w (n / 256) (quotient_lt n (256 ^ w) (rw pow-suc at h)))
  where
    quotient_lt : (n p : ℕ) → n < p * 256 → n / 256 < p
    quotient_lt n p h = omega arith

unsigned_width : (b w : ℕ) → 0 < w → (b ≤ 8 * w) ↔ (max 1 ((b + 7) / 8) ≤ w)
unfolding max
unsigned_width b w h = (λ le. ground arith, λ le. ground arith)

signed_width : (b w : ℕ) → 0 < w → (b ≤ 8 * w - 1) ↔ (max 1 ((b + 8) / 8) ≤ w)
unfolding max
signed_width b w h = (λ le. ground arith, λ le. ground arith)

negsuc-plus_one : (n : ℕ) → negsuc (suc n) +ℤ pos 1 ≡ negsuc n
unfolding ◌+ℤ◌
negsuc-plus_one n = ground arith

bit_length-negsuc : (n : ℕ) → bit_length (negsuc n +ℤ pos 1) ≡ bits n n
unfolding bit_length
bit_length-negsuc zero = unfold ◌+ℤ◌ in refl
bit_length-negsuc (suc n) = ap bit_length (negsuc-plus_one n)

-- A width above zero holds a value exactly if it is at least `minimum_byte_width`.
pub Fits-iff : (v : ℤ) (w : ℕ) → 0 < w → Fits v w ↔ (minimum_byte_width v ≤ w)
unfolding minimum_byte_width
Fits-iff (pos zero) w h = (λ _. h, λ _. rw (pow_256 w) (pow_pos (8 * w)))
Fits-iff (pos (suc n)) w h =
    let iff = lt-pow_iff (suc n) (suc n) (8 * w) (omega arith) in
    let width = unsigned_width (bits (suc n) (suc n)) w h in
    unfold bit_length in
    (λ fits. width.0 (iff.0 (rw pow_256 at fits)), λ le. rw pow_256 (iff.1 (width.1 le)))
Fits-iff (negsuc n) w h =
    let iff = lt-pow_iff n n (8 * w - 1) (omega arith) in
    let width = signed_width (bits n n) w h in
    rw (bit_length-negsuc n) (λ fits. width.0 (iff.0 fits), λ le. iff.1 (width.1 le))

pub minimum_byte_width_pos : (v : ℤ) → 0 < minimum_byte_width v
unfolding minimum_byte_width max
minimum_byte_width_pos (pos zero) = omega arith
minimum_byte_width_pos (pos (suc n)) = ground arith
minimum_byte_width_pos (negsuc n) = ground arith

-- The signed range of a width lies inside its unsigned range.
half_le : (w : ℕ) → 2 ^ (8 * w - 1) ≤ 256 ^ w
half_le w = rw pow_256 (pow-le-pow_right (omega arith) (omega arith))

from_le-complement :
    (w n : ℕ) → n < 2 ^ (8 * w - 1) → from_le (le_bytes w (256 ^ w - suc n)) + suc n ≡ 256 ^ w
from_le-complement w n h =
    omega (arith, half_le w, from_le-le_bytes w (256 ^ w - suc n) (omega (arith, half_le w)))

-- A value that fits is packed into exactly `w` bytes, and they stand for it.
pub to_bytes-Fits :
    (v : ℤ) (w : ℕ)
    → Fits v w
    → (raw : List ℕ) × (to_bytes_either_sign v w ≡ ok raw) × (length raw ≡ w) × Represents raw v
unfolding to_bytes_either_sign to_bytes_unsigned to_bytes_signed or_too_big
to_bytes-Fits (pos n) w h = (
  le_bytes w n,
  rw (ltb_of_lt n (256 ^ w) h) (rw (nonneg n)),
  length-le_bytes w n,
  from_le-le_bytes w n h,
)
to_bytes-Fits (negsuc n) w h = (
  le_bytes w (256 ^ w - suc n),
  rw (ltb_of_lt n (2 ^ (8 * w - 1)) h, or_too_big, negative n),
  length-le_bytes w _,
  rw length-le_bytes (from_le-complement w n h),
)

-- A value that does not fit is refused, also by the signed attempt.
pub to_bytes_too_big :
    (v : ℤ) (w : ℕ) → ¬ (Fits v w) → to_bytes_either_sign v w ≡ raise (too_big v w) invalid_input
unfolding to_bytes_either_sign to_bytes_unsigned to_bytes_signed or_too_big
to_bytes_too_big (pos n) w h = rw (
  ltb_of_le n (256 ^ w) (not_lt n _ h),
  ltb_of_le n (2 ^ (8 * w - 1)) (omega (arith, half_le w, not_lt n (256 ^ w) h)),
  or_too_big,
  nonneg n,
)
to_bytes_too_big (negsuc n) w h =
    rw (ltb_of_le n (2 ^ (8 * w - 1)) (not_lt n _ h), or_too_big, negative n)

-- Without a size, a literal is converted in at least one byte, to bytes that stand for its value,
-- and in no more bytes than any other positive width that holds the value, such as `w`.
pub convert_number-inferred :
    (t : Text) (v : ℤ) (w : ℕ)
    → int_0 t ≡ some v
    → 0 < w
    → Fits v w
    → (raw : List ℕ) × (convert_number t none ≡ ok (render_number v raw))
      × Represents raw v
      × (0 < length raw)
      × (length raw ≤ w)
unfolding convert_number parse_literal chosen_width
convert_number-inferred t v w h hw f =
    let m = minimum_byte_width v in
    let positive = minimum_byte_width_pos v in
    let (raw, e, len, rep) = to_bytes-Fits v m ((Fits-iff v m positive).1 (omega arith)) in
    (raw, rw (h, parse_literal, e), rep, omega arith, omega (arith, (Fits-iff v w hw).0 f))

-- With a size above zero that holds the value, a literal is converted to as many bytes, which
-- stand for the value.
pub convert_number-sized :
    (t : Text) (v : ℤ) (w : ℕ)
    → int_0 t ≡ some v
    → Fits v (suc w)
    → (raw : List ℕ) × (convert_number t (some (pos (suc w))) ≡ ok (render_number v raw))
      × (length raw ≡ suc w)
      × Represents raw v
unfolding convert_number parse_literal chosen_width
convert_number-sized t v w h fits =
    let (raw, e, len, rep) = to_bytes-Fits v (suc w) fits in
    (raw, rw (h, parse_literal, e), len, rep)

-- With a size above zero that does not hold the value, a literal is refused as too big.
pub convert_number-too_big :
    (t : Text) (v : ℤ) (w : ℕ)
    → int_0 t ≡ some v
    → ¬ (Fits v (suc w))
    → convert_number t (some (pos (suc w))) ≡ raise (too_big v (suc w)) invalid_input
unfolding convert_number parse_literal chosen_width
convert_number-too_big t v w h no_fit = rw (h, parse_literal, to_bytes_too_big v (suc w) no_fit)
