-- ===== src/PyInt/BitLength.antt =====
-- `bits` beside the powers of 2.
use native.Mathlib.Nat.{pow-suc, pow-le-pow_right}
use ida_pro_mcp.Prelude.{
  ℕ, zero, suc, ◌*◌, ◌/◌, ◌^◌, ◌≤◌, ◌<◌, ◌↔◌, ◌==◌, Bool-cases, inl, inr, arith,
}
use ida_pro_mcp.PyInt.{bits}

pub pow_pos : (k : ℕ) → 0 < 2 ^ k
pow_pos zero = omega arith
pow_pos (suc k) = rw (pow-suc 2 k) (omega (arith, pow_pos k))

pub lt-bits : (fuel n : ℕ) → n ≤ fuel → n < 2 ^ bits fuel n
unfolding bits
lt-bits zero n h = omega arith
lt-bits (suc fuel) n h = elim (Bool-cases (n == 0)) [
  | inl e ↦ rw e (ground arith)
  | inr e ↦ rw (e, pow-suc) (ground (arith, lt-bits fuel (n / 2)))
]

lt_le_trans : (a b c : ℕ) → a < b → b ≤ c → a < c
lt_le_trans a b c h k = omega arith

half_lt : (n p : ℕ) → n < p * 2 → n / 2 < p
half_lt n p h = omega arith

pub bits-le : (fuel n k : ℕ) → n < 2 ^ k → bits fuel n ≤ k
unfolding bits
bits-le zero n k h = omega arith
bits-le (suc fuel) n zero h = ground arith
bits-le (suc fuel) n (suc k) h = elim (Bool-cases (n == 0)) [
  | inl e ↦ rw e (omega arith)
  | inr e ↦ rw e (omega (arith, bits-le fuel (n / 2) k (half_lt n (2 ^ k) (rw pow-suc at h))))
]

-- A number lies below a power of 2 exactly when its bit length is at most the exponent.
pub lt-pow_iff : (fuel n k : ℕ) → n ≤ fuel → (n < 2 ^ k) ↔ (bits fuel n ≤ k)
lt-pow_iff fuel n k h = (
  bits-le fuel n k,
  λ le. lt_le_trans n _ _ (lt-bits fuel n h) (pow-le-pow_right (omega arith) le),
)
