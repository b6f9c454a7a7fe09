-- ===== src/PyInt/RoundTrip.antt =====
-- Reading what `render` writes.
use ida_pro_mcp.Prelude.{
  ℕ, zero, suc, ◌+◌, ◌*◌, ◌/◌, ◌%◌, ◌≤◌, ◌<◌, Text, ◌≡◌, true, false, ◌∷◌, ◌++◌, ltb, Bool-cases,
  inl, inr, arith, ltb→lt, ◌∙◌, ap, Bool,
}
use mathlib.Core.List.{append_assoc}
use ida_pro_mcp.PyInt.{digit_char, classify, digit_value, CharClass, scan, render}

-- A digit is read back as itself.
pub classify-digit_char :
    (base d : ℕ) → base ≤ 36 → d < base → classify base (digit_char d) ≡ CharClass.digit d
unfolding classify digit_char digit_value
classify-digit_char base d hb hd = ground arith

pub scan-digit :
    (base d acc n : ℕ) (gap : Bool) (s : Text)
    → base ≤ 36
    → d < base
    → scan base acc n gap (digit_char d ∷ s) ≡ scan base (acc * base + d) (suc n) false s
unfolding scan
scan-digit base d acc n gap s hb hd = rw (classify-digit_char base d hb hd, scan)

quotient_small : (base fuel n : ℕ) → 2 ≤ base → n < suc fuel → base ≤ n → n / base < fuel
quotient_small base fuel n h2 hf hb = grind arith

ltb→le : (base n : ℕ) → ltb n base ≡ false → base ≤ n
ltb→le base n h = ground arith

divide_back : (base n : ℕ) → 2 ≤ base → n / base * base + n % base ≡ n
divide_back base n h = grind arith

remainder_small : (base n : ℕ) → 2 ≤ base → n % base < base
remainder_small base n h = grind arith

pub scan-render :
    (base fuel n : ℕ) (rest : Text)
    → 2 ≤ base
    → base ≤ 36
    → n < fuel
    → (k : ℕ) × (scan base 0 0 true (render base fuel n ++ rest) ≡ scan base n k false rest)
unfolding render
scan-render base zero n rest h2 hb hf = elim hf [ ]
scan-render base (suc fuel) n rest h2 hb hf = elim (Bool-cases (ltb n base)) [
  | inl small ↦ (
    1,
    rw small (
        scan-digit base n 0 0 true rest hb (ltb→lt n base small)
        ∙ ap (λ v. scan base v 1 false rest) (omega arith)),
  )
  | inr big ↦
      let (k, ih) =
        scan-render base fuel (n / base) (digit_char (n % base) ∷ rest) h2 hb
          (quotient_small base fuel n h2 hf (ltb→le base n big)) in
      (
        suc k,
        rw
            (
              big,
              append_assoc,
              ih,
              scan-digit base (n % base) (n / base) k false rest hb (remainder_small base n h2),
            )
            (ap (λ v. scan base v (suc k) false rest) (divide_back base n h2)),
      )
]
