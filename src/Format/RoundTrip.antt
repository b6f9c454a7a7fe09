-- ===== src/Format/RoundTrip.antt =====
-- What plugin/format.py writes, as it reads it.
use ida_pro_mcp.Prelude.{
  ℕ, zero, suc, ◌/◌, ◌%◌, ◌<◌, pos, negsuc, Text, txt, strip, teq, lower, take, NoSpace, All-append,
  is_space, lstrip, rstrip, lower_char, strip_of_NoSpace, ◌≡◌, refl, ◌∙◌, true, false, none, some,
  [], ◌∷◌, ◌++◌, ltb, Bool-cases, inl, inr, ◌≢◌, arith,
}
use mathlib.Core.List.{append-nil}
use ida_pro_mcp.Errors.{ok, raise, invalid_input}
use ida_pro_mcp.PyInt.{
  digit_char, digit_value, classify, scan, digits, prefixed, auto_base, base_16, signed,
  prefix_base, int_0, int_16, render, hex_digits, format_x,
}
use ida_pro_mcp.PyInt.RoundTrip.{scan-render}
use ida_pro_mcp.Format.{text, format_ea, parse_ea, parse_address, or_invalid}

digit_char-not_space : (d : ℕ) → d < 36 → is_space (digit_char d) ≡ false
unfolding digit_char is_space
digit_char-not_space d h = ground arith

render-NoSpace : (fuel n : ℕ) → NoSpace (render 16 fuel n)
unfolding render
render-NoSpace zero n = tt
render-NoSpace (suc fuel) n = elim (Bool-cases (ltb n 16)) [
  | inl small ↦ rw small (digit_char-not_space n (ground arith), tt)
  | inr big ↦ rw big (
      All-append _ (render 16 fuel (n / 16)) _ (render-NoSpace fuel (n / 16))
        (digit_char-not_space (n % 16) (omega arith), tt))
]

scan-hex_digits : (n : ℕ) → (k : ℕ) × (scan 16 0 0 true (hex_digits n) ≡ some (n, k))
unfolding hex_digits
scan-hex_digits n =
    let (k, e) = scan-render 16 (suc n) n [] (omega arith) (omega arith) (omega arith) in
    (k, rw (append-nil) at e ∙ (unfold scan in refl))

-- A text that `scan` accepts is a number behind a prefix too.
digits_of_scan : (s : Text) (n k : ℕ) → scan 16 0 0 true s ≡ some (n, k) → digits 16 s ≡ some n
unfolding digits
digits_of_scan s n k h = rw (h, digits)

prefixed_of_scan : (s : Text) (n k : ℕ) → scan 16 0 0 true s ≡ some (n, k) → prefixed 16 s ≡ some n
unfolding prefixed digits scan classify
prefixed_of_scan [] n k h = cc
prefixed_of_scan (c ∷ s) n k h = ground arith

prefixed-hex_digits : (n : ℕ) → prefixed 16 (hex_digits n) ≡ some n
prefixed-hex_digits n = let (k, e) = scan-hex_digits n in prefixed_of_scan (hex_digits n) n k e

hex_digits-NoSpace : (n : ℕ) → NoSpace (hex_digits n)
unfolding hex_digits
hex_digits-NoSpace n = render-NoSpace (suc n) n

strip-hex : (n : ℕ) → strip (txt "0x" ++ hex_digits n) ≡ txt "0x" ++ hex_digits n
strip-hex n = strip_of_NoSpace _ (unfold txt is_space in (refl, (refl, hex_digits-NoSpace n)))

int_0-hex : (n : ℕ) → int_0 (txt "0x" ++ hex_digits n) ≡ some (pos n)
unfolding int_0 signed auto_base prefix_base
int_0-hex n = rw (strip-hex n) (unfold txt in rw (prefixed-hex_digits n))

-- An address that `format_ea` writes is read back by `parse_ea`, whatever its size.
pub parse_ea-format_ea : (n : ℕ) → parse_ea (text (format_ea (pos n))) ≡ ok (pos n)
unfolding parse_ea format_ea format_x parse_address or_invalid txt teq lower
parse_ea-format_ea n = rw (strip-hex n, int_0-hex n)

-- `f"0x{ea:x}"` puts the sign of a negative number behind the prefix: no parser takes it back.
prefixed-minus : (s : Text) → prefixed 16 (b'-' ∷ s) ≡ none
unfolding prefixed digits scan classify digit_value
prefixed-minus s = refl

strip-minus : (n : ℕ) → strip (txt "0x-" ++ hex_digits n) ≡ txt "0x-" ++ hex_digits n
strip-minus n =
    strip_of_NoSpace _ (unfold txt is_space in (refl, (refl, (refl, hex_digits-NoSpace n))))

int_0-minus : (n : ℕ) → int_0 (txt "0x-" ++ hex_digits n) ≡ none
unfolding int_0 signed auto_base prefix_base
int_0-minus n = rw (strip-minus n) (unfold txt in rw (prefixed-minus (hex_digits n)))

-- The text that `format_ea` writes for a negative number is refused by `parse_ea`, with the kind
-- `invalid_input` and a message that quotes the text.
pub parse_ea-format_ea_negative :
    (n : ℕ)
    → parse_ea (text (format_ea (negsuc n)))
      ≡ raise (txt "Failed to parse address: " ++ format_ea (negsuc n)) invalid_input
unfolding parse_ea format_ea format_x parse_address or_invalid txt teq lower
parse_ea-format_ea_negative n = rw (strip-minus (suc n), int_0-minus (suc n))

-- No canonical digits but those of 0 start with "0".
render_head :
    (fuel n : ℕ) → 0 < n → n < fuel → (c : ℕ) × (s : Text) × (render 16 fuel n ≡ c ∷ s) × (c ≢ b'0')
unfolding render digit_char
render_head zero n h hf = elim hf [ ]
render_head (suc fuel) n h hf = elim (Bool-cases (ltb n 16)) [
  | inl small ↦ (digit_char n, [], rw small, ground arith)
  | inr big ↦
      let (c, s, e, ne) = render_head fuel (n / 16) (ground arith) (ground arith) in
      (c, s ++ digit_char (n % 16) ∷ [], rw (big, e), ne)
]

signed_of_scan :
    (c : ℕ) (s : Text) (n k : ℕ)
    → c ≢ b'0'
    → scan 16 0 0 true (c ∷ s) ≡ some (n, k)
    → signed base_16 (c ∷ s) ≡ some (pos n)
unfolding signed base_16 digits scan classify digit_value
signed_of_scan c [] n k ne h = ground arith
signed_of_scan c (d ∷ s) n k ne h = ground arith

-- A text that `scan` accepts does not start with a sign.
int_16_of_scan :
    (c : ℕ) (s : Text) (n k : ℕ)
    → c ≢ b'0'
    → scan 16 0 0 true (c ∷ s) ≡ some (n, k)
    → NoSpace (c ∷ s)
    → int_16 (c ∷ s) ≡ some (pos n)
unfolding int_16
int_16_of_scan c s n k ne h sp = rw (strip_of_NoSpace (c ∷ s) sp) (signed_of_scan c s n k ne h)

no_prefix :
    (c : ℕ) (s : Text) (d : ℕ) → c ≢ b'0' → teq (lower (take 2 (c ∷ s))) (b'0' ∷ d ∷ []) ≡ false
unfolding teq lower lower_char
no_prefix c s d ne = ground arith

parse_ea_of_scan :
    (c : ℕ) (s : Text) (n k : ℕ)
    → c ≢ b'0'
    → scan 16 0 0 true (c ∷ s) ≡ some (n, k)
    → NoSpace (c ∷ s)
    → parse_ea (text (c ∷ s)) ≡ ok (pos n)
unfolding parse_ea parse_address or_invalid txt
parse_ea_of_scan c s n k ne h sp =
    rw
      (
        strip_of_NoSpace (c ∷ s) sp,
        no_prefix c s b'd' ne,
        no_prefix c s b'x' ne,
        no_prefix c s b'o' ne,
        no_prefix c s b'b' ne,
        int_16_of_scan c s n k ne h sp,
      )
      (unfold teq in refl)

-- Hexadecimal digits with no prefix and no leading zero are read as an address.
pub parse_ea-hex_digits : (n : ℕ) → parse_ea (text (hex_digits n)) ≡ ok (pos n)
parse_ea-hex_digits zero =
    unfold parse_ea parse_address or_invalid txt teq lower lower_char strip lstrip rstrip is_space
      int_16 signed base_16 digits scan classify digit_value hex_digits render digit_char in
    refl
parse_ea-hex_digits (suc m) =
    let (c, s, e, ne) = render_head (suc (suc m)) (suc m) (omega arith) (omega arith) in
    let (k, r) = scan-hex_digits (suc m) in
    let sp : NoSpace (hex_digits (suc m)) = hex_digits-NoSpace (suc m) in
    let e' : hex_digits (suc m) ≡ c ∷ s = unfold hex_digits in e in
    rw e' (parse_ea_of_scan c s (suc m) k ne (rw e' at r) (rw e' at sp))
