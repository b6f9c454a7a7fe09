-- ===== src/Prelude/Strings.antt =====
-- Python's `str`, as its list of code points: literals, equality, `strip`, `lower`, `in`.
use Prim.Native.Nat.{ℕ, ◌+◌}
use Prim.Native.Char.{code}
use Prim.Native.String.{String}
use mathlib.Core.Path.{◌≡◌, refl}
use mathlib.Core.Logic.{◌↔◌}
use mathlib.Core.Bool.{Bool, true, false, ◌&&◌, ◌||◌}
use mathlib.Core.List.{List, [], ◌∷◌, map}
use native.Mathlib.Omega.{arith}
use ida_pro_mcp.Prelude.Tests.{leb, ◌==◌, if◌then◌else◌}
use ida_pro_mcp.Prelude.Lists.{All}

abbrev pub Text : Type 0
Text = List ℕ

-- A literal.
unfoldable pub txt : String → Text
txt String.[] = []
txt (String.◌∷◌ c s) = code c ∷ txt s

-- `a == b` on `str`
unfoldable pub teq : Text → Text → Bool
teq [] [] = true
teq [] (b ∷ bs) = false
teq (a ∷ cs) [] = false
teq (a ∷ cs) (b ∷ bs) = (a == b) && teq cs bs

pub teq_refl : (t : Text) → teq t t ≡ true
unfolding teq
teq_refl [] = refl
teq_refl (c ∷ t) = ground (arith, teq_refl t)

pub teq→eq : (a b : Text) → teq a b ≡ true → a ≡ b
unfolding teq
teq→eq [] [] h = refl
teq→eq [] (b ∷ bs) h = cc
teq→eq (a ∷ cs) [] h = cc
teq→eq (a ∷ cs) (b ∷ bs) h = ground (arith, teq→eq cs bs)

pub teq_iff : (a b : Text) → (teq a b ≡ true) ↔ (a ≡ b)
teq_iff a b = (teq→eq a b, λ e. rw e (teq_refl b))

-- Whitespace within ASCII, as `str.strip` and `int` skip it.
unfoldable pub is_space : ℕ → Bool
is_space c = (leb 9 c && leb c 13) || (leb 28 c && leb c 32)

unfoldable pub lstrip : Text → Text
lstrip [] = []
lstrip (c ∷ s) = if is_space c then lstrip s else c ∷ s

unfoldable pub rstrip : Text → Text
rstrip [] = []
rstrip (c ∷ s) = elim (rstrip s) [ [] ↦ if is_space c then [] else c ∷ [] | d ∷ r ↦ c ∷ d ∷ r ]

unfoldable pub strip : Text → Text
unfolding lstrip rstrip is_space
strip t = lstrip (rstrip t)

abbrev pub NoSpace : Text → Type 0
NoSpace = All (λ c. is_space c ≡ false)

pub rstrip_of_NoSpace : (t : Text) → NoSpace t → rstrip t ≡ t
unfolding rstrip
rstrip_of_NoSpace [] h = refl
rstrip_of_NoSpace (c ∷ []) h = rw (h.0)
rstrip_of_NoSpace (c ∷ d ∷ t) h = rw (rstrip_of_NoSpace (d ∷ t) h.1) refl

lstrip_of_NoSpace : (t : Text) → NoSpace t → lstrip t ≡ t
unfolding lstrip
lstrip_of_NoSpace [] h = refl
lstrip_of_NoSpace (c ∷ t) h = rw (h.0)

pub strip_of_NoSpace : (t : Text) → NoSpace t → strip t ≡ t
unfolding strip
strip_of_NoSpace t h = rw (rstrip_of_NoSpace t h) (lstrip_of_NoSpace t h)

-- `c.lower()` within ASCII
unfoldable pub lower_char : ℕ → ℕ
lower_char c = if leb b'A' c && leb c b'Z' then c + 32 else c

unfoldable pub lower : Text → Text
unfolding lower_char
lower = map lower_char

-- `s.startswith(p)`
unfoldable pub starts_with : Text → Text → Bool
starts_with [] s = true
starts_with (c ∷ p) [] = false
starts_with (c ∷ p) (d ∷ s) = (c == d) && starts_with p s

-- `p in s`
unfoldable pub contains : Text → Text → Bool
unfolding starts_with
contains p [] = starts_with p []
contains p (d ∷ s) = starts_with p (d ∷ s) || contains p s

-- `t in names`
unfoldable pub mem_text : Text → List Text → Bool
mem_text t [] = false
mem_text t (x ∷ xs) = teq t x || mem_text t xs
