-- ===== src/Registry/Names.antt =====
-- Lists of names: membership and distinctness, for plugin/registry.py.
use ida_pro_mcp.Prelude.{
  Text, teq, teq_refl, teq→eq, mem_text, Bool, true, false, List, [], ◌∷◌, ◌++◌, All, ◌≡◌, refl,
  sym, ap, ◌∙◌, ◌||◌, arith, Bool-cases, inl, inr, if◌then◌else◌,
}

-- The names are all different.
abbrev pub Distinct : List Text → Type 0
Distinct [] = Unit
Distinct (x ∷ xs) = (mem_text x xs ≡ false) × Distinct xs

pub mem_text-append :
    (t : Text) (xs ys : List Text) → mem_text t (xs ++ ys) ≡ (mem_text t xs || mem_text t ys)
unfolding mem_text
mem_text-append t [] ys = refl
mem_text-append t (x ∷ xs) ys = ground (arith, mem_text-append t xs ys)

pub mem_text-congr : (a b : Text) (xs : List Text) → teq a b ≡ true → mem_text a xs ≡ mem_text b xs
mem_text-congr a b xs h = ap (λ t. mem_text t xs) (teq→eq a b h)

pub teq-sym_false : (a b : Text) → teq a b ≡ false → teq b a ≡ false
teq-sym_false a b h = elim (Bool-cases (teq b a)) [
  | inl e ↦ absurd (true≢false (sym (teq_refl a) ∙ rw (teq→eq b a e) at h))
  | inr e ↦ e
]
  where
    true≢false : true ≡ false → ⊥
    true≢false h = cc

pub or_false : (a b : Bool) → (a || b) ≡ false → (a ≡ false) × (b ≡ false)
or_false a b h = ground arith

pub Distinct-snoc :
    (xs : List Text) (x : Text) → Distinct xs → mem_text x xs ≡ false → Distinct (xs ++ x ∷ [])
Distinct-snoc [] x d h = (unfold mem_text in refl, tt)
Distinct-snoc (y ∷ ys) x (fresh, d) h =
    let (ne, out) = or_false (teq x y) (mem_text x ys) (unfold mem_text in h) in
    (
      mem_text-append y ys (x ∷ []) ∙ rw (fresh, singleton y x, teq-sym_false x y ne),
      Distinct-snoc ys x d out,
    )
  where
    singleton : (y x : Text) → mem_text y (x ∷ []) ≡ (teq y x || false)
    singleton y x = unfold mem_text in refl

pub not_known :
    (n : Text) (names nr : List Text)
    → mem_text n names ≡ false
    → All (λ k. mem_text k names ≡ true) nr
    → mem_text n nr ≡ false
unfolding mem_text
not_known n names [] fresh h = refl
not_known n names (k ∷ nr) fresh (m, h) = elim (Bool-cases (teq n k)) [
  | inl e ↦ absurd (differ (sym fresh ∙ mem_text-congr n k names e ∙ m))
  | inr e ↦ rw e (not_known n names nr fresh h)
]
  where
    differ : false ≡ true → ⊥
    differ h = cc

pub known_more :
    (names nr : List Text) (n : Text)
    → All (λ k. mem_text k names ≡ true) nr
    → All (λ k. mem_text k (names ++ n ∷ []) ≡ true) nr
known_more names [] n h = tt
known_more names (k ∷ nr) n (m, h) =
    (mem_text-append k names (n ∷ []) ∙ rw m, known_more names nr n h)

pub known_new : (names : List Text) (n : Text) → mem_text n (names ++ n ∷ []) ≡ true
known_new names n = mem_text-append n names (n ∷ []) ∙ last (mem_text n names)
  where
    last : (b : Bool) → (b || mem_text n (n ∷ [])) ≡ true
    last true = refl
    last false = unfold mem_text in rw teq_refl

pub known_after :
    (b : Bool) (names nr : List Text) (n : Text)
    → All (λ k. mem_text k names ≡ true) nr
    → All (λ k. mem_text k (names ++ n ∷ []) ≡ true) (if b then n ∷ nr else nr)
known_after true names nr n h = (known_new names n, known_more names nr n h)
known_after false names nr n h = known_more names nr n h
