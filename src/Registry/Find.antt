-- ===== src/Registry/Find.antt =====
-- The tool that plugin/registry.py finds under a name.
use ida_pro_mcp.Prelude.{
  Text, teq, teq→eq, teq_refl, ◌≢◌, Option, none, false, mem_text, true, some, List, [], ◌∷◌, All,
  ◌≡◌, refl, ap, sym, ◌∙◌, ◌⊎◌, inl, inr, arith, Bool-cases,
}
use ida_pro_mcp.Registry.{Tool, find, method_names}
use ida_pro_mcp.Registry.Names.{Distinct}
use mathlib.Core.Path.{subst}

differ : false ≡ true → ⊥
differ h = cc

module _ {S : Type 0} where
  abbrev pub Has : Tool S → List (Tool S) → Type 0
  Has func [] = ⊥
  Has func (t ∷ ts) = (func ≡ t) ⊎ Has func ts

  -- The one tool of the registry that has this name.
  pub record Named (ts : List (Tool S)) (name : Text) (func : Tool S) : Type 0 where
    pub here : Has func ts
    pub name_is : func.name ≡ name
    pub alone : (other : Tool S) → Has other ts → other.name ≡ name → other ≡ func

  some_inj : (x t : Tool S) → some x ≡ some t → x ≡ t
  some_inj x t h = cc

  pub Has-All : (P : Tool S → Type 0) (ts : List (Tool S)) (t : Tool S) → All P ts → Has t ts → P t
  Has-All P (x ∷ ts) t (p, h) (inl e) = subst P (sym e) p
  Has-All P (x ∷ ts) t (p, h) (inr i) = Has-All P ts t h i
  Has-All P [] t h i = absurd i

  mem_text-Has :
      (ts : List (Tool S)) (t : Tool S) → Has t ts → mem_text t.name (method_names ts) ≡ true
  unfolding mem_text method_names
  mem_text-Has (x ∷ ts) t (inl e) = rw (ap (λ u. u.name) e, teq_refl) refl
  mem_text-Has (x ∷ ts) t (inr i) = ground (arith, mem_text-Has ts t i)
  mem_text-Has [] t i = absurd i

  pub find-none :
      (name : Text) (ts : List (Tool S))
      → find name ts ≡ none
      → (t : Tool S) → Has t ts
      → t.name ≢ name
  unfolding find
  find-none name (x ∷ ts) h t i = elim (Bool-cases (teq x.name name)) [
    | inl same ↦ absurd (none_some (rw same at h))
    | inr other ↦ apart other (λ j. find-none name ts (rw other at h) t j) i
  ]
    where
      none_some : ◌≡◌ {A = Option (Tool S)} (some x) none → ⊥
      none_some h = cc

      apart : teq x.name name ≡ false → (Has t ts → t.name ≢ name) → Has t (x ∷ ts) → t.name ≢ name
      apart other rest (inl e) = λ n.
          differ (sym other ∙ ap (λ k. teq k name) (ap (λ u. u.name) (sym e) ∙ n) ∙ teq_refl name)
      apart other rest (inr i) = rest i
  find-none name [] h t i = absurd i

  pub find-Named :
      (name : Text) (ts : List (Tool S)) (func : Tool S)
      → Distinct (method_names ts)
      → find name ts ≡ some func
      → Named ts name func
  unfolding find method_names
  find-Named name [] func d h = cc
  find-Named name (x ∷ ts) func (fresh, d) h = elim (Bool-cases (teq x.name name)) [
    | inl same ↦ found same (some_inj x func (rw same at h))
    | inr other ↦ further other (find-Named name ts func d (rw other at h))
  ]
    where
      found : teq x.name name ≡ true → x ≡ func → Named (x ∷ ts) name func
      found same e = record {
        here = inl (sym e);
        name_is = ap (λ u. u.name) (sym e) ∙ teq→eq x.name name same;
        alone = λ other i n. only other i n;
      }
        where
          only : (other : Tool S) → Has other (x ∷ ts) → other.name ≡ name → other ≡ func
          only other (inl e') n = e' ∙ e
          only other (inr i) n = absurd (
              differ (
                sym fresh
                ∙ ap (λ k. mem_text k (method_names ts)) (teq→eq x.name name same ∙ sym n)
                ∙ mem_text-Has ts other i))

      further : teq x.name name ≡ false → Named ts name func → Named (x ∷ ts) name func
      further apart v = record {
        here = inr v.here;
        name_is = v.name_is;
        alone = λ other i n. only other i n;
      }
        where
          only : (other : Tool S) → Has other (x ∷ ts) → other.name ≡ name → other ≡ func
          only other (inl e) n = absurd (
              differ
                (sym apart ∙ ap (λ k. teq k name) (ap (λ u. u.name) (sym e) ∙ n) ∙ teq_refl name))
          only other (inr i) n = v.alone other i n
