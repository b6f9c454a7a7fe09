-- ===== src/Paginate.antt =====
-- src/ida_pro_mcp/plugin/tools/_helpers.py, and `Page` of plugin/models.py: pages of a list.
pub mod Walk
mod Tests
use ida_pro_mcp.Prelude.{
  ℕ, zero, suc, ◌+◌, ◌-◌, ℤ, pos, negsuc, Text, txt, Bool, Option, none, some, List, [], ◌∷◌, ◌++◌,
  length, take, drop, keep, ltb, lower, contains, if◌then◌else◌,
}
use ida_pro_mcp.Errors.{Result, ok, raise, invalid_input}
use ida_pro_mcp.PyInt.{dec}

pub record Page {ℓ} (A : Type ℓ) : Type ℓ where
  pub page_data : List A
  pub total : ℕ
  pub next_offset : Option ℕ

-- `total if count == 0 else min(offset + count, total)`
unfoldable pub page_end : ℕ → ℕ → ℕ → ℕ
page_end offset zero total = total
page_end offset (suc n) total = if ltb total (offset + suc n) then total else offset + suc n

-- The page for an offset and a count that are not negative.
unfoldable pub page_of {ℓ} : {A : Type ℓ} → List A → ℕ → ℕ → Page A
page_of items offset count =
    let total = length items in
    let stop = page_end offset count total in
    record {
      page_data = take (stop - offset) (drop offset items);
      total = total;
      next_offset = if ltb stop total then some stop else none;
    }

unfoldable pub paginate {ℓ} : {A : Type ℓ} → List A → ℤ → ℤ → Result (Page A)
paginate items (negsuc n) count =
    raise (txt "offset must be >= 0, got " ++ dec (negsuc n)) invalid_input
paginate items (pos offset) (negsuc n) =
    raise (txt "count must be >= 0, got " ++ dec (negsuc n)) invalid_input
paginate items (pos offset) (pos count) = ok (page_of items offset count)

-- `substring_filter`: `text_of item` is `str(item[key])`.
unfoldable pub substring_filter {ℓ} : {A : Type ℓ} → List A → Text → (A → Text) → List A
substring_filter items [] text_of = items
substring_filter items (c ∷ query) text_of =
    keep (λ item. contains (lower (c ∷ query)) (lower (text_of item))) items
