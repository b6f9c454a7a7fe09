-- ===== src/Paginate/Tests.antt =====
-- Pages of a short list.
use ida_pro_mcp.Prelude.{ℕ, suc, List, [], ◌∷◌, length, ◌≡◌}
use ida_pro_mcp.Paginate.Walk.{follow, follow_all}

abbrev five : List ℕ
five = 4 ∷ 8 ∷ 15 ∷ 16 ∷ 23 ∷ []

follow_all_example : follow (suc (length five)) five 2 0 ≡ five
follow_all_example = follow_all five 2
