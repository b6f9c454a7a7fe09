-- ===== src/Sync/Tests.antt =====
-- Instances of the theorem on wrapped tools.
use ida_pro_mcp.Prelude.{ℕ, suc, txt, none, some, ◌≡◌}
use ida_pro_mcp.Value.{Value}
use ida_pro_mcp.Sync.{
  exc, Callable, function, callable_name, nested, idaread, idawrite, Body, returns, does, writes,
  run,
}
use ida_pro_mcp.Sync.Alone.{alone, with_slot, wrapped_lem}

abbrev rename : Callable
rename = function (some (txt "rename")) none (txt "<function rename>")

-- A tool that changes the database, and calls another tool.
abbrev body : Body ℕ
body = does suc (writes rename (does suc (returns Value.null)) (λ outcome. returns Value.null))

wrapped_lem_example :
    (idaread rename (run body) (record { active = none; database = 1 })
      ≡ with_slot none (alone (callable_name rename) body 1))
    × (idawrite rename (run body) (record { active = none; database = 1 })
        ≡ with_slot none (alone (callable_name rename) body 1))
    × (idaread rename (run body) (record { active = some (txt "list"); database = 1 }) ≡ (
      exc (nested (callable_name rename) (txt "list")),
      record { active = some (txt "list"); database = 1 },
    ))
    × (idawrite rename (run body) (record { active = some (txt "list"); database = 1 }) ≡ (
      exc (nested (callable_name rename) (txt "list")),
      record { active = some (txt "list"); database = 1 },
    ))
wrapped_lem_example = wrapped_lem rename body 1 (txt "list")
