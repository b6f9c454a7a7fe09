-- ===== src/SessionControl/Tests.antt =====
-- Instances of the theorems on session_control.py.
use ida_pro_mcp.Prelude.{ℕ, pos, Text, txt, mem_text, ◌≡◌, List, [], ◌∷◌, ◌++◌, map}
use ida_pro_mcp.SessionId.{session_id_for_path}
use ida_pro_mcp.Spawner.{State, Tick}
use ida_pro_mcp.SessionControl.{resolve_targets}
use ida_pro_mcp.SessionControl.Targets.{first_seen, IsUnique, resolve_targets_lem}
use ida_pro_mcp.Samples.{directory}

abbrev digest : Text → Text
digest path = txt "01a4"

abbrev normalize : Text → Text
normalize path = path

abbrev ids : List Text
ids = txt "a" ∷ txt "b" ∷ txt "a" ∷ []

resolve_targets_lem_example :
    (resolve_targets digest normalize ids (txt "/bin/ls" ∷ [])
      ≡ first_seen (ids ++ map (session_id_for_path digest normalize) (txt "/bin/ls" ∷ [])))
    × IsUnique (resolve_targets digest normalize ids (txt "/bin/ls" ∷ []))
    × ((j : Text)
        → mem_text j (resolve_targets digest normalize ids (txt "/bin/ls" ∷ []))
          ≡ mem_text j (ids ++ map (session_id_for_path digest normalize) (txt "/bin/ls" ∷ [])))
resolve_targets_lem_example = resolve_targets_lem digest normalize ids (txt "/bin/ls" ∷ [])

abbrev state : State
state = record { disk = directory; switches = []; sent = []; handles = pos 42 ∷ []; waited = [] }

abbrev no_ticks : ℕ → List Tick
no_ticks n = []
