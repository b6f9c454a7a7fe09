-- ===== src/ToolBridge.antt =====
-- src/ida_pro_mcp/_tool_bridge.py: which tools are offered, the proxy of a tool, and the choice of
-- the session that `close_file` stops. Schemas and FastMCP are left out.
pub mod Local
mod Tests
use ida_pro_mcp.Prelude.{
  Text, txt, teq, Bool, true, false, not, Option, none, some, List, [], ◌∷◌, map, keep, ◌||◌, ◌&&◌,
  if◌then◌else◌,
}
use ida_pro_mcp.Value.{Value, Fields, end, field, get_or}
use ida_pro_mcp.Registry.{Registry, is_unsafe, method_names}
use ida_pro_mcp.Session.{SessionInfo, System}
use ida_pro_mcp.SessionRegistry.{Unresolved, not_found, ambiguous}
use ida_pro_mcp.Spawner.{State, Tick, Closed, close}

-- `_selected_methods`, by name
unfoldable pub selected_methods : {S : Type 0} → Registry S → Bool → List Text
selected_methods r include_unsafe =
    keep (λ name. include_unsafe || not (is_unsafe r name)) (method_names r.methods)

-- `register_remote_tools`: the names that are registered.
unfoldable pub register_remote_tools : {S : Type 0} → Registry S → Bool → List Text
register_remote_tools r include_unsafe = selected_methods r include_unsafe

-- `LocalToolSpec`, with the name of the tool and whether its builder needs a spawner.
pub record LocalToolSpec : Type 0 where
  pub name : Text
  pub needs_spawner : Bool
  pub unsafe : Bool

unfoldable pub local_tool_specs : List LocalToolSpec
local_tool_specs =
    record { name = txt "check_connection"; needs_spawner = false; unsafe = false }
    ∷ record { name = txt "list_ida_sessions"; needs_spawner = false; unsafe = false }
    ∷ record { name = txt "convert_number"; needs_spawner = false; unsafe = false }
    ∷ record { name = txt "open_file"; needs_spawner = true; unsafe = false }
    ∷ record { name = txt "close_file"; needs_spawner = true; unsafe = false }
    ∷ record { name = txt "reanalyse_file"; needs_spawner = true; unsafe = true }
    ∷ []

-- The loop of `register_local_tools`.
unfoldable pub register_specs : List LocalToolSpec → Bool → Bool → List Text
register_specs [] has_spawner include_unsafe = []
register_specs (spec ∷ specs) has_spawner include_unsafe =
    let names = register_specs specs has_spawner include_unsafe in
    if spec.unsafe && not include_unsafe
    then names
    else if spec.needs_spawner && not has_spawner
    then names
    else spec.name ∷ names

unfoldable pub register_local_tools : Bool → Bool → List Text
register_local_tools has_spawner include_unsafe =
    register_specs local_tool_specs has_spawner include_unsafe

-- `kwargs.pop(key, None)`: what is left of the arguments.
unfoldable pub without : Text → Fields → Fields
without key end = end
without key (field j v fs) = let rest = without key fs in if teq j key then rest else field j v rest

-- What the proxy of a tool hands to `dispatch`: method, arguments, session.
unfoldable pub proxy : Text → Fields → Text × Fields × Value
proxy name kwargs = (name, without (txt "session") kwargs, get_or (txt "session") Value.null kwargs)

pub data Choice : Type 0 where
  session : Text → Choice
  no_choice : Unresolved → Choice

-- `_resolve_close_session`, where `sessions` are those that the backend lists.
unfoldable pub resolve_close_session : Option Text → List SessionInfo → Choice
resolve_close_session (some requested) sessions = session requested
resolve_close_session none [] = no_choice (not_found none)
resolve_close_session none (info ∷ []) = session info.session_id
resolve_close_session none (info ∷ other ∷ more) =
    no_choice (ambiguous (map (λ i. i.session_id) (info ∷ other ∷ more)))
