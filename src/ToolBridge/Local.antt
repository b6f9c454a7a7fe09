-- ===== src/ToolBridge/Local.antt =====
-- The tools of _tool_bridge.py that run in the proxy, and the messages of session_registry.py.
-- `dispatch` of the backend is a parameter by its outcome; the path of a log file is a parameter.
pub mod Payload
use ida_pro_mcp.Prelude.{
  Text, txt, teq, Bool, true, false, Option, none, some, List, [], ◌∷◌, ◌++◌, map, if◌then◌else◌,
}
use ida_pro_mcp.Value.{Value, Items, nil, Fields, end, field, lookup}
use ida_pro_mcp.Session.{SessionInfo, System, Disk, to_dict, list_all}
use ida_pro_mcp.SessionRegistry.{Unresolved, not_found, ambiguous}
use ida_pro_mcp.Spawner.{State, Tick, Closed, no_session, graceful, hard_killed, close}
use ida_pro_mcp.Spawner.Open.{Launch, Host, Opened, opened, open_session}
use ida_pro_mcp.ToolBridge.{session, no_choice, Choice, resolve_close_session}

-- `", ".join(...)`
unfoldable pub join_comma : List Text → Text
join_comma [] = []
join_comma (t ∷ []) = t
join_comma (t ∷ u ∷ ts) = t ++ txt ", " ++ join_comma (u ∷ ts)

-- `str` of a `SessionResolutionError`.
unfoldable pub resolution_message : (Text → Text) → Unresolved → Text
resolution_message repr (not_found none) =
    txt "No IDA session is running. Call open_file(path=...) "
    ++ txt "to spawn a headless IDA, then retry."
resolution_message repr (not_found (some id)) =
    txt "No IDA session named "
    ++ repr id
    ++ txt " is running. "
    ++ txt "Call list_ida_sessions to see which sessions are available."
resolution_message repr (ambiguous available) =
    txt "Multiple IDA sessions are running ("
    ++ join_comma available
    ++ txt "); pass `session=<id>` to pick one. "
    ++ txt "Call list_ida_sessions for full details."

-- What `dispatch` comes to: a value, an error of resolution, or another of those that
-- `check_connection` catches, with its text.
pub data Dispatched : Type 0 where
  answered : Value → Dispatched
  unresolved : Unresolved → Dispatched
  failed : Text → Dispatched

-- `metadata.get("module")`; what is no object has none.
unfoldable pub module_of : Value → Value
module_of (Value.object d) = elim (lookup (txt "module") d) [ none ↦ Value.null | some v ↦ v ]
module_of _ = Value.null

-- `session or "auto"`
unfoldable pub or_auto : Option Text → Text
or_auto none = txt "auto"
or_auto (some id) = if teq id [] then txt "auto" else id

-- `check_connection`, where `truthy` and `show` are `bool` and `str` of a JSON value.
unfoldable pub check_connection :
    (Text → Text) → (Value → Bool) → (Value → Text) → Option Text → Dispatched → Text
check_connection repr truthy show chosen (unresolved u) = resolution_message repr u
check_connection repr truthy show chosen (failed text) =
    txt "Failed to talk to the IDA Pro plugin "
    ++ txt "(session="
    ++ or_auto chosen
    ++ txt "): "
    ++ text
    ++ txt ". "
    ++ txt "Call open_file(path=...) to spawn a headless IDA, or "
    ++ txt "list_ida_sessions() to inspect existing sidecars."
check_connection repr truthy show chosen (answered metadata) =
    if truthy (module_of metadata)
    then txt "Successfully connected to IDA Pro (open file: "
      ++ show (module_of metadata)
      ++ txt ")"
    else txt "Successfully connected to IDA Pro"

-- `payload[key] = v`
unfoldable pub set_field : Text → Value → Fields → Fields
set_field key v end = field key v end
set_field key v (field j w fs) =
    let rest = set_field key v fs in if teq j key then field j v fs else field j w rest

-- `_open_result_payload`
unfoldable pub open_result_payload : Text → SessionInfo → Bool → Fields
open_result_payload log_file info reused =
    set_field (txt "reused") (Value.bool reused)
      (set_field (txt "log_file") (Value.str log_file) (to_dict info))

-- A payload, or what `open` has raised.
pub data Opening : Type 0 where
  payload : Fields → Opening
  raised : Opened → Opening

pub data Closing : Type 0 where
  closed : Text → Bool → Closing
  missing : Text → Closing
  unchosen : Unresolved → Closing

module _ (sys : System) where
  unfoldable pub list_ida_sessions : Disk → List Fields × Disk
  list_ida_sessions disk = let (live, after) = list_all sys disk in (map to_dict live, after)

  unfoldable pub opening : Text → Opened × Host → Opening × Host
  opening log_file (opened info reused, h) = (payload (open_result_payload log_file info reused), h)
  opening log_file (outcome, h) = (raised outcome, h)

  unfoldable pub open_file : Text → Text → Launch → Host → Opening × Host
  open_file log_file id l h = opening log_file (open_session sys id (record l { fresh = false }) h)

  unfoldable pub reanalyse_file : Text → Text → Launch → Host → Opening × Host
  reanalyse_file log_file id l h =
      opening log_file (open_session sys id (record l { fresh = true }) h)

  -- `close_file` behind the choice of the session.
  unfoldable pub closing : Text → Closed × State → Closing × State
  closing id (no_session, s) = (missing id, s)
  closing id (graceful, s) = (closed id true, s)
  closing id (hard_killed, s) = (closed id false, s)

  unfoldable pub close_chosen : List Tick → Choice → State → Closing × State
  close_chosen ticks (no_choice u) s = (unchosen u, s)
  close_chosen ticks (session id) s = closing id (close sys id ticks s)

  -- The sessions are listed only where none is asked for.
  unfoldable pub close_file : List Tick → Option Text → State → Closing × State
  close_file ticks (some id) s = close_chosen ticks (resolve_close_session (some id) []) s
  close_file ticks none s =
      let (live, disk) = list_all sys s.disk in
      close_chosen ticks (resolve_close_session none live) (record s { disk = disk })
