-- ===== src/Sync.antt =====
-- src/ida_pro_mcp/plugin/ida_sync.py: the wrappers by which a tool runs on the main thread of IDA,
-- and the slot by which a wrapped call inside a wrapped call is refused. `execute_sync` of IDA is
-- as documented: it runs the function that it is given once, on the main thread, and returns after
-- it. A tool is the tree of what it does: steps on the database, and calls of wrapped functions.
pub mod Alone
mod Tests
use ida_pro_mcp.Prelude.{
  Text, txt, Bool, true, false, Option, none, some, List, [], ◌∷◌, ◌++◌, if◌then◌else◌,
}
use ida_pro_mcp.Value.{Value}
use ida_pro_mcp.Errors.{Raised, other}

-- `IDASafety`
pub data Safety : Type 0 where
  safe_none safe_read safe_write : Safety

-- `_Outcome`
pub data Outcome : Type 0 where
  value : Value → Outcome
  exc : Raised → Outcome

-- A function as `_callable_name` sees it: `__name__`, `__qualname__` and `repr`, or a `partial`.
pub data Callable : Type 0 where
  function : Option Text → Option Text → Text → Callable
  partial : Callable → Callable

-- `a or b` for a name that may be missing or empty.
unfoldable pub or_name : Option Text → Text → Text
or_name none default = default
or_name (some []) default = default
or_name (some (c ∷ name)) default = c ∷ name

unfoldable pub callable_name : Callable → Text
callable_name (function name qualname repr) = or_name name (or_name qualname repr)
callable_name (partial func) = callable_name func

-- The slot `_active_call` and the database.
pub record Thread (S : Type 0) : Type 0 where
  pub active : Option Text
  pub database : S

unfoldable pub is_synced : Safety → Bool
is_synced safe_none = false
is_synced safe_read = true
is_synced safe_write = true

-- `IDASyncError`, for a mode that is not allowed and for a nested call.
unfoldable pub invalid_mode : Text → Raised
invalid_mode name = other (txt "Invalid safety mode for " ++ name)

unfoldable pub nested : Text → Text → Raised
nested name active =
    other (txt "Refusing to nest sync call '" ++ name ++ txt "' inside '" ++ active ++ txt "'")

module _ {S : Type 0} where
  -- `runner`, with the slot as it finds it. The token resets it to what it was.
  unfoldable pub runner :
      Text → (Thread S → Outcome × Thread S) → Option Text → Thread S → Outcome × Thread S
  runner name func (some active) t = (exc (nested name active), t)
  runner name func none t =
      let (outcome, after) = func (record t { active = some name }) in
      (outcome, record after { active = none })

  -- `_sync_call`
  unfoldable pub sync_call :
      Callable → Safety → (Thread S → Outcome × Thread S) → Thread S → Outcome × Thread S
  sync_call func safety body t =
      let name = callable_name func in
      if is_synced safety then runner name body t.active t else (exc (invalid_mode name), t)

  -- `idaread` and `idawrite`: the wrapper calls a `partial` of the function.
  unfoldable pub idaread :
      Callable → (Thread S → Outcome × Thread S) → Thread S → Outcome × Thread S
  idaread f body = sync_call (partial f) safe_read body

  unfoldable pub idawrite :
      Callable → (Thread S → Outcome × Thread S) → Thread S → Outcome × Thread S
  idawrite f body = sync_call (partial f) safe_write body

-- What a tool does.
pub data Body (S : Type 0) : Type 0 where
  returns : Value → Body S
  raises : Raised → Body S
  does : (S → S) → Body S → Body S
  reads writes : Callable → Body S → (Outcome → Body S) → Body S

unfoldable pub run : {S : Type 0} → Body S → Thread S → Outcome × Thread S
run (returns v) t = (value v, t)
run (raises e) t = (exc e, t)
run (does f rest) t = run rest (record t { database = f t.database })
run (reads f inner rest) t =
    let (outcome, after) = idaread f (run inner) t in run (rest outcome) after
run (writes f inner rest) t =
    let (outcome, after) = idawrite f (run inner) t in run (rest outcome) after
