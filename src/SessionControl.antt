-- ===== src/SessionControl.antt =====
-- src/ida_pro_mcp/session_control.py: the selection of sessions to close, and the batch.
pub mod Targets
pub mod Batch
mod Tests
use ida_pro_mcp.Prelude.{
  ℕ, suc, Text, txt, mem_text, Bool, true, false, Option, none, some, List, [], ◌∷◌, ◌++◌, map,
  if◌then◌else◌,
}
use ida_pro_mcp.Session.{System}
use ida_pro_mcp.SessionId.{session_id_for_path}
use ida_pro_mcp.Spawner.{Closed, no_session, graceful, hard_killed, State, Tick, close}

-- `CloseOutcome`
pub record CloseOutcome : Type 0 where
  pub session_id : Text
  pub closed : Bool
  pub graceful : Option Bool
  pub error : Option Text

-- The loop over the candidates, with `seen` and `ordered` as they are.
unfoldable pub collect_targets : List Text → List Text → List Text → List Text
collect_targets [] seen ordered = ordered
collect_targets (id ∷ candidates) seen ordered = elim (mem_text id seen) [
  | true ↦ collect_targets candidates seen ordered
  | false ↦ collect_targets candidates (id ∷ seen) (ordered ++ (id ∷ []))
]

-- `sha1` and `normalize` as for a session id.
unfoldable pub resolve_targets : (Text → Text) → (Text → Text) → List Text → List Text → List Text
resolve_targets sha1 normalize session_ids paths =
    collect_targets (session_ids ++ map (session_id_for_path sha1 normalize) paths) [] []

-- The outcome for what `close` did; `repr` is the builtin, in the message of `FileNotFoundError`.
unfoldable pub outcome : (Text → Text) → Text → Closed → CloseOutcome
outcome repr id no_session = record {
  session_id = id;
  closed = false;
  graceful = none;
  error = some (txt "No live session named " ++ repr id);
}
outcome repr id graceful = record {
  session_id = id;
  closed = true;
  graceful = some true;
  error = none;
}
outcome repr id hard_killed = record {
  session_id = id;
  closed = true;
  graceful = some false;
  error = none;
}

module _ (sys : System) (repr : Text → Text) where
  -- `ticks n` is what happens during the `n`th call of `close`.
  unfoldable pub close_sessions :
      List Text → (ℕ → List Tick) → ℕ → State → List CloseOutcome × State
  close_sessions [] ticks n s = ([], s)
  close_sessions (id ∷ ids) ticks n s =
      let (done, after) = close sys id (ticks n) s in
      let (outcomes, last) = close_sessions ids ticks (suc n) after in
      (outcome repr id done ∷ outcomes, last)
