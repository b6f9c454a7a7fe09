-- ===== src/ToolBridge/Local/Payload.antt =====
-- What `open_file` and `reanalyse_file` of _tool_bridge.py give their caller.
use mathlib.Core.Path.{subst}
use ida_pro_mcp.Prelude.{sym, Text, txt, teq, Bool, true, false, some, ◌≡◌, refl, ap}
use ida_pro_mcp.Value.{Value, lookup}
use ida_pro_mcp.JsonRpc.{as_text}
use ida_pro_mcp.Session.{
  SessionInfo, System, get, to_dict, to_int, to_float, from_dict, from_fields,
}
use ida_pro_mcp.Spawner.Open.{Launch, Host, already_running, with_disk}
use ida_pro_mcp.Spawner.Launching.{open_session-live}
use ida_pro_mcp.ToolBridge.Local.{
  set_field, open_result_payload, Opening, payload, raised, opening, open_file, reanalyse_file,
}

module _ (sys : System) where
  -- The payload is read back as the session, and says whether it was reused and where its log is.
  abbrev pub Describes : Text → SessionInfo → Bool → Opening → Type 0
  Describes log_file info reused (raised outcome) = ⊥
  Describes log_file info reused (payload p) =
      (from_dict sys (Value.object p) ≡ some info)
      × (lookup (txt "reused") p ≡ some (Value.bool reused))
      × (lookup (txt "log_file") p ≡ some (Value.str log_file))

  payload-Describes :
      (log_file : Text) (info : SessionInfo) (reused : Bool)
      → Describes log_file info reused (payload (open_result_payload log_file info reused))
  unfolding open_result_payload set_field to_dict from_dict from_fields to_int to_float as_text
      lookup teq txt
  payload-Describes log_file info reused = (refl, refl, refl)

  -- For a binary with a live session: `open_file` gives a payload that is read back as that
  -- session, says that it was reused, and names its log; `reanalyse_file` is refused. Either way
  -- the look at the directory is all that happens to the host.
  pub live_lem :
      (log_file id : Text) (l : Launch) (h : Host) (info : SessionInfo)
      → l.is_file ≡ true
      → (get sys id h.spawner.disk).0 ≡ some info
      → Describes log_file info true (open_file sys log_file id l h).0
        × ((open_file sys log_file id l h).1 ≡ with_disk (get sys id h.spawner.disk).1 h)
        × (reanalyse_file sys log_file id l h
            ≡ (raised already_running, with_disk (get sys id h.spawner.disk).1 h))
  unfolding open_file reanalyse_file opening
  live_lem log_file id l h info file found =
      let opens = open_session-live sys id (record l { fresh = false }) h info file found in
      let refuses = open_session-live sys id (record l { fresh = true }) h info file found in
      (
        subst (λ r. Describes log_file info true (opening sys log_file r).0) (sym opens)
            (payload-Describes log_file info true),
        ap (λ r. (opening sys log_file r).1) opens,
        ap (opening sys log_file) refuses,
      )
