-- ===== src/SessionRegistry/Tests.antt =====
-- Instances of the theorems on session_registry.py.
use ida_pro_mcp.Prelude.{pos, txt, teq, some, false, ◌≡◌, refl, [], ◌∷◌}
use ida_pro_mcp.Value.{lookup}
use ida_pro_mcp.JsonRpc.{as_text}
use ida_pro_mcp.Client.{Client}
use ida_pro_mcp.Session.{
  exists, get, load, read, parse_file, from_dict, from_fields, sidecar_name, to_dict, to_int,
  to_float, is_pid_alive,
}
use ida_pro_mcp.SessionRegistry.{State, cached, get_client}
use ida_pro_mcp.SessionRegistry.Resolve.{Answers, get_client_lem}
use ida_pro_mcp.Samples.{system, info, directory}

-- The client of the session has made six requests.
abbrev used : Client
used = record { host = txt "127.0.0.1"; port = pos 8765; next_id = 7 }

abbrev state : State
state = record { clients = (txt "a", used) ∷ []; disk = directory }

other : teq (txt "a") (txt "b") ≡ false
unfolding teq txt
other = refl

found : (get (system exists) (txt "a") state.disk).0 ≡ some info
unfolding get load read teq txt sidecar_name parse_file from_dict from_fields lookup to_dict to_int
    to_float as_text is_pid_alive
found = refl

kept : cached (txt "a") state.clients ≡ some used
unfolding cached teq txt
kept = refl

get_client_lem_example :
    Answers
      (system exists)
      (txt "a")
      (get (system exists) (txt "a") state.disk).0
      (get_client (system exists) (txt "a") state)
    × ((get_client (system exists) (txt "a") state).1.disk
        ≡ (get (system exists) (txt "a") state.disk).1)
    × (cached (txt "b") (get_client (system exists) (txt "a") state).1.clients
        ≡ cached (txt "b") state.clients)
get_client_lem_example = get_client_lem (system exists) (txt "a") (txt "b") state other
