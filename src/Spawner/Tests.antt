-- ===== src/Spawner/Tests.antt =====
-- Instances of the theorems on the spawner.
use ida_pro_mcp.Prelude.{pos, txt, teq, some, ◌≡◌, refl, List, [], ◌∷◌}
use ida_pro_mcp.Value.{lookup}
use ida_pro_mcp.JsonRpc.{as_text}
use ida_pro_mcp.Session.{
  exists, no_process, get, load, read, parse_file, from_dict, from_fields, sidecar_name, to_dict,
  to_int, to_float, is_pid_alive,
}
use ida_pro_mcp.Spawner.{State, Tick, close}
use ida_pro_mcp.Spawner.Close.{IsReleased, Ended, close-live}
use ida_pro_mcp.Spawner.Open.{Launch, Host}
use ida_pro_mcp.Prelude.{true, false}
use ida_pro_mcp.Samples.{system, info, directory}

abbrev state : State
state = record { disk = directory; switches = []; sent = []; handles = pos 42 ∷ []; waited = [] }

-- The process runs at the first poll, and is gone at the second.
abbrev ticks : List Tick
ticks =
    record { running = λ pid. exists; changes = λ d. d }
    ∷ record { running = λ pid. no_process; changes = λ d. d }
    ∷ []

found : (get (system exists) (txt "a") state.disk).0 ≡ some info
unfolding get load read teq txt sidecar_name parse_file from_dict from_fields lookup to_dict to_int
    to_float as_text is_pid_alive
found = refl

close-live_example :
    IsReleased (txt "a") info.pid (close (system exists) (txt "a") ticks state).1
    × Ended
        (system exists)
        (txt "a")
        info.pid
        ticks
        (get (system exists) (txt "a") state.disk).1
        state
        (close (system exists) (txt "a") ticks state).0
        (close (system exists) (txt "a") ticks state).1
close-live_example = close-live (system exists) (txt "a") ticks state info found

abbrev launch : Launch
launch = record {
  is_file = true;
  name = txt "a";
  stem = txt "a";
  fresh = true;
  idat_found = true;
  started = some (pos 42);
  turns =
      record { tick = record { running = λ pid. exists; changes = λ d. directory }; exited = false }
      ∷ [];
}

abbrev busy : Host
busy = record { spawner = state; files = []; processes = []; killed = [] }

abbrev idle : Host
idle = record busy { spawner = record state { disk = [] } }
