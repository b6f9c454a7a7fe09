-- ===== src/ToolBridge/Tests.antt =====
-- Instances of the theorems on the tool bridge.
use ida_pro_mcp.Prelude.{txt, teq, true, false, some, [], ◌≡◌, refl, pos}
use ida_pro_mcp.Value.{lookup}
use ida_pro_mcp.Samples.{directory, system, info}
use ida_pro_mcp.JsonRpc.{as_text}
use ida_pro_mcp.Session.{
  exists, get, load, read, parse_file, from_dict, from_fields, sidecar_name, to_dict, to_int,
  to_float, is_pid_alive,
}
use ida_pro_mcp.Spawner.Open.{Launch, Host, already_running, with_disk}
use ida_pro_mcp.ToolBridge.Local.{raised, open_file, reanalyse_file}
use ida_pro_mcp.ToolBridge.Local.Payload.{Describes, live_lem}

abbrev launch : Launch
launch = record {
  is_file = true;
  name = txt "a";
  stem = txt "a";
  fresh = false;
  idat_found = true;
  started = some (pos 42);
  turns = [];
}

abbrev host : Host
host = record {
  spawner = record { disk = directory; switches = []; sent = []; handles = []; waited = [] };
  files = [];
  processes = [];
  killed = [];
}

found : (get (system exists) (txt "a") host.spawner.disk).0 ≡ some info
unfolding get load read teq txt sidecar_name parse_file from_dict from_fields lookup to_dict to_int
    to_float as_text is_pid_alive
found = refl

live_lem_example :
    Describes
      (system exists)
      (txt "a.ida.log")
      info
      true
      (open_file (system exists) (txt "a.ida.log") (txt "a") launch host).0
    × ((open_file (system exists) (txt "a.ida.log") (txt "a") launch host).1
        ≡ with_disk (get (system exists) (txt "a") host.spawner.disk).1 host)
    × (reanalyse_file (system exists) (txt "a.ida.log") (txt "a") launch host ≡ (
      raised already_running,
      with_disk (get (system exists) (txt "a") host.spawner.disk).1 host,
    ))
live_lem_example = live_lem (system exists) (txt "a.ida.log") (txt "a") launch host info refl found
