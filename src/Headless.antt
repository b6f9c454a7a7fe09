-- ===== src/Headless.antt =====
-- src/ida_pro_mcp/plugin/headless_bootstrap.py, with plugin/idb_hooks.py: the process inside IDA
-- as threads that take steps. The main thread runs `main`; a signal handler runs on the main thread,
-- above what stands there, as Python has it; the watcher of the kill switch is a thread of its own.
-- A signal that comes while a handler runs is left out: it would run above that handler.
pub mod Runs
pub mod Tied
pub mod Phases
pub mod Exclusion
pub mod Mutex
pub mod Hangs
pub mod Startup
pub mod Shutdown
mod Tests
use ida_pro_mcp.Prelude.{ℕ, Bool, true, false, Option, none, some, List, [], ◌∷◌, if◌then◌else◌}
use ida_pro_mcp.Server.{
  Socket, Owner, main_code, handler_code, watcher_code, Server, new_server, bound_port, bind,
  StopPc, entering, Stopped, blocked, goes_on, returns, stop_step, was_asked,
}

-- Where `main` stands.
pub data Pc : Type 0 where
  -- before `_bind_server`, `idb_hooks.install`, `_publish_sidecar`, `_install_shutdown_hooks`
  starting hooking publishing arming : Pc
  -- in `serve_in_current_thread`: at `bind`, at the test behind it, at `_serving = True`, at the
  -- call of `serve_forever`, in its loop, at `_serving = False`
  serve_bind serve_test serve_mark serve_enter : Pc
  looping : Socket → Pc
  loop_left : Pc
  -- in `finally`: at `kill_switch.cleanup`, `session.remove`, `idb_hooks.uninstall`, in `stop`
  clean_switch clean_sidecar clean_hooks : Pc
  cleaning aborting : StopPc → Pc
  -- at `qexit` with a code, and behind it
  leaving exited : ℕ → Pc

pub data Watcher : Type 0 where
  absent polling finished : Watcher
  stopping : StopPc → Watcher

-- The process, the sentinel file of its kill switch, the port in its sidecar, and whether the hooks
-- on the database are installed.
pub record Process : Type 0 where
  pub sv : Server
  pub pc : Pc
  pub handler : Option StopPc
  pub watcher : Watcher
  pub armed : Bool
  pub event : Bool
  pub switch : Bool
  pub sidecar : Option ℕ
  pub hooked : Bool

abbrev pub initial : Bool → Process
initial switch = record {
  sv = new_server;
  pc = starting;
  handler = none;
  watcher = absent;
  armed = false;
  event = false;
  switch = switch;
  sidecar = none;
  hooked = false;
}

-- What the surroundings answer to a step of `main`: the port of a bind, whether hooks install, an
-- input file is loaded, the sidecar is written and removed, and whether a request crashes the loop.
pub record Env : Type 0 where
  pub port : Option ℕ
  pub hooks_install : Bool
  pub input_loaded : Bool
  pub is_written : Bool
  pub is_removed : Bool
  pub crash : Bool

abbrev pub at_pc : Pc → Process → Process
at_pc pc s = record s { pc = pc }

-- Behind a step of `stop` in `main`, which stands at `frame`, and goes on to `qexit` with `code`.
unfoldable pub main_stop : (StopPc → Pc) → ℕ → Stopped → Process → Option Process
main_stop frame code blocked s = none
main_stop frame code (goes_on pc sv) s = some (record s { sv = sv; pc = frame pc })
main_stop frame code (returns sv) s = some (record s { sv = sv; pc = leaving code })

-- `_build_session_info` and `_publish_sidecar`, and `_abort` where one of them fails.
abbrev pub publish : Env → Process → Option Process
publish env s =
    if env.input_loaded
    then if env.is_written
      then some (record s { sidecar = bound_port s.sv; pc = arming })
      else some (at_pc (aborting entering) s)
    else some (at_pc (aborting entering) s)

-- A turn of the loop of `serve_forever`.
abbrev pub serve_forever : Env → Socket → Process → Option Process
serve_forever env sock s =
    if env.crash
    then some (record s { sv = record s.sv { ended = some sock.id }; pc = loop_left })
    else if was_asked sock.id s.sv
    then some (record s { sv = record s.sv { ended = some sock.id }; pc = loop_left })
    else some s

-- `session.remove` in `_cleanup`, where an `OSError` is passed over.
abbrev pub remove_sidecar : Env → Process → Option ℕ
remove_sidecar env s = if env.is_removed then none else s.sidecar

-- A step of `main` from where it stands; `none` when it is blocked or has ended.
unfoldable pub main_step : Env → Pc → Process → Option Process
main_step env starting s = elim (bind env.port s.sv) [
  | none ↦ some (at_pc (leaving 1) s)
  | some sv ↦ some (record s { sv = sv; pc = hooking })
]
main_step env hooking s = some (record s { hooked = env.hooks_install; pc = publishing })
main_step env publishing s = publish env s
main_step env arming s = some (record s { armed = true; watcher = polling; pc = serve_bind })
main_step env serve_bind s = elim (bind env.port s.sv) [
  | none ↦ some (at_pc clean_switch s)
  | some sv ↦ some (record s { sv = sv; pc = serve_test })
]
main_step env serve_test s = elim s.sv.server [
  | none ↦ some (at_pc clean_switch s)
  | some sock ↦ some (at_pc serve_mark s)
]
main_step env serve_mark s =
    some (record s { sv = record s.sv { serving = true }; pc = serve_enter })
main_step env serve_enter s = elim s.sv.server [
  | none ↦ some (at_pc loop_left s)
  | some sock ↦ some (at_pc (looping sock) s)
]
main_step env (looping sock) s = serve_forever env sock s
main_step env loop_left s =
    some (record s { sv = record s.sv { serving = false }; pc = clean_switch })
main_step env clean_switch s = some (record s { switch = false; pc = clean_sidecar })
main_step env clean_sidecar s = some (record s { sidecar = remove_sidecar env s; pc = clean_hooks })
main_step env clean_hooks s = some (record s { hooked = false; pc = cleaning entering })
main_step env (cleaning pc) s = main_stop cleaning 0 (stop_step main_code pc s.sv) s
main_step env (aborting pc) s = main_stop aborting 1 (stop_step main_code pc s.sv) s
main_step env (leaving code) s = some (at_pc (exited code) s)
main_step env (exited code) s = none

-- A step of the handler, which sets the event when it starts and then calls `stop`.
unfoldable pub handler_stop : Stopped → Process → Option Process
handler_stop blocked s = none
handler_stop (goes_on pc sv) s = some (record s { sv = sv; handler = some pc })
handler_stop (returns sv) s = some (record s { sv = sv; handler = none })

unfoldable pub watcher_stop : Stopped → Process → Option Process
watcher_stop blocked s = none
watcher_stop (goes_on pc sv) s = some (record s { sv = sv; watcher = stopping pc })
watcher_stop (returns sv) s = some (record s { sv = sv; watcher = finished })

-- A turn of the watcher's loop, or a step of its `stop`.
unfoldable pub watcher_step : Watcher → Process → Option Process
watcher_step absent s = none
watcher_step finished s = none
watcher_step polling s =
    if s.event
    then some (record s { watcher = finished })
    else if s.switch
    then some (record s { event = true; watcher = stopping entering })
    else some s
watcher_step (stopping pc) s = watcher_stop (stop_step watcher_code pc s.sv) s

-- Whose turn it is: `main`, the handler, the watcher; a signal comes, or the switch is written.
pub data Turn : Type 0 where
  main : Env → Turn
  handler_runs watcher_runs signal switch_written : Turn

unfoldable pub has_exited : Pc → Bool
has_exited (exited code) = true
has_exited _ = false

-- While a handler runs, `main` does not.
unfoldable pub step_running : Turn → Process → Option Process
step_running (main env) s = elim s.handler [ none ↦ main_step env s.pc s | some pc ↦ none ]
step_running handler_runs s = elim s.handler [
  | none ↦ none
  | some pc ↦ handler_stop (stop_step handler_code pc s.sv) s
]
step_running watcher_runs s = watcher_step s.watcher s
step_running signal s = elim s.handler [
  | none ↦ if s.armed then some (record s { event = true; handler = some entering }) else none
  | some pc ↦ none
]
step_running switch_written s = some (record s { switch = true })

-- A process that has exited takes no step.
unfoldable pub step : Turn → Process → Option Process
step t s = if has_exited s.pc then none else step_running t s

unfoldable pub run : List Turn → Process → Option Process
run [] s = some s
run (t ∷ ts) s = elim (step t s) [ none ↦ none | some s' ↦ run ts s' ]
