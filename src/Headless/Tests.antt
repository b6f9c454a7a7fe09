-- ===== src/Headless/Tests.antt =====
-- Runs of the process inside IDA, and instances of the theorems on it.
use ida_pro_mcp.Prelude.{true, false, none, some, List, [], ◌∷◌, ◌++◌, ◌≡◌, refl, arith}
use ida_pro_mcp.Server.{
  Socket, bound_port, bind, watcher_code, holding, waiting, stop_step, was_asked,
}
use ida_pro_mcp.Headless.{
  looping, serve_enter, exited, polling, stopping, Process, initial, Env, main_step, watcher_stop,
  watcher_step, Turn, main, handler_runs, watcher_runs, switch_written, has_exited, step_running,
  step, run,
}
use ida_pro_mcp.Headless.Exclusion.{IsExclusive}
use ida_pro_mcp.Headless.Mutex.{run-IsExclusive}
use ida_pro_mcp.Headless.Hangs.{Waits, signal_turns, signal_hangs}
use ida_pro_mcp.Headless.Startup.{stop_race_hangs}
use ida_pro_mcp.Headless.Shutdown.{all_attempts}
use ida_pro_mcp.Headless.Shutdown.Rounds.{switch_ends}

abbrev env : Env
env = record {
  port = some 8000;
  hooks_install = true;
  input_loaded = true;
  is_written = true;
  is_removed = true;
  crash = false;
}

abbrev socket : Socket
socket = record { id = 0; port = 8000 }

abbrev start_turns : List Turn
start_turns = main env ∷ main env ∷ main env ∷ main env ∷ main env ∷ main env ∷ []

-- The loop runs, and the kill switch was written.
abbrev loop_turns : List Turn
loop_turns = start_turns ++ main env ∷ main env ∷ switch_written ∷ []

abbrev serving : Process
serving = record {
  sv = record {
    server = some socket;
    serving = true;
    lock = none;
    asked = [];
    ended = none;
    next_id = 1;
  };
  pc = looping socket;
  handler = none;
  watcher = polling;
  armed = true;
  event = false;
  switch = true;
  sidecar = some 8000;
  hooked = true;
}

runs_loop : run loop_turns (initial false) ≡ some serving
unfolding run step has_exited step_running main_step bind bound_port
runs_loop = refl

run-IsExclusive_example : IsExclusive serving
run-IsExclusive_example = run-IsExclusive loop_turns false serving runs_loop

signal_hangs_example :
    (socket ≡ socket)
    × (waiting_at : Process) × (run signal_turns serving ≡ some waiting_at)
    × (step handler_runs waiting_at ≡ none)
    × ((after : List Turn) (t : Process)
        → run after waiting_at ≡ some t
        → Waits socket (looping socket) (some 8000) t)
signal_hangs_example =
    signal_hangs loop_turns false serving socket socket runs_loop refl refl refl refl

-- The switch is seen before the loop is entered.
abbrev race_turns : List Turn
race_turns = start_turns ++ switch_written ∷ watcher_runs ∷ watcher_runs ∷ main env ∷ []

abbrev racing : Process
racing = record serving {
  sv = record serving.sv { lock = some watcher_code };
  pc = serve_enter;
  watcher = stopping holding;
  event = true;
}

runs_race : run race_turns (initial false) ≡ some racing
unfolding run step has_exited step_running main_step bind bound_port watcher_step watcher_stop
    stop_step
runs_race = refl

stop_race_hangs_example :
    (stuck_at : Process) × (run (watcher_runs ∷ watcher_runs ∷ []) racing ≡ some stuck_at)
    × ((after : List Turn) (t : Process)
        → run after stuck_at ≡ some t
        → (has_exited t.pc ≡ false) × (t.watcher ≡ stopping (waiting socket)))
stop_race_hangs_example =
    stop_race_hangs race_turns false racing socket runs_race refl refl refl refl

abbrev round : List Turn
round = main env ∷ watcher_runs ∷ []

abbrev rounds : List (List Turn)
rounds =
    round ∷ round ∷ round ∷ round ∷ round ∷ round ∷ round ∷ round ∷ round ∷ round ∷ round ∷ round
    ∷ round ∷ round ∷ round ∷ []

not_asked : was_asked socket.id serving.sv ≡ false
unfolding was_asked
not_asked = refl

switch_ends_example :
    ((all_attempts rounds serving).pc ≡ exited 0) × ((all_attempts rounds serving).sv.server ≡ none)
switch_ends_example =
    switch_ends loop_turns false serving socket rounds runs_loop refl refl (refl, refl, refl) refl
      refl not_asked (ground arith) (omega arith)
