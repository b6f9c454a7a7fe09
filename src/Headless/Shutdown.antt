-- ===== src/Headless/Shutdown.antt =====
-- The end of a process whose kill switch was written, when no signal comes and the loop does not
-- crash: `main` and the watcher take turns in any order, and a thread that is blocked stays.
pub mod Turns
pub mod Rounds
use ida_pro_mcp.Prelude.{
  ℕ, suc, ◌+◌, ◌≤◌, ◌<◌, Bool, true, false, Option, none, some, List, [], ◌∷◌, ◌≡◌, refl, arith,
  Bool-cases, inl, inr, not, any, all, length, All, if◌then◌else◌,
}
use ida_pro_mcp.Server.{
  Socket, Owner, main_code, handler_code, watcher_code, StopPc, entering, holding, taken, waiting,
  closing, stop_step, has_ended, was_asked,
}
use ida_pro_mcp.Headless.{
  Pc, starting, hooking, publishing, arming, serve_bind, serve_test, serve_mark, serve_enter,
  looping, loop_left, clean_switch, clean_sidecar, clean_hooks, cleaning, aborting, leaving, exited,
  Watcher, absent, polling, finished, stopping, Process, Env, main_stop, main_step, watcher_stop,
  watcher_step, Turn, main, watcher_runs, handler_runs, signal, switch_written, step_running, step,
  has_exited,
}

-- The turn of a thread that is blocked, or has ended, changes nothing.
abbrev pub attempt : Turn → Process → Process
attempt t s = elim (step t s) [ none ↦ s | some s' ↦ s' ]

abbrev pub attempts : List Turn → Process → Process
attempts [] s = s
attempts (t ∷ ts) s = attempts ts (attempt t s)

abbrev pub all_attempts : List (List Turn) → Process → Process
all_attempts [] s = s
all_attempts (ts ∷ rounds) s = all_attempts rounds (attempts ts s)

-- `main` or the watcher, and no crash.
abbrev pub is_quiet : Turn → Bool
is_quiet (main env) = not env.crash
is_quiet handler_runs = false
is_quiet watcher_runs = true
is_quiet signal = false
is_quiet switch_written = false

abbrev pub is_main : Turn → Bool
is_main (main env) = true
is_main handler_runs = false
is_main watcher_runs = false
is_main signal = false
is_main switch_written = false

abbrev pub is_watcher : Turn → Bool
is_watcher (main env) = false
is_watcher handler_runs = false
is_watcher watcher_runs = true
is_watcher signal = false
is_watcher switch_written = false

-- A round in which both threads have a turn.
abbrev pub IsRound : List Turn → Type 0
IsRound ts = (all is_quiet ts ≡ true) × (any is_main ts ≡ true) × (any is_watcher ts ≡ true)

-- The steps that `main` and the watcher have to go.
unfoldable pub main_left : Pc → ℕ
main_left (looping k) = 9
main_left loop_left = 8
main_left clean_switch = 7
main_left clean_sidecar = 6
main_left clean_hooks = 5
main_left (cleaning entering) = 4
main_left (cleaning holding) = 3
main_left (leaving code) = 1
main_left _ = 0

unfoldable pub watcher_left : Watcher → ℕ
watcher_left polling = 6
watcher_left (stopping entering) = 5
watcher_left (stopping holding) = 4
watcher_left (stopping (taken k)) = 3
watcher_left (stopping (waiting k)) = 2
watcher_left (stopping (closing k)) = 1
watcher_left _ = 0

unfoldable pub rank : Process → ℕ
unfolding main_left watcher_left
rank s = main_left s.pc + watcher_left s.watcher

pub data CleanPc : Pc → Type 0 where
  at_loop_left : CleanPc loop_left
  at_switch : CleanPc clean_switch
  at_sidecar : CleanPc clean_sidecar
  at_hooks : CleanPc clean_hooks
  at_stop : CleanPc (cleaning entering)

pub data Stage : Type 0 where
  seen called locked taking asking ending closes alone last left gone : Stage

abbrev pub Serves : Socket → Process → Type 0
Serves k s =
    (s.pc ≡ looping k)
    × (s.sv.serving ≡ true)
    × (was_asked k.id s.sv ≡ false)
    × (has_ended k.id s.sv ≡ false)

abbrev pub At : Socket → Stage → Process → Type 0
At k seen s =
    Serves k s
    × (s.watcher ≡ polling)
    × (s.event ≡ false)
    × (s.switch ≡ true)
    × (s.sv.lock ≡ none)
    × (s.sv.server ≡ some k)
At k called s =
    Serves k s × (s.watcher ≡ stopping entering) × (s.sv.lock ≡ none) × (s.sv.server ≡ some k)
At k locked s =
    Serves k s
    × (s.watcher ≡ stopping holding)
    × (s.sv.lock ≡ some watcher_code)
    × (s.sv.server ≡ some k)
At k taking s =
    Serves k s
    × (s.watcher ≡ stopping (taken k))
    × (s.sv.lock ≡ some watcher_code)
    × (s.sv.server ≡ none)
At k asking s =
    (s.pc ≡ looping k)
    × (was_asked k.id s.sv ≡ true)
    × (has_ended k.id s.sv ≡ false)
    × (s.watcher ≡ stopping (waiting k))
    × (s.sv.lock ≡ some watcher_code)
    × (s.sv.server ≡ none)
At k ending s =
    CleanPc s.pc
    × (has_ended k.id s.sv ≡ true)
    × (s.watcher ≡ stopping (waiting k))
    × (s.sv.lock ≡ some watcher_code)
    × (s.sv.server ≡ none)
At k closes s =
    CleanPc s.pc
    × (s.watcher ≡ stopping (closing k))
    × (s.sv.lock ≡ some watcher_code)
    × (s.sv.server ≡ none)
At k alone s = CleanPc s.pc × (s.watcher ≡ finished) × (s.sv.lock ≡ none) × (s.sv.server ≡ none)
At k last s = (s.pc ≡ cleaning holding) × (s.watcher ≡ finished) × (s.sv.server ≡ none)
At k left s = (s.pc ≡ leaving 0) × (s.watcher ≡ finished) × (s.sv.server ≡ none)
At k gone s = (s.pc ≡ exited 0) × (s.watcher ≡ finished) × (s.sv.server ≡ none)

pub record Closing (k : Socket) (s : Process) : Type 0 where
  pub free : s.handler ≡ none
  pub stage : Stage
  pub at : At k stage s

-- A turn changes nothing, or brings the end nearer.
pub data Moved (k : Socket) (s : Process) : Process → Type 0 where
  idles : Moved k s s
  advances : (t : Process) → Closing k t → rank t < rank s → Moved k s t
