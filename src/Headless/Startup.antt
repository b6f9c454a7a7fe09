-- ===== src/Headless/Startup.antt =====
-- A kill switch that is seen while `serve_in_current_thread` starts: `_serving` is set before the
-- loop is entered, and `stop` may take the server between the two.
use mathlib.Core.Path.{subst}
use ida_pro_mcp.Headless.Phases.{InPhase}
use ida_pro_mcp.Headless.Hangs.{AtPc, run-InPhase, marked_flags}
use ida_pro_mcp.Headless.Exclusion.{
  Grip, nobody, main_has, handler_has, watcher_has, main_frame, watcher_frame,
}
use ida_pro_mcp.Headless.Mutex.{run-IsExclusive}
use ida_pro_mcp.Prelude.{Bool, true, false, Option, none, some, List, [], ◌∷◌, ◌≡◌, refl, arith}
use ida_pro_mcp.Server.{
  Socket, Owner, handler_code, watcher_code, StopPc, entering, holding, taken, waiting, closing,
  stop_step, has_ended,
}
use ida_pro_mcp.Headless.{
  Pc, starting, hooking, publishing, arming, serve_bind, serve_test, serve_mark, serve_enter,
  looping, loop_left, clean_switch, clean_sidecar, clean_hooks, cleaning, aborting, leaving, exited,
  Watcher, stopping, Process, initial, Env, main_stop, main_step, handler_stop, watcher_stop,
  watcher_step, Turn, watcher_runs, step_running, step, run, has_exited,
}
use ida_pro_mcp.Headless.Runs.{
  After, no_step, reaches, run-After, After-some, step_running-After, all-true,
}

-- Behind the call of `serve_forever`, and before the lock of `stop`.
unfoldable pub is_tail : Pc → Bool
is_tail serve_enter = true
is_tail loop_left = true
is_tail clean_switch = true
is_tail clean_sidecar = true
is_tail clean_hooks = true
is_tail (cleaning entering) = true
is_tail _ = false

unfoldable pub is_outside : Option StopPc → Bool
is_outside none = true
is_outside (some entering) = true
is_outside _ = false

-- The watcher holds the lock, and waits for the end of a loop that nobody is in.
pub record Stuck (k : Socket) (s : Process) : Type 0 where
  pub waits : s.watcher ≡ stopping (waiting k)
  pub held : s.sv.lock ≡ some watcher_code
  pub taken_away : s.sv.server ≡ none
  pub not_ended : s.sv.ended ≡ none
  pub tail : is_tail s.pc ≡ true
  pub outside : is_outside s.handler ≡ true

module _ {k : Socket} where
  main_step-Stuck :
      (env : Env) (pc : Pc) (s : Process)
      → s.pc ≡ pc
      → Stuck k s
      → After (Stuck k) (main_step env pc s)
  unfolding main_step is_tail main_stop stop_step
  main_step-Stuck env serve_enter s at h = rw (h.taken_away) (reaches (ground arith))
  main_step-Stuck env loop_left s at h = reaches (ground arith)
  main_step-Stuck env clean_switch s at h = reaches (ground arith)
  main_step-Stuck env clean_sidecar s at h = reaches (ground arith)
  main_step-Stuck env clean_hooks s at h = reaches (ground arith)
  main_step-Stuck env (cleaning entering) s at h = rw (h.held) no_step
  main_step-Stuck env (cleaning holding) s at h = absurd (ground arith)
  main_step-Stuck env (cleaning (taken j)) s at h = absurd (ground arith)
  main_step-Stuck env (cleaning (waiting j)) s at h = absurd (ground arith)
  main_step-Stuck env (cleaning (closing j)) s at h = absurd (ground arith)
  main_step-Stuck env starting s at h = absurd (ground arith)
  main_step-Stuck env hooking s at h = absurd (ground arith)
  main_step-Stuck env publishing s at h = absurd (ground arith)
  main_step-Stuck env arming s at h = absurd (ground arith)
  main_step-Stuck env serve_bind s at h = absurd (ground arith)
  main_step-Stuck env serve_test s at h = absurd (ground arith)
  main_step-Stuck env serve_mark s at h = absurd (ground arith)
  main_step-Stuck env (looping j) s at h = absurd (ground arith)
  main_step-Stuck env (aborting p) s at h = absurd (ground arith)
  main_step-Stuck env (leaving code) s at h = absurd (ground arith)
  main_step-Stuck env (exited code) s at h = absurd (ground arith)

  handler_stop-Stuck :
      (p : StopPc) (s : Process)
      → s.handler ≡ some p
      → Stuck k s
      → After (Stuck k) (handler_stop (stop_step handler_code p s.sv) s)
  unfolding handler_stop stop_step is_outside
  handler_stop-Stuck entering s e h = rw (h.held) no_step
  handler_stop-Stuck holding s e h = absurd (ground arith)
  handler_stop-Stuck (taken j) s e h = absurd (ground arith)
  handler_stop-Stuck (waiting j) s e h = absurd (ground arith)
  handler_stop-Stuck (closing j) s e h = absurd (ground arith)

  watcher_step-Stuck : (s : Process) → Stuck k s → After (Stuck k) (watcher_step s.watcher s)
  unfolding watcher_step watcher_stop stop_step has_ended
  watcher_step-Stuck s h = rw (h.waits, h.not_ended) no_step

  step-Stuck : (t : Turn) (s : Process) → Stuck k s → After (Stuck k) (step_running t s)
  unfolding is_outside
  step-Stuck t s h =
      step_running-After (Stuck k) t s (λ env e f. main_step-Stuck env s.pc s refl h)
        (λ p e. handler_stop-Stuck p s e h) (watcher_step-Stuck s h) (λ e f a. ground arith)
        (ground arith)

  run-Stuck : (ts : List Turn) (s : Process) → Stuck k s → After (Stuck k) (run ts s)
  run-Stuck ts s h =
      run-After (Stuck k) (λ t. true) (λ t s a f. step-Stuck t s f) ts s (all-true ts) h

tail_runs : (pc : Pc) → is_tail pc ≡ true → has_exited pc ≡ false
unfolding is_tail has_exited
tail_runs pc h = ground arith

abbrev WatcherGrip : Process → Watcher → Type 0
WatcherGrip s w = Grip s.sv.lock (main_frame s.pc) s.handler (watcher_frame w)

watcher_holds :
    {l : Option Owner} {m h : Option StopPc}
    → Grip l m h (watcher_frame (stopping holding))
    → l ≡ some watcher_code
unfolding watcher_frame
watcher_holds (nobody m h w) = elim w [ ]
watcher_holds (main_has m h w) = elim w [ ]
watcher_holds (handler_has m h w) = elim w [ ]
watcher_holds (watcher_has m h w) = refl

abbrev server_taken : Socket → Process → Process
server_taken k s = record s {
  watcher = stopping (waiting k);
  sv = record s.sv { server = none; asked = k.id ∷ s.sv.asked };
}

-- The watcher is in `stop` when `main` has set `_serving` and is about to call `serve_forever`: it
-- takes the server and asks for the end of the loop. The loop is then never entered; the watcher
-- waits for its end with the lock in hand, and whatever happens the process does not exit.
pub stop_race_hangs :
    (ts : List Turn) (switch : Bool) (s : Process) (k : Socket)
    → run ts (initial switch) ≡ some s
    → s.pc ≡ serve_enter
    → s.handler ≡ none
    → s.watcher ≡ stopping holding
    → s.sv.server ≡ some k
    → (stuck_at : Process) × (run (watcher_runs ∷ watcher_runs ∷ []) s ≡ some stuck_at)
      × ((after : List Turn) (t : Process)
          → run after stuck_at ≡ some t
          → (has_exited t.pc ≡ false) × (t.watcher ≡ stopping (waiting k)))
unfolding run step has_exited step_running watcher_step watcher_stop stop_step is_tail is_outside
stop_race_hangs ts switch s k ran at free seen bound =
    let (serving, none_ended) =
      marked_flags (subst (AtPc s) at (After-some InPhase ran (run-InPhase ts switch))) in
    let held : s.sv.lock ≡ some watcher_code =
      watcher_holds (subst (WatcherGrip s) seen (run-IsExclusive ts switch s ran)) in
    (
      server_taken k s,
      ground arith,
      λ after t e.
          let h = After-some (Stuck k) e (run-Stuck after (server_taken k s) (ground arith)) in
          (tail_runs t.pc (h.tail), h.waits),
    )
