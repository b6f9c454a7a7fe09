-- ===== src/Headless/Mutex.antt =====
-- How the steps of the process inside IDA move the lock of `Server.stop`.
use ida_pro_mcp.Prelude.{
  ℕ, Bool, true, Option, none, some, List, ◌≡◌, refl, ap, Bool-cases, Option-cases, inl, inr,
}
use ida_pro_mcp.Server.{
  Owner, main_code, handler_code, watcher_code, bind, StopPc, entering, Stopped, blocked, goes_on,
  returns, was_asked,
}
use ida_pro_mcp.Headless.Runs.{
  After, no_step, reaches, run-After, After-some, step_running-After, After-both, all-true,
}
use ida_pro_mcp.Headless.Phases.{
  Phase, early, unmarked, behind, is_unmarked, is_behind, InPhase, step-InPhase, initial-InPhase,
}
use mathlib.Core.Path.{subst}
use ida_pro_mcp.Headless.{
  Pc, starting, hooking, publishing, arming, serve_bind, serve_test, serve_mark, serve_enter,
  looping, loop_left, clean_switch, clean_sidecar, clean_hooks, cleaning, aborting, leaving, exited,
  Watcher, absent, polling, finished, stopping, Process, initial, Env, main_stop, main_step,
  handler_stop, watcher_stop, watcher_step, Turn, step_running, run,
}
use ida_pro_mcp.Headless.Exclusion.{
  main_frame, watcher_frame, elsewhere, at_lock, Grip, nobody, main_has, handler_has, watcher_has,
  IsExclusive, Locked, stop_step-lock, main_has-goes_on, main_has-returns, handler_has-goes_on,
  handler_has-returns, watcher_has-goes_on, watcher_has-returns,
}

abbrev pub IsReached : Process → Type 0
IsReached s = InPhase s × IsExclusive s

-- A thread that stood elsewhere comes before the lock.
main_aborts :
    {l : Option Owner} {h w : Option StopPc} → Grip l none h w → Grip l (some entering) h w
main_aborts (nobody m h w) = nobody at_lock h w
main_aborts (main_has m h w) = elim m [ ]
main_aborts (handler_has m h w) = handler_has at_lock h w
main_aborts (watcher_has m h w) = watcher_has at_lock h w

watcher_wakes :
    {l : Option Owner} {m h : Option StopPc} → Grip l m h none → Grip l m h (some entering)
watcher_wakes (nobody m h w) = nobody m h at_lock
watcher_wakes (main_has m h w) = main_has m h at_lock
watcher_wakes (handler_has m h w) = handler_has m h at_lock
watcher_wakes (watcher_has m h w) = elim w [ ]

handler_wakes :
    {l : Option Owner} {m w : Option StopPc} → Grip l m none w → Grip l m (some entering) w
handler_wakes (nobody m h w) = nobody m at_lock w
handler_wakes (main_has m h w) = main_has m at_lock w
handler_wakes (handler_has m h w) = elim h [ ]
handler_wakes (watcher_has m h w) = watcher_has m at_lock w

main_stop-After :
    (frame : StopPc → Pc) (code : ℕ)
    → ((p : StopPc) → main_frame (frame p) ≡ some p)
    → (o : Stopped) (s : Process) {m : Option StopPc}
    → Grip s.sv.lock m s.handler (watcher_frame s.watcher)
    → Locked main_code s.sv.lock m o
    → After IsExclusive (main_stop frame code o s)
unfolding main_stop main_frame
main_stop-After frame code f blocked s g l = no_step
main_stop-After frame code f (goes_on p sv) s g l = reaches (rw (f p) (main_has-goes_on g l))
main_stop-After frame code f (returns sv) s g l = reaches (main_has-returns g l)

bind-After :
    (given : Option ℕ) (s : Process) (failed reached : Pc)
    → Grip s.sv.lock (main_frame failed) s.handler (watcher_frame s.watcher)
    → Grip s.sv.lock (main_frame reached) s.handler (watcher_frame s.watcher)
    → After IsExclusive (elim (bind given s.sv) [
      | none ↦ some (record s { pc = failed })
      | some sv ↦ some (record s { sv = sv; pc = reached })
    ])
unfolding bind
bind-After given s failed reached f h = elim (Option-cases s.sv.server) [
  | inl e ↦ elim (Option-cases given) [
    | inl e' ↦ rw (e, e') (reaches f)
    | inr (port, e') ↦ rw (e, e') (reaches h)
  ]
  | inr (k, e) ↦ rw e (reaches h)
]

arming_absent :
    {w : Watcher} {a : Bool} {h : Option StopPc} {b : Bool} {e : Option ℕ}
    → Phase arming w a h b e
    → w ≡ absent
unfolding is_unmarked is_behind
arming_absent (early f) = refl
arming_absent (unmarked f) = absurd cc
arming_absent (behind f) = absurd cc

abbrev AtWatcher : Process → Option StopPc → Type 0
AtWatcher s w = Grip s.sv.lock none s.handler w

main_step-After :
    (env : Env) (pc : Pc) (s : Process)
    → s.pc ≡ pc
    → Phase pc s.watcher s.armed s.handler s.sv.serving s.sv.ended
    → Grip s.sv.lock (main_frame pc) s.handler (watcher_frame s.watcher)
    → After IsExclusive (main_step env pc s)
unfolding main_step main_frame watcher_frame
main_step-After env starting s at p g = bind-After env.port s (leaving 1) hooking g g
main_step-After env hooking s at p g = reaches g
main_step-After env publishing s at p g = elim (Bool-cases env.input_loaded) [
  | inl e ↦ elim (Bool-cases env.is_written) [
    | inl e' ↦ rw (e, e') (reaches g)
    | inr e' ↦ rw (e, e') (reaches (main_aborts g))
  ]
  | inr e ↦ rw e (reaches (main_aborts g))
]
main_step-After env arming s at p g =
    reaches (subst (AtWatcher s) (ap watcher_frame (arming_absent p)) g)
main_step-After env serve_bind s at p g = bind-After env.port s clean_switch serve_test g g
main_step-After env serve_test s at p g = elim (Option-cases s.sv.server) [
  | inl e ↦ rw e (reaches g)
  | inr (k, e) ↦ rw e (reaches g)
]
main_step-After env serve_mark s at p g = reaches g
main_step-After env serve_enter s at p g = elim (Option-cases s.sv.server) [
  | inl e ↦ rw e (reaches g)
  | inr (k, e) ↦ rw e (reaches g)
]
main_step-After env (looping k) s at p g = elim (Bool-cases env.crash) [
  | inl e ↦ rw e (reaches g)
  | inr e ↦ elim (Bool-cases (was_asked k.id s.sv)) [
    | inl e' ↦ rw (e, e') (reaches g)
    | inr e' ↦ rw (e, e') (reaches (rw at g))
  ]
]
main_step-After env loop_left s at p g = reaches g
main_step-After env clean_switch s at p g = reaches g
main_step-After env clean_sidecar s at p g = reaches g
main_step-After env clean_hooks s at p g = reaches (main_aborts g)
main_step-After env (cleaning q) s at p g =
    main_stop-After cleaning 0 (λ q. refl) _ s g (stop_step-lock main_code q s.sv)
main_step-After env (aborting q) s at p g =
    main_stop-After aborting 1 (λ q. refl) _ s g (stop_step-lock main_code q s.sv)
main_step-After env (leaving code) s at p g = reaches g
main_step-After env (exited code) s at p g = no_step

handler_stop-After :
    (s : Process) {h : Option StopPc} (o : Stopped)
    → Grip s.sv.lock (main_frame s.pc) h (watcher_frame s.watcher)
    → Locked handler_code s.sv.lock h o
    → After IsExclusive (handler_stop o s)
unfolding handler_stop
handler_stop-After s blocked g l = no_step
handler_stop-After s (goes_on p sv) g l = reaches (handler_has-goes_on g l)
handler_stop-After s (returns sv) g l = reaches (handler_has-returns g l)

watcher_stop-After :
    (s : Process) {w : Option StopPc} (o : Stopped)
    → Grip s.sv.lock (main_frame s.pc) s.handler w
    → Locked watcher_code s.sv.lock w o
    → After IsExclusive (watcher_stop o s)
unfolding watcher_stop watcher_frame
watcher_stop-After s blocked g l = no_step
watcher_stop-After s (goes_on p sv) g l = reaches (watcher_has-goes_on g l)
watcher_stop-After s (returns sv) g l = reaches (watcher_has-returns g l)

watcher_step-After :
    (s : Process) (w : Watcher)
    → s.watcher ≡ w
    → Grip s.sv.lock (main_frame s.pc) s.handler (watcher_frame w)
    → After IsExclusive (watcher_step w s)
unfolding watcher_step watcher_frame
watcher_step-After s absent at g = no_step
watcher_step-After s finished at g = no_step
watcher_step-After s polling at g = elim (Bool-cases s.event) [
  | inl e ↦ rw e (reaches g)
  | inr e ↦ elim (Bool-cases s.switch) [
    | inl e' ↦ rw (e, e') (reaches (watcher_wakes g))
    | inr e' ↦ rw (e, e') (reaches (rw at g))
  ]
]
watcher_step-After s (stopping p) at g =
    watcher_stop-After s _ g (stop_step-lock watcher_code p s.sv)

HandlerGrip : Process → Option StopPc → Type 0
HandlerGrip s h = Grip s.sv.lock (main_frame s.pc) h (watcher_frame s.watcher)

step-IsExclusive :
    (t : Turn) (s : Process) → InPhase s → IsExclusive s → After IsExclusive (step_running t s)
unfolding HandlerGrip
step-IsExclusive t s f g =
    step_running-After IsExclusive t s (λ env e h. main_step-After env s.pc s refl f g)
      (λ p e.
        handler_stop-After s _ (subst (HandlerGrip s) e g) (stop_step-lock handler_code p s.sv))
      (watcher_step-After s s.watcher refl g) (λ e h a. handler_wakes (subst (HandlerGrip s) h g)) g

pub run-Reached : (ts : List Turn) (switch : Bool) → After IsReached (run ts (initial switch))
unfolding main_frame watcher_frame
run-Reached ts switch =
    run-After IsReached (λ t. true)
      (λ t s a (f, g). After-both (step-InPhase t s f) (step-IsExclusive t s f g)) ts
      (initial switch) (all-true ts) (initial-InPhase switch, nobody elsewhere elsewhere elsewhere)

-- Of any process that has run from its start, whatever the order of the threads and of the signals,
-- the thread that is behind the lock of `Server.stop`, if there is one, is the lock's owner, and
-- no other thread is behind the lock.
pub run-IsExclusive :
    (ts : List Turn) (switch : Bool) (s : Process)
    → run ts (initial switch) ≡ some s
    → IsExclusive s
run-IsExclusive ts switch s e = (After-some IsReached e (run-Reached ts switch)).1
