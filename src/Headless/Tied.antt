-- ===== src/Headless/Tied.antt =====
-- The server of a process inside IDA is the one whose loop runs, or none.
use mathlib.Core.Path.{subst}
use ida_pro_mcp.Prelude.{
  ℕ, Bool, true, Option, none, some, List, ◌≡◌, ◌⊎◌, refl, sym, Bool-cases, Option-cases, inl, inr,
}
use ida_pro_mcp.Server.{
  Socket, Server, Owner, handler_code, watcher_code, StopPc, entering, holding, taken, waiting,
  closing, Stopped, blocked, goes_on, returns, stop_step, bind, was_asked, has_ended,
}
use ida_pro_mcp.Headless.{
  Pc, starting, hooking, publishing, arming, serve_bind, serve_test, serve_mark, serve_enter,
  looping, loop_left, clean_switch, clean_sidecar, clean_hooks, cleaning, aborting, leaving, exited,
  Watcher, absent, polling, finished, stopping, Process, initial, Env, main_stop, main_step,
  handler_stop, watcher_stop, watcher_step, Turn, step_running, run,
}
use ida_pro_mcp.Headless.Runs.{
  After, no_step, reaches, run-After, After-some, step_running-After, all-true,
}

abbrev pub Tied : Pc → Option Socket → Type 0
Tied (looping j) (some k) = k ≡ j
Tied (looping j) none = Unit
Tied _ server = Unit

abbrev pub IsTied : Process → Type 0
IsTied s = Tied s.pc s.sv.server

untied : (pc : Pc) → Tied pc none
untied (looping j) = tt
untied _ = tt

-- A step of `stop` leaves the server, or takes it.
data Frees (before : Option Socket) : Stopped → Type 0 where
  frees_blocked : Frees before blocked
  frees_on :
      (p : StopPc) (sv : Server)
      → (sv.server ≡ none) ⊎ (sv.server ≡ before)
      → Frees before (goes_on p sv)
  frees_returns :
      (sv : Server) → (sv.server ≡ none) ⊎ (sv.server ≡ before) → Frees before (returns sv)

held :
    (sv : Server) (o : Option Socket)
    → sv.server ≡ o
    → Frees sv.server (elim o [
      | none ↦ returns (record sv { lock = none })
      | some sock ↦ goes_on (taken sock) (record sv { server = none })
    ])
held sv none e = frees_returns _ (inl e)
held sv (some k) e = frees_on _ _ (inl refl)

stop_step-Frees : (who : Owner) (p : StopPc) (sv : Server) → Frees sv.server (stop_step who p sv)
unfolding stop_step
stop_step-Frees who entering sv = elim (Option-cases sv.lock) [
  | inl e ↦ rw e (frees_on _ _ (inr refl))
  | inr (o, e) ↦ rw e frees_blocked
]
stop_step-Frees who holding sv = held sv sv.server refl
stop_step-Frees who (taken k) sv = elim (Bool-cases sv.serving) [
  | inl e ↦ rw e (frees_on _ _ (inr refl))
  | inr e ↦ rw e (frees_on _ _ (inr refl))
]
stop_step-Frees who (waiting k) sv = elim (Bool-cases (has_ended k.id sv)) [
  | inl e ↦ rw e (frees_on _ _ (inr refl))
  | inr e ↦ rw e frees_blocked
]
stop_step-Frees who (closing k) sv = frees_returns _ (inr refl)

still :
    (pc : Pc) (before after : Option Socket)
    → (after ≡ none) ⊎ (after ≡ before)
    → Tied pc before
    → Tied pc after
still pc before after (inl e) h = subst (Tied pc) (sym e) (untied pc)
still pc before after (inr e) h = subst (Tied pc) (sym e) h

handler_stop-IsTied :
    (o : Stopped) (s : Process) → Frees s.sv.server o → IsTied s → After IsTied (handler_stop o s)
unfolding handler_stop
handler_stop-IsTied _ s frees_blocked h = no_step
handler_stop-IsTied _ s (frees_on p sv f) h = reaches (still s.pc s.sv.server sv.server f h)
handler_stop-IsTied _ s (frees_returns sv f) h = reaches (still s.pc s.sv.server sv.server f h)

watcher_stop-IsTied :
    (o : Stopped) (s : Process) → Frees s.sv.server o → IsTied s → After IsTied (watcher_stop o s)
unfolding watcher_stop
watcher_stop-IsTied _ s frees_blocked h = no_step
watcher_stop-IsTied _ s (frees_on p sv f) h = reaches (still s.pc s.sv.server sv.server f h)
watcher_stop-IsTied _ s (frees_returns sv f) h = reaches (still s.pc s.sv.server sv.server f h)

watcher_step-IsTied : (w : Watcher) (s : Process) → IsTied s → After IsTied (watcher_step w s)
unfolding watcher_step
watcher_step-IsTied absent s h = no_step
watcher_step-IsTied finished s h = no_step
watcher_step-IsTied polling s h = elim (Bool-cases s.event) [
  | inl e ↦ rw e (reaches h)
  | inr e ↦ elim (Bool-cases s.switch) [
    | inl e' ↦ rw (e, e') (reaches h)
    | inr e' ↦ rw (e, e') (reaches h)
  ]
]
watcher_step-IsTied (stopping p) s h =
    watcher_stop-IsTied _ s (stop_step-Frees watcher_code p s.sv) h

main_stop-IsTied :
    (frame : StopPc → Pc) (code : ℕ) (o : Stopped) (s : Process)
    → ((p : StopPc) (k : Option Socket) → Tied (frame p) k)
    → After IsTied (main_stop frame code o s)
unfolding main_stop
main_stop-IsTied frame code blocked s h = no_step
main_stop-IsTied frame code (goes_on p sv) s h = reaches (h p sv.server)
main_stop-IsTied frame code (returns sv) s h = reaches tt

-- Whatever `bind` comes to, when `main` is not in the loop behind it.
bound-IsTied :
    (o : Option Server) (s : Process) (failed next : Pc)
    → ((k : Option Socket) → Tied failed k)
    → ((k : Option Socket) → Tied next k)
    → After IsTied (elim o [
      | none ↦ some (record s { pc = failed })
      | some sv ↦ some (record s { sv = sv; pc = next })
    ])
bound-IsTied none s failed next f n = reaches (f s.sv.server)
bound-IsTied (some sv) s failed next f n = reaches (n sv.server)

main_step-IsTied :
    (env : Env) (pc : Pc) (s : Process) → s.pc ≡ pc → IsTied s → After IsTied (main_step env pc s)
unfolding main_step
main_step-IsTied env starting s at h =
    bound-IsTied (bind env.port s.sv) s (leaving 1) hooking (λ k. tt) (λ k. tt)
main_step-IsTied env hooking s at h = reaches tt
main_step-IsTied env publishing s at h = elim (Bool-cases env.input_loaded) [
  | inl e ↦ elim (Bool-cases env.is_written) [
    | inl e' ↦ rw (e, e') (reaches tt)
    | inr e' ↦ rw (e, e') (reaches tt)
  ]
  | inr e ↦ rw e (reaches tt)
]
main_step-IsTied env arming s at h = reaches tt
main_step-IsTied env serve_bind s at h =
    bound-IsTied (bind env.port s.sv) s clean_switch serve_test (λ k. tt) (λ k. tt)
main_step-IsTied env serve_test s at h = elim (Option-cases s.sv.server) [
  | inl e ↦ rw e (reaches tt)
  | inr (k, e) ↦ rw e (reaches tt)
]
main_step-IsTied env serve_mark s at h = reaches tt
main_step-IsTied env serve_enter s at h = elim (Option-cases s.sv.server) [
  | inl e ↦ rw e (reaches tt)
  | inr (k, e) ↦ rw e (reaches refl)
]
main_step-IsTied env (looping k) s at h = elim (Bool-cases env.crash) [
  | inl e ↦ rw e (reaches tt)
  | inr e ↦ elim (Bool-cases (was_asked k.id s.sv)) [
    | inl e' ↦ rw (e, e') (reaches tt)
    | inr e' ↦ rw (e, e') (reaches h)
  ]
]
main_step-IsTied env loop_left s at h = reaches tt
main_step-IsTied env clean_switch s at h = reaches tt
main_step-IsTied env clean_sidecar s at h = reaches tt
main_step-IsTied env clean_hooks s at h = reaches tt
main_step-IsTied env (cleaning q) s at h = main_stop-IsTied cleaning 0 _ s (λ p k. tt)
main_step-IsTied env (aborting q) s at h = main_stop-IsTied aborting 1 _ s (λ p k. tt)
main_step-IsTied env (leaving code) s at h = reaches tt
main_step-IsTied env (exited code) s at h = no_step

step-IsTied : (t : Turn) (s : Process) → IsTied s → After IsTied (step_running t s)
step-IsTied t s h =
    step_running-After IsTied t s (λ env e f. main_step-IsTied env s.pc s refl h)
      (λ p e. handler_stop-IsTied _ s (stop_step-Frees handler_code p s.sv) h)
      (watcher_step-IsTied s.watcher s h) (λ e f a. h) h

same_server :
    {pc : Pc} {server : Option Socket} {j k : Socket}
    → pc ≡ looping j
    → server ≡ some k
    → Tied pc server
    → k ≡ j
same_server {pc} {server} {j} {k} at bound h =
    subst (λ o. Tied (looping j) o) bound (subst (λ p. Tied p server) at h)

-- The server of a process of which a loop runs, if it has one, is that of the loop.
pub run-IsTied :
    (ts : List Turn) (switch : Bool) (s : Process) (j k : Socket)
    → run ts (initial switch) ≡ some s
    → s.pc ≡ looping j
    → s.sv.server ≡ some k
    → k ≡ j
run-IsTied ts switch s j k ran at bound = same_server at bound (
    After-some IsTied ran (
      run-After IsTied (λ t. true) (λ t s a f. step-IsTied t s f) ts (initial switch) (all-true ts)
        tt))
