-- ===== src/Headless/Phases.antt =====
-- Which threads there are, and what the flags of the server say, by where `main` stands.
use ida_pro_mcp.Prelude.{
  ℕ, Bool, true, false, Option, none, some, ◌≡◌, ◌≢◌, refl, Bool-cases, Option-cases, inl, inr,
}
use ida_pro_mcp.Server.{
  Socket, Owner, handler_code, watcher_code, Server, bind, StopPc, entering, holding, taken,
  waiting, closing, Stopped, blocked, goes_on, returns, stop_step, has_ended, was_asked,
}
use ida_pro_mcp.Headless.{
  Pc, starting, hooking, publishing, arming, serve_bind, serve_test, serve_mark, serve_enter,
  looping, loop_left, clean_switch, clean_sidecar, clean_hooks, cleaning, aborting, leaving, exited,
  Watcher, absent, polling, finished, stopping, Process, initial, Env, main_stop, main_step,
  handler_stop, watcher_stop, watcher_step, Turn, step_running,
}
use ida_pro_mcp.Headless.Runs.{After, no_step, reaches, step_running-After}
use mathlib.Core.Path.{subst}

-- Before the watcher starts; between that and the flag; behind the loop.
unfoldable pub is_early : Pc → Bool
is_early starting = true
is_early hooking = true
is_early publishing = true
is_early arming = true
is_early _ = false

unfoldable pub is_unmarked : Pc → Bool
is_unmarked serve_bind = true
is_unmarked serve_test = true
is_unmarked serve_mark = true
is_unmarked _ = false

unfoldable pub is_behind : Pc → Bool
is_behind loop_left = true
is_behind clean_switch = true
is_behind clean_sidecar = true
is_behind clean_hooks = true
is_behind (cleaning p) = true
is_behind (aborting p) = true
is_behind (leaving code) = true
is_behind (exited code) = true
is_behind _ = false

-- The indices: `main`, the watcher, whether the handlers are installed, the handler, `_serving`, and
-- the object whose loop has ended.
pub data Phase : Pc → Watcher → Bool → Option StopPc → Bool → Option ℕ → Type 0 where
  early : {pc : Pc} → is_early pc ≡ true → Phase pc absent false none false none
  unmarked :
      {pc : Pc} {w : Watcher} {h : Option StopPc}
      → is_unmarked pc ≡ true
      → Phase pc w true h false none
  marked : {w : Watcher} {h : Option StopPc} → Phase serve_enter w true h true none
  serves : {k : Socket} {w : Watcher} {h : Option StopPc} → Phase (looping k) w true h true none
  behind :
      {pc : Pc} {w : Watcher} {a : Bool} {h : Option StopPc} {b : Bool} {e : Option ℕ}
      → is_behind pc ≡ true
      → Phase pc w a h b e

abbrev pub InPhase : Process → Type 0
InPhase s = Phase s.pc s.watcher s.armed s.handler s.sv.serving s.sv.ended

-- A step of `stop` changes neither `_serving` nor which loop has ended.
pub data Keeps (sv : Server) : Stopped → Type 0 where
  keeps_blocked : Keeps sv blocked
  keeps_on :
      (pc : StopPc) (after : Server)
      → after.serving ≡ sv.serving
      → after.ended ≡ sv.ended
      → Keeps sv (goes_on pc after)
  keeps_returns :
      (after : Server)
      → after.serving ≡ sv.serving
      → after.ended ≡ sv.ended
      → Keeps sv (returns after)

pub stop_step-Keeps : (who : Owner) (pc : StopPc) (sv : Server) → Keeps sv (stop_step who pc sv)
unfolding stop_step
stop_step-Keeps who entering sv = elim (Option-cases sv.lock) [
  | inl e ↦ rw e (keeps_on _ _ refl refl)
  | inr (other, e) ↦ rw e keeps_blocked
]
stop_step-Keeps who holding sv = elim (Option-cases sv.server) [
  | inl e ↦ rw e (keeps_returns _ refl refl)
  | inr (k, e) ↦ rw e (keeps_on _ _ refl refl)
]
stop_step-Keeps who (taken k) sv = elim (Bool-cases sv.serving) [
  | inl e ↦ rw e (keeps_on _ _ refl refl)
  | inr e ↦ rw e (keeps_on _ _ refl refl)
]
stop_step-Keeps who (waiting k) sv = elim (Bool-cases (has_ended k.id sv)) [
  | inl e ↦ rw e (keeps_on _ _ refl refl)
  | inr e ↦ rw e keeps_blocked
]
stop_step-Keeps who (closing k) sv = keeps_returns _ refl refl

main_stop-InPhase :
    (frame : StopPc → Pc) (code : ℕ)
    → ((p : StopPc) → is_behind (frame p) ≡ true)
    → (o : Stopped) (s : Process) → After InPhase (main_stop frame code o s)
unfolding main_stop is_behind
main_stop-InPhase frame code f blocked s = no_step
main_stop-InPhase frame code f (goes_on p sv) s = reaches (behind (f p))
main_stop-InPhase frame code f (returns sv) s = reaches (behind refl)

-- `bind` changes neither flag.
bind-InPhase :
    (given : Option ℕ) (s : Process) (failed reached : Pc)
    → is_behind failed ≡ true
    → Phase reached s.watcher s.armed s.handler s.sv.serving s.sv.ended
    → After InPhase (elim (bind given s.sv) [
      | none ↦ some (record s { pc = failed })
      | some sv ↦ some (record s { sv = sv; pc = reached })
    ])
unfolding bind
bind-InPhase given s failed reached f h = elim (Option-cases s.sv.server) [
  | inl e ↦ elim (Option-cases given) [
    | inl e' ↦ rw (e, e') (reaches (behind f))
    | inr (port, e') ↦ rw (e, e') (reaches h)
  ]
  | inr (k, e) ↦ rw e (reaches h)
]

early-move :
    {pc : Pc} {w : Watcher} {a : Bool} {h : Option StopPc} {b : Bool} {e : Option ℕ} (next : Pc)
    → is_early pc ≡ true
    → is_unmarked pc ≡ false
    → is_behind pc ≡ false
    → is_early next ≡ true
    → Phase pc w a h b e
    → Phase next w a h b e
unfolding is_early
early-move next x y z n (early f) = early n
early-move next x y z n (unmarked f) = absurd cc
early-move next x y z n marked = absurd cc
early-move next x y z n serves = absurd cc
early-move next x y z n (behind f) = absurd cc

unmarked-move :
    {pc : Pc} {w : Watcher} {a : Bool} {h : Option StopPc} {b : Bool} {e : Option ℕ} (next : Pc)
    → is_unmarked pc ≡ true
    → is_early pc ≡ false
    → is_behind pc ≡ false
    → is_unmarked next ≡ true
    → Phase pc w a h b e
    → Phase next w a h b e
unfolding is_unmarked
unmarked-move next x y z n (early f) = absurd cc
unmarked-move next x y z n (unmarked f) = unmarked n
unmarked-move next x y z n marked = absurd cc
unmarked-move next x y z n serves = absurd cc
unmarked-move next x y z n (behind f) = absurd cc

arm :
    {w : Watcher} {a : Bool} {h : Option StopPc} {b : Bool} {e : Option ℕ}
    → Phase arming w a h b e
    → Phase serve_bind polling true h b e
unfolding is_unmarked is_behind
arm (early f) = unmarked refl
arm (unmarked f) = absurd cc
arm (behind f) = absurd cc

mark :
    {w : Watcher} {a : Bool} {h : Option StopPc} {b : Bool} {e : Option ℕ}
    → Phase serve_mark w a h b e
    → Phase serve_enter w a h true e
unfolding is_early is_behind
mark (early f) = absurd cc
mark (unmarked f) = marked
mark (behind f) = absurd cc

enter :
    {w : Watcher} {a : Bool} {h : Option StopPc} {b : Bool} {e : Option ℕ} (k : Socket)
    → Phase serve_enter w a h b e
    → Phase (looping k) w a h b e
unfolding is_early is_behind is_unmarked
enter k (early f) = absurd cc
enter k (unmarked f) = absurd cc
enter k marked = serves
enter k (behind f) = absurd cc

main_step-InPhase :
    (env : Env) (pc : Pc) (s : Process)
    → s.pc ≡ pc
    → Phase pc s.watcher s.armed s.handler s.sv.serving s.sv.ended
    → After InPhase (main_step env pc s)
unfolding main_step is_behind is_early is_unmarked
main_step-InPhase env starting s at p =
    bind-InPhase env.port s (leaving 1) hooking refl (early-move hooking refl refl refl refl p)
main_step-InPhase env hooking s at p = reaches (early-move publishing refl refl refl refl p)
main_step-InPhase env publishing s at p = elim (Bool-cases env.input_loaded) [
  | inl e ↦ elim (Bool-cases env.is_written) [
    | inl e' ↦ rw (e, e') (reaches (early-move arming refl refl refl refl p))
    | inr e' ↦ rw (e, e') (reaches (behind refl))
  ]
  | inr e ↦ rw e (reaches (behind refl))
]
main_step-InPhase env arming s at p = reaches (arm p)
main_step-InPhase env serve_bind s at p =
    bind-InPhase env.port s clean_switch serve_test refl
      (unmarked-move serve_test refl refl refl refl p)
main_step-InPhase env serve_test s at p = elim (Option-cases s.sv.server) [
  | inl e ↦ rw e (reaches (behind refl))
  | inr (k, e) ↦ rw e (reaches (unmarked-move serve_mark refl refl refl refl p))
]
main_step-InPhase env serve_mark s at p = reaches (mark p)
main_step-InPhase env serve_enter s at p = elim (Option-cases s.sv.server) [
  | inl e ↦ rw e (reaches (behind refl))
  | inr (k, e) ↦ rw e (reaches (enter k p))
]
main_step-InPhase env (looping k) s at p = elim (Bool-cases env.crash) [
  | inl e ↦ rw e (reaches (behind refl))
  | inr e ↦ elim (Bool-cases (was_asked k.id s.sv)) [
    | inl e' ↦ rw (e, e') (reaches (behind refl))
    | inr e' ↦ rw (e, e') (reaches (rw at p))
  ]
]
main_step-InPhase env loop_left s at p = reaches (behind refl)
main_step-InPhase env clean_switch s at p = reaches (behind refl)
main_step-InPhase env clean_sidecar s at p = reaches (behind refl)
main_step-InPhase env clean_hooks s at p = reaches (behind refl)
main_step-InPhase env (cleaning q) s at p = main_stop-InPhase cleaning 0 (λ q. refl) _ s
main_step-InPhase env (aborting q) s at p = main_stop-InPhase aborting 1 (λ q. refl) _ s
main_step-InPhase env (leaving code) s at p = reaches (behind refl)
main_step-InPhase env (exited code) s at p = no_step

-- The handler and the watcher come to stand elsewhere.
handler_move :
    {pc : Pc} {w : Watcher} {a : Bool} {p : StopPc} {b : Bool} {e : Option ℕ} (h : Option StopPc)
    → Phase pc w a (some p) b e
    → Phase pc w a h b e
handler_move h (unmarked f) = unmarked f
handler_move h marked = marked
handler_move h serves = serves
handler_move h (behind f) = behind f

armed_move :
    {pc : Pc} {w : Watcher} {g : Option StopPc} {b : Bool} {e : Option ℕ} (h : Option StopPc)
    → Phase pc w true g b e
    → Phase pc w true h b e
armed_move h (unmarked f) = unmarked f
armed_move h marked = marked
armed_move h serves = serves
armed_move h (behind f) = behind f

watcher_move :
    {pc : Pc} {w : Watcher} {a : Bool} {h : Option StopPc} {b : Bool} {e : Option ℕ}
    (next : Watcher)
    → w ≢ absent
    → Phase pc w a h b e
    → Phase pc next a h b e
watcher_move next n (early f) = absurd (n refl)
watcher_move next n (unmarked f) = unmarked f
watcher_move next n marked = marked
watcher_move next n serves = serves
watcher_move next n (behind f) = behind f

handler_stop-InPhase :
    (s : Process) (p : StopPc) (o : Stopped)
    → Phase s.pc s.watcher s.armed (some p) s.sv.serving s.sv.ended
    → Keeps s.sv o
    → After InPhase (handler_stop o s)
unfolding handler_stop
handler_stop-InPhase s p _ f keeps_blocked = no_step
handler_stop-InPhase s p _ f (keeps_on q sv a b) = reaches (rw (a, b) (handler_move (some q) f))
handler_stop-InPhase s p _ f (keeps_returns sv a b) = reaches (rw (a, b) (handler_move none f))

watcher_stop-InPhase :
    (s : Process) (w : Watcher) (o : Stopped)
    → w ≢ absent
    → Phase s.pc w s.armed s.handler s.sv.serving s.sv.ended
    → Keeps s.sv o
    → After InPhase (watcher_stop o s)
unfolding watcher_stop
watcher_stop-InPhase s w _ n f keeps_blocked = no_step
watcher_stop-InPhase s w _ n f (keeps_on q sv a b) =
    reaches (rw (a, b) (watcher_move (stopping q) n f))
watcher_stop-InPhase s w _ n f (keeps_returns sv a b) =
    reaches (rw (a, b) (watcher_move finished n f))

watcher_step-InPhase :
    (s : Process) (w : Watcher)
    → s.watcher ≡ w
    → Phase s.pc w s.armed s.handler s.sv.serving s.sv.ended
    → After InPhase (watcher_step w s)
unfolding watcher_step
watcher_step-InPhase s absent at f = no_step
watcher_step-InPhase s finished at f = no_step
watcher_step-InPhase s polling at f = elim (Bool-cases s.event) [
  | inl e ↦ rw e (reaches (watcher_move finished (λ x. absurd cc) f))
  | inr e ↦ elim (Bool-cases s.switch) [
    | inl e' ↦ rw (e, e') (reaches (watcher_move (stopping entering) (λ x. absurd cc) f))
    | inr e' ↦ rw (e, e') (reaches (rw at f))
  ]
]
watcher_step-InPhase s (stopping p) at f =
    watcher_stop-InPhase s (stopping p) _ (λ x. absurd cc) f (stop_step-Keeps watcher_code p s.sv)

abbrev AtHandler : Process → Option StopPc → Type 0
AtHandler s h = Phase s.pc s.watcher s.armed h s.sv.serving s.sv.ended

signal-InPhase :
    (s : Process) (a : Bool)
    → a ≡ true
    → Phase s.pc s.watcher a s.handler s.sv.serving s.sv.ended
    → Phase s.pc s.watcher a (some entering) s.sv.serving s.sv.ended
signal-InPhase s true e f = armed_move (some entering) f
signal-InPhase s false e f = absurd cc

pub step-InPhase : (t : Turn) (s : Process) → InPhase s → After InPhase (step_running t s)
step-InPhase t s f =
    step_running-After InPhase t s (λ env e h. main_step-InPhase env s.pc s refl f)
      (λ p e.
        handler_stop-InPhase s p _ (subst (AtHandler s) e f) (stop_step-Keeps handler_code p s.sv))
      (watcher_step-InPhase s s.watcher refl f) (λ e h a. signal-InPhase s s.armed a f) f

pub initial-InPhase : (b : Bool) → InPhase (initial b)
unfolding is_early
initial-InPhase b = early refl
