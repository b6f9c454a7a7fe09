-- ===== src/Headless/Runs.antt =====
-- Predicates that the steps of a process keep.
use mathlib.Core.Path.{subst}
use ida_pro_mcp.Prelude.{
  arith, Bool, true, false, if◌then◌else◌, Option, none, some, List, [], ◌∷◌, ◌≡◌, refl, all,
  Bool-cases, inl, inr,
}
use ida_pro_mcp.Server.{handler_code, StopPc, entering, stop_step}
use ida_pro_mcp.Headless.{
  Process, Env, Turn, main, handler_runs, watcher_runs, signal, switch_written, main_step,
  handler_stop, watcher_step, has_exited, step_running, step, run,
}

-- A predicate holds of the state that an attempted step reaches, if there is one.
pub data After (P : Process → Type 0) : Option Process → Type 0 where
  no_step : After P none
  reaches : {s : Process} → P s → After P (some s)

pub step-After :
    (P : Process → Type 0) (t : Turn) (s : Process)
    → After P (step_running t s)
    → After P (step t s)
unfolding step
step-After P t s h = elim (Bool-cases (has_exited s.pc)) [ inl e ↦ rw e no_step | inr e ↦ rw e h ]

After-then :
    (P : Process → Type 0) (f : Process → Option Process) {o : Option Process}
    → After P o
    → ((s : Process) → P s → After P (f s))
    → After P (elim o [ none ↦ none | some s ↦ f s ])
After-then P f no_step h = no_step
After-then P f (reaches p) h = h _ p

-- What each step of allowed turns keeps, a run of them keeps.
pub run-After :
    (P : Process → Type 0) (is_allowed : Turn → Bool)
    → ((t : Turn) (s : Process) → is_allowed t ≡ true → P s → After P (step_running t s))
    → (ts : List Turn) (s : Process) → all is_allowed ts ≡ true
    → P s
    → After P (run ts s)
unfolding run
run-After P is_allowed keeps [] s allowed p = reaches p
run-After P is_allowed keeps (t ∷ ts) s allowed p = elim (Bool-cases (is_allowed t)) [
  | inl e ↦
      After-then P (run ts) (step-After P t s (keeps t s e p))
        (λ s' q. run-After P is_allowed keeps ts s' (ground arith) q)
  | inr e ↦ absurd (ground arith)
]

here : (P : Process → Type 0) {s : Process} → After P (some s) → P s
here P (reaches p) = p

pub After-some :
    (P : Process → Type 0) {o : Option Process} {s : Process} → o ≡ some s → After P o → P s
After-some P e h = here P (subst (After P) e h)

After-option :
    (P : Process → Type 0) (o : Option StopPc) (x : Option Process) (f : StopPc → Option Process)
    → (o ≡ none → After P x)
    → ((p : StopPc) → o ≡ some p → After P (f p))
    → After P (elim o [ none ↦ x | some p ↦ f p ])
After-option P none x f h h' = h refl
After-option P (some p) x f h h' = h' p refl

After-guard :
    (P : Process → Type 0) (b : Bool) (s : Process)
    → (b ≡ true → P s)
    → After P (if b then some s else none)
After-guard P true s h = reaches (h refl)
After-guard P false s h = no_step

-- The kinds of steps.
pub step_running-After :
    (P : Process → Type 0) (t : Turn) (s : Process)
    → ((env : Env) → t ≡ main env → s.handler ≡ none → After P (main_step env s.pc s))
    → ((p : StopPc) → s.handler ≡ some p → After P (handler_stop (stop_step handler_code p s.sv) s))
    → After P (watcher_step s.watcher s)
    → (t ≡ signal
        → s.handler ≡ none
        → s.armed ≡ true
        → P (record s { event = true; handler = some entering }))
    → P (record s { switch = true })
    → After P (step_running t s)
unfolding step_running
step_running-After P (main env) s m h w g c =
    After-option P s.handler (main_step env s.pc s) (λ p. none) (m env refl) (λ p e. no_step)
step_running-After P handler_runs s m h w g c =
    After-option P s.handler none (λ p. handler_stop (stop_step handler_code p s.sv) s)
      (λ e. no_step) h
step_running-After P watcher_runs s m h w g c = w
step_running-After P signal s m h w g c =
    After-option P s.handler
      (if s.armed then some (record s { event = true; handler = some entering }) else none)
      (λ p. none) (λ e. After-guard P s.armed _ (λ a. g refl e a)) (λ p e. no_step)
step_running-After P switch_written s m h w g c = reaches c

pub After-both :
    {P Q : Process → Type 0} {o : Option Process} → After P o → After Q o → After (λ s. P s × Q s) o
After-both no_step no_step = no_step
After-both (reaches p) (reaches q) = reaches (p, q)

pub all-true : (ts : List Turn) → all (λ t. true) ts ≡ true
all-true [] = refl
all-true (t ∷ ts) = all-true ts
