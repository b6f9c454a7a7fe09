-- ===== src/Headless/Hangs.antt =====
-- Where the process inside IDA does not come to an end: a signal handler that waits for the loop
-- on top of which it runs, and a watcher that waits for a loop which is never entered.
use mathlib.Core.Path.{subst}
use ida_pro_mcp.Prelude.{
  ℕ, Bool, true, false, Option, none, some, List, [], ◌∷◌, ◌≡◌, refl, ap, ◌∙◌, arith, Bool-cases,
  inl, inr,
}
use ida_pro_mcp.Server.{
  Socket, handler_code, watcher_code, StopPc, entering, holding, taken, waiting, closing, Stopped,
  stop_step, has_ended,
}
use ida_pro_mcp.Headless.{
  Pc, serve_enter, looping, Watcher, absent, polling, finished, stopping, Process, initial,
  handler_stop, watcher_stop, watcher_step, Turn, handler_runs, signal, step_running, step, run,
  has_exited,
}
use ida_pro_mcp.Headless.Runs.{
  After, no_step, reaches, run-After, After-some, step_running-After, all-true,
}
use ida_pro_mcp.Headless.Tied.{run-IsTied}
use ida_pro_mcp.Headless.Phases.{
  Phase, early, unmarked, marked, serves, behind, is_early, is_unmarked, is_behind, InPhase,
  step-InPhase, initial-InPhase, Keeps, keeps_blocked, keeps_on, keeps_returns, stop_step-Keeps,
}

-- The handler is in `shutdown` of `k`, and `main` stands at `pc`; the loop of `k` has not ended.
pub record Waits (k : Socket) (pc : Pc) (sidecar : Option ℕ) (s : Process) : Type 0 where
  pub blocked_at : s.handler ≡ some (waiting k)
  pub not_ended : has_ended k.id s.sv ≡ false
  pub stands : s.pc ≡ pc
  pub published : s.sidecar ≡ sidecar

module _ {k : Socket} {pc : Pc} {sidecar : Option ℕ} where
  watcher_stop-Waits :
      (o : Stopped) (s : Process)
      → Keeps s.sv o
      → Waits k pc sidecar s
      → After (Waits k pc sidecar) (watcher_stop o s)
  unfolding watcher_stop has_ended
  watcher_stop-Waits _ s keeps_blocked w = no_step
  watcher_stop-Waits _ s (keeps_on p sv a b) w = reaches (ground arith)
  watcher_stop-Waits _ s (keeps_returns sv a b) w = reaches (ground arith)

  watcher_step-Waits :
      (w : Watcher) (s : Process)
      → Waits k pc sidecar s
      → After (Waits k pc sidecar) (watcher_step w s)
  unfolding watcher_step
  watcher_step-Waits absent s h = no_step
  watcher_step-Waits finished s h = no_step
  watcher_step-Waits polling s h = elim (Bool-cases s.event) [
    | inl e ↦ rw e (reaches (ground arith))
    | inr e ↦ elim (Bool-cases s.switch) [
      | inl e' ↦ rw (e, e') (reaches (ground arith))
      | inr e' ↦ rw (e, e') (reaches (ground arith))
    ]
  ]
  watcher_step-Waits (stopping p) s h =
      watcher_stop-Waits _ s (stop_step-Keeps watcher_code p s.sv) h

  same_socket :
      {j : Socket} (s : Process) → s.handler ≡ some (waiting j) → Waits k pc sidecar s → j ≡ k
  same_socket s e h = ground arith

  handler_stop-Waits :
      (p : StopPc) (s : Process)
      → s.handler ≡ some p
      → Waits k pc sidecar s
      → After (Waits k pc sidecar) (handler_stop (stop_step handler_code p s.sv) s)
  unfolding handler_stop stop_step
  handler_stop-Waits (waiting j) s e h = rw (same_socket s e h, h.not_ended) no_step
  handler_stop-Waits entering s e h = absurd (ground arith)
  handler_stop-Waits holding s e h = absurd (ground arith)
  handler_stop-Waits (taken j) s e h = absurd (ground arith)
  handler_stop-Waits (closing j) s e h = absurd (ground arith)

  step-Waits :
      (t : Turn) (s : Process)
      → Waits k pc sidecar s
      → After (Waits k pc sidecar) (step_running t s)
  step-Waits t s h =
      step_running-After (Waits k pc sidecar) t s (λ env e f. absurd (ground arith))
        (λ p e. handler_stop-Waits p s e h) (watcher_step-Waits s.watcher s h)
        (λ e f a. absurd (ground arith)) (ground arith)

  run-Waits :
      (ts : List Turn) (s : Process) → Waits k pc sidecar s → After (Waits k pc sidecar) (run ts s)
  run-Waits ts s h =
      run-After (Waits k pc sidecar) (λ t. true) (λ t s a f. step-Waits t s f) ts s (all-true ts) h

-- What the phase says of a process whose loop runs, or is about to.
pub serves_flags :
    {j : Socket} {w : Watcher} {a b : Bool} {h : Option StopPc} {e : Option ℕ}
    → Phase (looping j) w a h b e
    → (a ≡ true) × (b ≡ true) × (e ≡ none)
unfolding is_early is_unmarked is_behind
serves_flags (early f) = absurd cc
serves_flags (unmarked f) = absurd cc
serves_flags serves = (refl, refl, refl)
serves_flags (behind f) = absurd cc

abbrev pub AtPc : Process → Pc → Type 0
AtPc s pc = Phase pc s.watcher s.armed s.handler s.sv.serving s.sv.ended

pub run-InPhase : (ts : List Turn) (switch : Bool) → After InPhase (run ts (initial switch))
run-InPhase ts switch =
    run-After InPhase (λ t. true) (λ t s a f. step-InPhase t s f) ts (initial switch) (all-true ts)
      (initial-InPhase switch)

-- The same, when the loop is about to be entered.
pub marked_flags :
    {w : Watcher} {a b : Bool} {h : Option StopPc} {e : Option ℕ}
    → Phase serve_enter w a h b e
    → (b ≡ true) × (e ≡ none)
unfolding is_early is_unmarked is_behind
marked_flags (early f) = absurd cc
marked_flags (unmarked f) = absurd cc
marked_flags marked = (refl, refl)
marked_flags (behind f) = absurd cc

abbrev handler_taken : Socket → Process → Process
handler_taken k s = record s {
  event = true;
  handler = some (waiting k);
  sv = record s.sv { lock = some handler_code; server = none; asked = k.id ∷ s.sv.asked };
}

abbrev pub signal_turns : List Turn
signal_turns = signal ∷ handler_runs ∷ handler_runs ∷ handler_runs ∷ []

run-signal :
    (s : Process) (j k : Socket)
    → s.pc ≡ looping j
    → s.handler ≡ none
    → s.sv.lock ≡ none
    → s.sv.server ≡ some k
    → s.armed ≡ true
    → s.sv.serving ≡ true
    → run signal_turns s ≡ some (handler_taken k s)
unfolding run step has_exited step_running handler_stop stop_step
run-signal s j k at free unlocked bound armed serving = ground arith

-- A signal comes to a process of which the loop of `j` runs, whatever it has done before, when no
-- handler runs, no thread is behind the lock of `stop`, and the server has not been taken. Then the
-- server is `j`, and four steps later the handler waits in `shutdown` for the loop of `j`, on top of
-- which it runs. The handler cannot go on, and whatever the other threads do, it waits there for
-- good, `main` does not move, and the sidecar stays as it was published.
pub signal_hangs :
    (ts : List Turn) (switch : Bool) (s : Process) (j k : Socket)
    → run ts (initial switch) ≡ some s
    → s.pc ≡ looping j
    → s.handler ≡ none
    → s.sv.lock ≡ none
    → s.sv.server ≡ some k
    → (k ≡ j)
      × (waiting_at : Process) × (run signal_turns s ≡ some waiting_at)
      × (step handler_runs waiting_at ≡ none)
      × ((after : List Turn) (t : Process)
          → run after waiting_at ≡ some t
          → Waits j (looping j) s.sidecar t)
unfolding has_ended step has_exited step_running handler_stop stop_step
signal_hangs ts switch s j k ran at free unlocked bound =
    let (armed, serving, none_ended) =
      serves_flags (subst (AtPc s) at (After-some InPhase ran (run-InPhase ts switch))) in
    let same = run-IsTied ts switch s j k ran at bound in
    let own : s.sv.server ≡ some j = bound ∙ ap some same in
    (
      same,
      handler_taken j s,
      run-signal s j j at free unlocked own armed serving,
      ground arith,
      λ after t e.
          After-some (Waits j (looping j) s.sidecar) e
            (run-Waits after (handler_taken j s) (ground arith)),
    )
