-- ===== src/Headless/Shutdown/Rounds.antt =====
-- Rounds of turns bring a process whose kill switch was written to its end.
use mathlib.Core.Path.{subst}
use ida_pro_mcp.Prelude.{
  ◌≤◌, ◌<◌, Bool, true, false, none, some, List, [], ◌∷◌, ◌≡◌, refl, sym, ◌⊎◌, inl, inr, any, all,
  length, All, arith, ◌&&◌-true,
}
use ida_pro_mcp.Server.{Socket, has_ended, was_asked}
use ida_pro_mcp.Headless.{
  Pc, looping, exited, polling, Process, initial, Env, Turn, main, handler_runs, watcher_runs,
  signal, switch_written, run,
}
use ida_pro_mcp.Headless.Runs.{After-some}
use ida_pro_mcp.Headless.Phases.{InPhase}
use ida_pro_mcp.Headless.Hangs.{AtPc, run-InPhase, serves_flags}
use ida_pro_mcp.Headless.Shutdown.{
  attempt, attempts, all_attempts, is_quiet, is_main, is_watcher, IsRound, main_left, watcher_left,
  rank, CleanPc, at_loop_left, at_switch, at_sidecar, at_hooks, at_stop, Stage, seen, called,
  locked, taking, asking, ending, closes, alone, last, left, gone, At, Closing, Moved, idles,
  advances,
}
use ida_pro_mcp.Headless.Shutdown.Turns.{watcher_turn, main_turn, watcher_stays, main_stays}

-- Whoever has had a turn could not go on.
record Idled (s : Process) (ts : List Turn) : Type 0 where
  main_idled :
      any is_main ts ≡ true → (env : Env) × (env.crash ≡ false) × (attempt (main env) s ≡ s)
  watcher_idled : any is_watcher ts ≡ true → attempt watcher_runs s ≡ s

abbrev Progress : Process → List Turn → Process → Type 0
Progress s ts t = (rank t < rank s) ⊎ ((t ≡ s) × Idled s ts)

quiet_turn :
    {k : Socket} (t : Turn) (s : Process)
    → is_quiet t ≡ true
    → Closing k s
    → Moved k s (attempt t s)
quiet_turn {k} (main env) s q c = main_turn k s (c.free) env (c.stage) (ground arith) (c.at)
quiet_turn handler_runs s q c = absurd cc
quiet_turn {k} watcher_runs s q c = watcher_turn k s (c.free) (c.stage) (c.at)
quiet_turn signal s q c = absurd cc
quiet_turn switch_written s q c = absurd cc

add_turn :
    (t : Turn) (ts : List Turn) (s : Process)
    → is_quiet t ≡ true
    → attempt t s ≡ s
    → Idled s ts
    → Idled s (t ∷ ts)
add_turn (main env) ts s q e i = record {
  main_idled = λ a. (env, ground arith, e);
  watcher_idled = i.watcher_idled;
}
add_turn handler_runs ts s q e i = absurd cc
add_turn watcher_runs ts s q e i = record { main_idled = i.main_idled; watcher_idled = λ a. e }
add_turn signal ts s q e i = absurd cc
add_turn switch_written ts s q e i = absurd cc

Round : Socket → Process → List Turn → Type 0
Round k s ts = Closing k (attempts ts s) × Progress s ts (attempts ts s)

after_turn :
    {k : Socket} (t : Turn) (ts : List Turn) (s : Process) {u : Process}
    → is_quiet t ≡ true
    → Closing k s
    → Moved k s u
    → u ≡ attempt t s
    → (Closing k u → Round k u ts)
    → Round k s (t ∷ ts)
unfolding Round
after_turn {k} t ts s q c idles e ih =
    subst (λ u. Closing k (attempts ts u) × Progress s (t ∷ ts) (attempts ts u)) e
      ((ih c).0, idle_again ((ih c).1))
  where
    idle_again : Progress s ts (attempts ts s) → Progress s (t ∷ ts) (attempts ts s)
    idle_again (inl less) = inl less
    idle_again (inr (same, i)) = inr (same, add_turn t ts s q (sym e) i)
after_turn {k} t ts s q c (advances u d less) e ih =
    subst (λ u. Closing k (attempts ts u) × Progress s (t ∷ ts) (attempts ts u)) e
      ((ih d).0, inl (still_less ((ih d).1)))
  where
    still_less : Progress u ts (attempts ts u) → rank (attempts ts u) < rank s
    still_less (inl l) = omega arith
    still_less (inr (same, i)) = rw same less

round_lem :
    {k : Socket} (ts : List Turn) (s : Process)
    → all is_quiet ts ≡ true
    → Closing k s
    → Round k s ts
unfolding Round
round_lem [] s q c =
    (c, inr (refl, record { main_idled = λ a. absurd cc; watcher_idled = λ a. absurd cc }))
round_lem (t ∷ ts) s q c =
    let (here, rest) = ◌&&◌-true (is_quiet t) (all is_quiet ts) q in
    after_turn t ts s here c (quiet_turn t s here c) refl (round_lem ts (attempt t s) rest)

-- A process in which neither thread can go on has ended.
gone_when_idle :
    {k : Socket} (s : Process) (ts : List Turn)
    → any is_main ts ≡ true
    → any is_watcher ts ≡ true
    → Closing k s
    → Idled s ts
    → rank s ≡ 0
unfolding rank main_left watcher_left
gone_when_idle {k} s ts m w c i =
    let (env, quiet, stays) = i.main_idled m in go (c.stage) (c.at) env quiet stays
  where
    go :
        (stage : Stage)
        → At k stage s
        → (env : Env) → env.crash ≡ false
        → attempt (main env) s ≡ s
        → rank s ≡ 0
    go gone h env quiet stays = ground arith
    go seen h env quiet stays = absurd (watcher_stays k s (c.free) seen h refl (i.watcher_idled w))
    go called h env quiet stays =
        absurd (watcher_stays k s (c.free) called h refl (i.watcher_idled w))
    go locked h env quiet stays =
        absurd (watcher_stays k s (c.free) locked h refl (i.watcher_idled w))
    go taking h env quiet stays =
        absurd (watcher_stays k s (c.free) taking h refl (i.watcher_idled w))
    go ending h env quiet stays =
        absurd (watcher_stays k s (c.free) ending h refl (i.watcher_idled w))
    go closes h env quiet stays =
        absurd (watcher_stays k s (c.free) closes h refl (i.watcher_idled w))
    go asking h env quiet stays = absurd (main_stays k s (c.free) env asking h refl stays)
    go alone h env quiet stays = absurd (main_stays k s (c.free) env alone h refl stays)
    go last h env quiet stays = absurd (main_stays k s (c.free) env last h refl stays)
    go left h env quiet stays = absurd (main_stays k s (c.free) env left h refl stays)

clean_left : {pc : Pc} → CleanPc pc → main_left pc ≡ 0 → ⊥
unfolding main_left
clean_left at_loop_left z = omega arith
clean_left at_switch z = omega arith
clean_left at_sidecar z = omega arith
clean_left at_hooks z = omega arith
clean_left at_stop z = omega arith

ended :
    {k : Socket} (s : Process) → Closing k s → rank s ≡ 0 → (s.pc ≡ exited 0) × (s.sv.server ≡ none)
unfolding rank main_left watcher_left
ended {k} s c z = go (c.stage) (c.at)
  where
    go : (stage : Stage) → At k stage s → (s.pc ≡ exited 0) × (s.sv.server ≡ none)
    go gone h = (h.0, h.2)
    go seen h = absurd (ground arith)
    go called h = absurd (ground arith)
    go locked h = absurd (ground arith)
    go taking h = absurd (ground arith)
    go ending h = absurd (ground arith)
    go closes h = absurd (ground arith)
    go asking h = absurd (ground arith)
    go alone h = absurd (clean_left (h.0) (omega arith))
    go last h = absurd (ground arith)
    go left h = absurd (ground arith)

rounds_end :
    {k : Socket} (rounds : List (List Turn)) (s : Process)
    → All IsRound rounds
    → Closing k s
    → rank s ≤ length rounds
    → ((all_attempts rounds s).pc ≡ exited 0) × ((all_attempts rounds s).sv.server ≡ none)
unfolding Round
rounds_end [] s a c l = ended s c (omega arith)
rounds_end {k} (ts ∷ rounds) s a c l =
    let (d, p) = round_lem ts s ((a.0).0) c in rounds_end rounds (attempts ts s) (a.1) d (shorter p)
  where
    shorter : Progress s ts (attempts ts s) → rank (attempts ts s) ≤ length rounds
    shorter (inl less) = omega arith
    shorter (inr (same, i)) = rw same (omega (arith, gone_when_idle s ts ((a.0).1) ((a.0).2) c i))

-- A process of which the loop runs, whose kill switch was written and whose watcher has not seen it
-- yet: whatever the order in which `main` and the watcher take their turns, when no signal comes,
-- the loop does not crash and each of them has a turn in each of fifteen rounds, the process has
-- exited with code 0, and its server is gone.
pub switch_ends :
    (ts : List Turn) (switch : Bool) (s : Process) (k : Socket) (rounds : List (List Turn))
    → run ts (initial switch) ≡ some s
    → s.pc ≡ looping k
    → s.handler ≡ none
    → (s.watcher ≡ polling) × (s.event ≡ false) × (s.switch ≡ true)
    → s.sv.lock ≡ none
    → s.sv.server ≡ some k
    → was_asked k.id s.sv ≡ false
    → All IsRound rounds
    → 15 ≤ length rounds
    → ((all_attempts rounds s).pc ≡ exited 0) × ((all_attempts rounds s).sv.server ≡ none)
unfolding rank main_left watcher_left has_ended
switch_ends ts switch s k rounds ran at free (polls, unset, written) unlocked bound fresh fair
      enough =
    let (armed, serving, none_ended) =
      serves_flags (subst (AtPc s) at (After-some InPhase ran (run-InPhase ts switch))) in
    rounds_end {k = k} rounds s fair (record { free = free; stage = seen; at = ground arith })
      (ground arith)
