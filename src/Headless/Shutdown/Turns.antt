-- ===== src/Headless/Shutdown/Turns.antt =====
-- What a turn of the watcher and a turn of `main` do at each stage of the end.
use ida_pro_mcp.Prelude.{
  if◌then◌else◌, Bool, true, false, none, some, ◌∷◌, ◌≡◌, refl, ap, ◌<◌, arith,
}
use ida_pro_mcp.Server.{
  Socket, main_code, watcher_code, entering, holding, taken, waiting, closing, stop_step, has_ended,
  was_asked,
}
use ida_pro_mcp.Headless.{
  Pc, looping, loop_left, clean_switch, clean_sidecar, clean_hooks, cleaning, leaving, exited,
  finished, stopping, Process, Env, main_stop, main_step, watcher_stop, watcher_step, Turn, main,
  watcher_runs, step_running, step, has_exited,
}
use ida_pro_mcp.Headless.Shutdown.{
  attempt, main_left, watcher_left, rank, CleanPc, at_loop_left, at_switch, at_sidecar, at_hooks,
  at_stop, Stage, seen, called, locked, taking, asking, ending, closes, alone, last, left, gone, At,
  Closing, Moved, idles, advances,
}

module _ {k : Socket} (turn : Turn) (s : Process) where
  waits : step turn s ≡ none → Moved k s (attempt turn s)
  waits e = rw (e, attempt) idles

  loops : step turn s ≡ some s → Moved k s (attempt turn s)
  loops e = rw (e, attempt) idles

  goes :
      (t : Process)
      → step turn s ≡ some t
      → Closing k t
      → rank t < rank s
      → Moved k s (attempt turn s)
  goes t e c l = rw (e, attempt) (advances t c l)

clean_runs : {pc : Pc} → CleanPc pc → has_exited pc ≡ false
unfolding has_exited
clean_runs at_loop_left = refl
clean_runs at_switch = refl
clean_runs at_sidecar = refl
clean_runs at_hooks = refl
clean_runs at_stop = refl

-- Whose turn it is that brings the end nearer.
abbrev pub waits_for_watcher : Stage → Bool
waits_for_watcher seen = true
waits_for_watcher called = true
waits_for_watcher locked = true
waits_for_watcher taking = true
waits_for_watcher asking = false
waits_for_watcher ending = true
waits_for_watcher closes = true
waits_for_watcher alone = false
waits_for_watcher last = false
waits_for_watcher left = false
waits_for_watcher gone = false

abbrev pub waits_for_main : Stage → Bool
waits_for_main seen = false
waits_for_main called = false
waits_for_main locked = false
waits_for_main taking = false
waits_for_main asking = true
waits_for_main ending = false
waits_for_main closes = false
waits_for_main alone = true
waits_for_main last = true
waits_for_main left = true
waits_for_main gone = false

module _ (k : Socket) (s : Process) (free : s.handler ≡ none) where
  pub watcher_turn : (stage : Stage) → At k stage s → Moved k s (attempt watcher_runs s)
  unfolding step has_exited step_running watcher_step watcher_stop stop_step rank main_left
      watcher_left was_asked has_ended
  watcher_turn seen h =
      goes watcher_runs s (record s { event = true; watcher = stopping entering }) (ground arith)
        (record { free = free; stage = called; at = ground arith }) (ground arith)
  watcher_turn called h =
      goes watcher_runs s
        (record s { watcher = stopping holding; sv = record s.sv { lock = some watcher_code } })
        (ground arith) (record { free = free; stage = locked; at = ground arith }) (ground arith)
  watcher_turn locked h =
      goes watcher_runs s
        (record s { watcher = stopping (taken k); sv = record s.sv { server = none } })
        (ground arith) (record { free = free; stage = taking; at = ground arith }) (ground arith)
  watcher_turn taking h =
      goes watcher_runs s
        (record s {
          watcher = stopping (waiting k);
          sv = record s.sv { asked = k.id ∷ s.sv.asked };
        })
        (ground arith) (record { free = free; stage = asking; at = ground arith }) (ground arith)
  watcher_turn asking h = waits watcher_runs s (ground arith)
  watcher_turn ending h =
      goes watcher_runs s (record s { watcher = stopping (closing k) })
        (ground (arith, clean_runs (h.0)))
        (record { free = free; stage = closes; at = (h.0, refl, h.3, h.4) }) (ground arith)
  watcher_turn closes h =
      goes watcher_runs s (record s { watcher = finished; sv = record s.sv { lock = none } })
        (ground (arith, clean_runs (h.0)))
        (record { free = free; stage = alone; at = (h.0, refl, refl, h.3) }) (ground arith)
  watcher_turn alone h = waits watcher_runs s (ground arith)
  watcher_turn last h = waits watcher_runs s (ground arith)
  watcher_turn left h = waits watcher_runs s (ground arith)
  watcher_turn gone h = waits watcher_runs s (ground arith)

  pub watcher_stays :
      (stage : Stage)
      → At k stage s
      → waits_for_watcher stage ≡ true
      → attempt watcher_runs s ≡ s
      → ⊥
  unfolding step has_exited step_running watcher_step watcher_stop stop_step has_ended
  watcher_stays seen h w e = ground (arith, ap (λ (t : Process). t.watcher) e)
  watcher_stays called h w e = ground (arith, ap (λ (t : Process). t.watcher) e)
  watcher_stays locked h w e = ground (arith, ap (λ (t : Process). t.watcher) e)
  watcher_stays taking h w e = ground (arith, ap (λ (t : Process). t.watcher) e)
  watcher_stays asking h w e = absurd cc
  watcher_stays ending h w e = ground (arith, clean_runs (h.0), ap (λ (t : Process). t.watcher) e)
  watcher_stays closes h w e = ground (arith, clean_runs (h.0), ap (λ (t : Process). t.watcher) e)
  watcher_stays alone h w e = absurd cc
  watcher_stays last h w e = absurd cc
  watcher_stays left h w e = absurd cc
  watcher_stays gone h w e = absurd cc

  module _ (env : Env) where
    -- `main` cleans up, and what the stage says of the rest stays.
    clean_turn :
        (stage : Stage)
        → ((t : Process)
            → CleanPc t.pc
            → t.watcher ≡ s.watcher
            → t.sv.lock ≡ s.sv.lock
            → t.sv.server ≡ s.sv.server
            → t.sv.ended ≡ s.sv.ended
            → At k stage t)
        → (s.pc ≡ cleaning entering → Moved k s (attempt (main env) s))
        → {pc : Pc} → s.pc ≡ pc
        → CleanPc pc
        → Moved k s (attempt (main env) s)
    unfolding step has_exited step_running main_step rank main_left watcher_left
    clean_turn stage keeps stops e at_loop_left =
        let t : Process = record s { pc = clean_switch; sv = record s.sv { serving = false } } in
        goes (main env) s t (ground arith)
          (record { free = free; stage = stage; at = keeps t at_switch refl refl refl refl })
          (ground arith)
    clean_turn stage keeps stops e at_switch =
        let t : Process = record s { pc = clean_sidecar; switch = false } in
        goes (main env) s t (ground arith)
          (record { free = free; stage = stage; at = keeps t at_sidecar refl refl refl refl })
          (ground arith)
    clean_turn stage keeps stops e at_sidecar =
        let t : Process = record s {
          pc = clean_hooks;
          sidecar = if env.is_removed then none else s.sidecar;
        } in
        goes (main env) s t (ground arith)
          (record { free = free; stage = stage; at = keeps t at_hooks refl refl refl refl })
          (ground arith)
    clean_turn stage keeps stops e at_hooks =
        let t : Process = record s { pc = cleaning entering; hooked = false } in
        goes (main env) s t (ground arith)
          (record { free = free; stage = stage; at = keeps t at_stop refl refl refl refl })
          (ground arith)
    clean_turn stage keeps stops e at_stop = stops e

    loop_turn :
        env.crash ≡ false
        → s.pc ≡ looping k
        → was_asked k.id s.sv ≡ false
        → Moved k s (attempt (main env) s)
    unfolding step has_exited step_running main_step
    loop_turn quiet at idle = loops (main env) s (ground arith)

    pub main_turn :
        (stage : Stage) → env.crash ≡ false → At k stage s → Moved k s (attempt (main env) s)
    unfolding step has_exited step_running main_step main_stop stop_step rank main_left watcher_left
        has_ended
    main_turn seen quiet h = loop_turn quiet ((h.0).0) ((h.0).2)
    main_turn called quiet h = loop_turn quiet ((h.0).0) ((h.0).2)
    main_turn locked quiet h = loop_turn quiet ((h.0).0) ((h.0).2)
    main_turn taking quiet h = loop_turn quiet ((h.0).0) ((h.0).2)
    main_turn asking quiet h =
        goes (main env) s (record s { pc = loop_left; sv = record s.sv { ended = some k.id } })
          (ground arith)
          (record { free = free; stage = ending; at = (at_loop_left, ground arith, h.3, h.4, h.5) })
          (ground arith)
    main_turn ending quiet h =
        clean_turn ending
          (λ t c w l v e. (c, ground arith, ground arith, ground arith, ground arith))
          (λ e. waits (main env) s (ground arith)) refl (h.0)
    main_turn closes quiet h =
        clean_turn closes (λ t c w l v e. (c, ground arith, ground arith, ground arith))
          (λ e. waits (main env) s (ground arith)) refl (h.0)
    main_turn alone quiet h =
        clean_turn alone (λ t c w l v e. (c, ground arith, ground arith, ground arith))
          (λ e.
            goes (main env) s
              (record s { pc = cleaning holding; sv = record s.sv { lock = some main_code } })
              (ground arith) (record { free = free; stage = last; at = ground arith })
              (ground arith))
          refl (h.0)
    main_turn last quiet h =
        goes (main env) s (record s { pc = leaving 0; sv = record s.sv { lock = none } })
          (ground arith) (record { free = free; stage = left; at = ground arith }) (ground arith)
    main_turn left quiet h =
        goes (main env) s (record s { pc = exited 0 }) (ground arith)
          (record { free = free; stage = gone; at = ground arith }) (ground arith)
    main_turn gone quiet h = waits (main env) s (ground arith)

    cleaning_moves :
        {pc : Pc} → s.pc ≡ pc → s.sv.lock ≡ none → CleanPc pc → attempt (main env) s ≡ s → ⊥
    unfolding step has_exited step_running main_step main_stop stop_step
    cleaning_moves at unlocked at_loop_left e = ground (arith, ap (λ (t : Process). t.pc) e)
    cleaning_moves at unlocked at_switch e = ground (arith, ap (λ (t : Process). t.pc) e)
    cleaning_moves at unlocked at_sidecar e = ground (arith, ap (λ (t : Process). t.pc) e)
    cleaning_moves at unlocked at_hooks e = ground (arith, ap (λ (t : Process). t.pc) e)
    cleaning_moves at unlocked at_stop e = ground (arith, ap (λ (t : Process). t.pc) e)

    pub main_stays :
        (stage : Stage) → At k stage s → waits_for_main stage ≡ true → attempt (main env) s ≡ s → ⊥
    unfolding step has_exited step_running main_step main_stop stop_step
    main_stays seen h w e = absurd cc
    main_stays called h w e = absurd cc
    main_stays locked h w e = absurd cc
    main_stays taking h w e = absurd cc
    main_stays asking h w e = ground (arith, ap (λ (t : Process). t.pc) e)
    main_stays ending h w e = absurd cc
    main_stays closes h w e = absurd cc
    main_stays alone h w e = cleaning_moves refl (h.2) (h.0) e
    main_stays last h w e = ground (arith, ap (λ (t : Process). t.pc) e)
    main_stays left h w e = ground (arith, ap (λ (t : Process). t.pc) e)
    main_stays gone h w e = absurd cc
