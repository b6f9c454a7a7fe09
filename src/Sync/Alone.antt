-- ===== src/Sync/Alone.antt =====
-- A wrapped tool runs alone.
use ida_pro_mcp.Prelude.{Text, Option, none, some, ◌≡◌, refl, ap}
use ida_pro_mcp.Sync.{
  Outcome, value, exc, Callable, callable_name, Thread, is_synced, nested, runner, sync_call,
  idaread, idawrite, Body, returns, raises, does, reads, writes, run,
}

-- What a body does on the database when each wrapped call in it is refused, and not run.
pub alone : {S : Type 0} → Text → Body S → S → Outcome × S
alone active (returns v) s = (value v, s)
alone active (raises e) s = (exc e, s)
alone active (does f rest) s = alone active rest (f s)
alone active (reads f inner rest) s = alone active (rest (exc (nested (callable_name f) active))) s
alone active (writes f inner rest) s = alone active (rest (exc (nested (callable_name f) active))) s

abbrev pub with_slot : {S : Type 0} → Option Text → Outcome × S → Outcome × Thread S
with_slot slot r = (r.0, record { active = slot; database = r.1 })

run-alone :
    {S : Type 0} (active : Text) (body : Body S) (s : S)
    → run body (record { active = some active; database = s }) ≡ (
      (alone active body s).0,
      record { active = some active; database = (alone active body s).1 },
    )
unfolding run alone idaread idawrite sync_call runner callable_name is_synced
run-alone active (returns v) s = refl
run-alone active (raises e) s = refl
run-alone active (does f rest) s = run-alone active rest (f s)
run-alone active (reads f inner rest) s =
    run-alone active (rest (exc (nested (callable_name f) active))) s
run-alone active (writes f inner rest) s =
    run-alone active (rest (exc (nested (callable_name f) active))) s

clear : {S : Type 0} → Outcome × Thread S → Outcome × Thread S
clear r = (r.0, record r.1 { active = none })

-- A wrapped tool that is called when the slot is free runs once, and every wrapped call in it, which
-- would run on the same database, is refused without running; however the tool ends, the slot is
-- free again. A wrapped tool that is called when the slot is taken is refused and changes nothing.
pub wrapped_lem :
    {S : Type 0} (f : Callable) (body : Body S) (s : S) (active : Text)
    → (idaread f (run body) (record { active = none; database = s })
        ≡ with_slot none (alone (callable_name f) body s))
      × (idawrite f (run body) (record { active = none; database = s })
          ≡ with_slot none (alone (callable_name f) body s))
      × (idaread f (run body) (record { active = some active; database = s })
          ≡ (exc (nested (callable_name f) active), record { active = some active; database = s }))
      × (idawrite f (run body) (record { active = some active; database = s })
          ≡ (exc (nested (callable_name f) active), record { active = some active; database = s }))
unfolding idaread idawrite sync_call runner callable_name is_synced clear
wrapped_lem f body s active =
    let e = ap clear (run-alone (callable_name f) body s) in (e, e, refl, refl)
