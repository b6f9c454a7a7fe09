-- ===== src/Spawner/Close.antt =====
-- What `close` of spawner/core.py leaves behind.
use mathlib.Core.Path.{subst}
use ida_pro_mcp.Prelude.{
  ℤ, Text, teq, teq_refl, eq_ℤ, mem_text, Bool, true, false, not, Option, none, some, List, [], ◌∷◌,
  keep, any, ◌≡◌, refl, ap, sym, ◌∙◌, ◌⊎◌, inl, inr, Bool-cases, Option-cases,
}
use ida_pro_mcp.Session.{SessionInfo, System, Disk, read, get, remove, sidecar_name}
use ida_pro_mcp.Session.Directory.{read-unlink}
use ida_pro_mcp.Spawner.{
  Signal, Tick, State, request_shutdown, cleanup, signal, reap, Closed, no_session, graceful,
  hard_killed, poll, wait_gone, settle, stop, close,
}

mem-keep :
    (id : Text) (names : List Text) → mem_text id (keep (λ name. not (teq id name)) names) ≡ false
unfolding mem_text
mem-keep id [] = refl
mem-keep id (name ∷ names) = elim (Bool-cases (teq id name)) [
  | inl e ↦ rw e (mem-keep id names)
  | inr e ↦ rw (e) (rw (e, mem-keep id names) refl)
]

any-keep :
    (pid : ℤ) (pids : List ℤ) → any (λ p. eq_ℤ pid p) (keep (λ p. not (eq_ℤ pid p)) pids) ≡ false
any-keep pid [] = refl
any-keep pid (p ∷ pids) = elim (Bool-cases (eq_ℤ pid p)) [
  | inl e ↦ rw e (any-keep pid pids)
  | inr e ↦ rw (e) (rw (e) (any-keep pid pids))
]

-- Nothing of the session is left with this process: no sentinel and no handle.
abbrev pub IsReleased : Text → ℤ → State → Type 0
IsReleased id pid s = (mem_text id s.switches ≡ false) × (any (λ p. eq_ℤ pid p) s.handles ≡ false)

reap_lem :
    (id : Text) (pid : ℤ) (s : State)
    → IsReleased id pid (reap pid (cleanup id s))
      × ((reap pid (cleanup id s)).disk ≡ s.disk)
      × ((reap pid (cleanup id s)).sent ≡ s.sent)
unfolding reap cleanup
reap_lem id pid s = elim (Bool-cases (any (λ p. eq_ℤ pid p) s.handles)) [
  | inl e ↦ rw e ((mem-keep id s.switches, any-keep pid s.handles), refl, refl)
  | inr e ↦ rw e ((mem-keep id s.switches, e), refl, refl)
]

module _ (sys : System) where
  -- The wait from `disk` on: a poll finds no session, and leaves `after`, and all polls before it
  -- have found one; or all polls find one.
  pub Leaves : Text → List Tick → Disk → Disk → Type 0
  Leaves id [] disk after = ⊥
  Leaves id (t ∷ ticks) disk after =
      (poll sys id t disk ≡ (none, after))
      ⊎ ((info : SessionInfo) × ((poll sys id t disk).0 ≡ some info)
          × Leaves id ticks (poll sys id t disk).1 after)

  pub Stays : Text → List Tick → Disk → Type 0
  Stays id [] disk = Unit
  Stays id (t ∷ ticks) disk =
      (info : SessionInfo) × ((poll sys id t disk).0 ≡ some info)
      × Stays id ticks (poll sys id t disk).1

  -- The wait fails exactly when the session stays.
  Waited : Text → List Tick → Disk → Bool → Disk → Type 0
  Waited id ticks disk true after = Leaves id ticks disk after
  Waited id ticks disk false after = Stays id ticks disk

  pair :
      (r : Option SessionInfo × Disk)
      → r.0 ≡ none
      → ◌≡◌ {A = Option SessionInfo × Disk} r (none, r.1)
  pair (o, d) e = ap (λ x. (x, d)) e

  later :
      (id : Text) (t : Tick) (ticks : List Tick) (disk after : Disk) (info : SessionInfo)
      (gone : Bool)
      → (poll sys id t disk).0 ≡ some info
      → Waited id ticks (poll sys id t disk).1 gone after
      → Waited id (t ∷ ticks) disk gone after
  unfolding Waited Leaves Stays
  later id t ticks disk after info true e w = inr (info, e, w)
  later id t ticks disk after info false e w = (info, e, w)

  wait_gone_lem :
      (id : Text) (ticks : List Tick) (disk : Disk)
      → Waited id ticks disk (wait_gone sys id ticks disk).0 (wait_gone sys id ticks disk).1
  unfolding wait_gone
  wait_gone_lem id [] disk = unfold Waited Stays in tt
  wait_gone_lem id (t ∷ ticks) disk = elim (Option-cases (poll sys id t disk).0) [
    | inl e ↦ rw (wait_gone, e) (unfold Waited Leaves in inl (pair (poll sys id t disk) e))
    | inr (info, e) ↦
        rw (wait_gone, e)
          (later id t ticks disk _ info _ e (wait_gone_lem id ticks (poll sys id t disk).1))
  ]

  -- How `close` of a session with process `pid` ended, when the wait began with `disk`.
  abbrev pub Ended : Text → ℤ → List Tick → Disk → State → Closed → State → Type 0
  Ended id pid ticks disk s no_session after = ⊥
  Ended id pid ticks disk s graceful after =
      (after.sent ≡ (pid, Signal.term) ∷ s.sent) × Leaves id ticks disk after.disk
  Ended id pid ticks disk s hard_killed after =
      (after.sent ≡ (pid, Signal.kill) ∷ (pid, Signal.term) ∷ s.sent)
      × Stays id ticks disk
      × (read (sidecar_name id) after.disk ≡ none)

  settle_lem :
      (id : Text) (pid : ℤ) (ticks : List Tick) (disk : Disk) (gone : Bool) (s t : State)
      → s.sent ≡ (pid, Signal.term) ∷ t.sent
      → Waited id ticks disk gone s.disk
      → IsReleased id pid (settle sys id pid gone s).1
        × Ended id pid ticks disk t (settle sys id pid gone s).0 (settle sys id pid gone s).1
  unfolding settle signal Waited
  settle_lem id pid ticks disk true s t sent waited =
      let (released, disk_eq, sent_eq) = reap_lem id pid s in
      (released, (sent_eq ∙ sent, subst (Leaves id ticks disk) (sym disk_eq) waited))
  settle_lem id pid ticks disk false s t sent waited =
      let killed : State = record (signal pid Signal.kill s) { disk = remove sys id s.disk } in
      let (released, disk_eq, sent_eq) = reap_lem id pid killed in
      (
        released,
        (
          sent_eq ∙ ap (λ l. (pid, Signal.kill) ∷ l) sent,
          waited,
          rw disk_eq (unfold remove in rw (read-unlink, teq_refl) refl),
        ),
      )

  -- `close` of a live session sends SIGTERM to its process, and then waits. It sends SIGKILL only
  -- when every poll up to the deadline has found the session, and then the sidecar is removed;
  -- otherwise the first poll that finds no session ends it. Either way neither the sentinel file
  -- nor the handle of the process is left.
  pub close-live :
      (id : Text) (ticks : List Tick) (s : State) (info : SessionInfo)
      → (get sys id s.disk).0 ≡ some info
      → IsReleased id info.pid (close sys id ticks s).1
        × Ended id info.pid ticks
            (get sys id s.disk).1
            s
            (close sys id ticks s).0
            (close sys id ticks s).1
  unfolding close stop signal request_shutdown
  close-live id ticks s info e =
      let asked : State =
        signal info.pid Signal.term
          (request_shutdown id (record s { disk = (get sys id s.disk).1 })) in
      rw e (
        settle_lem id info.pid ticks (get sys id s.disk).1
          (wait_gone sys id ticks (get sys id s.disk).1).0
          (record asked { disk = (wait_gone sys id ticks (get sys id s.disk).1).1 }) s
          (unfold signal request_shutdown in refl) (wait_gone_lem id ticks (get sys id s.disk).1))
