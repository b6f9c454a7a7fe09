-- ===== src/Spawner/Launching.antt =====
-- `open` of spawner/core.py: live sessions, and the process that it starts.
use ida_pro_mcp.Prelude.{ℤ, Text, eq_ℤ, true, false, some, ◌∷◌, any, ◌≡◌, refl, if◌then◌else◌}
use ida_pro_mcp.Session.{SessionInfo, System, Disk, get}
use ida_pro_mcp.Spawner.{Tick, poll}
use ida_pro_mcp.Spawner.Open.{
  Launch, Host, Opened, opened, already_running, exited_early, timed_out, with_disk, reuse_or_spawn,
  open_session,
}

module _ (sys : System) where
  -- `open` of a binary with a live session starts no process and deletes no file: it gives that
  -- session, or refuses a fresh analysis.
  pub open_session-live :
      (id : Text) (l : Launch) (h : Host) (info : SessionInfo)
      → l.is_file ≡ true
      → (get sys id h.spawner.disk).0 ≡ some info
      → open_session sys id l h ≡ (
        if l.fresh then already_running else opened info true,
        with_disk (get sys id h.spawner.disk).1 h,
      )
  unfolding open_session reuse_or_spawn
  open_session-live id l h info file e = rw (file, e) refl

  -- The process that was started, and how the wait for it ended.
  abbrev pub Launched : Text → ℤ → Host → Opened → Host → Type 0
  Launched id pid before (opened info reused) after =
      (reused ≡ false)
      × (any (λ p. eq_ℤ info.pid p) after.spawner.handles ≡ true)
      × ((t : Tick) × (disk : Disk) × (poll sys id t disk ≡ (some info, after.spawner.disk)))
      × (after.killed ≡ before.killed)
  Launched id pid before exited_early after =
      (after.killed ≡ pid ∷ before.killed) × (after.spawner.waited ≡ pid ∷ before.spawner.waited)
  Launched id pid before timed_out after =
      (after.killed ≡ pid ∷ before.killed) × (after.spawner.waited ≡ pid ∷ before.spawner.waited)
  Launched id pid before _ after = ⊥
