-- ===== src/Spawner/Open.antt =====
-- src/ida_pro_mcp/spawner/core.py, `Spawner.open`, and spawner/idb_artifacts.py. A call is one
-- step from the moment that it has the lock of its session id; the wait for that lock is left out,
-- and so are argv, environment and log files.
use ida_pro_mcp.Prelude.{
  ℤ, Text, txt, eq_ℤ, mem_text, Bool, true, false, not, Option, none, some, List, [], ◌∷◌, ◌++◌,
  keep, if◌then◌else◌,
}
use ida_pro_mcp.Session.{SessionInfo, System, Disk, get}
use ida_pro_mcp.Spawner.{State, Tick, poll}

-- `_IDB_SUFFIXES`
unfoldable pub idb_suffixes : List Text
idb_suffixes =
    txt ".i64" ∷ txt ".idb" ∷ txt ".id0" ∷ txt ".id1" ∷ txt ".id2" ∷ txt ".nam" ∷ txt ".til" ∷ []

-- The names to delete, for a binary with this name and stem.
unfoldable pub candidates : Text → Text → List Text → List Text
candidates name stem [] = []
candidates name stem (suffix ∷ suffixes) =
    (name ++ suffix) ∷ (stem ++ suffix) ∷ candidates name stem suffixes

-- `delete_idb_artifacts`: the files beside the binary that are left.
unfoldable pub delete_idb_artifacts : Text → Text → List Text → List Text
delete_idb_artifacts name stem files =
    keep (λ f. not (mem_text f (candidates name stem idb_suffixes))) files

-- One turn of the loop of `_await_sidecar`: what other processes do, and whether `idat` has exited.
pub record Turn : Type 0 where
  pub tick : Tick
  pub exited : Bool

-- What `open` is given: the binary, whether it is a file, and its name and stem; whether `idat` is
-- found; the pid of the process if it starts; and the turns that are left until the deadline, which
-- runs from the start of the call, while it waits for the lock too.
pub record Launch : Type 0 where
  pub is_file : Bool
  pub name : Text
  pub stem : Text
  pub fresh : Bool
  pub idat_found : Bool
  pub started : Option ℤ
  pub turns : List Turn

-- The spawner, the files beside the binary, the processes started and those killed.
pub record Host : Type 0 where
  pub spawner : State
  pub files : List Text
  pub processes : List ℤ
  pub killed : List ℤ

pub data Opened : Type 0 where
  opened : SessionInfo → Bool → Opened
  no_file already_running no_idat start_failed exited_early timed_out : Opened

pub data Awaited : Type 0 where
  ready : SessionInfo → Awaited
  exited late : Awaited

unfoldable pub with_disk : Disk → Host → Host
with_disk disk h = record h { spawner = record h.spawner { disk = disk } }

-- `_best_effort_reap`
unfoldable pub best_effort_reap : ℤ → Host → Host
best_effort_reap pid h = record h {
  killed = pid ∷ h.killed;
  spawner = record h.spawner { waited = pid ∷ h.spawner.waited };
}

-- `self._handles[info.pid] = proc`
unfoldable pub keep_handle : ℤ → Host → Host
keep_handle pid h = record h {
  spawner = record h.spawner { handles = pid ∷ keep (λ p. not (eq_ℤ pid p)) h.spawner.handles };
}

module _ (sys : System) where
  -- `_await_sidecar`
  unfoldable pub await_sidecar : Text → List Turn → Disk → Awaited × Disk
  await_sidecar id [] disk = (late, disk)
  await_sidecar id (t ∷ turns) disk =
      let (found, after) = poll sys id t.tick disk in
      elim found [
        | some info ↦ (ready info, after)
        | none ↦ elim t.exited [ true ↦ (exited, after) | false ↦ await_sidecar id turns after ]
      ]

  -- What follows the wait for the sidecar of process `pid`.
  unfoldable pub publish : ℤ → Awaited → Host → Opened × Host
  publish pid (ready info) h = (opened info false, keep_handle info.pid h)
  publish pid exited h = (exited_early, best_effort_reap pid h)
  publish pid late h = (timed_out, best_effort_reap pid h)

  -- A new process.
  unfoldable pub spawn : Text → Launch → Host → Opened × Host
  spawn id l h = if not l.idat_found then (no_idat, h) else elim l.started [
    | none ↦ (start_failed, h)
    | some pid ↦
        let (outcome, disk) = await_sidecar id l.turns h.spawner.disk in
        publish pid outcome (with_disk disk (record h { processes = pid ∷ h.processes }))
  ]

  -- Behind the look at the directory.
  unfoldable pub reuse_or_spawn : Text → Launch → Option SessionInfo → Host → Opened × Host
  reuse_or_spawn id l (some info) h = (if l.fresh then already_running else opened info true, h)
  reuse_or_spawn id l none h =
      spawn id l (record h {
        files = if l.fresh then delete_idb_artifacts l.name l.stem h.files else h.files;
      })

  unfoldable pub open_session : Text → Launch → Host → Opened × Host
  open_session id l h =
      if not l.is_file
      then (no_file, h)
      else let (found, disk) = get sys id h.spawner.disk in
        reuse_or_spawn id l found (with_disk disk h)
