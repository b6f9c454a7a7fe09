-- ===== src/Spawner.antt =====
-- src/ida_pro_mcp/spawner/core.py, `Spawner.close`, and spawner/kill_switch.py, on POSIX.
-- `Spawner.open` stands in Spawner/Open.
pub mod Close
pub mod Open
pub mod Launching
mod Tests
use ida_pro_mcp.Prelude.{
  ℕ, ℤ, Text, teq, eq_ℤ, mem_text, Bool, true, false, not, Option, none, some, List, [], ◌∷◌, ◌++◌,
  keep, any, if◌then◌else◌,
}
use ida_pro_mcp.Session.{SessionInfo, System, Probe, Disk, get, remove}

pub data Signal : Type 0 where
  term kill : Signal

-- What other processes do between two polls of the waiting loop: which processes run, and how the
-- directory of sidecars changes. The loop ends at its deadline, so it makes finitely many polls.
pub record Tick : Type 0 where
  pub running : ℤ → Probe
  pub changes : Disk → Disk

-- The sentinel files of the kill switch, the signals sent, the pids of the `Popen` handles that are
-- kept, and of those that were waited for, the latest first.
pub record State : Type 0 where
  pub disk : Disk
  pub switches : List Text
  pub sent : List (ℤ × Signal)
  pub handles : List ℤ
  pub waited : List ℤ

-- `kill_switch.request_shutdown`, which touches the file.
unfoldable pub request_shutdown : Text → State → State
request_shutdown id s = record s {
  switches = if mem_text id s.switches then s.switches else id ∷ s.switches;
}

-- `kill_switch.cleanup`
unfoldable pub cleanup : Text → State → State
cleanup id s = record s { switches = keep (λ name. not (teq id name)) s.switches }

-- `_signal`; its outcome is not used.
unfoldable pub signal : ℤ → Signal → State → State
signal pid sig s = record s { sent = (pid, sig) ∷ s.sent }

-- `_reap`
unfoldable pub reap : ℤ → State → State
reap pid s =
    if any (λ p. eq_ℤ pid p) s.handles
    then record s { handles = keep (λ p. not (eq_ℤ pid p)) s.handles; waited = pid ∷ s.waited }
    else s

pub data Closed : Type 0 where
  no_session graceful hard_killed : Closed

module _ (sys : System) where
  -- `session.get` at a poll.
  unfoldable pub poll : Text → Tick → Disk → Option SessionInfo × Disk
  poll id t disk = get (record sys { kill = t.running }) id (t.changes disk)

  -- The loop of `close`: whether the sidecar was gone before the deadline.
  unfoldable pub wait_gone : Text → List Tick → Disk → Bool × Disk
  wait_gone id [] disk = (false, disk)
  wait_gone id (t ∷ ticks) disk =
      let (found, after) = poll id t disk in
      elim found [ none ↦ (true, after) | some info ↦ wait_gone id ticks after ]

  -- What follows the loop.
  unfoldable pub settle : Text → ℤ → Bool → State → Closed × State
  settle id pid true s = (graceful, reap pid (cleanup id s))
  settle id pid false s =
      let killed = signal pid Signal.kill s in
      (hard_killed, reap pid (cleanup id (record killed { disk = remove sys id killed.disk })))

  -- The rest of `close` behind its first look at the directory.
  unfoldable pub stop : Text → List Tick → Option SessionInfo → State → Closed × State
  stop id ticks none s = (no_session, s)
  stop id ticks (some info) s =
      let asked = signal info.pid Signal.term (request_shutdown id s) in
      let (gone, disk) = wait_gone id ticks asked.disk in
      settle id info.pid gone (record asked { disk = disk })

  unfoldable pub close : Text → List Tick → State → Closed × State
  close id ticks s =
      let (found, disk) = get sys id s.disk in stop id ticks found (record s { disk = disk })
