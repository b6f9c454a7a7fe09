-- ===== src/SessionRegistry.antt =====
-- src/ida_pro_mcp/session_registry.py: from a session id to a client, with a cache of clients.
-- Each method is one step here. The source looks into the directory before it takes the lock, and
-- holds the lock while it changes the cache. The timeout of a client is left out.
pub mod Resolve
mod Tests
use ida_pro_mcp.Prelude.{
  ℕ, Text, teq, eq_ℤ, Bool, true, false, Option, none, some, List, [], ◌∷◌, map, ◌&&◌,
  if◌then◌else◌,
}
use ida_pro_mcp.Client.{Client, new_client}
use ida_pro_mcp.Session.{SessionInfo, System, Disk, get, list_all}

-- `SessionNotFoundError` and `SessionAmbiguousError`
pub data Unresolved : Type 0 where
  not_found : Option Text → Unresolved
  ambiguous : List Text → Unresolved

pub data Resolved : Type 0 where
  client : Client → Resolved
  unresolved : Unresolved → Resolved

-- `_clients`, a dict.
abbrev pub Clients : Type 0
Clients = List (Text × Client)

unfoldable pub cached : Text → Clients → Option Client
cached id [] = none
cached id ((j, c) ∷ cs) = if teq j id then some c else cached id cs

-- `pop(id, None)`
unfoldable pub pop : Text → Clients → Clients
pop id [] = []
pop id ((j, c) ∷ cs) = let rest = pop id cs in if teq j id then rest else (j, c) ∷ rest

unfoldable pub set_client : Text → Client → Clients → Clients
set_client id c [] = (id, c) ∷ []
set_client id c ((j, old) ∷ cs) = if teq j id then (j, c) ∷ cs else (j, old) ∷ set_client id c cs

-- The registry, beside the directory that it reads and cleans.
pub record State : Type 0 where
  pub clients : Clients
  pub disk : Disk

unfoldable pub invalidate : Text → State → State
invalidate id s = record s { clients = pop id s.clients }

-- `cached.host == info.host and cached.port == info.port`
unfoldable pub targets : Client → SessionInfo → Bool
targets c info = teq c.host info.host && eq_ℤ c.port info.port

-- The client for a live session: the cached one while host and port are the same.
unfoldable pub client_for : SessionInfo → Option Client → Client
client_for info none = new_client info.host info.port
client_for info (some c) = if targets c info then c else new_client info.host info.port

module _ (sys : System) where
  unfoldable pub finish : Text → State → Option SessionInfo × Disk → Resolved × State
  finish id s (none, disk) =
      (unresolved (not_found (some id)), record { clients = pop id s.clients; disk = disk })
  finish id s (some info, disk) =
      let c = client_for info (cached id s.clients) in
      (client c, record { clients = set_client id c s.clients; disk = disk })

  -- `_get_client`
  unfoldable pub get_client : Text → State → Resolved × State
  get_client id s = finish id s (get sys id s.disk)

  -- The choice among the live sessions when no id is given.
  unfoldable pub pick : List SessionInfo → State → Resolved × State
  pick [] s = (unresolved (not_found none), s)
  pick (info ∷ []) s = get_client info.session_id s
  pick (info ∷ other ∷ more) s =
      (unresolved (ambiguous (map (λ i. i.session_id) (info ∷ other ∷ more))), s)

  unfoldable pub resolve : Option Text → State → Resolved × State
  resolve (some id) s = get_client id s
  resolve none s = let (live, disk) = list_all sys s.disk in pick live (record s { disk = disk })
