-- ===== src/SessionRegistry/Resolve.antt =====
-- `resolve` of session_registry.py, and its cache.
use ida_pro_mcp.Prelude.{
  Text, teq, teq_refl, teq_iff, eq_ℤ, eq_ℤ→eq, ℤ, true, false, Option, none, some, [], ◌∷◌, ◌≡◌,
  refl, ap, ◌∙◌, inl, inr, arith, Bool-cases, if◌then◌else◌,
}
use ida_pro_mcp.Client.{Client, new_client}
use ida_pro_mcp.Session.{SessionInfo, System, Disk, get}
use ida_pro_mcp.SessionRegistry.{
  not_found, Resolved, client, unresolved, Clients, cached, pop, set_client, State, targets,
  client_for, finish, get_client,
}

cached-set_client :
    (k j : Text) (c : Client) (cs : Clients)
    → cached j (set_client k c cs) ≡ (if teq k j then some c else cached j cs)
unfolding cached set_client
cached-set_client k j c [] = refl
cached-set_client k j c ((i, old) ∷ cs) =
    ground (arith, cached-set_client k j c cs, teq_iff i k, teq_iff i j, teq_iff k j)

cached-pop :
    (k j : Text) (cs : Clients) → cached j (pop k cs) ≡ (if teq k j then none else cached j cs)
unfolding cached pop
cached-pop k j [] = ground arith
cached-pop k j ((i, old) ∷ cs) =
    ground (arith, cached-pop k j cs, teq_iff i k, teq_iff i j, teq_iff k j)

eq_ℤ-refl : (n : ℤ) → eq_ℤ n n ≡ true
eq_ℤ-refl n = ground arith

targets-new_client : (info : SessionInfo) → targets (new_client info.host info.port) info ≡ true
unfolding targets new_client
targets-new_client info = rw (teq_refl, eq_ℤ-refl info.port)

targets-client_for :
    (info : SessionInfo) (o : Option Client) → targets (client_for info o) info ≡ true
unfolding client_for
targets-client_for info none = targets-new_client info
targets-client_for info (some c) = elim (Bool-cases (targets c info)) [
  | inl e ↦ rw e e
  | inr e ↦ rw e (targets-new_client info)
]

targets-eq :
    (c : Client) (info : SessionInfo)
    → targets c info ≡ true
    → (c.host ≡ info.host) × (c.port ≡ info.port)
unfolding targets
targets-eq c info h = ground (arith, teq_iff c.host info.host, eq_ℤ→eq c.port info.port)

targets_self :
    (c : Client) (info : SessionInfo)
    → c.host ≡ info.host
    → c.port ≡ info.port
    → targets c info ≡ true
unfolding targets
targets_self c info h p = rw (h, p, teq_refl, eq_ℤ-refl info.port)

client_for-kept :
    (info : SessionInfo) (o : Option Client) (old : Client)
    → o ≡ some old
    → old.host ≡ info.host
    → old.port ≡ info.port
    → client_for info o ≡ old
unfolding client_for
client_for-kept info o old h hh hp = rw (h, client_for, targets_self old info hh hp)

module _ (sys : System) where
  -- The answer for what `get` of the directory finds.
  abbrev pub Answers : Text → Option SessionInfo → Resolved × State → Type 0
  Answers id none (r, after) =
      (r ≡ unresolved (not_found (some id))) × (cached id after.clients ≡ none)
  Answers id (some info) (r, after) =
      (c : Client) × (r ≡ client c)
      × (cached id after.clients ≡ some c)
      × (c.host ≡ info.host)
      × (c.port ≡ info.port)

  finish_lem :
      (id j : Text) (s : State) (o : Option SessionInfo) (disk : Disk)
      → teq id j ≡ false
      → Answers id o (finish sys id s (o, disk))
        × ((finish sys id s (o, disk)).1.disk ≡ disk)
        × (cached j (finish sys id s (o, disk)).1.clients ≡ cached j s.clients)
  unfolding finish
  finish_lem id j s none disk ne = ((refl, rw (cached-pop, teq_refl)), refl, rw (cached-pop, ne))
  finish_lem id j s (some info) disk ne =
      let c = client_for info (cached id s.clients) in
      let (same_host, same_port) =
        targets-eq c info (targets-client_for info (cached id s.clients)) in
      (
        (c, refl, rw (cached-set_client, teq_refl), same_host, same_port),
        refl,
        rw (cached-set_client, ne),
      )

  -- `get_client` against what `get` of the directory finds: with a live session the client has its
  -- host and port and is kept under the id; with none the answer is that there is no such session,
  -- and no client is kept. The directory is as `get` leaves it, and the client kept under any other
  -- id, `j`, does not change.
  pub get_client_lem :
      (id j : Text) (s : State)
      → teq id j ≡ false
      → Answers id (get sys id s.disk).0 (get_client sys id s)
        × ((get_client sys id s).1.disk ≡ (get sys id s.disk).1)
        × (cached j (get_client sys id s).1.clients ≡ cached j s.clients)
  unfolding get_client
  get_client_lem id j s ne = let (o, disk) = get sys id s.disk in finish_lem id j s o disk ne

  finish-kept :
      (id : Text) (s : State) (info : SessionInfo) (old : Client)
      (found : Option SessionInfo × Disk)
      → found.0 ≡ some info
      → cached id s.clients ≡ some old
      → old.host ≡ info.host
      → old.port ≡ info.port
      → (finish sys id s found).0 ≡ client old
  unfolding finish
  finish-kept id s info old (none, disk) e h hh hp = absurd cc
  finish-kept id s info old (some i, disk) e h hh hp =
      ap client (client_for-kept i (cached id s.clients) old h (hh ∙ cc) (hp ∙ cc))

  -- A client that is kept for a live session with the same host and port is used again, so that the
  -- counter of its requests goes on.
  pub get_client-kept :
      (id : Text) (s : State) (info : SessionInfo) (old : Client)
      → (get sys id s.disk).0 ≡ some info
      → cached id s.clients ≡ some old
      → old.host ≡ info.host
      → old.port ≡ info.port
      → (get_client sys id s).0 ≡ client old
  unfolding get_client
  get_client-kept id s info old e h hh hp = finish-kept id s info old (get sys id s.disk) e h hh hp
