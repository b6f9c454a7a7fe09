-- ===== src/SessionControl/Batch.antt =====
-- The outcomes of `close_sessions` of session_control.py.
use ida_pro_mcp.Prelude.{
  ℕ, suc, Text, Bool, true, false, none, some, List, [], ◌∷◌, map, All, ◌≡◌, refl, ◌⊎◌, inl, inr,
}
use ida_pro_mcp.Session.{System}
use ida_pro_mcp.Spawner.{Closed, no_session, graceful, hard_killed, State, Tick, close}
use ida_pro_mcp.SessionControl.{CloseOutcome, outcome, close_sessions}

-- Closed means that there is a word on how, and no error; not closed means the reverse.
abbrev pub IsConsistent : CloseOutcome → Type 0
IsConsistent o =
    ((o.closed ≡ true) × ((how : Bool) × (o.graceful ≡ some how)) × (o.error ≡ none))
    ⊎ ((o.closed ≡ false) × (o.graceful ≡ none) × ((message : Text) × (o.error ≡ some message)))

module _ (sys : System) (repr : Text → Text) where
  outcome-IsConsistent :
      (id : Text) (c : Closed)
      → (outcome repr id c).session_id ≡ id × IsConsistent (outcome repr id c)
  unfolding outcome
  outcome-IsConsistent id no_session = (refl, inr (refl, refl, (_, refl)))
  outcome-IsConsistent id graceful = (refl, inl (refl, (true, refl), refl))
  outcome-IsConsistent id hard_killed = (refl, inl (refl, (false, refl), refl))

  -- A batch has one outcome for each id, in order, whatever becomes of the others, and each outcome
  -- is consistent.
  pub close_sessions_lem :
      (ids : List Text) (ticks : ℕ → List Tick) (n : ℕ) (s : State)
      → (map (λ o. o.session_id) (close_sessions sys repr ids ticks n s).0 ≡ ids)
        × All IsConsistent (close_sessions sys repr ids ticks n s).0
  unfolding close_sessions
  close_sessions_lem [] ticks n s = (refl, tt)
  close_sessions_lem (id ∷ ids) ticks n s =
      let (done, after) = close sys id (ticks n) s in
      let (same, consistent) = outcome-IsConsistent id done in
      let (ids_eq, rest) = close_sessions_lem ids ticks (suc n) after in
      (rw (same, ids_eq) refl, (consistent, rest))
