-- ===== src/Cli/Close.antt =====
-- What `session close` reports.
use ida_pro_mcp.Prelude.{
  ℕ, Text, Bool, true, false, not, Option, List, [], ◌∷◌, map, All, any, ◌≡◌, refl, ◌||◌,
  Bool-cases, inl, inr, arith, if◌then◌else◌,
}
use ida_pro_mcp.Value.{Float}
use ida_pro_mcp.Session.{System, list_all}
use ida_pro_mcp.Spawner.{State, Tick}
use ida_pro_mcp.SessionControl.{CloseOutcome, resolve_targets, close_sessions}
use ida_pro_mcp.SessionControl.Batch.{IsConsistent, close_sessions_lem}
use ida_pro_mcp.Cli.{
  CloseArgs, outcomes, Finished, fails, is_empty, failures, failure_line, report_with, report,
  chosen_timeout, close_targets, named_targets, live_targets, session_close,
}

-- A call that names nothing, or names sessions beside `--all`.
abbrev pub is_misused : CloseArgs → List Text → Bool
is_misused args targets =
    if args.close_all
    then not (is_empty args.session_ids) || not (is_empty args.paths)
    else is_empty targets

abbrev pub IsClosed : CloseOutcome → Type 0
IsClosed o = o.closed ≡ true

abbrev pub AreReported : List Text → List CloseOutcome → Type 0
AreReported targets done = (map (λ o. o.session_id) done ≡ targets) × All IsConsistent done

-- What comes of a call: it is refused and changes nothing; or every target was closed; or one was
-- not, and there is a line about it.
pub data Fate (targets : List Text) (misused : Bool) (s : State) : Finished × State → Type 0 where
  refused_use : (message : Text) → misused ≡ true → Fate targets misused s (fails message, s)
  all_closed :
      (done : List CloseOutcome) (after : State)
      → misused ≡ false
      → AreReported targets done
      → All IsClosed done
      → Fate targets misused s
          (record { stdout = outcomes done ∷ []; stderr = []; code = 0 }, after)
  some_left :
      (done : List CloseOutcome) (after : State) (line : Text) (lines : List Text)
      → misused ≡ false
      → AreReported targets done
      → any (λ o. not o.closed) done ≡ true
      → Fate targets misused s
          (record { stdout = outcomes done ∷ []; stderr = line ∷ lines; code = 2 }, after)

failures-IsClosed : (done : List CloseOutcome) → failures done ≡ [] → All IsClosed done
unfolding failures
failures-IsClosed [] e = tt
failures-IsClosed (o ∷ done) e = elim (Bool-cases o.closed) [
  | inl c ↦ (c, failures-IsClosed done (ground arith))
  | inr c ↦ absurd (ground arith)
]

left_of_failures :
    (done : List CloseOutcome) (o : CloseOutcome) (more : List CloseOutcome)
    → failures done ≡ o ∷ more
    → any (λ o. not o.closed) done ≡ true
unfolding failures
left_of_failures [] o more e = absurd cc
left_of_failures (p ∷ done) o more e = ground (arith, left_of_failures done o more)

report-Fate :
    {targets : List Text} {misused : Bool} {s : State} (done failed : List CloseOutcome)
    (after : State)
    → failures done ≡ failed
    → misused ≡ false
    → AreReported targets done
    → Fate targets misused s (report_with done failed, after)
unfolding report_with is_empty
report-Fate done [] after e m r = all_closed done after m r (failures-IsClosed done e)
report-Fate done (o ∷ failed) after e m r =
    some_left done after (failure_line o) (map failure_line failed) m r
      (left_of_failures done o failed e)

module _ (sys : System) (repr : Text → Text) (sha1 normalize : Text → Text) where
  -- The sessions that a call is about.
  pub wanted : CloseArgs → State → List Text
  wanted args s =
      if args.close_all
      then map (λ i. i.session_id) (list_all sys s.disk).0
      else resolve_targets sha1 normalize args.session_ids args.paths

  module _ (ticks : Option Float → ℕ → List Tick) (args : CloseArgs) where
    close_targets-Fate :
        {misused : Bool} {s : State} (targets : List Text) (t : State)
        → misused ≡ false
        → Fate targets misused s (close_targets sys repr sha1 normalize ticks args targets t)
    unfolding close_targets report
    close_targets-Fate targets t m =
        report-Fate (close_sessions sys repr targets (ticks (chosen_timeout args)) 0 t).0 _
          (close_sessions sys repr targets (ticks (chosen_timeout args)) 0 t).1 refl m
          (close_sessions_lem sys repr targets (ticks (chosen_timeout args)) 0 t)

    -- `session close` is refused, and stops nothing, when it names no session, or `--all` and a
    -- session. Any other call prints one outcome for each session that is wanted, in order, each
    -- consistent; its code is 0 with no line to stderr when all were closed, and otherwise 2 with a
    -- line.
    pub session_close_lem :
        (s : State)
        → Fate
            (wanted args s)
            (is_misused args (wanted args s))
            s
            (session_close sys repr sha1 normalize ticks args s)
    unfolding session_close named_targets live_targets wanted
    session_close_lem s = elim (Bool-cases args.close_all) [
      | inl c ↦ elim (Bool-cases (not (is_empty args.session_ids) || not (is_empty args.paths))) [
        | inl b ↦ simp (c, b) (refused_use _ refl)
        | inr b ↦ simp (c, b) (close_targets-Fate _ _ refl)
      ]
      | inr c ↦
          elim (Bool-cases
            (is_empty (resolve_targets sha1 normalize args.session_ids args.paths))) [
              | inl b ↦ simp (c, b) (refused_use _ refl)
              | inr b ↦ simp (c, b) (close_targets-Fate _ _ refl)
            ]
    ]
