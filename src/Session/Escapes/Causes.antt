-- ===== src/Session/Escapes/Causes.antt =====
-- Why a sidecar makes `_load` or `is_pid_alive` of plugin/session.py raise.
use ida_pro_mcp.Prelude.{
  ℕ, ℤ, pos, Bool, true, false, Option, none, some, List, ◌≡◌, ◌⊎◌, refl, inl, inr, arith,
  Bool-cases, ◌≤ℤ◌,
}
use ida_pro_mcp.Value.{Value, Fields}
use ida_pro_mcp.Session.{SessionInfo, System, from_fields, is_pid_alive}
use ida_pro_mcp.Session.Escapes.{
  stale, escapes, live, is_beyond_int, fields_overflow, check_info, check_loaded, load_value,
  load_or_raise, check_file,
}

module _ (sys : System) (decodes : List ℕ → Bool) where
  -- The process id of what a file records is no C int.
  abbrev pub HasLargePid : Fields → Type 0
  HasLargePid d =
      (info : SessionInfo) × (from_fields sys d ≡ some info) × (¬ (info.pid ≤ℤ pos 2147483647))

  abbrev pub BreaksValue : Option Value → Type 0
  BreaksValue none = ⊥
  BreaksValue (some (Value.object d)) =
      (fields_overflow sys decodes d ≡ true)
      ⊎ ((fields_overflow sys decodes d ≡ false) × HasLargePid d)
  BreaksValue (some _) = ⊥

  -- A file is no UTF-8, or an object of which a conversion overflows, or which has such an id.
  abbrev pub Breaks : List ℕ → Type 0
  Breaks bytes = (decodes bytes ≡ false) ⊎ ((decodes bytes ≡ true) × BreaksValue (sys.loads bytes))

  large : (pid : ℤ) → is_beyond_int pid ≡ true → ¬ (pid ≤ℤ pos 2147483647)
  unfolding is_beyond_int
  large pid h = λ le. ground arith

  small : (pid : ℤ) → is_beyond_int pid ≡ false → pid ≤ℤ pos 2147483647
  unfolding is_beyond_int
  small pid h = ground arith

  info_breaks :
      (o : Option SessionInfo)
      → check_info sys decodes o ≡ escapes
      → (info : SessionInfo) × (o ≡ some info) × (¬ (info.pid ≤ℤ pos 2147483647))
  unfolding check_info
  info_breaks none h = cc
  info_breaks (some info) h = elim (Bool-cases (is_beyond_int info.pid)) [
    | inl e ↦ (info, refl, large info.pid e)
    | inr e ↦ elim (Bool-cases (is_pid_alive sys.kill info.pid)) [
      | inl a ↦ absurd (live_differs info (rw (e, a) at h))
      | inr a ↦ absurd (stale_differs (rw (e, a) at h))
    ]
  ]
    where
      live_differs : (i : SessionInfo) → live i ≡ escapes → ⊥
      live_differs i h = cc

      stale_differs : stale ≡ escapes → ⊥
      stale_differs h = cc

  info_escapes :
      (info : SessionInfo)
      → ¬ (info.pid ≤ℤ pos 2147483647)
      → check_info sys decodes (some info) ≡ escapes
  unfolding check_info
  info_escapes info h = elim (Bool-cases (is_beyond_int info.pid)) [
    | inl e ↦ rw e refl
    | inr e ↦ absurd (h (small info.pid e))
  ]

  nothing_breaks : ¬ (check_info sys decodes none ≡ escapes)
  nothing_breaks h = let (info, e, k) = info_breaks none h in cc

  value_breaks :
      (o : Option Value)
      → check_loaded sys decodes (load_value sys decodes o) ≡ escapes
      → BreaksValue o
  unfolding check_loaded load_value
  value_breaks none h = absurd (nothing_breaks h)
  value_breaks (some (Value.object d)) h = elim (Bool-cases (fields_overflow sys decodes d)) [
    | inl e ↦ inl e
    | inr e ↦ inr (e, info_breaks (from_fields sys d) (rw e at h))
  ]
  value_breaks (some _) h = absurd (nothing_breaks h)

  value_escapes :
      (o : Option Value)
      → BreaksValue o
      → check_loaded sys decodes (load_value sys decodes o) ≡ escapes
  unfolding check_loaded load_value
  value_escapes none h = absurd h
  value_escapes (some (Value.object d)) (inl e) = rw e refl
  value_escapes (some (Value.object d)) (inr (e, (info, read, h))) =
      rw (e, read) (info_escapes info h)
  value_escapes (some (Value.null)) h = absurd h
  value_escapes (some (Value.bool b)) h = absurd h
  value_escapes (some (Value.int n)) h = absurd h
  value_escapes (some (Value.float x)) h = absurd h
  value_escapes (some (Value.str t)) h = absurd h
  value_escapes (some (Value.list xs)) h = absurd h

  -- What makes `check_file` escape, and the other way round.
  pub check_file-Breaks : (bytes : List ℕ) → check_file sys decodes bytes ≡ escapes → Breaks bytes
  unfolding check_file load_or_raise
  check_file-Breaks bytes h = elim (Bool-cases (decodes bytes)) [
    | inl e ↦ inr (e, value_breaks (sys.loads bytes) (rw e at h))
    | inr e ↦ inl e
  ]

  pub Breaks-check_file : (bytes : List ℕ) → Breaks bytes → check_file sys decodes bytes ≡ escapes
  unfolding check_file load_or_raise
  Breaks-check_file bytes (inl e) = rw e (unfold check_loaded in refl)
  Breaks-check_file bytes (inr (e, h)) = rw e (value_escapes (sys.loads bytes) h)
