-- ===== src/Session/Escapes/Agreement.antt =====
-- Where no sidecar makes `list_all` of plugin/session.py raise, it is the `list_all` of Session.
use ida_pro_mcp.Prelude.{
  ℕ, Bool, Option, none, some, List, ◌≡◌, ◌≢◌, refl, sym, ap, ◌∙◌, inl, inr, arith, Bool-cases,
  if◌then◌else◌,
}
use ida_pro_mcp.Value.{Value}
use ida_pro_mcp.Session.{SessionInfo, System, is_pid_alive, parse_file, from_dict}
use ida_pro_mcp.Session.Escapes.{
  Checked, stale, escapes, live, fields_overflow, load_value, load_or_raise,
}

module _ (sys : System) (decodes : List ℕ → Bool) where
  pub some_inj : (o p : Option SessionInfo) → some o ≡ some p → o ≡ p
  some_inj o p h = cc

  found_in : Checked → Option SessionInfo
  found_in stale = none
  found_in escapes = none
  found_in (live info) = some info

  alive_info : Option SessionInfo → Option SessionInfo
  alive_info none = none
  alive_info (some info) = if is_pid_alive sys.kill info.pid then some info else none

  parsed : Option Value → Option SessionInfo
  parsed none = none
  parsed (some v) = from_dict sys v

  -- What `_load` gives where it raises nothing.
  value_agrees :
      (o : Option Value)
      → load_value sys decodes o ≢ none
      → load_value sys decodes o ≡ some (parsed o)
  unfolding load_value parsed from_dict
  value_agrees none h = refl
  value_agrees (some (Value.object d)) h = elim (Bool-cases (fields_overflow sys decodes d)) [
    | inl e ↦ absurd (h (rw e refl))
    | inr e ↦ rw e refl
  ]
  value_agrees (some _) h = refl

  parse_file-parsed : (bytes : List ℕ) → parse_file sys bytes ≡ parsed (sys.loads bytes)
  unfolding parse_file parsed
  parse_file-parsed bytes = grind arith

  pub load_agrees :
      (bytes : List ℕ)
      → load_or_raise sys decodes bytes ≢ none
      → load_or_raise sys decodes bytes ≡ some (parse_file sys bytes)
  unfolding load_or_raise
  load_agrees bytes h = elim (Bool-cases (decodes bytes)) [
    | inl e ↦
        rw e (
          value_agrees (sys.loads bytes) (λ k. h (rw e k))
          ∙ ap some (sym (parse_file-parsed bytes)))
    | inr e ↦ absurd (h (rw e refl))
  ]
