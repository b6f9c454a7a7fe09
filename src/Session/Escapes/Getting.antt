-- ===== src/Session/Escapes/Getting.antt =====
-- `get` of plugin/session.py with the exceptions that it does not catch, against the `get` of Session.
use ida_pro_mcp.Prelude.{
  ℕ, Text, Bool, Option, none, some, List, ◌≡◌, ◌≢◌, ◌⊎◌, refl, sym, ap, ◌∙◌, inl, inr, arith,
  Bool-cases, Option-cases, if◌then◌else◌,
}
use ida_pro_mcp.Session.{
  SessionInfo, System, Disk, is_pid_alive, parse_file, read, load, get, remove, sidecar_name,
}
use ida_pro_mcp.Session.Escapes.{
  escapes, is_beyond_int, check_info, check_loaded, load_or_raise, get_loaded, get_or_raise,
  check_file,
}
use ida_pro_mcp.Session.Escapes.Causes.{Breaks, check_file-Breaks, Breaks-check_file}
use ida_pro_mcp.Session.Escapes.Agreement.{some_inj, load_agrees}

module _ (sys : System) (decodes : List ℕ → Bool) where
  -- `get` of what was loaded.
  got : Text → Disk → Option SessionInfo → Option SessionInfo × Disk
  got id disk none = (none, disk)
  got id disk (some info) =
      if is_pid_alive sys.kill info.pid then (some info, disk) else (none, remove sys id disk)

  -- What `get` does with a file whose content is loaded as `o`, where the total `_load` gives `p`.
  GetsLoaded : Text → Disk → Option (Option SessionInfo) → Option SessionInfo → Type 0
  GetsLoaded id disk o p =
      ((check_loaded sys decodes o ≡ escapes) × (get_loaded sys decodes id disk o ≡ (none, disk)))
      ⊎ ((check_loaded sys decodes o ≢ escapes)
          × (get_loaded sys decodes id disk o
              ≡ (let found = got id disk p in (some found.0, found.1))))

  get_info_agrees :
      (id : Text) (disk : Disk) (o : Option SessionInfo) → GetsLoaded id disk (some o) o
  unfolding GetsLoaded get_loaded got check_loaded check_info
  get_info_agrees id disk none = inr ((λ e. cc), refl)
  get_info_agrees id disk (some info) = elim (Bool-cases (is_beyond_int info.pid)) [
    | inl e ↦ inl (rw e refl, rw e refl)
    | inr e ↦ elim (Bool-cases (is_pid_alive sys.kill info.pid)) [
      | inl a ↦ inr ((rw (e, a) (λ k. cc)), rw (e, a) refl)
      | inr a ↦ inr ((rw (e, a) (λ k. cc)), rw (e, a) refl)
    ]
  ]

  get_loaded_agrees :
      (id : Text) (disk : Disk) (o : Option (Option SessionInfo)) (p : Option SessionInfo)
      → (o ≢ none → o ≡ some p)
      → GetsLoaded id disk o p
  unfolding GetsLoaded get_loaded check_loaded
  get_loaded_agrees id disk none p h = inl (refl, refl)
  get_loaded_agrees id disk (some o) p h =
      rw (← some_inj sys decodes o p (h (λ e. cc))) (get_info_agrees id disk o)

  got_lem :
      (id : Text) (disk : Disk) → get sys id disk ≡ got id disk (load sys (sidecar_name id) disk)
  unfolding get got
  got_lem id disk = grind arith

  got_nothing :
      (id : Text) (disk : Disk)
      → read (sidecar_name id) disk ≡ none
      → get_or_raise sys decodes id disk ≡ (some (get sys id disk).0, (get sys id disk).1)
  unfolding get_or_raise load got
  got_nothing id disk e = rw (get_or_raise, got_lem id disk, load, got, e) refl

  got_bytes :
      (id : Text) (disk : Disk) (bytes : List ℕ)
      → read (sidecar_name id) disk ≡ some bytes
      → get_or_raise sys decodes id disk
        ≡ get_loaded sys decodes id disk (load_or_raise sys decodes bytes)
  unfolding get_or_raise get_loaded
  got_bytes id disk bytes e = rw (get_or_raise, e) refl

  got_file :
      (id : Text) (disk : Disk) (bytes : List ℕ)
      → read (sidecar_name id) disk ≡ some bytes
      → get sys id disk ≡ got id disk (parse_file sys bytes)
  unfolding load
  got_file id disk bytes e = got_lem id disk ∙ ap (got id disk) (rw e refl)

  -- The sidecar of a session makes `get` raise.
  pub GetRaises : Text → Disk → Type 0
  GetRaises id disk =
      (bytes : List ℕ) × (read (sidecar_name id) disk ≡ some bytes) × Breaks sys decodes bytes

  -- `get` raises and leaves the directory, or is the total `get`.
  pub GetsOrRaises : Text → Disk → Option (Option SessionInfo) × Disk → Type 0
  GetsOrRaises id disk r =
      (GetRaises id disk × (r ≡ (none, disk)))
      ⊎ ((¬ (GetRaises id disk)) × (r ≡ (some (get sys id disk).0, (get sys id disk).1)))

  get_file_agrees :
      (id : Text) (disk : Disk) (bytes : List ℕ)
      → read (sidecar_name id) disk ≡ some bytes
      → GetsLoaded id disk (load_or_raise sys decodes bytes) (parse_file sys bytes)
      → GetsOrRaises id disk (get_or_raise sys decodes id disk)
  unfolding GetsLoaded GetsOrRaises GetRaises check_file
  get_file_agrees id disk bytes e (inl (k, r)) =
      inl ((bytes, e, check_file-Breaks sys decodes bytes k), got_bytes id disk bytes e ∙ r)
  get_file_agrees id disk bytes e (inr (k, r)) = inr (
    (λ (other, e', k').
        k (Breaks-check_file sys decodes bytes (rw (some_bytes bytes other (sym e ∙ e')) k'))),
    got_bytes id disk bytes e
        ∙ r
        ∙ ap (λ found. (some found.0, found.1)) (sym (got_file id disk bytes e)),
  )
    where
      some_bytes : (a b : List ℕ) → some a ≡ some b → a ≡ b
      some_bytes a b h = cc

  -- `get` raises exactly where the sidecar of the session is no UTF-8, or is an object of which a
  -- conversion overflows or which has a process id beyond a C int, and then leaves the directory as
  -- it was; in every other case it is the total `get`, which the rest of the development uses.
  pub get_or_raise_lem :
      (id : Text) (disk : Disk) → GetsOrRaises id disk (get_or_raise sys decodes id disk)
  unfolding GetsOrRaises GetRaises
  get_or_raise_lem id disk = elim (Option-cases (read (sidecar_name id) disk)) [
    | inl e ↦ inr ((λ (bytes, e', k). none_some bytes (sym e ∙ e')), got_nothing id disk e)
    | inr (bytes, e) ↦ get_file_agrees id disk bytes e (
        get_loaded_agrees id disk (load_or_raise sys decodes bytes) (parse_file sys bytes)
          (load_agrees sys decodes bytes))
  ]
    where
      none_some : (bytes : List ℕ) → ¬ (Path (Option (List ℕ)) none (some bytes))
      none_some bytes h = cc
