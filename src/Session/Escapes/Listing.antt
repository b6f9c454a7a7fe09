-- ===== src/Session/Escapes/Listing.antt =====
-- What `list_all` of plugin/session.py finds, and where it raises.
use mathlib.Core.Path.{subst}
use ida_pro_mcp.Prelude.{
  ℕ, Text, Bool, true, false, Option, none, some, List, [], ◌∷◌, All, ◌≡◌, ◌⊎◌, refl, sym, ap, ◌∙◌,
  inl, inr, arith, Bool-cases,
}
use ida_pro_mcp.Session.{SessionInfo, System, Disk, earlier, insert, sort_from, is_sidecar}
use ida_pro_mcp.Session.Live.{IsAlive, sort_from-All}
use ida_pro_mcp.Session.Escapes.{
  Checked, stale, escapes, live, check_info, check_loaded, load_or_raise, check_file,
  consider_checked, scan_checked, sorted, list_all_or_raise,
}
use ida_pro_mcp.Session.Escapes.Causes.{Breaks, check_file-Breaks, Breaks-check_file}

abbrev pub In : SessionInfo → List SessionInfo → Type 0
In info [] = ⊥
In info (x ∷ xs) = (info ≡ x) ⊎ In info xs

insert-new : (x : SessionInfo) (xs : List SessionInfo) → In x (insert x xs)
unfolding insert
insert-new x [] = inl refl
insert-new x (y ∷ ys) = elim (Bool-cases (earlier x.created_at y.created_at)) [
  | inl e ↦ rw e (inl refl)
  | inr e ↦ rw e (inr (insert-new x ys))
]

insert-old : (i x : SessionInfo) (xs : List SessionInfo) → In i xs → In i (insert x xs)
unfolding insert
insert-old i x [] h = absurd h
insert-old i x (y ∷ ys) (inl h) = elim (Bool-cases (earlier x.created_at y.created_at)) [
  | inl e ↦ rw e (inr (inl h))
  | inr e ↦ rw e (inl h)
]
insert-old i x (y ∷ ys) (inr h) = elim (Bool-cases (earlier x.created_at y.created_at)) [
  | inl e ↦ rw e (inr (inr h))
  | inr e ↦ rw e (inr (insert-old i x ys h))
]

sort_from-In :
    (i : SessionInfo) (acc xs : List SessionInfo) → In i acc ⊎ In i xs → In i (sort_from acc xs)
unfolding sort_from
sort_from-In i acc [] (inl h) = h
sort_from-In i acc [] (inr h) = absurd h
sort_from-In i acc (x ∷ xs) (inl h) = sort_from-In i (insert x acc) xs (inl (insert-old i x acc h))
sort_from-In i acc (x ∷ xs) (inr (inl e)) =
    sort_from-In i (insert x acc) xs
      (inl (subst (λ j. In j (insert x acc)) (sym e) (insert-new x acc)))
sort_from-In i acc (x ∷ xs) (inr (inr h)) = sort_from-In i (insert x acc) xs (inr h)

module _ (sys : System) (decodes : List ℕ → Bool) where
  -- A file that makes `list_all` raise.
  abbrev pub Raises : Text × List ℕ → Type 0
  Raises (f, bytes) = (is_sidecar f ≡ true) × Breaks sys decodes bytes

  abbrev pub SomeRaises : Disk → Type 0
  SomeRaises [] = ⊥
  SomeRaises (file ∷ disk) = Raises file ⊎ SomeRaises disk

  -- The live session of a file is among those found.
  abbrev pub Finds : List SessionInfo → Text × List ℕ → Type 0
  Finds found (f, bytes) =
      (info : SessionInfo)
      → is_sidecar f ≡ true
      → check_file sys decodes bytes ≡ live info
      → In info found

  -- What a run of the loop has to do with the files.
  abbrev pub Tells : Disk → Option (List SessionInfo) → Type 0
  Tells disk none = SomeRaises disk
  Tells disk (some found) = All (IsAlive sys) found × All (Finds found) disk × (SomeRaises disk → ⊥)

  check_info-IsAlive :
      (o : Option SessionInfo) (info : SessionInfo)
      → check_info sys decodes o ≡ live info
      → IsAlive sys info
  unfolding check_info
  check_info-IsAlive none info h = cc
  check_info-IsAlive (some i) info h = ground arith

  check_loaded-IsAlive :
      (o : Option (Option SessionInfo)) (info : SessionInfo)
      → check_loaded sys decodes o ≡ live info
      → IsAlive sys info
  unfolding check_loaded
  check_loaded-IsAlive none info h = cc
  check_loaded-IsAlive (some o) info h = check_info-IsAlive o info h

  check_file-IsAlive :
      (bytes : List ℕ) (info : SessionInfo)
      → check_file sys decodes bytes ≡ live info
      → IsAlive sys info
  unfolding check_file
  check_file-IsAlive bytes info h = check_loaded-IsAlive (load_or_raise sys decodes bytes) info h

  Finds-more :
      (i : SessionInfo) (found : List SessionInfo) (disk : Disk)
      → All (Finds found) disk
      → All (Finds (i ∷ found)) disk
  Finds-more i found [] h = tt
  Finds-more i found (file ∷ disk) (f, h) =
      (λ info side e. inr (f info side e), Finds-more i found disk h)

  Finds-sorted :
      (found : List SessionInfo) (disk : Disk)
      → All (Finds found) disk
      → All (Finds (sort_from [] found)) disk
  Finds-sorted found [] h = tt
  Finds-sorted found (file ∷ disk) (f, h) =
      (λ info side e. sort_from-In info [] found (inr (f info side e)), Finds-sorted found disk h)

  side_differs : false ≡ true → ⊥
  side_differs h = cc

  stale_is_not_live : {info : SessionInfo} → stale ≡ live info → ⊥
  stale_is_not_live h = cc

  stale_does_not_escape : stale ≡ escapes → ⊥
  stale_does_not_escape h = cc

  live_does_not_escape : {info : SessionInfo} → live info ≡ escapes → ⊥
  live_does_not_escape h = cc

  live_inj : {i j : SessionInfo} → live i ≡ live j → i ≡ j
  live_inj h = cc

  tells :
      (f : Text) (bytes : List ℕ) (disk : Disk) (b : Bool) (c : Checked)
      → is_sidecar f ≡ b
      → check_file sys decodes bytes ≡ c
      → (run : Option (List SessionInfo) × Disk) → Tells disk run.0
      → Tells ((f, bytes) ∷ disk) (consider_checked sys decodes b c (f, bytes) disk run).0
  unfolding consider_checked
  tells f bytes disk false c eb ec (none, rest) h = inr h
  tells f bytes disk false c eb ec (some found, rest) (alive, finds, quiet) = (
    alive,
    (λ info side e. absurd (side_differs (sym eb ∙ side)), finds),
    λ bad. elim bad [ inl (side, e) ↦ side_differs (sym eb ∙ side) | inr more ↦ quiet more ],
  )
  tells f bytes disk true stale eb ec (none, rest) h = inr h
  tells f bytes disk true stale eb ec (some found, rest) (alive, finds, quiet) = (
    alive,
    (λ info side e. absurd (stale_is_not_live (sym ec ∙ e)), finds),
    λ bad. elim bad [
      | inl (side, e) ↦ stale_does_not_escape (sym ec ∙ Breaks-check_file sys decodes bytes e)
      | inr more ↦ quiet more
    ],
  )
  tells f bytes disk true escapes eb ec run h = inl (eb, check_file-Breaks sys decodes bytes ec)
  tells f bytes disk true (live i) eb ec (none, rest) h = inr h
  tells f bytes disk true (live i) eb ec (some found, rest) (alive, finds, quiet) = (
    (check_file-IsAlive bytes i ec, alive),
    (λ info side e. inl (live_inj (sym e ∙ ec)), Finds-more i found disk finds),
    λ bad. elim bad [
      | inl (side, e) ↦ live_does_not_escape (sym ec ∙ Breaks-check_file sys decodes bytes e)
      | inr more ↦ quiet more
    ],
  )

  scan-Tells : (disk : Disk) → Tells disk (scan_checked sys decodes disk).0
  unfolding scan_checked
  scan-Tells [] = (tt, tt, λ h. h)
  scan-Tells ((f, bytes) ∷ disk) =
      tells f bytes disk (is_sidecar f) (check_file sys decodes bytes) refl refl
        (scan_checked sys decodes disk) (scan-Tells disk)

  again :
      (f : Text) (bytes : List ℕ) (disk : Disk) (b : Bool) (c : Checked)
      → is_sidecar f ≡ b
      → check_file sys decodes bytes ≡ c
      → (run : Option (List SessionInfo) × Disk) → scan_checked sys decodes run.1 ≡ run
      → scan_checked sys decodes (consider_checked sys decodes b c (f, bytes) disk run).1
        ≡ consider_checked sys decodes b c (f, bytes) disk run
  unfolding scan_checked consider_checked
  again f bytes disk false c eb ec run ih = rw (eb, ih) refl
  again f bytes disk true stale eb ec run ih = ih
  again f bytes disk true escapes eb ec run ih = rw (eb, ec) refl
  again f bytes disk true (live i) eb ec (none, rest) ih = rw (eb, ec, ih) refl
  again f bytes disk true (live i) eb ec (some found, rest) ih = rw (eb, ec, ih) refl

  scan-again :
      (disk : Disk)
      → scan_checked sys decodes (scan_checked sys decodes disk).1 ≡ scan_checked sys decodes disk
  unfolding scan_checked
  scan-again [] = refl
  scan-again ((f, bytes) ∷ disk) =
      again f bytes disk (is_sidecar f) (check_file sys decodes bytes) refl refl
        (scan_checked sys decodes disk) (scan-again disk)

  sorted-Tells :
      (disk : Disk) (o : Option (List SessionInfo))
      → Tells disk o
      → Tells disk (sorted sys decodes o)
  unfolding sorted
  sorted-Tells disk none h = h
  sorted-Tells disk (some found) (alive, finds, quiet) =
      (sort_from-All (IsAlive sys) [] found tt alive, Finds-sorted found disk finds, quiet)

  -- `list_all` raises just when some sidecar is no UTF-8, or is an object of which a conversion
  -- overflows or which has a process id beyond a C int. Otherwise it finds the live session of
  -- every sidecar, and only sessions whose process runs. Either way a second call does the same
  -- and changes no file: one sidecar that makes it raise makes it raise for good.
  pub list_all_or_raise_lem :
      (disk : Disk)
      → Tells disk (list_all_or_raise sys decodes disk).0
        × (list_all_or_raise sys decodes (list_all_or_raise sys decodes disk).1
            ≡ list_all_or_raise sys decodes disk)
  unfolding list_all_or_raise
  list_all_or_raise_lem disk = (
    sorted-Tells disk (scan_checked sys decodes disk).0 (scan-Tells disk),
    ap (λ run. (sorted sys decodes run.0, run.1)) (scan-again disk),
  )
