-- ===== src/Session/Race.antt =====
-- `write` of plugin/session.py beside `list_all` of another process.
use ida_pro_mcp.Prelude.{
  ℕ, ◌<◌, Text, txt, teq, Bool, true, false, Option, none, some, List, [], ◌∷◌, ◌++◌, length, ◌≡◌,
  refl, Bool-cases, inl, inr,
}
use ida_pro_mcp.Session.{
  SessionInfo, System, Disk, read, store, parse_file, is_sidecar, live_in, consider, scan_files,
  list_all, replace,
}
use ida_pro_mcp.Session.Directory.{is_sidecar-suffix}

module _ (sys : System) where
  -- A file that is not there is not there after a scan.
  scan_files-missing :
      (f : Text) (disk : Disk) → read f disk ≡ none → read f (scan_files sys disk).1 ≡ none
  unfolding scan_files read
  scan_files-missing f [] h = refl
  scan_files-missing f ((g, bytes) ∷ disk) h = elim (Bool-cases (teq g f)) [
    | inl same ↦ absurd (present (rw (same, read) at h))
    | inr other ↦
        kept (is_sidecar g) (live_in sys bytes) (scan_files sys disk) other
          (scan_files-missing f disk (rw (other, read) at h))
  ]
    where
      present : ◌≡◌ {A = Option (List ℕ)} (some bytes) none → ⊥
      present h = cc

      kept :
          (b : Bool) (o : Option SessionInfo) (acc : List SessionInfo × Disk)
          → teq g f ≡ false
          → read f acc.1 ≡ none
          → read f (consider b o (g, bytes) acc).1 ≡ none
      kept false o acc other h = unfold consider in rw other h
      kept true none acc other h = unfold consider in h
      kept true (some info) acc other h = unfold consider in rw other h

  -- A stale sidecar that is added to a directory is gone after a scan.
  scan_files-stale :
      (f : Text) (bytes : List ℕ) (disk : Disk)
      → read f disk ≡ none
      → is_sidecar f ≡ true
      → live_in sys bytes ≡ none
      → read f (scan_files sys (store f bytes disk)).1 ≡ none
  unfolding scan_files read store
  scan_files-stale f bytes [] h side stale = unfold consider in rw (side, stale)
  scan_files-stale f bytes ((g, old) ∷ disk) h side stale = elim (Bool-cases (teq g f)) [
    | inl same ↦ absurd (present (rw (same, read) at h))
    | inr other ↦ rw other (
        kept (is_sidecar g) (live_in sys old) (scan_files sys (store f bytes disk)) other
          (scan_files-stale f bytes disk (rw (other, read) at h) side stale))
  ]
    where
      present : ◌≡◌ {A = Option (List ℕ)} (some old) none → ⊥
      present h = cc

      kept :
          (b : Bool) (o : Option SessionInfo) (acc : List SessionInfo × Disk)
          → teq g f ≡ false
          → read f acc.1 ≡ none
          → read f (consider b o (g, old) acc).1 ≡ none
      kept false o acc other h = unfold consider in rw other h
      kept true none acc other h = unfold consider in h
      kept true (some info) acc other h = unfold consider in rw other h

  live_in-broken : (bytes : List ℕ) → parse_file sys bytes ≡ none → live_in sys bytes ≡ none
  unfolding live_in
  live_in-broken bytes h = rw (live_in, h) refl

  -- If another process calls `list_all` after `mkstemp` has made the temporary file, which is new,
  -- and before its content can be read as a sidecar, then `os.replace` fails and nothing is
  -- published, whatever the name of the temporary file is before its ".json".
  pub list_all_during_write :
      (stem target : Text) (partial : List ℕ) (disk : Disk)
      → 0 < length stem
      → read (stem ++ txt ".json") disk ≡ none
      → parse_file sys partial ≡ none
      → replace sys
          (stem ++ txt ".json")
          target
          (list_all sys (store (stem ++ txt ".json") partial disk)).1
        ≡ none
  unfolding replace list_all
  list_all_during_write stem target partial disk h fresh broken = rw (
    scan_files-stale (stem ++ txt ".json") partial disk fresh (is_sidecar-suffix stem h)
        (live_in-broken partial broken),
    replace,
  )
