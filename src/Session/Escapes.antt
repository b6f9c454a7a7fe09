-- ===== src/Session/Escapes.antt =====
-- The exceptions that `_load` and `is_pid_alive` of plugin/session.py and plugin/_pid_check.py do not
-- catch, and `list_all` and `get` with them: a file that is no UTF-8, a number that is too large for
-- a conversion, and a process id beyond a C int. `decodes` is whether UTF-8 can decode a file.
pub mod Causes
pub mod Listing
pub mod Agreement
pub mod Getting
use ida_pro_mcp.Prelude.{
  ℕ, ℤ, pos, ltb_ℤ, Text, txt, Bool, true, false, not, Option, none, some, List, [], ◌∷◌, ◌&&◌,
  ◌||◌, if◌then◌else◌,
}
use ida_pro_mcp.Value.{Value, Float, Fields, lookup}
use ida_pro_mcp.Session.{
  SessionInfo, System, Disk, read, to_int, from_fields, is_pid_alive, is_sidecar, sidecar_name,
  remove, sort_from,
}

-- `int(v)` raises `OverflowError` of an infinity; any other failure is caught.
unfoldable pub int_overflows : Value → Bool
int_overflows (Value.float Float.infinity) = true
int_overflows (Value.float Float.minus_infinity) = true
int_overflows _ = false

-- The conversion of a field, where `rest` is whether a later one overflows: a missing field and a
-- failure that is caught end `from_dict` before it.
unfoldable pub after_str : Option Value → Bool → Bool
after_str none rest = false
after_str (some v) rest = rest

unfoldable pub is_int : Option ℤ → Bool
is_int none = false
is_int (some n) = true

unfoldable pub after_int : Option Value → Bool → Bool
after_int none rest = false
after_int (some v) rest = int_overflows v || (is_int (to_int v) && rest)

-- What becomes of one file: the live session of it, nothing, or an exception.
pub data Checked : Type 0 where
  stale escapes : Checked
  live : SessionInfo → Checked

-- A process id that `os.kill` takes is a C int.
unfoldable pub is_beyond_int : ℤ → Bool
is_beyond_int pid = ltb_ℤ (pos 2147483647) pid

module _ (sys : System) (decodes : List ℕ → Bool) where
  -- `float(v)` raises `OverflowError` of an integer that is too large.
  unfoldable pub float_overflows : Option Value → Bool
  float_overflows (some (Value.int n)) = elim (sys.floats.of_int n) [ none ↦ true | some x ↦ false ]
  float_overflows _ = false

  -- The conversions of `from_dict`, in their order.
  unfoldable pub fields_overflow : Fields → Bool
  fields_overflow d = after_str (lookup (txt "session_id") d) (
      after_str (lookup (txt "host") d) (
        after_int (lookup (txt "port") d) (
          after_int (lookup (txt "pid") d) (
            after_str (lookup (txt "idb_path") d) (
              after_str (lookup (txt "input_file") d)
                (float_overflows (lookup (txt "created_at") d)))))))

  unfoldable pub check_info : Option SessionInfo → Checked
  check_info none = stale
  check_info (some info) =
      if is_beyond_int info.pid
      then escapes
      else if is_pid_alive sys.kill info.pid
      then live info
      else stale

  -- `_load`; `none` is an exception.
  unfoldable pub load_value : Option Value → Option (Option SessionInfo)
  load_value (some (Value.object d)) = if fields_overflow d then none else some (from_fields sys d)
  load_value _ = some none

  unfoldable pub load_or_raise : List ℕ → Option (Option SessionInfo)
  load_or_raise bytes = if decodes bytes then load_value (sys.loads bytes) else none

  -- `_load`, and `is_pid_alive` of what it gives.
  unfoldable pub check_loaded : Option (Option SessionInfo) → Checked
  check_loaded none = escapes
  check_loaded (some o) = check_info o

  unfoldable pub check_file : List ℕ → Checked
  check_file bytes = check_loaded (load_or_raise bytes)

  -- `get`; `none` is an exception.
  unfoldable pub get_loaded :
      Text → Disk → Option (Option SessionInfo) → Option (Option SessionInfo) × Disk
  get_loaded session_id disk none = (none, disk)
  get_loaded session_id disk (some none) = (some none, disk)
  get_loaded session_id disk (some (some info)) =
      if is_beyond_int info.pid
      then (none, disk)
      else if is_pid_alive sys.kill info.pid
      then (some (some info), disk)
      else (some none, remove sys session_id disk)

  unfoldable pub get_or_raise : Text → Disk → Option (Option SessionInfo) × Disk
  get_or_raise session_id disk = elim (read (sidecar_name session_id) disk) [
    | none ↦ (some none, disk)
    | some bytes ↦ get_loaded session_id disk (load_or_raise bytes)
  ]

  -- The loop of `list_all`; an exception ends it, and the files behind are not looked at.
  unfoldable pub consider_checked :
      Bool
      → Checked
      → Text × List ℕ
      → Disk
      → Option (List SessionInfo) × Disk
      → Option (List SessionInfo) × Disk
  consider_checked false c file disk (found, rest) = (found, file ∷ rest)
  consider_checked true stale file disk (found, rest) = (found, rest)
  consider_checked true escapes file disk run = (none, file ∷ disk)
  consider_checked true (live info) file disk (none, rest) = (none, file ∷ rest)
  consider_checked true (live info) file disk (some found, rest) =
      (some (info ∷ found), file ∷ rest)

  unfoldable pub scan_checked : Disk → Option (List SessionInfo) × Disk
  scan_checked [] = (some [], [])
  scan_checked ((f, bytes) ∷ disk) =
      consider_checked (is_sidecar f) (check_file bytes) (f, bytes) disk (scan_checked disk)

  unfoldable pub sorted : Option (List SessionInfo) → Option (List SessionInfo)
  sorted none = none
  sorted (some found) = some (sort_from [] found)

  -- `list_all`; `none` is an exception.
  unfoldable pub list_all_or_raise : Disk → Option (List SessionInfo) × Disk
  list_all_or_raise disk = let (found, rest) = scan_checked disk in (sorted found, rest)
