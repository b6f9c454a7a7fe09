-- ===== src/Session.antt =====
-- src/ida_pro_mcp/plugin/session.py and the POSIX part of plugin/_pid_check.py: the directory of
-- sidecar files by which running sessions are found, of which none makes `_load` or `is_pid_alive`
-- raise. Session/Escapes has `list_all` with those exceptions, and says where the two are the same.
pub mod Directory
pub mod Live
pub mod Escapes
pub mod Race
mod Tests
use ida_pro_mcp.Prelude.{
  ℕ, suc, ◌+◌, ◌*◌, ◌^◌, ◌/◌, ◌-◌, ℤ, pos, negsuc, leb_ℤ, ltb_ℤ, Text, txt, teq, Bool, true, false,
  not, Option, none, some, List, [], ◌∷◌, ◌++◌, drop, length, ltb, ◌&&◌, if◌then◌else◌,
}
use ida_pro_mcp.Value.{Value, Float, Fields, end, field, lookup}
use ida_pro_mcp.Coerce.{Floats, scale, bool_int}
use ida_pro_mcp.PyInt.{int_10}
use ida_pro_mcp.JsonRpc.{truncate, as_text}

pub record SessionInfo : Type 0 where
  pub session_id : Text
  pub host : Text
  pub port : ℤ
  pub pid : ℤ
  pub idb_path : Text
  pub input_file : Text
  pub created_at : Float

unfoldable pub to_dict : SessionInfo → Fields
to_dict info = field (txt "session_id") (Value.str info.session_id) (
    field (txt "host") (Value.str info.host) (
      field (txt "port") (Value.int info.port) (
        field (txt "pid") (Value.int info.pid) (
          field (txt "idb_path") (Value.str info.idb_path) (
            field (txt "input_file") (Value.str info.input_file)
              (field (txt "created_at") (Value.float info.created_at) end))))))

infixl 5 ◌>>=◌
abbrev ◌>>=◌ {ℓ κ} : {A : Type ℓ} {B : Type κ} → Option A → (A → Option B) → Option B
none >>= f = none
some a >>= f = f a

-- `int(v)`; `none` is an exception.
unfoldable pub to_int : Value → Option ℤ
to_int (Value.int n) = some n
to_int (Value.bool b) = some (bool_int b)
to_int (Value.float x) = truncate x
to_int (Value.str t) = int_10 t
to_int _ = none

-- What a check of a process id that is a C int comes to: `os.kill(pid, 0)` succeeds, or raises
-- `ProcessLookupError`, `PermissionError`, or another `OSError`, which says whether it is `ESRCH`.
pub data Probe : Type 0 where
  exists no_process no_permission : Probe
  os_error : Bool → Probe

unfoldable pub is_pid_alive : (ℤ → Probe) → ℤ → Bool
is_pid_alive kill pid = if leb_ℤ pid (pos 0) then false else elim (kill pid) [
  | exists ↦ true
  | no_process ↦ false
  | no_permission ↦ true
  | os_error is_esrch ↦ not is_esrch
]

-- The files of the directory, by name.
abbrev pub Disk : Type 0
Disk = List (Text × List ℕ)

unfoldable pub read : Text → Disk → Option (List ℕ)
read name [] = none
read name ((f, bytes) ∷ disk) = if teq f name then some bytes else read name disk

-- `unlink`; a missing file is not an error for any caller.
unfoldable pub unlink : Text → Disk → Disk
unlink name [] = []
unlink name ((f, bytes) ∷ disk) =
    let rest = unlink name disk in if teq f name then rest else (f, bytes) ∷ rest

unfoldable pub store : Text → List ℕ → Disk → Disk
store name bytes [] = (name, bytes) ∷ []
store name bytes ((f, old) ∷ disk) =
    if teq f name then (f, bytes) ∷ disk else (f, old) ∷ store name bytes disk

unfoldable pub sidecar_name : Text → Text
sidecar_name session_id = session_id ++ txt ".json"

-- `child.suffix == ".json"`: the name ends so, behind one character at least.
unfoldable pub is_sidecar : Text → Bool
is_sidecar name = ltb 5 (length name) && teq (drop (length name - 5) name) (txt ".json")

-- `a.created_at < b.created_at`
unfoldable pub earlier : Float → Float → Bool
earlier (Float.dyadic m j) (Float.dyadic n k) = ltb_ℤ (scale m (2 ^ k)) (scale n (2 ^ j))
earlier (Float.dyadic m j) Float.infinity = true
earlier Float.minus_infinity (Float.dyadic n k) = true
earlier Float.minus_infinity Float.infinity = true
earlier _ _ = false

-- `live.sort(key=...)`, which keeps the order of equal keys.
unfoldable pub insert : SessionInfo → List SessionInfo → List SessionInfo
insert x [] = x ∷ []
insert x (y ∷ ys) = if earlier x.created_at y.created_at then x ∷ y ∷ ys else y ∷ insert x ys

unfoldable pub sort_from : List SessionInfo → List SessionInfo → List SessionInfo
sort_from acc [] = acc
sort_from acc (x ∷ xs) = sort_from (insert x acc) xs

-- One file in the loop of `list_all`: one that is no sidecar stays, a stale one is dropped, and
-- the session of a live one is listed.
unfoldable pub consider :
    Bool → Option SessionInfo → Text × List ℕ → List SessionInfo × Disk → List SessionInfo × Disk
consider false o file (found, rest) = (found, file ∷ rest)
consider true none file (found, rest) = (found, rest)
consider true (some info) file (found, rest) = (info ∷ found, file ∷ rest)

-- The interpreter's JSON and conversions, and the operating system's processes. `loads` is `none`
-- for a file that is no JSON.
pub record System : Type 0 where
  pub loads : List ℕ → Option Value
  pub dumps : Value → List ℕ
  pub render : Value → Text
  pub floats : Floats
  pub kill : ℤ → Probe

module _ (sys : System) where
  unfoldable pub to_float : Value → Option Float
  to_float (Value.float x) = some x
  to_float (Value.int n) = sys.floats.of_int n
  to_float (Value.bool b) = sys.floats.of_int (bool_int b)
  to_float (Value.str t) = sys.floats.of_text t
  to_float _ = none

  -- `SessionInfo.from_dict`; `none` is an exception.
  unfoldable pub from_fields : Fields → Option SessionInfo
  from_fields d = do
    session_id ← lookup (txt "session_id") d
    host ← lookup (txt "host") d
    port ← lookup (txt "port") d >>= to_int
    pid ← lookup (txt "pid") d >>= to_int
    idb_path ← lookup (txt "idb_path") d
    input_file ← lookup (txt "input_file") d
    created_at ← lookup (txt "created_at") d >>= to_float
    some (record {
      session_id = as_text sys.render session_id;
      host = as_text sys.render host;
      port = port;
      pid = pid;
      idb_path = as_text sys.render idb_path;
      input_file = as_text sys.render input_file;
      created_at = created_at;
    })

  unfoldable pub from_dict : Value → Option SessionInfo
  from_dict (Value.object d) = from_fields d
  from_dict _ = none

  -- `_load` of a file that is UTF-8, where no conversion overflows.
  unfoldable pub parse_file : List ℕ → Option SessionInfo
  parse_file bytes = do v ← sys.loads bytes; from_dict v

  unfoldable pub load : Text → Disk → Option SessionInfo
  load name disk = do bytes ← read name disk; parse_file bytes

  unfoldable pub payload : SessionInfo → List ℕ
  payload info = sys.dumps (Value.object (to_dict info))

  -- `write`, undisturbed: `mkstemp` creates the temporary file, it is written, and `os.replace`
  -- moves it over the target. `none` is `FileNotFoundError` of `os.replace`.
  unfoldable pub replace : Text → Text → Disk → Option Disk
  replace temp target disk = elim (read temp disk) [
    | none ↦ none
    | some bytes ↦ some (store target bytes (unlink temp disk))
  ]

  unfoldable pub write : Text → SessionInfo → Disk → Option Disk
  write temp info disk =
      replace temp (sidecar_name info.session_id) (store temp (payload info) (store temp [] disk))

  -- The live session that a file records.
  unfoldable pub live_in : List ℕ → Option SessionInfo
  live_in bytes = elim (parse_file bytes) [
    | none ↦ none
    | some info ↦ if is_pid_alive sys.kill info.pid then some info else none
  ]

  unfoldable pub remove : Text → Disk → Disk
  remove session_id disk = unlink (sidecar_name session_id) disk

  -- `get`: a file that is no sidecar stays, one of a process that is gone is removed.
  unfoldable pub get : Text → Disk → Option SessionInfo × Disk
  get session_id disk = elim (load (sidecar_name session_id) disk) [
    | none ↦ (none, disk)
    | some info ↦
        if not (is_pid_alive sys.kill info.pid)
        then (none, remove session_id disk)
        else (some info, disk)
  ]

  -- The loop of `list_all`: the live sessions in the order of the directory, and what is left.
  unfoldable pub scan_files : Disk → List SessionInfo × Disk
  scan_files [] = ([], [])
  scan_files ((f, bytes) ∷ disk) =
      consider (is_sidecar f) (live_in bytes) (f, bytes) (scan_files disk)

  unfoldable pub list_all : Disk → List SessionInfo × Disk
  list_all disk = let (found, rest) = scan_files disk in (sort_from [] found, rest)
