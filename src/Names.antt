-- ===== src/Names.antt =====
-- src/ida_pro_mcp/plugin/names.py, caches.py, idb_hooks.py and the lookups of funcs.py: names and
-- addresses, the cache of demangled names, and the events that wipe it. What the SDK of IDA answers
-- about a database is a record of functions, and `repr` is a parameter.
pub mod Fresh
mod Tests
use ida_pro_mcp.Prelude.{
  ℕ, ◌-◌, ℤ, eq_ℤ, Text, txt, teq, strip, lower, lower_char, take, all, mem_text, leb, Bool, true,
  false, Option, none, some, List, [], ◌∷◌, ◌++◌, map, ◌&&◌, ◌||◌, if◌then◌else◌,
}
use ida_pro_mcp.Errors.{IdaError, Result, ok, err, raise, not_found, invalid_input, ◌>>=◌}
use ida_pro_mcp.Format.{TextOrInt, text, int, parse_ea, format_ea}

-- What the SDK answers: the path of the input file, `BADADDR`, `get_name_ea`, `Functions`, the
-- demangled name of the function at an address, and whether `get_func` finds a function there.
pub record Idb : Type 0 where
  pub input_file : Option Text
  pub bad_address : ℤ
  pub name_ea : Text → ℤ
  pub functions : List ℤ
  pub demangled : ℤ → Option Text
  pub has_func : ℤ → Bool

-- `_DemangledNameCache`
pub record Cache : Type 0 where
  pub key : Option Text
  pub mapping : List (Text × ℤ)

unfoldable pub invalidate : Cache → Cache
invalidate c = record { key = none; mapping = [] }

-- `invalidate_all`, where an invalidator that raises is passed over.
unfoldable pub invalidate_all : List (Cache → Option Cache) → Cache → Cache
invalidate_all [] c = c
invalidate_all (f ∷ invalidators) c =
    invalidate_all invalidators (elim (f c) [ none ↦ c | some c' ↦ c' ])

-- What has called `register_invalidator`.
unfoldable pub invalidators : List (Cache → Option Cache)
unfolding invalidate
invalidators = (λ c. some (invalidate c)) ∷ []

unfoldable pub resolve_name_ea : Idb → Text → Option ℤ
resolve_name_ea idb name =
    let ea = idb.name_ea name in if eq_ℤ ea idb.bad_address then none else some ea

-- `str.capitalize` within ASCII
unfoldable pub capitalize : Text → Text
unfolding lower
capitalize [] = []
capitalize (c ∷ t) = (if leb b'a' c && leb c b'z' then c - 32 else c) ∷ lower t

module _ (repr : Text → Text) where
  unfoldable pub resolve_name_ea_or_raise : Idb → Text → Text → Result ℤ
  resolve_name_ea_or_raise idb name kind = elim (resolve_name_ea idb name) [
    | none ↦ raise (capitalize kind ++ txt " " ++ repr name ++ txt " not found") not_found
    | some ea ↦ ok ea
  ]

  -- What becomes of the outcome of `parse_ea`.
  unfoldable pub or_not_found : Text → Text → Result ℤ → Result ℤ
  or_not_found target kind (ok ea) = ok ea
  or_not_found target kind (err e) =
      raise (capitalize kind ++ txt " " ++ repr target ++ txt " not found") not_found

  unfoldable pub resolve_name_or_address : Idb → Text → Text → Result ℤ
  resolve_name_or_address idb target kind =
      let stripped = strip target in
      if teq stripped []
      then raise (txt "Empty " ++ kind ++ txt " target") invalid_input
      else elim (resolve_name_ea idb stripped) [
        | some ea ↦ ok ea
        | none ↦ or_not_found target kind (parse_ea (text stripped))
      ]

-- `mapping.get(name)`: the assignment to a key that came last.
unfoldable pub find : Text → List (Text × ℤ) → Option ℤ
find name [] = none
find name ((n, ea) ∷ mapping) = if teq n name then some ea else find name mapping

unfoldable pub current_key : Idb → Text
current_key idb = elim idb.input_file [ none ↦ [] | some path ↦ path ]

-- `mapping[demangled] = ea`, if there is a name.
unfoldable pub assign : Option Text → ℤ → List (Text × ℤ) → List (Text × ℤ)
assign none ea mapping = mapping
assign (some []) ea mapping = mapping
assign (some (c ∷ name)) ea mapping = (c ∷ name, ea) ∷ mapping

-- The loop of `_build`.
unfoldable pub build_from : Idb → List ℤ → List (Text × ℤ) → List (Text × ℤ)
build_from idb [] mapping = mapping
build_from idb (ea ∷ eas) mapping = build_from idb eas (assign (idb.demangled ea) ea mapping)

unfoldable pub build : Idb → List (Text × ℤ)
build idb = build_from idb idb.functions []

unfoldable pub has_key : Text → Option Text → Bool
has_key key none = false
has_key key (some k) = teq k key

-- `get`: the cache that it leaves, whose mapping it returns.
unfoldable pub get : Idb → Cache → Cache
get idb c =
    if has_key (current_key idb) c.key
    then c
    else record { key = some (current_key idb); mapping = build idb }

abbrev pub no_function : Text → Result ℤ
no_function name = raise (txt "No function found with name " ++ name) not_found

unfoldable pub or_missing : Text → Option ℤ → Result ℤ
or_missing name none = no_function name
or_missing name (some ea) = ok ea

-- The second look, behind `invalidate`.
unfoldable pub look_again : Idb → Text → Cache → Result ℤ × Cache
look_again idb name c =
    let rebuilt = get idb (invalidate c) in (or_missing name (find name rebuilt.mapping), rebuilt)

-- What follows the look into the cached mapping, and the one for the name itself.
unfoldable pub from_cache : Idb → Text → Cache → Option ℤ → Result ℤ × Cache
from_cache idb name c (some ea) = (ok ea, c)
from_cache idb name c none = look_again idb name c

unfoldable pub or_demangled : Idb → Text → Cache → Option ℤ → Result ℤ × Cache
or_demangled idb name c (some ea) = (ok ea, c)
or_demangled idb name c none = from_cache idb name (get idb c) (find name (get idb c).mapping)

unfoldable pub lookup_function_ea_by_name : Idb → Text → Cache → Result ℤ × Cache
lookup_function_ea_by_name idb name c = or_demangled idb name c (resolve_name_ea idb name)

-- `_HEX_DIGITS`
unfoldable pub is_hex : ℕ → Bool
is_hex c = (leb b'0' c && leb c b'9') || (leb b'a' c && leb c b'f') || (leb b'A' c && leb c b'F')

unfoldable pub looks_hex : Text → Bool
looks_hex t =
    mem_text (lower (take 2 t)) (txt "0x" ∷ txt "0o" ∷ txt "0b" ∷ txt "0d" ∷ []) || all is_hex t

-- The address that the fast path accepts.
unfoldable pub at_function : Idb → Result ℤ → Option ℤ
at_function idb (ok ea) = if idb.has_func ea then some ea else none
at_function idb (err e) = none

unfoldable pub fast_path : Idb → Text → Option ℤ
fast_path idb t = if looks_hex t then at_function idb (parse_ea (text t)) else none

-- What follows the fast path.
unfoldable pub or_by_name : Idb → Text → Cache → Option ℤ → Result ℤ × Cache
or_by_name idb t c (some ea) = (ok ea, c)
or_by_name idb t c none = lookup_function_ea_by_name idb t c

unfoldable pub resolve_function_target : Idb → Text → Cache → Result ℤ × Cache
resolve_function_target idb target c =
    let stripped = strip target in
    if teq stripped []
    then (raise (txt "Empty function target") invalid_input, c)
    else or_by_name idb stripped c (fast_path idb stripped)

-- `get_func_or_raise`, which gives the address by which the function was found.
unfoldable pub checked : Idb → Result ℤ → Result ℤ
checked idb (err e) = err e
checked idb (ok ea) =
    if idb.has_func ea
    then ok ea
    else raise (txt "No function found at address " ++ format_ea ea) not_found

unfoldable pub get_func_or_raise : Idb → TextOrInt → Cache → Result ℤ × Cache
get_func_or_raise idb (int ea) c = (checked idb (parse_ea (int ea)), c)
get_func_or_raise idb (text target) c =
    let (found, after) = resolve_function_target idb target c in (checked idb found, after)

-- The plugin in a database: what the SDK answers, the cache, and whether the listener is installed.
pub record Plugin : Type 0 where
  pub idb : Idb
  pub cache : Cache
  pub hooked : Bool

-- `install`, where `hooks` is what `hook.hook()` says, and `uninstall`.
unfoldable pub install : Bool → Plugin → Plugin
install hooks p = record p { hooked = if p.hooked then true else hooks }

unfoldable pub uninstall : Plugin → Plugin
uninstall p = record p { hooked = false }

-- A tool asks for a function; a name changes, or another database is opened, after which the SDK
-- answers as `idb`.
pub data Event : Type 0 where
  asks : TextOrInt → Event
  renamed closed : Idb → Event

-- The methods of `_Listener`.
unfoldable pub notify : Idb → Plugin → Plugin
notify idb p = record p {
  idb = idb;
  cache = if p.hooked then invalidate_all invalidators p.cache else p.cache;
}

unfoldable pub answers : List Event → Plugin → List (Result ℤ)
answers [] p = []
answers (asks target ∷ events) p =
    let (found, after) = get_func_or_raise p.idb target p.cache in
    found ∷ answers events (record p { cache = after })
answers (renamed idb ∷ events) p = answers events (notify idb p)
answers (closed idb ∷ events) p = answers events (notify idb p)
