-- ===== src/Config.antt =====
-- src/ida_pro_mcp/runtime_args.py, installer/config.py, installer/proxy_python.py and
-- spawner/locator.py on POSIX: the arguments and the configuration by which a client starts the
-- proxy, and the search for `idat`. The file system and the probe of an interpreter are parameters.
pub mod Home
mod Tests
use ida_pro_mcp.Prelude.{
  ℤ, pos, Text, txt, teq, mem_text, Bool, true, false, Option, none, some, List, [], ◌∷◌, ◌++◌,
  ◌&&◌, if◌then◌else◌,
}
use ida_pro_mcp.PyInt.{dec}
use ida_pro_mcp.Value.{Value, Items, Fields, nil, cons, end, field}
use ida_pro_mcp.ProcessEnv.{Env, get, set_default, is_empty_text}

abbrev pub default_host : Text
default_host = txt "127.0.0.1"

abbrev pub default_remote_port : ℤ
default_remote_port = pos 13337

abbrev pub default_timeout_s : ℤ
default_timeout_s = pos 1800

abbrev pub valid_transports : List Text
valid_transports = txt "stdio" ∷ txt "streamable-http" ∷ txt "sse" ∷ []

-- `none` is `ValueError`.
unfoldable pub build_serve_argv : Text → Text → ℤ → Bool → Option (List Text)
build_serve_argv transport host port unsafe =
    let last = if unsafe then txt "--unsafe" ∷ [] else [] in
    if mem_text transport valid_transports
    then if teq transport (txt "stdio")
      then some (txt "serve" ∷ last)
      else some (
          txt "serve"
          ∷ txt "--transport"
          ∷ transport
          ∷ txt "--host"
          ∷ host
          ∷ txt "--port"
          ∷ dec port
          ∷ last)
    else none

abbrev pub ida_home_env_var : Text
ida_home_env_var = txt "IDA_PRO_HOME"

-- `os.environ.get(name)`, where an empty value counts as missing.
unfoldable pub get_nonempty : Text → Env → Option Text
get_nonempty name env = elim (get name env) [
  | none ↦ none
  | some value ↦ if is_empty_text value then none else some value
]

-- What the system says of paths: `expanduser`, `is_dir`, a file that may be executed, and `resolve`.
pub record Files : Type 0 where
  pub expanduser : Text → Text
  pub is_dir : Text → Bool
  pub is_program : Text → Bool
  pub resolve : Text → Text

-- The loop over the names of the program; `none` is `IdatNotFoundError`.
unfoldable pub first_program : Files → Text → List Text → Option Text
first_program files directory [] = none
first_program files directory (name ∷ names) =
    let candidate = directory ++ (b'/' ∷ name) in
    let rest = first_program files directory names in
    if files.is_program candidate then some (files.resolve candidate) else rest

unfoldable pub idat_basenames : List Text
idat_basenames = txt "idat" ∷ txt "idat.exe" ∷ []

unfoldable pub locate_idat_in_home : Files → Text → Option Text
locate_idat_in_home files home =
    if files.is_dir (files.expanduser home)
    then first_program files (files.expanduser home) idat_basenames
    else none

unfoldable pub locate_idat : Files → Env → Option Text
locate_idat files env = elim (get_nonempty ida_home_env_var env) [
  | none ↦ none
  | some home ↦ locate_idat_in_home files home
]

-- `_candidate_interpreters`: the Python of the active virtual environment, if it exists, and the
-- one that runs.
unfoldable pub candidate_interpreters : (Text → Bool) → Env → Text → List Text
candidate_interpreters exists env executable = elim (get_nonempty (txt "VIRTUAL_ENV") env) [
  | none ↦ executable ∷ []
  | some venv ↦
      let python = venv ++ txt "/bin/python3" in
      if exists python
      then if teq python executable then executable ∷ [] else python ∷ executable ∷ []
      else executable ∷ []
]

unfoldable pub first_importing : (Text → Bool) → Text → List Text → Text
first_importing can_import default [] = default
first_importing can_import default (interpreter ∷ candidates) =
    let rest = first_importing can_import default candidates in
    if can_import interpreter then interpreter else rest

unfoldable pub get_python_executable : (Text → Bool) → (Text → Bool) → Env → Text → Text
get_python_executable exists can_import env executable =
    first_importing can_import executable (candidate_interpreters exists env executable)

unfoldable pub python_env : List Text
python_env =
    txt "PYTHONHOME"
    ∷ txt "PYTHONPATH"
    ∷ txt "PYTHONSAFEPATH"
    ∷ txt "PYTHONPLATLIBDIR"
    ∷ txt "PYTHONPYCACHEPREFIX"
    ∷ txt "PYTHONNOUSERSITE"
    ∷ txt "PYTHONUSERBASE"
    ∷ []

-- The comprehension of `collect_python_env`.
unfoldable pub collect : List Text → Env → Env
collect [] env = []
collect (var ∷ vars) env = elim (get_nonempty var env) [
  | none ↦ collect vars env
  | some value ↦ (var, value) ∷ collect vars env
]

unfoldable pub collect_python_env : Env → Env
collect_python_env env = collect python_env env

unfoldable pub ida_home_placeholder : Text
ida_home_placeholder = txt "REPLACE_WITH_PATH_TO_IDA_INSTALL_DIR"

-- The value, and whether it is the placeholder.
unfoldable pub resolve_from_env : Env → Text × Bool
resolve_from_env env = elim (get_nonempty ida_home_env_var env) [
  | none ↦ (ida_home_placeholder, true)
  | some existing ↦ (existing, false)
]

unfoldable pub resolve_ida_home : Option Text → Env → Text × Bool
resolve_ida_home none env = resolve_from_env env
resolve_ida_home (some []) env = resolve_from_env env
resolve_ida_home (some (c ∷ explicit)) env = (c ∷ explicit, false)

-- `none` is `IdatNotFoundError`.
unfoldable pub validated : Files → Text × Bool → Option (Text × Bool)
validated files (value, true) = some (value, true)
validated files (value, false) = elim (locate_idat_in_home files value) [
  | none ↦ none
  | some idat ↦ some (value, false)
]

unfoldable pub validated_ida_home : Files → Option Text → Env → Option (Text × Bool)
validated_ida_home files explicit env = validated files (resolve_ida_home explicit env)

unfoldable pub to_items : List Text → Items
to_items [] = nil
to_items (t ∷ ts) = cons (Value.str t) (to_items ts)

unfoldable pub to_fields : Env → Fields
to_fields [] = end
to_fields ((name, value) ∷ env) = field name (Value.str value) (to_fields env)

-- `_build_stdio_config`, where the interpreter and the path of `__main__.py` are known. `argv` is
-- what `build_serve_argv` gives for stdio, and `environ` the environment.
unfoldable pub build_stdio_config : Text → Text → List Text → Env → Env → Option Text → Fields
build_stdio_config python entry argv env environ ida_home =
    field (txt "command") (Value.str python) (
      field (txt "args") (Value.list (cons (Value.str entry) (to_items argv))) (
        field (txt "timeout") (Value.int default_timeout_s) (
          field (txt "disabled") (Value.bool false) (
            field (txt "env")
              (Value.object (
                to_fields
                  (set_default ida_home_env_var ((resolve_ida_home ida_home environ).0) env)))
              end))))

unfoldable pub http_path : Text → Option Text
http_path transport =
    if teq transport (txt "streamable-http")
    then some (txt "/mcp")
    else if teq transport (txt "sse")
    then some (txt "/sse")
    else none

-- `none` is `ValueError`.
unfoldable pub build_http_config : Text → Text → ℤ → Option Fields
build_http_config transport host port = elim (http_path transport) [
  | none ↦ none
  | some path ↦ some (
      field (txt "url") (Value.str (txt "http://" ++ (host ++ (b':' ∷ (dec port ++ path))))) (
        field (txt "timeout") (Value.int default_timeout_s)
          (field (txt "disabled") (Value.bool false) end)))
]

-- What is fixed while the program runs: its interpreter, its entry file, the environment.
pub record Installation : Type 0 where
  pub python : Text
  pub entry : Text
  pub environ : Env
  pub files : Files

pub data Note : Type 0 where
  python_env_detected home_not_set any_interface unsafe_remote : Note
  start_proxy : List Text → Note

pub record Printed : Type 0 where
  pub config : Fields
  pub notes : List Note

unfoldable pub note_if : Bool → Note → List Note
note_if true note = note ∷ []
note_if false note = []

unfoldable pub is_empty_env : Env → Bool
is_empty_env [] = true
is_empty_env (entry ∷ env) = false

-- `print_mcp_config` for stdio, when the value for `IDA_PRO_HOME` is known.
unfoldable pub stdio_printed : Installation → List Text → Text → Bool → Printed
stdio_printed i argv home is_placeholder = record {
  config =
      build_stdio_config i.python i.entry argv (collect_python_env i.environ) i.environ (some home);
  notes =
      (if is_empty_env (collect_python_env i.environ) then [] else python_env_detected ∷ [])
      ++ note_if is_placeholder home_not_set;
}

unfoldable pub print_validated : Installation → Bool → Option (Text × Bool) → Option Printed
print_validated i unsafe none = none
print_validated i unsafe (some (home, is_placeholder)) =
    elim (build_serve_argv (txt "stdio") default_host default_remote_port unsafe) [
      | none ↦ none
      | some argv ↦ some (stdio_printed i argv home is_placeholder)
    ]

-- `none` is an exception.
unfoldable pub print_stdio : Installation → Bool → Option Text → Option Printed
print_stdio i unsafe ida_home =
    print_validated i unsafe (validated_ida_home i.files ida_home i.environ)

unfoldable pub print_http : Text → Text → ℤ → Bool → Option Printed
print_http transport host port unsafe = elim (build_serve_argv transport host port unsafe) [
  | none ↦ none
  | some argv ↦ elim (build_http_config transport host port) [
    | none ↦ none
    | some config ↦ some (record {
      config = config;
      notes =
          note_if (teq host (txt "0.0.0.0")) any_interface
          ++ (note_if unsafe unsafe_remote ++ (start_proxy argv ∷ []));
    })
  ]
]

unfoldable pub print_mcp_config :
    Installation → Bool → Text → Text → ℤ → Option Text → Option Printed
print_mcp_config i unsafe transport host port ida_home =
    if teq transport (txt "stdio")
    then print_stdio i unsafe ida_home
    else print_http transport host port unsafe
