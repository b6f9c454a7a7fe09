-- ===== src/ProcessEnv.antt =====
-- src/ida_pro_mcp/spawner/process_env.py, on POSIX, and the list of installer/proxy_python.py: the
-- environment of the child process. Which directory is a virtual environment is a parameter.
pub mod Scrubbed
mod Tests
use ida_pro_mcp.Prelude.{
  ℕ, Text, txt, teq, mem_text, Bool, true, false, not, Option, none, some, List, [], ◌∷◌, ◌++◌,
  keep, ◌==◌, ◌&&◌, if◌then◌else◌,
}

abbrev pub Env : Type 0
Env = List (Text × Text)

unfoldable pub get : Text → Env → Option Text
get name [] = none
get name ((n, v) ∷ env) = if teq n name then some v else get name env

-- `env.pop(name, None)`
unfoldable pub pop : Text → Env → Env
pop name [] = []
pop name ((n, v) ∷ env) = let rest = pop name env in if teq n name then rest else (n, v) ∷ rest

-- `env[name] = value`
unfoldable pub set : Text → Text → Env → Env
set name value [] = (name, value) ∷ []
set name value ((n, v) ∷ env) = if teq n name then (n, value) ∷ env else (n, v) ∷ set name value env

-- `env.setdefault(name, value)`
unfoldable pub set_default : Text → Text → Env → Env
set_default name value env = elim (get name env) [ none ↦ set name value env | some v ↦ env ]

-- The loop over `_PYTHON_ENV_VARS_TO_STRIP`.
unfoldable pub pop_all : List Text → Env → Env
pop_all [] env = env
pop_all (name ∷ names) env = pop_all names (pop name env)

-- `path_value.split(":")`
unfoldable pub split_path : Text → List Text
split_path [] = [] ∷ []
split_path (c ∷ t) = elim (split_path t) [
  | [] ↦ []
  | entry ∷ entries ↦ if c == b':' then [] ∷ entry ∷ entries else (c ∷ entry) ∷ entries
]

unfoldable pub join_path : List Text → Text
join_path [] = []
join_path (entry ∷ []) = entry
join_path (entry ∷ next ∷ entries) = entry ++ (b':' ∷ join_path (next ∷ entries))

unfoldable pub is_empty_text : Text → Bool
is_empty_text [] = true
is_empty_text (c ∷ t) = false

-- `_strip_venv_from_path`; `in_venv entry` is that `pyvenv.cfg` is a file in the parent of `entry`.
unfoldable pub strip_venv_from_path : (Text → Bool) → Text → Text
strip_venv_from_path in_venv path_value =
    join_path
      (keep (λ entry. not (is_empty_text entry) && not (in_venv entry)) (split_path path_value))

-- What is done about `PATH`.
unfoldable pub with_path : Text → Env → Env
with_path [] env = pop (txt "PATH") env
with_path (c ∷ scrubbed) env = set (txt "PATH") (c ∷ scrubbed) env

unfoldable pub or_empty : Option Text → Text
or_empty none = []
or_empty (some t) = t

-- `PYTHON_ENV_VARS`
unfoldable pub python_env_vars : List Text
python_env_vars =
    txt "PYTHONHOME"
    ∷ txt "PYTHONPATH"
    ∷ txt "PYTHONSAFEPATH"
    ∷ txt "PYTHONPLATLIBDIR"
    ∷ txt "PYTHONPYCACHEPREFIX"
    ∷ txt "PYTHONNOUSERSITE"
    ∷ txt "PYTHONUSERBASE"
    ∷ []

unfoldable pub python_env_vars_to_strip : List Text
python_env_vars_to_strip =
    python_env_vars
    ++ (txt "PYTHONSTARTUP"
        ∷ txt "PYTHONEXECUTABLE"
        ∷ txt "VIRTUAL_ENV"
        ∷ txt "VIRTUAL_ENV_PROMPT"
        ∷ txt "UV_INTERNAL__PYTHONHOME"
        ∷ [])

unfoldable pub build_spawn_env : (Text → Bool) → Text → Env → Env
build_spawn_env in_venv package_root environ =
    let env = pop_all python_env_vars_to_strip environ in
    let scrubbed = strip_venv_from_path in_venv (or_empty (get (txt "PATH") env)) in
    set (txt "IDA_PRO_MCP_PACKAGE_ROOT") package_root
      (set_default (txt "TVHEADLESS") (txt "1") (with_path scrubbed env))
