-- ===== src/ProcessEnv/Tests.antt =====
-- An instance of the theorem on process_env.py, and a run.
use ida_pro_mcp.Prelude.{
  Text, txt, teq, mem_text, Bool, false, none, some, [], ◌∷◌, ◌≡◌, refl, if◌then◌else◌,
}
use ida_pro_mcp.ProcessEnv.{
  Env, get, build_spawn_env, python_env_vars_to_strip, strip_venv_from_path, split_path, join_path,
  is_empty_text,
}
use ida_pro_mcp.ProcessEnv.Scrubbed.{get-build_spawn_env}

abbrev in_venv : Text → Bool
in_venv entry = teq entry (txt "/v/bin")

strip_venv_from_path_run :
    strip_venv_from_path in_venv (txt "/v/bin::/bin:/usr/bin") ≡ txt "/bin:/usr/bin"
unfolding strip_venv_from_path split_path join_path is_empty_text teq txt
strip_venv_from_path_run = refl

abbrev environ : Env
environ = (txt "PYTHONHOME", txt "/v") ∷ (txt "HOME", txt "/root") ∷ []

not_path : teq (txt "PATH") (txt "HOME") ≡ false
unfolding teq txt
not_path = refl

not_headless : teq (txt "TVHEADLESS") (txt "HOME") ≡ false
unfolding teq txt
not_headless = refl

not_root : teq (txt "IDA_PRO_MCP_PACKAGE_ROOT") (txt "HOME") ≡ false
unfolding teq txt
not_root = refl

get-build_spawn_env_example :
    (get (txt "HOME") (build_spawn_env in_venv (txt "/p") environ)
      ≡ (if mem_text (txt "HOME") python_env_vars_to_strip then none else get (txt "HOME") environ))
    × (get (txt "IDA_PRO_MCP_PACKAGE_ROOT") (build_spawn_env in_venv (txt "/p") environ)
        ≡ some (txt "/p"))
get-build_spawn_env_example =
    get-build_spawn_env in_venv (txt "/p") environ (txt "HOME") not_path not_headless not_root
