-- ===== src/ProcessEnv/Scrubbed.antt =====
-- What the child of spawner/process_env.py finds in its environment.
use ida_pro_mcp.Prelude.{
  Text, txt, teq, teq_refl, teq_iff, mem_text, Bool, false, Option, none, some, List, [], ◌∷◌, ◌≡◌,
  refl, ◌∙◌, arith, if◌then◌else◌,
}
use ida_pro_mcp.ProcessEnv.{
  Env, get, pop, set, set_default, pop_all, with_path, or_empty, strip_venv_from_path,
  build_spawn_env, python_env_vars_to_strip,
}

pub get-set :
    (k j v : Text) (env : Env) → get j (set k v env) ≡ (if teq k j then some v else get j env)
unfolding get set
get-set k j v [] = refl
get-set k j v ((n, w) ∷ env) =
    ground (arith, get-set k j v env, teq_iff n k, teq_iff n j, teq_iff k j)

get-pop : (k j : Text) (env : Env) → get j (pop k env) ≡ (if teq k j then none else get j env)
unfolding get pop
get-pop k j [] = ground arith
get-pop k j ((n, v) ∷ env) = ground (arith, get-pop k j env, teq_iff n k, teq_iff n j, teq_iff k j)

get-pop_all :
    (names : List Text) (j : Text) (env : Env)
    → get j (pop_all names env) ≡ (if mem_text j names then none else get j env)
unfolding pop_all mem_text
get-pop_all [] j env = refl
get-pop_all (n ∷ names) j env =
    ground (arith, get-pop_all names j (pop n env), get-pop n j env, teq_iff n j, teq_iff j n)

pub get-set_default :
    (k j v : Text) (env : Env) → teq k j ≡ false → get j (set_default k v env) ≡ get j env
unfolding set_default
get-set_default k j v env ne = by_case (get k env) refl
  where
    by_case : (o : Option Text) → get k env ≡ o → get j (set_default k v env) ≡ get j env
    by_case none e = rw (set_default, e) (rw (get-set, ne) refl)
    by_case (some w) e = rw (set_default, e) refl

get-with_path :
    (j scrubbed : Text) (env : Env)
    → teq (txt "PATH") j ≡ false
    → get j (with_path scrubbed env) ≡ get j env
unfolding with_path
get-with_path j [] env ne = rw (get-pop, ne) refl
get-with_path j (c ∷ scrubbed) env ne = rw (get-set, ne) refl

-- A variable `j` that the scrubbing does not set: the child does not have it if it is among those
-- to strip, and has it as the parent does if not. The package root is as it is given.
pub get-build_spawn_env :
    (in_venv : Text → Bool) (package_root : Text) (environ : Env) (j : Text)
    → teq (txt "PATH") j ≡ false
    → teq (txt "TVHEADLESS") j ≡ false
    → teq (txt "IDA_PRO_MCP_PACKAGE_ROOT") j ≡ false
    → (get j (build_spawn_env in_venv package_root environ)
        ≡ (if mem_text j python_env_vars_to_strip then none else get j environ))
      × (get (txt "IDA_PRO_MCP_PACKAGE_ROOT") (build_spawn_env in_venv package_root environ)
          ≡ some package_root)
unfolding build_spawn_env
get-build_spawn_env in_venv package_root environ j path headless root =
    let env = pop_all python_env_vars_to_strip environ in
    let scrubbed = strip_venv_from_path in_venv (or_empty (get (txt "PATH") env)) in
    (
      rw (get-set, root)
          (get-set_default (txt "TVHEADLESS") j (txt "1") (with_path scrubbed env) headless
            ∙ get-with_path j scrubbed env path
            ∙ get-pop_all python_env_vars_to_strip j environ),
      rw (get-set, teq_refl) refl,
    )
