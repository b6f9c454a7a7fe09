-- ===== src/Config/Home.antt =====
-- The configuration for stdio, as the client reads it.
use mathlib.Core.Bool.{false≢true}
use mathlib.Core.Path.{subst}
use mathlib.Core.Option.{some-injective}
use ida_pro_mcp.Prelude.{
  ℤ, Text, txt, teq, teq_refl, teq→eq, sym, teq_iff, mem_text, Bool, true, false, Option, none,
  some, List, [], ◌∷◌, ◌≡◌, ◌⊎◌, any, ap, ◌∙◌, refl, inl, inr, Bool-cases, Option-cases, arith,
  if◌then◌else◌,
}
use ida_pro_mcp.Value.{Value, Fields, end, field, lookup}
use ida_pro_mcp.ProcessEnv.{Env, get, set_default, is_empty_text}
use ida_pro_mcp.ProcessEnv.Scrubbed.{get-set, get-set_default}
use ida_pro_mcp.Config.{
  build_serve_argv, ida_home_env_var, get_nonempty, Files, locate_idat_in_home, locate_idat,
  python_env, collect, collect_python_env, ida_home_placeholder, resolve_from_env, resolve_ida_home,
  validated, validated_ida_home, to_fields, build_stdio_config, stdio_printed, note_if,
  print_validated, Installation, Note, home_not_set, Printed, print_stdio, print_mcp_config,
}

-- The environment that a client reads in the configuration.
text_of : Value → Text
text_of (Value.str t) = t
text_of _ = []

to_env : Fields → Env
to_env end = []
to_env (field name v fs) = (name, text_of v) ∷ to_env fs

env_of : Option Value → Env
env_of (some (Value.object fs)) = to_env fs
env_of _ = []

pub client_env : Fields → Env
client_env config = env_of (lookup (txt "env") config)

to_env-to_fields : (env : Env) → to_env (to_fields env) ≡ env
unfolding to_env to_fields text_of
to_env-to_fields [] = refl
to_env-to_fields ((n, v) ∷ env) = rw (to_env-to_fields env) refl

get-collect :
    (k : Text) (vars : List Text) (env : Env)
    → get k (collect vars env) ≡ (if mem_text k vars then get_nonempty k env else none)
unfolding get collect mem_text
get-collect k [] env = refl
get-collect k (var ∷ vars) env = elim (Option-cases (get_nonempty var env)) [
  | inl e ↦ ground (arith, get-collect k vars env, teq_iff k var)
  | inr (v, e) ↦ ground (arith, get-collect k vars env, teq_iff k var, teq_iff var k)
]

get-set_default_self :
    (k v : Text) (env : Env) → get k env ≡ none → get k (set_default k v env) ≡ some v
unfolding set_default
get-set_default_self k v env e = rw (e, set_default) (rw (get-set, teq_refl k) refl)

client_env-build :
    (python entry home : Text) (argv : List Text) (env environ : Env)
    → client_env (build_stdio_config python entry argv env environ (some home))
      ≡ set_default ida_home_env_var ((resolve_ida_home (some home) environ).0) env
unfolding client_env build_stdio_config lookup teq txt env_of
client_env-build python entry home argv env environ =
    to_env-to_fields (set_default ida_home_env_var ((resolve_ida_home (some home) environ).0) env)

no_home : (environ : Env) → get ida_home_env_var (collect_python_env environ) ≡ none
unfolding collect_python_env python_env mem_text teq txt
no_home environ = get-collect ida_home_env_var python_env environ

-- What `validated_ida_home` accepts.
pub Accepted : Files → Text → Bool → Type 0
Accepted files home true = home ≡ ida_home_placeholder
Accepted files home false = (idat : Text) × (locate_idat_in_home files home ≡ some idat)

get_nonempty-some :
    (k : Text) (env : Env) (v : Text)
    → get_nonempty k env ≡ some v
    → (get k env ≡ some v) × (is_empty_text v ≡ false)
unfolding get_nonempty
get_nonempty-some k env v e = ground (arith, Option-cases (get k env))

get_nonempty_of_get :
    (k : Text) (env : Env) (v : Text)
    → get k env ≡ some v
    → is_empty_text v ≡ false
    → get_nonempty k env ≡ some v
unfolding get_nonempty
get_nonempty_of_get k env v e n = ground arith

abbrev Settled : Text × Bool → Type 0
Settled r = (is_empty_text (r.0) ≡ false) × (r.1 ≡ true → r.0 ≡ ida_home_placeholder)

resolve_from_env-Settled : (env : Env) → Settled (resolve_from_env env)
unfolding resolve_from_env ida_home_placeholder txt is_empty_text
resolve_from_env-Settled env = elim (Option-cases (get_nonempty ida_home_env_var env)) [
  | inl e ↦ rw (e, resolve_from_env) (refl, λ h. refl)
  | inr (v, e) ↦
      rw (e, resolve_from_env) ((get_nonempty-some ida_home_env_var env v e).1, λ h. absurd cc)
]

resolve-Settled : (h : Option Text) (env : Env) → Settled (resolve_ida_home h env)
unfolding resolve_ida_home is_empty_text
resolve-Settled none env = resolve_from_env-Settled env
resolve-Settled (some []) env = resolve_from_env-Settled env
resolve-Settled (some (c ∷ t)) env = (refl, λ h. absurd cc)

validated-some :
    (files : Files) (r : Text × Bool) (home : Text) (b : Bool)
    → Settled r
    → validated files r ≡ some (home, b)
    → (is_empty_text home ≡ false) × Accepted files home b
unfolding validated Accepted
validated-some files (v, true) home true (n, p) e = (ground arith, ground (arith, p refl))
validated-some files (v, true) home false (n, p) e = absurd (ground arith)
validated-some files (v, false) home true (n, p) e =
    absurd (ground (arith, Option-cases (locate_idat_in_home files v)))
validated-some files (v, false) home false (n, p) e =
    elim (Option-cases (locate_idat_in_home files v)) [
      | inl l ↦ absurd (ground arith)
      | inr (idat, l) ↦ (ground arith, (idat, ground arith))
    ]

pub is_home_note : Note → Bool
is_home_note home_not_set = true
is_home_note _ = false

-- The client starts a proxy that finds `idat`, or the user is told that the directory of IDA has to
-- be filled in.
abbrev pub Usable : Installation → Printed → Type 0
Usable i p =
    ((idat : Text) × (locate_idat i.files (client_env p.config) ≡ some idat))
    ⊎ ((get ida_home_env_var (client_env p.config) ≡ some ida_home_placeholder)
        × (any is_home_note p.notes ≡ true))

not_forwarded : (var : Text) → mem_text var python_env ≡ true → teq ida_home_env_var var ≡ false
unfolding python_env mem_text teq txt
not_forwarded var m = elim (Bool-cases (teq ida_home_env_var var)) [
  | inl e ↦ absurd (
      false≢true
        (subst (λ v. mem_text v python_env ≡ true) (sym (teq→eq ida_home_env_var var e)) m))
  | inr e ↦ e
]

note_given :
    (home : Text) (i : Installation) (argv : List Text)
    → any is_home_note (stdio_printed i argv home true).notes ≡ true
unfolding stdio_printed note_if is_home_note
note_given home i argv = ground arith

resolve_nonempty :
    (home : Text) (env : Env)
    → is_empty_text home ≡ false
    → (resolve_ida_home (some home) env).0 ≡ home
unfolding resolve_ida_home is_empty_text
resolve_nonempty [] env n = absurd cc
resolve_nonempty (c ∷ t) env n = refl

module _ (i : Installation) (argv : List Text) (home : Text) where
  home_of_client :
      (b : Bool)
      → is_empty_text home ≡ false
      → get ida_home_env_var (client_env (stdio_printed i argv home b).config) ≡ some home
  unfolding stdio_printed
  home_of_client b n =
      rw (client_env-build i.python i.entry home argv (collect_python_env i.environ) i.environ) (
        rw (resolve_nonempty home i.environ n)
          (get-set_default_self ida_home_env_var home _ (no_home i.environ)))

  stdio-Usable :
      (b : Bool)
      → is_empty_text home ≡ false
      → Accepted i.files home b
      → Usable i (stdio_printed i argv home b)
  unfolding Accepted locate_idat
  stdio-Usable false n (idat, l) = inl (
    idat,
    rw (get_nonempty_of_get ida_home_env_var _ home (home_of_client false n) n, locate_idat) l,
  )
  stdio-Usable true n e = inr (home_of_client true n ∙ ap (λ h. some h) e, note_given home i argv)

  python_of_client :
      (b : Bool) (var : Text)
      → mem_text var python_env ≡ true
      → get var (client_env (stdio_printed i argv home b).config) ≡ get_nonempty var i.environ
  unfolding stdio_printed collect_python_env
  python_of_client b var m =
      rw (client_env-build i.python i.entry home argv (collect_python_env i.environ) i.environ) (
        rw (get-set_default ida_home_env_var var _ _ (not_forwarded var m))
          (rw (get-collect var python_env i.environ, m) refl))

abbrev Reaches : Installation → Text → Printed → Type 0
Reaches i var p = Usable i p × (get var (client_env p.config) ≡ get_nonempty var i.environ)

of_validated :
    (i : Installation) (unsafe : Bool) (ida_home : Option Text) (p : Printed) (var : Text)
    (o : Option (Text × Bool))
    → validated_ida_home i.files ida_home i.environ ≡ o
    → print_validated i unsafe o ≡ some p
    → mem_text var python_env ≡ true
    → Reaches i var p
unfolding print_validated build_serve_argv teq txt mem_text validated_ida_home
of_validated i unsafe ida_home p var none v e m = absurd cc
of_validated i unsafe ida_home p var (some (home, b)) v e m =
    let (n, accepted) = validated-some i.files _ home b (resolve-Settled ida_home i.environ) v in
    let argv = txt "serve" ∷ (if unsafe then txt "--unsafe" ∷ [] else []) in
    subst (Reaches i var) (some-injective _ _ e)
      (stdio-Usable i argv home b n accepted, python_of_client i argv home b var m)

-- `config` for stdio, when it prints a configuration: the client that uses it starts the proxy in
-- an environment in which the proxy finds `idat`, or `IDA_PRO_HOME` is the placeholder and a note
-- says so; and every variable for Python, `var`, that is set is passed on as it is.
pub print_mcp_config_lem :
    (i : Installation) (unsafe : Bool) (host : Text) (port : ℤ) (ida_home : Option Text)
    (p : Printed) (var : Text)
    → print_mcp_config i unsafe (txt "stdio") host port ida_home ≡ some p
    → mem_text var python_env ≡ true
    → Usable i p × (get var (client_env p.config) ≡ get_nonempty var i.environ)
unfolding print_mcp_config print_stdio teq txt
print_mcp_config_lem i unsafe host port ida_home p var e m =
    of_validated i unsafe ida_home p var _ refl e m
