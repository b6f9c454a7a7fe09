-- ===== src/Cli.antt =====
-- src/ida_pro_mcp/cli.py: the subcommands behind `argparse`, whose result is a parameter, and the
-- types of its arguments. What a command prints and its exit code are its value.
pub mod Close
mod Tests
use ida_pro_mcp.Prelude.{
  ℕ, ℤ, pos, leb_ℤ, ltb_ℤ, Text, txt, teq, Bool, true, false, not, Option, none, some, List, [],
  ◌∷◌, ◌++◌, map, keep, ◌&&◌, ◌||◌, if◌then◌else◌,
}
use ida_pro_mcp.PyInt.{int_10, dec}
use ida_pro_mcp.Value.{Float, Fields}
use ida_pro_mcp.Session.{SessionInfo, System, Disk, to_dict, list_all}
use ida_pro_mcp.Spawner.{State, Tick}
use ida_pro_mcp.SessionControl.{CloseOutcome, resolve_targets, close_sessions}
use ida_pro_mcp.Config.{Installation, Printed, default_host, default_remote_port, print_mcp_config}

-- What a type of `argparse` makes of its text: a value, or `ArgumentTypeError`.
pub data Parsed {ℓ} (A : Type ℓ) : Type ℓ where
  parsed : A → Parsed A
  refused : Text → Parsed A

unfoldable pub port_in_range : ℤ → Parsed ℤ
port_in_range port =
    if leb_ℤ (pos 1) port && leb_ℤ port (pos 65535)
    then parsed port
    else refused (txt "port must be in 1-65535, got " ++ dec port)

unfoldable pub port_type : (Text → Text) → Text → Parsed ℤ
port_type repr raw = elim (int_10 raw) [
  | none ↦ refused (txt "port must be an integer, got " ++ repr raw)
  | some port ↦ port_in_range port
]

-- `seconds < 0`, which does not hold of `nan`.
unfoldable pub is_negative : Float → Bool
is_negative (Float.dyadic mantissa exponent) = ltb_ℤ mantissa (pos 0)
is_negative Float.infinity = false
is_negative Float.minus_infinity = true
is_negative Float.nan = false

-- `to_float` is `float(raw)`, and `render` what an f-string makes of a float.
unfoldable pub timeout_type :
    (Text → Text) → (Text → Option Float) → (Float → Text) → Text → Parsed Float
timeout_type repr to_float render raw = elim (to_float raw) [
  | none ↦ refused (txt "timeout must be a number, got " ++ repr raw)
  | some seconds ↦
      if is_negative seconds
      then refused (txt "timeout must not be negative, got " ++ render seconds)
      else parsed seconds
]

-- The namespace of `serve`, of `config` and `service install`, and of `session close`.
pub record ServeArgs : Type 0 where
  pub transport : Text
  pub host : Text
  pub port : ℤ
  pub unsafe : Bool
  pub ida_home : Option Text

pub record CloseArgs : Type 0 where
  pub session_ids : List Text
  pub paths : List Text
  pub close_all : Bool
  pub timeout : Option Float
  pub force : Bool

pub data SessionAction : Type 0 where
  list : SessionAction
  close : CloseArgs → SessionAction

pub data Command : Type 0 where
  serve config : ServeArgs → Command
  session : Option SessionAction → Command

-- `print` to stdout, to stderr, and the code of `SystemExit`, or 0.
pub data Output : Type 0 where
  sessions : List Fields → Output
  outcomes : List CloseOutcome → Output
  configuration : Printed → Output

pub record Finished : Type 0 where
  pub stdout : List Output
  pub stderr : List Text
  pub code : ℕ

abbrev pub fails : Text → Finished
fails message = record { stdout = []; stderr = message ∷ []; code = 2 }

unfoldable pub is_empty {ℓ} : {A : Type ℓ} → List A → Bool
is_empty [] = true
is_empty (x ∷ xs) = false

-- The lines about the sessions that were not closed.
unfoldable pub or_none : Option Text → Text
or_none none = txt "None"
or_none (some message) = message

unfoldable pub failures : List CloseOutcome → List CloseOutcome
failures done = keep (λ o. not o.closed) done

unfoldable pub failure_line : CloseOutcome → Text
failure_line o = txt "error: session " ++ (o.session_id ++ (txt ": " ++ or_none o.error))

-- What `_cmd_session_close` makes of the outcomes.
unfoldable pub report_with : List CloseOutcome → List CloseOutcome → Finished
report_with done failed = record {
  stdout = outcomes done ∷ [];
  stderr = map failure_line failed;
  code = if is_empty failed then 0 else 2;
}

unfoldable pub report : List CloseOutcome → Finished
report done = report_with done (failures done)

-- `0.0 if args.force else args.timeout`
unfoldable pub chosen_timeout : CloseArgs → Option Float
chosen_timeout args = if args.force then some (Float.dyadic (pos 0) 0) else args.timeout

module _ (sys : System) (repr : Text → Text) (sha1 normalize : Text → Text) where
  -- `close_sessions` of the targets. `ticks timeout n` is what happens while the `n`th call of
  -- `close` waits for that long; `none` is the default.
  unfoldable pub close_targets :
      (Option Float → ℕ → List Tick) → CloseArgs → List Text → State → Finished × State
  close_targets ticks args targets s =
      let (done, after) = close_sessions sys repr targets (ticks (chosen_timeout args)) 0 s in
      (report done, after)

  unfoldable pub named_targets :
      (Option Float → ℕ → List Tick) → CloseArgs → List Text → State → Finished × State
  named_targets ticks args targets s =
      if is_empty targets
      then (fails (txt "error: specify at least one session id, --path <binary>, or --all"), s)
      else close_targets ticks args targets s

  -- `live_session_ids`, with what `list_all` gives and leaves.
  unfoldable pub live_targets :
      (Option Float → ℕ → List Tick)
      → CloseArgs
      → List SessionInfo × Disk
      → State
      → Finished × State
  live_targets ticks args (live, disk) s =
      close_targets ticks args (map (λ i. i.session_id) live) (record s { disk = disk })

  -- `_cmd_session_close`
  unfoldable pub session_close :
      (Option Float → ℕ → List Tick) → CloseArgs → State → Finished × State
  session_close ticks args s =
      if args.close_all && (not (is_empty args.session_ids) || not (is_empty args.paths))
      then (fails (txt "error: --all cannot be combined with session ids or --path"), s)
      else if args.close_all
      then live_targets ticks args (list_all sys s.disk) s
      else named_targets ticks args (resolve_targets sha1 normalize args.session_ids args.paths) s

  -- `_cmd_session_list`
  unfoldable pub session_list : State → Finished × State
  session_list s =
      let (live, disk) = list_all sys s.disk in
      (
        record { stdout = sessions (map to_dict live) ∷ []; stderr = []; code = 0 },
        record s { disk = disk },
      )

  -- `_cmd_session`; `SystemExit` with a message prints it and exits with 1.
  unfoldable pub cmd_session :
      (Option Float → ℕ → List Tick) → Option SessionAction → State → Finished × State
  cmd_session ticks none s = (
    record {
      stdout = [];
      stderr =
          (txt "missing session action; use 'ida-pro-mcp-headless session list' or "
            ++ txt "'... session close <session_id>|--path <binary>|--all'")
          ∷ [];
      code = 1;
    },
    s,
  )
  cmd_session ticks (some list) s = session_list s
  cmd_session ticks (some (close args)) s = session_close ticks args s

-- `_cmd_config`; the only exception on the way is `IdatNotFoundError`, with its message.
unfoldable pub cmd_config : Installation → Text → ServeArgs → Finished
cmd_config i message args =
    elim (print_mcp_config i args.unsafe args.transport args.host args.port args.ida_home) [
      | none ↦ fails (txt "error: " ++ message)
      | some p ↦ record { stdout = configuration p ∷ []; stderr = []; code = 0 }
    ]

-- The host and the port with which `_cmd_serve` builds the server.
unfoldable pub serve_address : ServeArgs → Text × ℤ
serve_address args =
    if teq args.transport (txt "stdio")
    then (default_host, default_remote_port)
    else (args.host, args.port)

-- The arguments that `main` hands to the parser.
unfoldable pub effective_argv : List Text → List Text
effective_argv [] = txt "serve" ∷ []
effective_argv (arg ∷ argv) = arg ∷ argv
