-- ===== src/Cli/Tests.antt =====
-- An instance of the theorem on `session close`, and the types of the arguments.
use ida_pro_mcp.Prelude.{
  ℕ, pos, Text, txt, strip, lstrip, rstrip, true, Option, none, List, [], ◌∷◌, ◌≡◌, refl,
}
use ida_pro_mcp.PyInt.{int_10, signed, digits, scan, classify, digit_value}
use ida_pro_mcp.Value.{Float}
use ida_pro_mcp.Session.{exists}
use ida_pro_mcp.Spawner.{State, Tick}
use ida_pro_mcp.Cli.{parsed, port_type, port_in_range, CloseArgs, session_close, effective_argv}
use ida_pro_mcp.Cli.Close.{Fate, is_misused, wanted, session_close_lem}
use ida_pro_mcp.Samples.{system, directory}

abbrev same : Text → Text
same t = t

abbrev digest : Text → Text
digest path = txt "01a4"

abbrev state : State
state = record { disk = directory; switches = []; sent = []; handles = pos 42 ∷ []; waited = [] }

abbrev close_all : CloseArgs
close_all = record { session_ids = []; paths = []; close_all = true; timeout = none; force = true }

abbrev no_ticks : Option Float → ℕ → List Tick
no_ticks timeout n = []

session_close_lem_example :
    Fate
      (wanted (system exists) same digest same close_all state)
      (is_misused close_all (wanted (system exists) same digest same close_all state))
      state
      (session_close (system exists) same digest same no_ticks close_all state)
session_close_lem_example =
    session_close_lem (system exists) same digest same no_ticks close_all state

highest_port : port_type same (txt "65535") ≡ parsed (pos 65535)
unfolding port_type port_in_range int_10 signed digits scan classify digit_value strip lstrip rstrip
    txt
highest_port = refl

default_command : effective_argv [] ≡ txt "serve" ∷ []
unfolding effective_argv
default_command = refl
