-- ===== src/Names/Tests.antt =====
-- Instances of the theorem on names.
use mathlib.Core.Bool.{false≢true}
use ida_pro_mcp.Prelude.{pos, txt, Text, none, some, List, [], ◌∷◌, ◌≡◌, refl, true}
use ida_pro_mcp.Format.{text}
use ida_pro_mcp.Names.{Idb, has_key, Plugin, Event, asks, renamed, answers}
use ida_pro_mcp.Names.Fresh.{expected, answers_lem}

-- A database with one function, whose demangled name is `name`.
abbrev database : Text → Idb
database name = record {
  input_file = some (txt "/bin/ls");
  bad_address = pos 4294967295;
  name_ea = λ t. pos 4294967295;
  functions = pos 64 ∷ [];
  demangled = λ ea. some name;
  has_func = λ ea. true;
}

abbrev plugin : Plugin
plugin = record {
  idb = database (txt "f()");
  cache = record { key = none; mapping = [] };
  hooked = true;
}

abbrev events : List Event
events = asks (text (txt "f()")) ∷ renamed (database (txt "g()")) ∷ asks (text (txt "f()")) ∷ []

answers_lem_example : answers events plugin ≡ expected events plugin.idb
unfolding has_key
answers_lem_example = answers_lem events plugin refl (λ e. absurd (false≢true e))
