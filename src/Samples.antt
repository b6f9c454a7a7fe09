-- ===== src/Samples.antt =====
-- Data for the tests: a session, the systems it lives in, and a registry with one tool.
use ida_pro_mcp.Prelude.{ℕ, pos, Text, txt, true, Option, none, some, List, [], ◌∷◌}
use ida_pro_mcp.Value.{Value, Float}
use ida_pro_mcp.Coerce.{Floats, Annotation, Members, Metadata}
use ida_pro_mcp.Registry.{Registry, Tool, Parameter, Kind, Hint, returned, Message}
use ida_pro_mcp.Session.{SessionInfo, System, Probe, Disk, to_dict}

abbrev pub floats : Floats
floats = record { of_int = λ n. some (Float.dyadic n 0); of_text = λ t. none }

abbrev pub wording : Message → Text
wording m = txt "refused"

abbrev pub info : SessionInfo
info = record {
  session_id = txt "a";
  host = txt "127.0.0.1";
  port = pos 8765;
  pid = pos 42;
  idb_path = txt "/a.i64";
  input_file = txt "/a";
  created_at = Float.dyadic (pos 1) 0;
}

-- A decoder that knows one session, and refuses an empty file.
abbrev pub known_session : List ℕ → Option Value
known_session [] = none
known_session (b ∷ bytes) = some (Value.object (to_dict info))

abbrev pub system : Probe → System
system probe = record {
  loads = known_session;
  dumps = λ v. b'{' ∷ [];
  render = λ v. [];
  floats = floats;
  kill = λ pid. probe;
}

abbrev pub directory : Disk
directory = (txt "a.json", b'{' ∷ []) ∷ (txt "notes", []) ∷ []

-- A parameter of type `Annotated[int, Doc("count", ge=1)]`.
abbrev pub count_type : Annotation
count_type =
    Annotation.annotated Annotation.int_type
      (Metadata.doc (record { description = txt "count"; ge = some (pos 1); gt = none }) ∷ [])

abbrev pub count_parameter : Parameter
count_parameter = record {
  name = txt "count";
  kind = Kind.positional_or_keyword;
  annotation = Hint.hint count_type;
  is_required = true;
}

-- A tool that gives `None` and counts its calls.
abbrev pub tool : Tool ℕ
tool = record {
  name = txt "f";
  parameters = count_parameter ∷ [];
  return_hint = some (
      Annotation.union (
        Members.member Annotation.int_type
          (Members.member Annotation.none_type Members.no_member)));
  run = λ kw s. (returned Value.null, s);
}

abbrev pub empty_registry : Registry ℕ
empty_registry = record { methods = []; unsafe = []; nullable_result = [] }

abbrev pub registry : Registry ℕ
registry = record { methods = tool ∷ []; unsafe = []; nullable_result = txt "f" ∷ [] }
