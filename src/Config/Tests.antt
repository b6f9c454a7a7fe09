-- ===== src/Config/Tests.antt =====
-- An instance of the theorem on the configuration for stdio.
use ida_pro_mcp.Prelude.{pos, txt, teq, Text, mem_text, true, false, some, List, [], ◌∷◌, ◌≡◌, refl}
use ida_pro_mcp.ProcessEnv.{get}
use ida_pro_mcp.Config.{
  Files, Installation, Printed, python_env, get_nonempty, stdio_printed, print_validated,
  print_stdio, print_mcp_config, validated_ida_home, validated, resolve_ida_home,
  locate_idat_in_home, first_program, idat_basenames, build_serve_argv,
}
use ida_pro_mcp.Config.Home.{Usable, client_env, print_mcp_config_lem}

abbrev files : Files
files = record {
  expanduser = λ path. path;
  is_dir = λ path. true;
  is_program = λ path. true;
  resolve = λ path. path;
}

abbrev installation : Installation
installation = record {
  python = txt "/usr/bin/python3";
  entry = txt "/opt/__main__.py";
  environ = (txt "PYTHONPATH", txt "/lib") ∷ [];
  files = files;
}

abbrev argv : List Text
argv = txt "serve" ∷ []

abbrev printed : Printed
printed = stdio_printed installation argv (txt "/ida") false

prints :
    print_mcp_config installation false (txt "stdio") (txt "h") (pos 1) (some (txt "/ida"))
    ≡ some printed
unfolding print_mcp_config print_stdio print_validated build_serve_argv teq txt mem_text
    validated_ida_home validated resolve_ida_home locate_idat_in_home first_program idat_basenames
prints = refl

forwarded : mem_text (txt "PYTHONPATH") python_env ≡ true
unfolding mem_text python_env teq txt
forwarded = refl

print_mcp_config_lem_example :
    Usable installation printed
    × (get (txt "PYTHONPATH") (client_env printed.config)
        ≡ get_nonempty (txt "PYTHONPATH") installation.environ)
print_mcp_config_lem_example =
    print_mcp_config_lem installation false (txt "h") (pos 1) (some (txt "/ida")) printed
      (txt "PYTHONPATH") prints forwarded
