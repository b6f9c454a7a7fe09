-- ===== src/Session/Tests.antt =====
-- Instances of the theorems on session.py.
use ida_pro_mcp.Prelude.{
  ◌<◌, false, txt, teq, some, none, ◌≡◌, refl, [], ◌++◌, if◌then◌else◌, arith, length, ℕ, Bool,
  true, not, List, ◌∷◌, ◌==◌,
}
use ida_pro_mcp.Value.{Value}
use ida_pro_mcp.Session.{
  exists, Disk, read, write, get, list_all, payload, parse_file, remove, is_pid_alive, replace,
  store, sidecar_name, to_dict,
}
use ida_pro_mcp.Session.Escapes.{list_all_or_raise, get_or_raise}
use ida_pro_mcp.Session.Escapes.Listing.{Tells, list_all_or_raise_lem}
use ida_pro_mcp.Session.Escapes.Getting.{GetsOrRaises, get_or_raise_lem}
use ida_pro_mcp.Session.Live.{get-write}
use ida_pro_mcp.Session.Race.{list_all_during_write}
use ida_pro_mcp.Samples.{system, info, directory}

payload_read :
    (system exists).loads (payload (system exists) info) ≡ some (Value.object (to_dict info))
unfolding payload
payload_read = refl

other_than_temporary : teq (txt "tmp.json") (txt "notes") ≡ false
unfolding teq txt
other_than_temporary = refl

other_than_sidecar : teq (sidecar_name info.session_id) (txt "notes") ≡ false
unfolding teq txt sidecar_name
other_than_sidecar = refl

get-write_example :
    (after : Disk) × (write (system exists) (txt "tmp.json") info directory ≡ some after)
    × (get (system exists) info.session_id after ≡ (
        if is_pid_alive (system exists).kill info.pid
        then (some info, after)
        else (none, remove (system exists) info.session_id after)))
    × (read (txt "notes") after ≡ read (txt "notes") directory)
get-write_example =
    get-write (system exists) (txt "tmp.json") (txt "notes") info directory payload_read
      other_than_temporary other_than_sidecar

stem_size : 0 < length (txt "tmp")
unfolding txt
stem_size = omega arith

fresh : read (txt "tmp" ++ txt ".json") directory ≡ none
unfolding read teq txt
fresh = refl

broken : parse_file (system exists) [] ≡ none
unfolding parse_file
broken = refl

list_all_during_write_example :
    replace
      (system exists)
      (txt "tmp" ++ txt ".json")
      (txt "a.json")
      (list_all (system exists) (store (txt "tmp" ++ txt ".json") [] directory)).1
    ≡ none
list_all_during_write_example =
    list_all_during_write (system exists) (txt "tmp") (txt "a.json") [] directory stem_size fresh
      broken

-- A decoder of UTF-8 that refuses a byte, and a directory with a file that has it.
abbrev decodes : List ℕ → Bool
decodes [] = true
decodes (b ∷ bytes) = not (b == 255)

abbrev mixed : Disk
mixed = (txt "b.json", 255 ∷ []) ∷ directory

list_all_or_raise_lem_example :
    Tells (system exists) decodes mixed (list_all_or_raise (system exists) decodes mixed).0
    × (list_all_or_raise (system exists) decodes (list_all_or_raise (system exists) decodes mixed).1
        ≡ list_all_or_raise (system exists) decodes mixed)
list_all_or_raise_lem_example = list_all_or_raise_lem (system exists) decodes mixed

get_or_raise_lem_example :
    GetsOrRaises
      (system exists)
      decodes
      (txt "b")
      mixed
      (get_or_raise (system exists) decodes (txt "b") mixed)
get_or_raise_lem_example = get_or_raise_lem (system exists) decodes (txt "b") mixed
