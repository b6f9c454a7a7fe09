-- ===== src/SessionId/Tests.antt =====
-- Ids of concrete paths.
use ida_pro_mcp.Prelude.{Text, txt, ◌≡◌, refl, take, length, ◌<◌, ◌+◌}
use ida_pro_mcp.SessionId.{
  derive_session_id, slug, is_allowed, sub_dash, in_run, lstrip_dash, rstrip_dash, or_default,
  basename,
}
use ida_pro_mcp.SessionId.Safe.{IsSafe, derive_session_id-IsSafe}

abbrev digest : Text → Text
digest path = txt "01a4"

digest-IsSafe : (text : Text) → IsSafe (digest text)
unfolding is_allowed txt
digest-IsSafe text = (refl, (refl, (refl, (refl, tt))))

derive_session_id_run : derive_session_id digest (txt "/bin/a b (1).exe") ≡ txt "a-b-1-.exe-01a4"
unfolding derive_session_id slug sub_dash in_run is_allowed lstrip_dash rstrip_dash or_default
    basename txt
derive_session_id_run = refl

derive_session_id-IsSafe_example :
    IsSafe (derive_session_id digest (txt "/bin/a b"))
    × (length (take 8 (digest (txt "/bin/a b"))) + 1
        < length (derive_session_id digest (txt "/bin/a b")))
derive_session_id-IsSafe_example = derive_session_id-IsSafe digest (txt "/bin/a b") digest-IsSafe
