-- ===== src/SessionId.antt =====
-- src/ida_pro_mcp/plugin/session.py, the names: from the path of a binary to its session id.
pub mod Safe
mod Tests
use ida_pro_mcp.Prelude.{
  ℕ, Text, txt, Bool, true, false, not, List, [], ◌∷◌, ◌++◌, any, take, leb, ◌==◌, ◌&&◌, ◌||◌,
  if◌then◌else◌,
}

-- `[a-zA-Z0-9._-]`
unfoldable pub is_allowed : ℕ → Bool
is_allowed c =
    (leb b'a' c && leb c b'z')
    || (leb b'A' c && leb c b'Z')
    || (leb b'0' c && leb c b'9')
    || c == b'.'
    || c == b'_'
    || c == b'-'

-- A run of other characters goes on.
unfoldable pub in_run : Text → Bool
in_run [] = false
in_run (c ∷ text) = not (is_allowed c)

-- `_SLUG_RE.sub("-", text)`: each run of other characters becomes one dash.
unfoldable pub sub_dash : Text → Text
sub_dash [] = []
sub_dash (c ∷ text) =
    let rest = sub_dash text in
    if is_allowed c then c ∷ rest else if in_run text then rest else b'-' ∷ rest

-- `strip("-")`
unfoldable pub lstrip_dash : Text → Text
lstrip_dash [] = []
lstrip_dash (c ∷ text) = let rest = lstrip_dash text in if c == b'-' then rest else c ∷ text

unfoldable pub rstrip_dash : Text → Text
rstrip_dash [] = []
rstrip_dash (c ∷ text) = elim (rstrip_dash text) [
  | [] ↦ if c == b'-' then [] else c ∷ []
  | d ∷ rest ↦ c ∷ d ∷ rest
]

-- `text or default`
unfoldable pub or_default : Text → Text → Text
or_default [] default = default
or_default (c ∷ text) default = c ∷ text

unfoldable pub slug : Text → Text
slug text = or_default (lstrip_dash (rstrip_dash (sub_dash text))) (txt "ida")

-- `os.path.basename`: what follows the last slash.
unfoldable pub basename : Text → Text
basename [] = []
basename (c ∷ path) =
    let rest = basename path in
    if any (λ d. d == b'/') path then rest else if c == b'/' then path else c ∷ path

-- `sha1` gives the digest as hexadecimal text.
unfoldable pub derive_session_id : (Text → Text) → Text → Text
derive_session_id sha1 input_file =
    slug (or_default (basename input_file) (txt "ida")) ++ (txt "-" ++ take 8 (sha1 input_file))

-- `normalize` is `expanduser().resolve()`, which reads the file system.
unfoldable pub session_id_for_path : (Text → Text) → (Text → Text) → Text → Text
session_id_for_path sha1 normalize path = derive_session_id sha1 (normalize path)
