-- ===== src/Session/Directory.antt =====
-- The directory of files under plugin/session.py, and the record of a sidecar.
use ida_pro_mcp.Prelude.{
  ℕ, ◌+◌, ◌-◌, ◌<◌, Text, txt, teq, teq_iff, true, none, some, List, [], ◌∷◌, ◌++◌, length,
  length-append, drop, drop-append_self, ltb_of_lt, ◌≡◌, refl, ◌∙◌, arith, if◌then◌else◌,
}
use mathlib.Core.Path.{subst}
use ida_pro_mcp.Value.{Value, lookup}
use ida_pro_mcp.JsonRpc.{as_text}
use ida_pro_mcp.Session.{
  SessionInfo, System, Disk, read, unlink, store, to_dict, to_int, to_float, from_fields, from_dict,
  parse_file, payload, is_sidecar,
}

pub read-store :
    (k j : Text) (b : List ℕ) (d : Disk)
    → read j (store k b d) ≡ (if teq k j then some b else read j d)
unfolding read store
read-store k j b [] = refl
read-store k j b ((f, old) ∷ d) =
    ground (arith, read-store k j b d, teq_iff f k, teq_iff f j, teq_iff k j)

pub read-unlink :
    (k j : Text) (d : Disk) → read j (unlink k d) ≡ (if teq k j then none else read j d)
unfolding read unlink
read-unlink k j [] = ground arith
read-unlink k j ((f, old) ∷ d) =
    ground (arith, read-unlink k j d, teq_iff f k, teq_iff f j, teq_iff k j)

module _ (sys : System) where
  -- A record that is written as JSON is read back field by field.
  pub from_dict-to_dict :
      (info : SessionInfo) → from_dict sys (Value.object (to_dict info)) ≡ some info
  unfolding from_dict from_fields to_dict to_int to_float as_text lookup teq txt
  from_dict-to_dict info = refl

  pub parse_file-payload :
      (info : SessionInfo)
      → ((v : Value) → sys.loads (sys.dumps v) ≡ some v)
      → parse_file sys (payload sys info) ≡ some info
  unfolding parse_file payload
  parse_file-payload info json = rw json (from_dict-to_dict info)

-- A name that ends in ".json" behind one character at least is taken for a sidecar.
pub is_sidecar-suffix : (stem : Text) → 0 < length stem → is_sidecar (stem ++ txt ".json") ≡ true
unfolding is_sidecar
is_sidecar-suffix stem h =
    let size : length (stem ++ txt ".json") ≡ length stem + 5 =
      length-append stem (txt ".json") ∙ (unfold txt in refl) in
    let tail : drop (length (stem ++ txt ".json") - 5) (stem ++ txt ".json") ≡ txt ".json" =
      subst (λ n. drop n (stem ++ txt ".json") ≡ txt ".json") (omega arith)
        (drop-append_self stem (txt ".json")) in
    rw (ltb_of_lt 5 (length (stem ++ txt ".json")) (omega arith), tail) (unfold teq txt in refl)
