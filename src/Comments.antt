-- ===== src/Comments.antt =====
-- src/ida_pro_mcp/plugin/tools/comments.py and `decompile_checked` of plugin/decomp.py: a comment in
-- the disassembly, and its copy in the pseudocode. The database with its pseudocode is a type `S`,
-- a decompiled function a type `C`, and the calls of IDA on them are parameters.
pub mod Mirrored
mod Tests
use ida_pro_mcp.Prelude.{
  ℤ, eq_ℤ, Text, txt, teq, Bool, true, false, Option, none, some, List, [], ◌∷◌, ◌++◌,
  if◌then◌else◌,
}
use ida_pro_mcp.Errors.{IdaError, Result, ok, err, raise, operation_failed, decompiler_unavailable}
use ida_pro_mcp.Format.{TextOrInt, parse_ea, format_ea}

-- `hexrays_failure_t`
pub record Failure : Type 0 where
  pub code : ℤ
  pub text : Text
  pub errea : ℤ

pub data Decompiled (C : Type 0) : Type 0 where
  failure : Failure → Decompiled C
  cfunc : C → Decompiled C

-- `tree_ea` is the address of the first node that the map of a function has for an address;
-- `itp_value` is an attribute of `idaapi` that is an integer; `set_cmt` fails with `none`.
pub record Sdk (S C : Type 0) : Type 0 where
  pub init_hexrays_plugin : S → Bool
  pub decompile_func : S → ℤ → Decompiled C
  pub license_code : ℤ
  pub bad_address : ℤ
  pub itp_value : Text → Option ℤ
  pub entry_ea : C → ℤ
  pub tree_ea : C → ℤ → Option ℤ
  pub has_orphan_cmts : C → S → Bool
  pub del_orphan_cmts : C → S → S
  pub set_user_cmt : C → ℤ → ℤ → Text → S → S
  pub save_user_cmts : C → S → S
  pub refresh_func_ctext : C → S → S
  pub set_cmt : S → ℤ → Text → Option S
  pub set_func_cmt : S → ℤ → Text → S

-- `_ITP_CANDIDATE_NAMES`
unfoldable pub itp_candidate_names : List Text
itp_candidate_names =
    txt "ITP_SEMI"
    ∷ txt "ITP_CURLY1"
    ∷ txt "ITP_CURLY2"
    ∷ txt "ITP_BRACE1"
    ∷ txt "ITP_BRACE2"
    ∷ txt "ITP_ARG1"
    ∷ txt "ITP_ARG64"
    ∷ txt "ITP_ELSE"
    ∷ txt "ITP_DO"
    ∷ txt "ITP_CASE"
    ∷ txt "ITP_ASM"
    ∷ txt "ITP_COLON"
    ∷ []

-- The loop of `_itp_candidates`.
unfoldable pub itp_values : (Text → Option ℤ) → List Text → List ℤ
itp_values value [] = []
itp_values value (name ∷ names) = elim (value name) [
  | none ↦ itp_values value names
  | some v ↦ v ∷ itp_values value names
]

unfoldable pub or_no_itp : List ℤ → Result (List ℤ)
or_no_itp [] =
    raise
      (txt "No usable ITP_* values exposed by this IDA SDK; "
        ++ txt "decompiler comment placement needs updating")
      operation_failed
or_no_itp (v ∷ values) = ok (v ∷ values)

unfoldable pub itp_candidates : (Text → Option ℤ) → Result (List ℤ)
itp_candidates value = or_no_itp (itp_values value itp_candidate_names)

module _ {S C : Type 0} (sdk : Sdk S C) where
  -- The message of `decompile_checked`, where the license is not what is missing.
  unfoldable pub decompile_message : ℤ → Failure → Text
  decompile_message address f =
      txt "Decompilation failed at "
      ++ format_ea address
      ++ (if teq f.text [] then [] else txt ": " ++ f.text)
      ++ (if eq_ℤ f.errea sdk.bad_address
          then []
          else txt " (address: " ++ format_ea f.errea ++ txt ")")

  unfoldable pub or_failure : ℤ → Decompiled C → Result C
  or_failure address (cfunc c) = ok c
  or_failure address (failure f) =
      if eq_ℤ f.code sdk.license_code
      then raise
          (txt "Decompiler license is not available. Use `disassemble_function` "
            ++ txt "to get the assembly code instead.")
          decompiler_unavailable
      else raise (decompile_message address f) operation_failed

  unfoldable pub decompile_checked : S → ℤ → Result C
  decompile_checked s address =
      if sdk.init_hexrays_plugin s
      then or_failure address (sdk.decompile_func s address)
      else raise (txt "Hex-Rays decompiler is not available") decompiler_unavailable

  -- The start of `_try_attach_at_ctree_ea`, and its loop.
  unfoldable pub without_orphans : C → S → S
  without_orphans c s = if sdk.has_orphan_cmts c s then sdk.del_orphan_cmts c s else s

  unfoldable pub probe : C → ℤ → Text → List ℤ → S → Bool × S
  probe c anchor comment [] s = (false, s)
  probe c anchor comment (itp ∷ itps) s =
      let placed = sdk.set_user_cmt c anchor itp comment s in
      elim (sdk.has_orphan_cmts c placed) [
        | false ↦ (true, sdk.refresh_func_ctext c (sdk.save_user_cmts c placed))
        | true ↦ probe c anchor comment itps (sdk.del_orphan_cmts c placed)
      ]

  unfoldable pub probe_all : C → ℤ → Text → Result (List ℤ) → S → Result Bool × S
  probe_all c anchor comment (err e) s = (err e, s)
  probe_all c anchor comment (ok itps) s =
      let (found, after) = probe c anchor comment itps s in (ok found, after)

  unfoldable pub try_attach_at_ctree_ea : C → ℤ → Text → S → Result Bool × S
  try_attach_at_ctree_ea c anchor comment s =
      probe_all c anchor comment (itp_candidates sdk.itp_value) (without_orphans c s)

  -- `_attach_to_pseudocode` behind the look into the map.
  unfoldable pub attach_at : C → Option ℤ → Text → S → Result Bool × S
  attach_at c none comment s = (ok false, s)
  attach_at c (some anchor) comment s = try_attach_at_ctree_ea c anchor comment s

  unfoldable pub attach_to_pseudocode : C → ℤ → Text → S → Result Bool × S
  attach_to_pseudocode c ea comment s =
      if eq_ℤ ea (sdk.entry_ea c)
      then (ok true, sdk.refresh_func_ctext c (sdk.set_func_cmt s ea comment))
      else attach_at c (sdk.tree_ea c ea) comment s

  -- What `set_comment` makes of the outcome, whether or not the copy was placed.
  unfoldable pub best_effort : Result Bool × S → Result (Unit {0}) × S
  best_effort (err e, s) = (err e, s)
  best_effort (ok placed, s) = (ok tt, s)

  unfoldable pub mirror : Result C → ℤ → Text → S → Result (Unit {0}) × S
  mirror (err e) ea comment s = (ok tt, s)
  mirror (ok c) ea comment s = best_effort (attach_to_pseudocode c ea comment s)

  unfoldable pub set_at : ℤ → Text → Option S → S → Result (Unit {0}) × S
  set_at ea comment none s =
      (raise (txt "Failed to set disassembly comment at " ++ format_ea ea) operation_failed, s)
  set_at ea comment (some written) s = mirror (decompile_checked written ea) ea comment written

  unfoldable pub set_comment : TextOrInt → Text → S → Result (Unit {0}) × S
  set_comment address comment s = elim (parse_ea address) [
    | err e ↦ (err e, s)
    | ok ea ↦ set_at ea comment (sdk.set_cmt s ea comment) s
  ]
