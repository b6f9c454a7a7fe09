-- ===== src/Comments/Tests.antt =====
-- An instance of the theorem on `set_comment`: a decompiler in which only one kind of place holds a
-- comment, in a state of the kinds that hold one and whether there is an orphan.
use ida_pro_mcp.Prelude.{
  ℤ, pos, eq_ℤ, Text, txt, teq, Bool, true, false, Option, none, some, List, [], ◌∷◌, ◌≡◌, refl,
  arith, if◌then◌else◌,
}
use ida_pro_mcp.Errors.{ok}
use ida_pro_mcp.Format.{int, parse_ea}
use ida_pro_mcp.Comments.{
  Sdk, cfunc, or_failure, decompile_checked, itp_candidate_names, itp_values, without_orphans,
  set_comment,
}
use ida_pro_mcp.Comments.Mirrored.{Cleans, Undoes, Mirrored, set_comment_lem}

abbrev Pseudocode : Type 0
Pseudocode = List ℤ × Bool

abbrev value : Text → Option ℤ
value name =
    if teq name (txt "ITP_SEMI")
    then some (pos 1)
    else if teq name (txt "ITP_ASM")
    then some (pos 5)
    else none

abbrev sdk : Sdk Pseudocode ℤ
sdk = record {
  init_hexrays_plugin = λ s. true;
  decompile_func = λ s ea. cfunc (pos 0);
  license_code = pos 9;
  bad_address = pos 0;
  itp_value = value;
  entry_ea = λ c. c;
  tree_ea = λ c ea. some ea;
  has_orphan_cmts = λ c s. s.1;
  del_orphan_cmts = λ c s. (s.0, false);
  set_user_cmt =
      λ c anchor itp comment s. if eq_ℤ itp (pos 5) then (itp ∷ s.0, s.1) else (s.0, true);
  save_user_cmts = λ c s. s;
  refresh_func_ctext = λ c s. s;
  set_cmt = λ s ea comment. some s;
  set_func_cmt = λ s ea comment. s;
}

cleans : Cleans sdk
unfolding Cleans
cleans c s = refl

undoes : Undoes sdk
unfolding Undoes
undoes c (kinds, orphan) anchor itp comment none_before orphan_after = grind arith

-- There is an orphan at the start.
abbrev start : Pseudocode
start = ([], true)

parsed : parse_ea (int (pos 16)) ≡ ok (pos 16)
unfolding parse_ea
parsed = refl

found : decompile_checked sdk start (pos 16) ≡ ok (pos 0)
unfolding decompile_checked or_failure
found = refl

set_comment_lem_example :
    (sdk.has_orphan_cmts (pos 0) (without_orphans sdk (pos 0) start) ≡ false)
    × Mirrored sdk
        (pos 0)
        (pos 16)
        (txt "here")
        (itp_values value itp_candidate_names)
        (without_orphans sdk (pos 0) start)
        (set_comment sdk (int (pos 16)) (txt "here") start)
set_comment_lem_example =
    set_comment_lem sdk cleans undoes (int (pos 16)) (txt "here") start start (pos 0) (pos 16)
      (pos 16) parsed refl found refl refl
