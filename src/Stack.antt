-- ===== src/Stack.antt =====
-- src/ida_pro_mcp/plugin/tools/stack.py and plugin/frames.py: the tools for the variables of a stack
-- frame. The types of IDA and its calls that change a frame are parameters.
pub mod Protected
mod Tests
use ida_pro_mcp.Prelude.{
  ℕ, ◌+◌, ◌/◌, ℤ, pos, Text, txt, teq, ltb, leb, Bool, true, false, not, Option, none, some, List,
  [], ◌∷◌, ◌++◌, map, ◌==◌, ◌&&◌, if◌then◌else◌,
}
use ida_pro_mcp.Errors.{
  Result, ok, err, raise, ensure_ok, ◌>>=◌, not_found, permission_denied, operation_failed,
}
use ida_pro_mcp.Format.{TextOrInt, parse_int, format_hex}

-- A member of the type of a frame, with offset and size in bits; `special` is
-- `is_special_frame_member` of its id, which holds of saved registers and the return address.
pub record Member (T : Type 0) : Type 0 where
  pub name : Text
  pub offset : ℕ
  pub size : ℕ
  pub type : T
  pub special : Bool
  pub gap : Bool

unfoldable pub offset_bytes : {T : Type 0} → Member T → ℕ
offset_bytes m = m.offset / 8

unfoldable pub size_bytes : {T : Type 0} → Member T → ℕ
size_bytes m = m.size / 8

-- What IDA has: the frame of a function, of which the details may not be readable, and the calls
-- that change it, where `none` is failure.
pub record Sdk (T F : Type 0) : Type 0 where
  pub frame : F → Option (Option (List (Member T)))
  pub to_frame_pointer : F → ℕ → ℤ
  pub define_variable : F → Text → ℤ → T → Option F
  pub set_member_type : F → ℕ → T → Option F
  pub delete_members : F → ℕ → ℕ → Option F

-- The row of a variable, `StackFrameVariable`.
pub record Row : Type 0 where
  pub name : Text
  pub offset : Text
  pub size : Text
  pub type : Text

-- `ensure_ok` of a call of IDA, with the function that it leaves.
unfoldable pub checked : {F : Type 0} → Option F → Text → Result F
checked none message = raise message operation_failed
checked (some func) message = ok func

-- The loop of `_resolve_frame_member`.
unfoldable pub find_member : {T : Type 0} → Text → List (Member T) → Result (Member T)
find_member name [] = raise (name ++ txt " not found in stack frame") not_found
find_member name (m ∷ members) =
    let rest = find_member name members in if teq m.name name then ok m else rest

unfoldable pub resolve_in :
    {T : Type 0} → Text → Option (Option (List (Member T))) → Result (Member T)
resolve_in name none = raise (txt "No frame returned for function") not_found
resolve_in name (some none) = raise (txt "Failed to read UDT details for stack frame") not_found
resolve_in name (some (some members)) = find_member name members

-- A turn of the loop of `_args_region_start`, and the loop.
unfoldable pub extend : {T : Type 0} → ℕ → Member T → ℕ
extend boundary m =
    let last = offset_bytes m + size_bytes m in
    if m.special then if ltb boundary last then last else boundary else boundary

unfoldable pub region_start : {T : Type 0} → ℕ → List (Member T) → ℕ
region_start boundary [] = boundary
region_start boundary (m ∷ members) = region_start (extend boundary m) members

unfoldable pub args_region_start : {T : Type 0} → Option (Option (List (Member T))) → ℕ
args_region_start none = 0
args_region_start (some none) = 0
args_region_start (some (some members)) = region_start 0 members

unfoldable pub check_mutable :
    {T : Type 0} → Member T → Option (Option (List (Member T))) → Text → Text → Result (Unit {0})
check_mutable m frame name action =
    if m.special
    then raise (name ++ txt " is a special frame member; refusing to " ++ action) permission_denied
    else if ltb 0 (args_region_start frame) && leb (args_region_start frame) (offset_bytes m)
    then raise (name ++ txt " is an argument member; refusing to " ++ action) permission_denied
    else ok tt

-- `collect_stack_frame_variables`; `text_of` is `str` of a type.
unfoldable pub rows : {T : Type 0} → (T → Text) → List (Member T) → List Row
rows text_of [] = []
rows text_of (m ∷ members) =
    let rest = rows text_of members in
    if m.gap
    then rest
    else record {
      name = m.name;
      offset = format_hex (pos (offset_bytes m));
      size = format_hex (pos (size_bytes m));
      type = text_of m.type;
    }
      ∷ rest

unfoldable pub collect_stack_frame_variables :
    {T : Type 0} → (T → Text) → Option (Option (List (Member T))) → List Row
collect_stack_frame_variables text_of (some (some members)) = rows text_of members
collect_stack_frame_variables text_of (some none) = []
collect_stack_frame_variables text_of none = []

-- The tools, behind `get_func_or_raise`; `type_by_name` is `get_type_by_name`.
module _ {T F : Type 0} (sdk : Sdk T F) (type_by_name : Text → Result T) where
  unfoldable pub rename_stack_frame_variable : F → Text → Text → Result F
  rename_stack_frame_variable func old_name new_name = do
    member ← resolve_in old_name (sdk.frame func)
    allowed ← check_mutable member (sdk.frame func) old_name (txt "rename")
    checked
        (sdk.define_variable func new_name (sdk.to_frame_pointer func (offset_bytes member))
          member.type)
        (txt "failed to rename stack frame variable")

  unfoldable pub has_frame : Option (Option (List (Member T))) → Bool
  has_frame none = false
  has_frame (some details) = true

  unfoldable pub create_stack_frame_variable : F → TextOrInt → Text → Text → Result F
  create_stack_frame_variable func offset variable_name type_name = do
    framed ← ensure_ok (has_frame (sdk.frame func)) (txt "No frame returned") not_found
    tif ← type_by_name type_name
    at ← parse_int offset
    checked (sdk.define_variable func variable_name at tif)
        (txt "failed to define stack frame variable")

  unfoldable pub set_stack_frame_variable_type : F → Text → Text → Result F
  set_stack_frame_variable_type func variable_name type_name = do
    member ← resolve_in variable_name (sdk.frame func)
    tif ← type_by_name type_name
    checked (sdk.set_member_type func (offset_bytes member) tif)
        (txt "failed to set stack frame variable type")

  unfoldable pub delete_stack_frame_variable : F → Text → Result F
  delete_stack_frame_variable func variable_name = do
    member ← resolve_in variable_name (sdk.frame func)
    allowed ← check_mutable member (sdk.frame func) variable_name (txt "delete")
    checked
        (sdk.delete_members func (offset_bytes member) (offset_bytes member + size_bytes member))
        (txt "failed to delete stack frame variable")
