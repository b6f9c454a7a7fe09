-- ===== src/Memory.antt =====
-- src/ida_pro_mcp/plugin/memory.py, plugin/tools/data.py and plugin/tools/patch.py: reads of the
-- memory of a database, and the tool that patches it. The calls of IDA, the decoding of UTF-8 and
-- `repr` are parameters.
pub mod Progress
pub mod Patched
mod Tests
use ida_pro_mcp.Prelude.{
  ℕ, ◌+◌, ◌-◌, ◌*◌, ◌/◌, ◌%◌, ℤ, pos, eq_ℤ, ◌+ℤ◌, Text, txt, teq, strip, length, keep, ltb, ◌==◌,
  Bool, true, false, not, ◌&&◌, Option, none, some, List, [], ◌∷◌, ◌++◌, map, if◌then◌else◌,
}
use ida_pro_mcp.Errors.{
  Result, ok, err, raise, ◌>>=◌, invalid_input, operation_failed, not_found, parse_failed,
}
use ida_pro_mcp.PyInt.{hex, hex_digits, dec}
use ida_pro_mcp.Format.{TextOrInt, text, parse_ea, format_ea, format_bytes}
use ida_pro_mcp.Names.{Idb, resolve_name_or_address}

-- What IDA knows of a type: its size, and whether it is an array of characters.
pub record TypeInfo : Type 0 where
  pub size : ℕ
  pub is_char_array : Bool

-- The calls of IDA on a database of type `S`: `get_byte` and its kin by width, `inf_is_64bit`,
-- `get_bytes`, `get_strlit_contents`, `get_tinfo`, `has_any_name`, `get_item_size`, `Assemble`,
-- and `patch_bytes`, where `none` is an exception.
pub record Sdk (S : Type 0) : Type 0 where
  pub get_fixed : S → ℕ → ℤ → ℕ
  pub is_64bit : S → Bool
  pub get_bytes : S → ℤ → ℤ → Option (List ℕ)
  pub strlit_contents : S → ℤ → Option (List ℕ)
  pub tinfo : S → ℤ → Option TypeInfo
  pub has_any_name : S → ℤ → Bool
  pub item_size : S → ℤ → ℕ
  pub assemble : S → ℤ → Text → Option (List ℕ)
  pub patch_bytes : S → ℤ → List ℕ → Option S

-- The widths in `_FIXED_SIZE_READERS`.
unfoldable pub is_fixed : ℕ → Bool
is_fixed size =
    if size == 1 then true else if size == 2 then true else if size == 4 then true else size == 8

-- A byte as two hexadecimal digits, and `bytes.hex`.
unfoldable pub hex_byte : ℕ → Text
hex_byte b = if ltb b 16 then b'0' ∷ hex_digits b else hex_digits b

unfoldable pub hex_compact : List ℕ → Text
hex_compact [] = []
hex_compact (b ∷ raw) = hex_byte b ++ hex_compact raw

-- `base64.b64encode`
unfoldable pub b64_char : ℕ → ℕ
b64_char n =
    if ltb n 26
    then n + 65
    else if ltb n 52
    then n + 71
    else if ltb n 62
    then n - 4
    else if n == 62
    then b'+'
    else b'/'

unfoldable pub b64encode : List ℕ → Text
unfolding b64_char
b64encode [] = []
b64encode (a ∷ []) = b64_char (a / 4) ∷ b64_char ((a % 4) * 16) ∷ b'=' ∷ b'=' ∷ []
b64encode (a ∷ b ∷ []) =
    b64_char (a / 4) ∷ b64_char ((a % 4) * 16 + b / 16) ∷ b64_char ((b % 16) * 4) ∷ b'=' ∷ []
b64encode (a ∷ b ∷ c ∷ raw) =
    b64_char (a / 4)
    ∷ b64_char ((a % 4) * 16 + b / 16)
    ∷ b64_char ((b % 16) * 4 + c / 64)
    ∷ b64_char (c % 64)
    ∷ b64encode raw

-- `_NAMED_SIZES`
unfoldable pub named_size : Text → Option ℕ
named_size kind =
    if teq kind (txt "byte")
    then some 1
    else if teq kind (txt "word")
    then some 2
    else if teq kind (txt "dword")
    then some 4
    else if teq kind (txt "qword")
    then some 8
    else none

-- `raw or b""`, and `len(raw)` of an answer that may be missing.
unfoldable pub bytes_or_empty : Option (List ℕ) → List ℕ
bytes_or_empty none = []
bytes_or_empty (some raw) = raw

-- `text.split(";")`: the pieces, the current one first.
unfoldable pub extend_first : ℕ → List Text → List Text
extend_first c [] = (c ∷ []) ∷ []
extend_first c (piece ∷ pieces) = (c ∷ piece) ∷ pieces

unfoldable pub split_semicolons : Text → List Text
split_semicolons [] = [] ∷ []
split_semicolons (c ∷ t) =
    let pieces = split_semicolons t in if c == b';' then [] ∷ pieces else extend_first c pieces

-- The instructions of `patch_address_assembles`.
unfoldable pub instruction_pieces : Text → List Text
instruction_pieces instructions =
    keep (λ piece. not (teq piece [])) (map strip (split_semicolons instructions))

-- `_format_raw_bytes`
unfoldable pub format_raw_bytes : (Text → Text) → List ℕ → Text → Result Text
format_raw_bytes repr raw output_format =
    if teq output_format (txt "hex_spaced")
    then ok (format_bytes raw)
    else if teq output_format (txt "hex_compact")
    then ok (hex_compact raw)
    else if teq output_format (txt "base64")
    then ok (b64encode raw)
    else raise
        (txt "Unknown output_format: "
          ++ repr output_format
          ++ txt " (expected 'hex_spaced', 'hex_compact', or 'base64')")
        invalid_input

module _ {S : Type 0} (sdk : Sdk S) (repr : Text → Text) (decode : List ℕ → Text) where
  unfoldable pub read_fixed_int : S → ℤ → ℕ → Option ℕ
  read_fixed_int db ea size = if is_fixed size then some (sdk.get_fixed db size ea) else none

  unfoldable pub native_pointer_size : S → ℕ
  native_pointer_size db = if sdk.is_64bit db then 8 else 4

  unfoldable pub read_pointer : S → ℤ → ℕ
  read_pointer db ea = sdk.get_fixed db (native_pointer_size db) ea

  unfoldable pub read_any_size : S → ℤ → ℕ → Text
  read_any_size db ea size = elim (read_fixed_int db ea size) [
    | some value ↦ hex (pos value)
    | none ↦ format_bytes (bytes_or_empty (sdk.get_bytes db ea (pos size)))
  ]

  -- The contents of a string, as `_read_typed_global` and `read_value` ask for it.
  unfoldable pub read_string : S → ℤ → Result Text
  read_string db ea = elim (sdk.strlit_contents db ea) [
    | none ↦ raise (txt "Failed to read string at " ++ format_ea ea) operation_failed
    | some raw ↦ ok (decode raw)
  ]

  -- What `_read_typed_global` does with a type, and without one.
  unfoldable pub read_as_type : S → ℤ → TypeInfo → Result Text
  read_as_type db ea tif =
      if (tif.size == 0) && tif.is_char_array
      then (do contents ← read_string db ea; ok (txt "\"" ++ strip contents ++ txt "\""))
      else ok (read_any_size db ea tif.size)

  unfoldable pub read_named : S → ℤ → Result Text
  read_named db ea =
      if sdk.has_any_name db ea
      then if sdk.item_size db ea == 0
        then raise (txt "Failed to get size for variable at " ++ format_ea ea) operation_failed
        else ok (read_any_size db ea (sdk.item_size db ea))
      else raise (txt "Failed to get type information for variable at " ++ format_ea ea) not_found

  unfoldable pub read_typed_global : S → ℤ → Result Text
  read_typed_global db ea = elim (sdk.tinfo db ea) [
    | some tif ↦ read_as_type db ea tif
    | none ↦ read_named db ea
  ]

  unfoldable pub get_global_variable_value : Idb → S → Text → Result Text
  get_global_variable_value idb db target = do
    ea ← resolve_name_or_address repr idb target (txt "global variable")
    read_typed_global db ea

  -- A value of a fixed width, and one of another kind.
  unfoldable pub read_sized : S → ℤ → Text → ℕ → Result Text
  read_sized db ea kind size = elim (read_fixed_int db ea size) [
    | none ↦ raise (txt "Unsupported width for kind=" ++ repr kind) invalid_input
    | some value ↦ ok (hex (pos value))
  ]

  unfoldable pub read_other : S → ℤ → Text → Result Text
  read_other db ea kind =
      if teq kind (txt "string")
      then read_string db ea
      else raise (txt "Unknown value kind: " ++ repr kind) invalid_input

  unfoldable pub read_value : S → TextOrInt → Text → Result Text
  read_value db address kind = do
    ea ← parse_ea address
    elim (named_size kind) [ some size ↦ read_sized db ea kind size | none ↦ read_other db ea kind ]

  -- What `read_bytes` does with what IDA has read.
  unfoldable pub not_read : ℤ → ℤ → ℕ → Result Text
  not_read ea size actual =
      raise
        (txt "Failed to read "
          ++ dec size
          ++ txt " bytes at "
          ++ format_ea ea
          ++ txt " (read "
          ++ dec (pos actual)
          ++ txt ")")
        operation_failed

  unfoldable pub render_read : ℤ → ℤ → Text → Option (List ℕ) → Result Text
  render_read ea size output_format none = not_read ea size 0
  render_read ea size output_format (some raw) =
      if eq_ℤ (pos (length raw)) size
      then format_raw_bytes repr raw output_format
      else not_read ea size (length raw)

  unfoldable pub read_bytes : S → TextOrInt → ℤ → Text → Result Text
  read_bytes db address size output_format = do
    ea ← parse_ea address
    render_read ea size output_format (sdk.get_bytes db ea size)

  -- `_assemble_and_patch`: the length of the code, and the database that is left.
  unfoldable pub patch_raw : S → ℤ → List ℕ → Option S → Result ℕ × S
  patch_raw db ea raw none =
      (raise (txt "Failed to patch bytes at " ++ format_ea ea) operation_failed, db)
  patch_raw db ea raw (some after) = (ok (length raw), after)

  unfoldable pub patch_assembled : S → ℤ → Text → Option (List ℕ) → Result ℕ × S
  patch_assembled db ea instruction none =
      (raise (txt "Failed to assemble instruction: " ++ instruction) parse_failed, db)
  patch_assembled db ea instruction (some raw) = patch_raw db ea raw (sdk.patch_bytes db ea raw)

  unfoldable pub assemble_and_patch : S → ℤ → Text → Result ℕ × S
  assemble_and_patch db ea instruction =
      patch_assembled db ea instruction (sdk.assemble db ea instruction)

  -- The loop of `patch_address_assembles`.
  unfoldable pub patch_pieces : List Text → ℤ → S → Result (Unit {0}) × S
  patch_pieces [] ea db = (ok tt, db)
  patch_pieces (instruction ∷ pieces) ea db =
      let (outcome, after) = assemble_and_patch db ea instruction in
      elim outcome [ err e ↦ (err e, after) | ok size ↦ patch_pieces pieces (ea +ℤ pos size) after ]

  -- The tool behind the test for no instructions.
  unfoldable pub report_patched : ℕ → Result (Unit {0}) × S → Result Text × S
  report_patched n (err e, after) = (err e, after)
  report_patched n (ok done, after) =
      (ok (txt "Patched " ++ dec (pos n) ++ txt " instructions"), after)

  unfoldable pub patch_at : ℤ → List Text → S → Result Text × S
  patch_at ea [] db = (raise (txt "No instructions provided") invalid_input, db)
  patch_at ea (piece ∷ pieces) db =
      report_patched (length (piece ∷ pieces)) (patch_pieces (piece ∷ pieces) ea db)

  unfoldable pub patch_address_assembles : TextOrInt → Text → S → Result Text × S
  patch_address_assembles address instructions db = elim (parse_ea address) [
    | err e ↦ (err e, db)
    | ok ea ↦ patch_at ea (instruction_pieces instructions) db
  ]
