-- ===== src/JsonRpc.antt =====
-- src/ida_pro_mcp/plugin/jsonrpc.py: building and reading the messages of the wire protocol.
pub mod RoundTrip
mod Tests
use ida_pro_mcp.Prelude.{
  ℕ, suc, [], ◌/◌, ◌^◌, ℤ, pos, negsuc, Text, txt, teq, Bool, true, false, not, Option, none, some,
  if◌then◌else◌,
}
use ida_pro_mcp.Errors.{ErrorCode, code_value, Raised, rpc_error}
use ida_pro_mcp.PyInt.{int_10, to_neg}
use ida_pro_mcp.Value.{Value, Float, Fields, end, field, lookup, has, put, get_or, is_null}

unfoldable pub jsonrpc_version : Value
jsonrpc_version = Value.str (txt "2.0")

unfoldable pub make_request : Text → Value → ℤ → Fields
make_request method params request_id = field (txt "jsonrpc") jsonrpc_version (
    field (txt "method") (Value.str method)
      (field (txt "params") params (field (txt "id") (Value.int request_id) end)))

-- `null` stands for Python's `None`.
unfoldable pub make_error_object : ℤ → Text → Value → Fields
make_error_object code message info =
    let error =
      field (txt "code") (Value.int code) (field (txt "message") (Value.str message) end) in
    if not (is_null info) then put (txt "data") info error else error

unfoldable pub make_success_response : Value → Value → Fields
make_success_response result request_id =
    field (txt "jsonrpc") jsonrpc_version
      (field (txt "id") request_id (field (txt "result") result end))

unfoldable pub make_error_response : ℤ → Text → Value → Value → Fields
make_error_response code message request_id info =
    let response =
      field (txt "jsonrpc") jsonrpc_version
        (field (txt "error") (Value.object (make_error_object code message info)) end) in
    if not (is_null request_id) then put (txt "id") request_id response else response

-- What `parse_response` does: it returns a result, raises `RemoteJSONRPCError`, raises
-- `ValueError`, or raises another exception of `int`.
pub data Reply : Type 0 where
  result : Value → Reply
  remote : ℤ → Text → Value → Reply
  malformed : Reply
  crash : Reply

-- The integer part of a finite float.
unfoldable pub truncate : Float → Option ℤ
truncate (Float.dyadic (pos m) k) = some (pos (m / 2 ^ k))
truncate (Float.dyadic (negsuc m) k) = some (to_neg (suc m / 2 ^ k))
truncate _ = none

-- `int(value)`, then what is done with it. `int` raises `ValueError` on a text that is no number
-- and on NaN; `TypeError` and `OverflowError` are other exceptions.
unfoldable pub with_int : Value → (ℤ → Reply) → Reply
with_int (Value.int n) k = k n
with_int (Value.bool true) k = k (pos 1)
with_int (Value.bool false) k = k (pos 0)
with_int (Value.str t) k = elim (int_10 t) [ none ↦ malformed | some n ↦ k n ]
with_int (Value.float Float.nan) k = malformed
with_int (Value.float x) k = elim (truncate x) [ none ↦ crash | some n ↦ k n ]
with_int _ k = crash

-- `value != "2.0"`
unfoldable pub is_version : Value → Bool
is_version (Value.str t) = teq t (txt "2.0")
is_version _ = false

-- `str` of a value that is no text is the interpreter's, `render`.
module _ (render : Value → Text) where
  unfoldable pub as_text : Value → Text
  as_text (Value.str t) = t
  as_text v = render v

  unfoldable pub parse_error : Value → Reply
  parse_error (Value.object err) =
      with_int (get_or (txt "code") (Value.int (code_value ErrorCode.internal_error)) err) λ code.
        remote code (as_text (get_or (txt "message") (Value.str []) err))
          (get_or (txt "data") Value.null err)
  parse_error _ = malformed

  unfoldable pub parse_response : Value → Reply
  parse_response (Value.object payload) =
      if not (is_version (get_or (txt "jsonrpc") Value.null payload))
      then malformed
      else elim (lookup (txt "error") payload) [
        | some err ↦ parse_error err
        | none ↦ elim (lookup (txt "result") payload) [ some r ↦ result r | none ↦ malformed ]
      ]
  parse_response _ = malformed

-- A request that the server accepts: its fields; or the error to raise.
pub data Envelope : Type 0 where
  valid : Fields → Envelope
  invalid : Raised → Envelope

unfoldable pub validate_request_envelope : Value → Envelope
validate_request_envelope (Value.object payload) =
    if not (is_version (get_or (txt "jsonrpc") Value.null payload))
    then invalid (rpc_error ErrorCode.invalid_request (txt "Invalid JSON-RPC version"))
    else if not (has (txt "method") payload)
    then invalid (rpc_error ErrorCode.invalid_request (txt "Method not specified"))
    else valid payload
validate_request_envelope _ = invalid (rpc_error ErrorCode.invalid_request (txt "Invalid Request"))
