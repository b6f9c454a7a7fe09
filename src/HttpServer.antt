-- ===== src/HttpServer.antt =====
-- src/ida_pro_mcp/plugin/http_server.py: `do_POST`, one request at a time on IDA's main thread.
-- The standard library's HTTP parser has split the request; `loads` is `json.loads` on bytes.
pub mod Body
pub mod Responses
pub mod EndToEnd
mod Tests
use ida_pro_mcp.Prelude.{
  ℕ, zero, suc, ◌+◌, ◌-◌, ◌*◌, ℤ, pos, negsuc, Text, txt, teq, Bool, true, false, not, Option, none,
  some, List, [], ◌∷◌, ◌++◌, length, take, drop, ltb, leb, ◌==◌, if◌then◌else◌,
}
use ida_pro_mcp.Errors.{
  ErrorCode, ErrorKind, code_value, Raised, rpc_error, ida_raised, other, code_for_exception,
}
use ida_pro_mcp.PyInt.{int_10, dec}
use ida_pro_mcp.Value.{Value, Fields, end, field, lookup, get_or}
use ida_pro_mcp.Coerce.{Floats}
use ida_pro_mcp.JsonRpc.{
  make_success_response, make_error_response, Envelope, valid, invalid, validate_request_envelope,
}
use ida_pro_mcp.Registry.{Registry, Message, Outcome, returned, raised, dispatch_value}

unfoldable pub max_request_bytes : ℕ
max_request_bytes = 32 * 1024 * 1024

unfoldable pub read_discard_chunk : ℕ
read_discard_chunk = 64 * 1024

-- `json.loads(bytes)`: a value, `JSONDecodeError`, or another exception, such as
-- `UnicodeDecodeError` for bytes that are no text.
pub data Loaded : Type 0 where
  value : Value → Loaded
  decode_error : Loaded
  crash : Loaded

-- What the handler is given: the path of the URL, the `Content-Length` header, and the bytes that
-- the client has sent behind the headers.
pub record Request : Type 0 where
  pub path : Text
  pub raw_length : Option Text
  pub incoming : List ℕ

-- What it has done: the JSON payloads that it sent, the bytes that stay unread on the connection,
-- the state of the database. `escaped` is an exception that left `do_POST`.
pub record Handled (S : Type 0) : Type 0 where
  pub sent : List Fields
  pub unread : List ℕ
  pub state : S
  pub escaped : Bool

-- `_discard_unread_body`: reads of one chunk until the limit is reached or a read brings nothing
-- (the client has no more, or the read times out).
unfoldable pub minimum : ℕ → ℕ → ℕ
minimum a b = if ltb b a then b else a

unfoldable pub discard_loop : ℕ → ℕ → List ℕ → List ℕ
discard_loop zero remaining incoming = incoming
discard_loop (suc fuel) remaining incoming =
    let wanted = minimum read_discard_chunk remaining in
    let got = length (take wanted incoming) in
    let rest = discard_loop fuel (remaining - got) (drop wanted incoming) in
    if remaining == 0 then incoming else if got == 0 then incoming else rest

unfoldable pub discard_unread_body : ℕ → List ℕ → List ℕ
discard_unread_body nbytes incoming =
    let limit = minimum nbytes max_request_bytes in discard_loop (suc limit) limit incoming

unfoldable pub discard_body_unknown_len : List ℕ → List ℕ
discard_body_unknown_len incoming = discard_unread_body max_request_bytes incoming

-- `data` of an error response: the kind of an `IDAError`. `kind.value` of each kind.
unfoldable pub kind_value : ErrorKind → Text
kind_value ErrorKind.unknown = txt "unknown"
kind_value ErrorKind.not_found = txt "not_found"
kind_value ErrorKind.invalid_input = txt "invalid_input"
kind_value ErrorKind.parse_failed = txt "parse_failed"
kind_value ErrorKind.decompiler_unavailable = txt "decompiler_unavailable"
kind_value ErrorKind.operation_failed = txt "operation_failed"
kind_value ErrorKind.permission_denied = txt "permission_denied"
kind_value ErrorKind.debugger_inactive = txt "debugger_inactive"

unfoldable pub kind_data : ErrorKind → Value
kind_data k = Value.object (field (txt "kind") (Value.str (kind_value k)) end)

-- The code, the message and the data by which an exception of a tool is reported.
unfoldable pub report : Raised → ℤ × Text × Value
report (rpc_error code message) = (code_value code, message, Value.null)
report (ida_raised e) =
    (code_value (code_for_exception (ida_raised e)), e.message, kind_data e.kind)
report (other m) =
    (code_value ErrorCode.internal_error, txt "Internal error (please report a bug)", Value.null)

-- The response to an outcome of the dispatcher.
unfoldable pub respond : Value → Outcome Value → Fields
respond request_id (returned v) = make_success_response v request_id
respond request_id (raised e) =
    let (code, message, info) = report e in make_error_response code message request_id info

-- The `id` of a request, if it is an object.
unfoldable pub request_id_of : Value → Value
request_id_of (Value.object fs) = get_or (txt "id") Value.null fs
request_id_of _ = Value.null

unfoldable pub plain_error : ErrorCode → Text → Fields
plain_error code message = make_error_response (code_value code) message Value.null Value.null

-- The branches of a wrong path: what is discarded.
unfoldable pub discard_for_path : Option Text → List ℕ → List ℕ
discard_for_path none incoming = discard_body_unknown_len incoming
discard_for_path (some raw) incoming = elim (int_10 raw) [
  | none ↦ discard_body_unknown_len incoming
  | some (pos n) ↦ discard_unread_body n incoming
  | some (negsuc n) ↦ incoming
]

unfoldable pub too_large : ℕ → Text
too_large n =
    txt "Request body too large ("
    ++ (dec (pos n) ++ (txt " bytes; max " ++ (dec (pos max_request_bytes) ++ txt ")")))

module _ {S : Type 0} where
  unfoldable pub replied : Fields → List ℕ → S → Handled S
  replied payload unread s = record {
    sent = payload ∷ [];
    unread = unread;
    state = s;
    escaped = false;
  }

module _ (F : Floats) (wording : Message → Text) (loads : List ℕ → Loaded) {S : Type 0} where
  -- The `try` around validation and dispatch.
  unfoldable pub answer : Registry S → Value → S → Outcome Value × S
  answer registry request s = elim (validate_request_envelope request) [
    | invalid e ↦ (raised e, s)
    | valid envelope ↦
        dispatch_value F wording registry (get_or (txt "method") Value.null envelope)
          (get_or (txt "params") (Value.object end) envelope) s
  ]

  unfoldable pub handle_value : Registry S → Value → List ℕ → S → Handled S
  handle_value registry request unread s =
      let (out, s') = answer registry request s in
      replied (respond (request_id_of request) out) unread s'

  unfoldable pub handle_body : Registry S → ℕ → List ℕ → S → Handled S
  handle_body registry n incoming s = elim (loads (take n incoming)) [
    | decode_error ↦
        replied (plain_error ErrorCode.parse_error (txt "Parse error: invalid JSON"))
          (drop n incoming) s
    | crash ↦ record { sent = []; unread = drop n incoming; state = s; escaped = true }
    | value request ↦ handle_value registry request (drop n incoming) s
  ]

  -- A `Content-Length` that is a number.
  unfoldable pub handle_length : Registry S → ℤ → List ℕ → S → Handled S
  handle_length registry (pos (suc n)) incoming s =
      if ltb max_request_bytes (suc n)
      then replied (plain_error ErrorCode.invalid_request (too_large (suc n)))
          (discard_unread_body (suc n) incoming) s
      else handle_body registry (suc n) incoming s
  handle_length registry _ incoming s =
      replied (plain_error ErrorCode.parse_error (txt "Parse error: missing request body")) incoming
        s

  unfoldable pub handle_headers : Registry S → Option Text → List ℕ → S → Handled S
  handle_headers registry none incoming s =
      replied (plain_error ErrorCode.invalid_request (txt "Missing Content-Length header")) incoming
        s
  handle_headers registry (some raw) incoming s = elim (int_10 raw) [
    | none ↦
        replied (plain_error ErrorCode.invalid_request (txt "Invalid Content-Length header"))
          (discard_body_unknown_len incoming) s
    | some n ↦ handle_length registry n incoming s
  ]

  unfoldable pub do_post : Registry S → Request → S → Handled S
  do_post registry request s =
      if not (teq request.path (txt "/mcp"))
      then replied (plain_error ErrorCode.invalid_endpoint (txt "Invalid endpoint"))
          (discard_for_path request.raw_length request.incoming) s
      else handle_headers registry request.raw_length request.incoming s
