-- ===== src/Errors.antt =====
-- src/ida_pro_mcp/plugin/errors.py: error codes, kinds, the exceptions that the code under
-- `plugin/` raises, and the dispatch table from exceptions to codes.
use ida_pro_mcp.Prelude.{ℤ, negsuc, Text, Bool, true, false, List, [], ◌∷◌, if◌then◌else◌}

-- `JSONRPCErrorCode`
pub data ErrorCode : Type 0 where
  parse_error invalid_request method_not_found invalid_params internal_error : ErrorCode
  invalid_endpoint session_not_found session_ambiguous ida_error : ErrorCode

-- The number that goes on the wire; `negsuc n` is -(n + 1).
unfoldable pub code_value : ErrorCode → ℤ
code_value ErrorCode.parse_error = negsuc 32699
code_value ErrorCode.invalid_request = negsuc 32599
code_value ErrorCode.method_not_found = negsuc 32600
code_value ErrorCode.invalid_params = negsuc 32601
code_value ErrorCode.internal_error = negsuc 32602
code_value ErrorCode.invalid_endpoint = negsuc 32097
code_value ErrorCode.session_not_found = negsuc 32096
code_value ErrorCode.session_ambiguous = negsuc 32095
code_value ErrorCode.ida_error = negsuc 31999

-- `IDAErrorKind`
pub data ErrorKind : Type 0 where
  unknown not_found invalid_input parse_failed decompiler_unavailable : ErrorKind
  operation_failed permission_denied debugger_inactive : ErrorKind

-- `IDAError`: a message and a kind.
pub record IdaError : Type 0 where
  pub message : Text
  pub kind : ErrorKind

-- A call that may raise `IDAError`.
pub data Result {ℓ} (A : Type ℓ) : Type ℓ where
  ok : A → Result A
  err : IdaError → Result A

infixl 5 ◌>>=◌
abbrev pub ◌>>=◌ {ℓ κ} : {A : Type ℓ} {B : Type κ} → Result A → (A → Result B) → Result B
ok a >>= f = f a
err e >>= f = err e

abbrev pub raise {ℓ} : {A : Type ℓ} → Text → ErrorKind → Result A
raise m k = err (record { message = m; kind = k })

-- `ensure_ok(ok, message, kind)`
unfoldable pub ensure_ok : Bool → Text → ErrorKind → Result (Unit {0})
ensure_ok true m k = ok tt
ensure_ok false m k = raise m k

-- What a call may raise through the HTTP dispatcher: the classes that it tells apart. `other` is
-- any further exception class, `IDASyncError` among them.
pub data Raised : Type 0 where
  rpc_error : ErrorCode → Text → Raised
  ida_raised : IdaError → Raised
  other : Text → Raised

-- The classes of `EXCEPTION_TO_CODE`, in order, each with the test `isinstance(exc, cls)`.
is_ida_error : Raised → Bool
is_ida_error (ida_raised e) = true
is_ida_error _ = false

exception_to_code : List ((Raised → Bool) × ErrorCode)
unfolding is_ida_error
exception_to_code = (is_ida_error, ErrorCode.ida_error) ∷ []

first_code : Raised → List ((Raised → Bool) × ErrorCode) → ErrorCode
first_code e [] = ErrorCode.internal_error
first_code e ((cls, code) ∷ table) = if cls e then code else first_code e table

-- `code_for_exception`
unfoldable pub code_for_exception : Raised → ErrorCode
unfolding first_code exception_to_code
code_for_exception e = first_code e exception_to_code
