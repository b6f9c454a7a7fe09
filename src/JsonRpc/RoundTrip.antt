-- ===== src/JsonRpc/RoundTrip.antt =====
-- What one side of plugin/jsonrpc.py builds, as the other side reads it.
use ida_pro_mcp.Prelude.{ℤ, Text, txt, teq, ◌≡◌, refl, some}
use ida_pro_mcp.Value.{Value, lookup, has, put, get_or, is_null}
use ida_pro_mcp.JsonRpc.{
  make_request, make_error_object, make_success_response, make_error_response, jsonrpc_version,
  result, remote, with_int, is_version, as_text, parse_error, parse_response, valid,
  validate_request_envelope,
}

module _ (render : Value → Text) where
  -- A success response carries the result to the client unchanged, whatever the id.
  pub parse_response-make_success_response :
      (r request_id : Value)
      → parse_response render (Value.object (make_success_response r request_id)) ≡ result r
  unfolding parse_response make_success_response jsonrpc_version is_version lookup get_or teq txt
  parse_response-make_success_response r request_id = refl

  -- An error response carries code, message and data to the client, whatever the id.
  pub parse_response-make_error_response :
      (code : ℤ) (message : Text) (request_id info : Value)
      → parse_response render (Value.object (make_error_response code message request_id info))
        ≡ remote code message info
  unfolding parse_response make_error_response make_error_object jsonrpc_version is_version lookup
      put get_or is_null teq txt parse_error with_int as_text
  parse_response-make_error_response code message Value.null Value.null = refl
  parse_response-make_error_response code message Value.null _ = refl
  parse_response-make_error_response code message _ Value.null = refl
  parse_response-make_error_response code message _ _ = refl

-- The server accepts every request that the client builds, and reads back its parts.
pub validate-make_request :
    (method : Text) (params : Value) (request_id : ℤ)
    → let request = make_request method params request_id in
      (validate_request_envelope (Value.object request) ≡ valid request)
      × (lookup (txt "method") request ≡ some (Value.str method))
      × (lookup (txt "params") request ≡ some params)
      × (lookup (txt "id") request ≡ some (Value.int request_id))
unfolding validate_request_envelope make_request jsonrpc_version is_version lookup has get_or teq
    txt
validate-make_request method params request_id = (refl, refl, refl, refl)
