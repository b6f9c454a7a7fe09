-- ===== src/JsonRpc/Tests.antt =====
-- Instances of the theorems on jsonrpc.py.
use ida_pro_mcp.Prelude.{pos, ◌≡◌, Bool, []}
use ida_pro_mcp.Value.{Value}
use ida_pro_mcp.JsonRpc.{make_success_response, result, parse_response}
use ida_pro_mcp.JsonRpc.RoundTrip.{parse_response-make_success_response}

success_example :
    parse_response
      (λ v. [])
      (Value.object (make_success_response (Value.bool Bool.true) (Value.int (pos 7))))
    ≡ result (Value.bool Bool.true)
success_example =
    parse_response-make_success_response (λ v. []) (Value.bool Bool.true) (Value.int (pos 7))
