-- ===== src/HttpServer/Tests.antt =====
-- Instances of the theorems on http_server.py.
use ida_pro_mcp.Prelude.{ℕ, suc, txt, some, ◌≡◌, List, [], ◌∷◌, drop, ◌⊎◌}
use ida_pro_mcp.HttpServer.{
  Request, Loaded, decode_error, do_post, discard_unread_body, max_request_bytes, minimum,
}
use ida_pro_mcp.HttpServer.Responses.{IsRefused, HasBody, BodyFate, do_post_fate}
use ida_pro_mcp.HttpServer.Body.{discard_unread_body_lem}
use ida_pro_mcp.HttpServer.EndToEnd.{
  as_exchange, server_loads, request_of, reply_of, call_over_server,
}
use ida_pro_mcp.Client
use ida_pro_mcp.Client.{Client, request_body, call}
use ida_pro_mcp.JsonRpc.{make_request, jsonrpc_version}
use ida_pro_mcp.Value.{Value, Fields, end, field}
use ida_pro_mcp.PyInt.{int_10, classify, digit_value, scan, digits, to_neg, signed}
use ida_pro_mcp.Registry.{dispatch}
use ida_pro_mcp.Codec.{
  codec, dumps, put_value, put_items, put_fields, size, size_items, size_fields,
}
use ida_pro_mcp.Prelude.{◌≤◌, pos, length, strip, lstrip, rstrip, is_space, refl, arith}
use ida_pro_mcp.Samples.{floats, wording, registry}

abbrev no_json : List ℕ → Loaded
no_json bytes = decode_error

abbrev request : Request
request = record {
  path = txt "/mcp";
  raw_length = some (txt "2");
  incoming = b'{' ∷ b'}' ∷ b'x' ∷ [];
}

do_post_fate_example :
    IsRefused 0 (do_post floats wording no_json registry request 0)
    ⊎ ((n : ℕ) × HasBody request n
        × BodyFate floats wording no_json registry
            (suc n)
            request.incoming
            0
            (do_post floats wording no_json registry request 0))
do_post_fate_example = do_post_fate floats wording no_json registry request 0

discard_unread_body_lem_example :
    discard_unread_body 2 request.incoming ≡ drop (minimum 2 max_request_bytes) request.incoming
discard_unread_body_lem_example = discard_unread_body_lem 2 request.incoming

abbrev client : Client
client = record { host = txt "127.0.0.1"; port = pos 8765; next_id = 1 }

abbrev params : Fields
params = field (txt "count") (Value.int (pos 3)) end

body_size : length (request_body codec client (txt "f") params) ≡ 53
unfolding request_body make_request jsonrpc_version dumps put_value put_items put_fields size
    size_items size_fields txt
body_size = refl

legal_size : 53 ≤ max_request_bytes
unfolding max_request_bytes
legal_size = omega arith

header_number : int_10 (txt "53") ≡ some (pos 53)
unfolding int_10 classify digit_value scan digits to_neg signed strip lstrip rstrip is_space txt
header_number = refl

call_over_server_example :
    (call codec
        (λ v. [])
        (λ body.
          as_exchange codec (
            do_post floats wording (server_loads codec) registry (request_of (txt "53") body []) 0))
        client
        (txt "f")
        params
      ≡ (
        Client.replied
            (reply_of (dispatch floats wording registry (txt "f") (Value.object params) 0).0),
        record client { next_id = 2 },
      ))
    × ((do_post floats wording
          (server_loads codec)
          registry
          (request_of (txt "53") (request_body codec client (txt "f") params) [])
          0).state
        ≡ (dispatch floats wording registry (txt "f") (Value.object params) 0).1)
    × ((do_post floats wording
          (server_loads codec)
          registry
          (request_of (txt "53") (request_body codec client (txt "f") params) [])
          0).unread
        ≡ [])
call_over_server_example =
    call_over_server floats wording codec (λ v. []) registry client (txt "f") params (txt "53") 52
      [] 0 body_size legal_size header_number
