-- ===== src/Client.antt =====
-- src/ida_pro_mcp/client.py: the client of one IDA process. The socket is a parameter, `exchange`:
-- what the HTTP request comes back with. JSON encoding and decoding are the interface `Json`.
use ida_pro_mcp.Prelude.{ℕ, suc, ℤ, pos, Text, Option, none, some, List, ◌≡◌, if◌then◌else◌, ◌==◌}
use ida_pro_mcp.Value.{Value, Fields}
use ida_pro_mcp.JsonRpc.{make_request, parse_response, Reply}

-- `json.dumps(v).encode()` and `json.loads(b.decode())`: what is written is read back.
pub record Json : Type 0 where
  pub dumps : Value → List ℕ
  pub loads : List ℕ → Option Value
  pub loads-dumps : (v : Value) → loads (dumps v) ≡ some v

-- What comes back: `OSError`, or a status with a body.
pub data Exchange : Type 0 where
  os_error : Exchange
  response : ℕ → List ℕ → Exchange

pub record Client : Type 0 where
  pub host : Text
  pub port : ℤ
  -- the next value of `itertools.count(1)`
  pub next_id : ℕ

unfoldable pub new_client : Text → ℤ → Client
new_client host port = record { host = host; port = port; next_id = 1 }

-- A result or an exception: `IDARpcTransportError`, or what `parse_response` does.
pub data Called : Type 0 where
  replied : Reply → Called
  transport_error : Called

unfoldable pub request_body : Json → Client → Text → Fields → List ℕ
request_body json c method params =
    json.dumps (Value.object (make_request method (Value.object params) (pos c.next_id)))

module _ (json : Json) (render : Value → Text) where
  unfoldable pub read_exchange : Exchange → Called
  read_exchange os_error = transport_error
  read_exchange (response status body) =
      if status == 200
      then elim (json.loads body) [
        | none ↦ transport_error
        | some payload ↦ replied (parse_response render payload)
      ]
      else transport_error

  -- `call`: the outcome, and the client with its counter advanced.
  unfoldable pub call : (List ℕ → Exchange) → Client → Text → Fields → Called × Client
  call exchange c method params = (
    read_exchange (exchange (request_body json c method params)),
    record c { next_id = suc c.next_id },
  )
