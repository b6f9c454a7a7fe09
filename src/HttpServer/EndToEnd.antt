-- ===== src/HttpServer/EndToEnd.antt =====
-- A call of client.py, over plugin/http_server.py.
use ida_pro_mcp.Prelude.{
  ℕ, suc, ◌≤◌, ℤ, pos, Text, txt, teq_refl, none, some, List, [], ◌∷◌, ◌++◌, length, take, drop,
  take-append_self, drop-append_self, ltb_of_le, ◌≡◌, refl, ap, ◌∙◌,
}
use mathlib.Core.Path.{subst}
use ida_pro_mcp.PyInt.{int_10}
use ida_pro_mcp.Value.{Value, Fields, get_or}
use ida_pro_mcp.Coerce.{Floats}
use ida_pro_mcp.JsonRpc.{Reply, result, remote, make_request, parse_response}
use ida_pro_mcp.JsonRpc.RoundTrip.{
  parse_response-make_success_response, parse_response-make_error_response, validate-make_request,
}
use ida_pro_mcp.Client.{
  Json, Client, Called, Exchange, response, os_error, request_body, read_exchange, call,
}
use ida_pro_mcp.Client
use ida_pro_mcp.Registry.{Registry, Message, Outcome, returned, raised, dispatch, dispatch_value}
use ida_pro_mcp.HttpServer.{
  Loaded, value, decode_error, Request, Handled, max_request_bytes, replied, respond, report,
  answer, request_id_of, handle_value, handle_body, handle_length, handle_headers, do_post,
}

-- What the client makes of an outcome of the dispatcher.
abbrev pub reply_of : Outcome Value → Reply
reply_of (returned v) = result v
reply_of (raised e) = remote (report e).0 (report e).1 (report e).2

-- The server's `json.loads`, on what the client's encoder writes.
abbrev pub server_loads : Json → List ℕ → Loaded
server_loads json bytes = elim (json.loads bytes) [ none ↦ decode_error | some v ↦ value v ]

-- The response on the wire: status 200 and the only payload.
abbrev pub as_exchange : {S : Type 0} → Json → Handled S → Exchange
as_exchange json h = elim h.sent [
  | [] ↦ os_error
  | p ∷ _ ↦ response 200 (json.dumps (Value.object p))
]

-- The request that carries a body to the endpoint, with further bytes behind it.
abbrev pub request_of : Text → List ℕ → List ℕ → Request
request_of raw body next = record {
  path = txt "/mcp";
  raw_length = some raw;
  incoming = body ++ next;
}

module _ (render : Value → Text) where
  respond_lem :
      (request_id : Value) (out : Outcome Value)
      → parse_response render (Value.object (respond request_id out)) ≡ reply_of out
  unfolding respond
  respond_lem request_id (returned v) = parse_response-make_success_response render v request_id
  respond_lem request_id (raised e) = parse_response-make_error_response render _ _ request_id _

take_body : (m : ℕ) (body next : List ℕ) → length body ≡ m → take m (body ++ next) ≡ body
take_body m body next e = subst (λ k. take k (body ++ next) ≡ body) e (take-append_self body next)

drop_body : (m : ℕ) (body next : List ℕ) → length body ≡ m → drop m (body ++ next) ≡ next
drop_body m body next e = subst (λ k. drop k (body ++ next) ≡ next) e (drop-append_self body next)

module _ (F : Floats) (wording : Message → Text) (json : Json) {S : Type 0} where
  -- A request of the client is answered by the dispatcher.
  answer-make_request :
      (registry : Registry S) (method : Text) (params : Value) (id : ℤ) (s : S)
      → answer F wording
          (server_loads json)
          registry
          (Value.object (make_request method params id))
          s
        ≡ dispatch F wording registry method params s
  unfolding answer get_or
  answer-make_request registry method params id s =
      let (ok, has_method, has_params, _) = validate-make_request method params id in
      rw (ok, answer) (rw (has_method, has_params, get_or) (unfold dispatch_value in refl))

  handle_body-append :
      (registry : Registry S) (body next : List ℕ) (m : ℕ) (v : Value) (s : S)
      → length body ≡ m
      → json.loads body ≡ some v
      → handle_body F wording (server_loads json) registry m (body ++ next) s
        ≡ handle_value F wording (server_loads json) registry v next s
  unfolding handle_body
  handle_body-append registry body next m v s e loaded =
      rw (take_body m body next e, handle_body, loaded) (rw (drop_body m body next e))

  do_post-request_of :
      (registry : Registry S) (raw : Text) (body next : List ℕ) (n : ℕ) (v : Value) (s : S)
      → length body ≡ suc n
      → suc n ≤ max_request_bytes
      → int_10 raw ≡ some (pos (suc n))
      → json.loads body ≡ some v
      → do_post F wording (server_loads json) registry (request_of raw body next) s
        ≡ handle_value F wording (server_loads json) registry v next s
  unfolding do_post handle_headers handle_length
  do_post-request_of registry raw body next n v s e legal header loaded =
      rw (teq_refl, header, handle_headers, ltb_of_le max_request_bytes (suc n) legal)
        (handle_body-append registry body next (suc n) v s e loaded)

  handle_value-make_request :
      (registry : Registry S) (method : Text) (params : Value) (id : ℤ) (next : List ℕ) (s : S)
      → let request = Value.object (make_request method params id) in
        let (out, s') = dispatch F wording registry method params s in
        handle_value F wording (server_loads json) registry request next s
        ≡ replied (respond (request_id_of request) out) next s'
  unfolding handle_value
  handle_value-make_request registry method params id next s =
      rw (answer-make_request registry method params id s)

  read_replied :
      (render : Value → Text) (request_id : Value) (out : Outcome Value) (next : List ℕ) (s : S)
      → read_exchange json render (as_exchange json (replied (respond request_id out) next s))
        ≡ Client.replied (reply_of out)
  unfolding read_exchange replied
  read_replied render request_id out next s =
      rw json.loads-dumps (ap Client.replied (respond_lem render request_id out))

  -- A call of a client over the server: the body has a legal size, which the header states, and
  -- `next` is what the client sends behind it. The tool runs once, as the dispatcher runs it, the
  -- client is given its outcome, and exactly the body is read from the connection.
  pub call_over_server :
      (render : Value → Text) (registry : Registry S) (c : Client) (method : Text) (params : Fields)
      (raw : Text) (n : ℕ) (next : List ℕ) (s : S)
      → length (request_body json c method params) ≡ suc n
      → suc n ≤ max_request_bytes
      → int_10 raw ≡ some (pos (suc n))
      → let server = λ (body : List ℕ).
        do_post F wording (server_loads json) registry (request_of raw body next) s in
        let (out, s') = dispatch F wording registry method (Value.object params) s in
        (call json render (λ body. as_exchange json (server body)) c method params
          ≡ (Client.replied (reply_of out), record c { next_id = suc c.next_id }))
        × ((server (request_body json c method params)).state ≡ s')
        × ((server (request_body json c method params)).unread ≡ next)
  unfolding call read_exchange
  call_over_server render registry c method params raw n next s e legal header =
      let request = make_request method (Value.object params) (pos c.next_id) in
      let body = request_body json c method params in
      let post =
        do_post-request_of registry raw body next n (Value.object request) s e legal header
          (unfold request_body in json.loads-dumps _) in
      let full =
        post
        ∙ handle_value-make_request registry method (Value.object params) (pos c.next_id) next s in
      (
        ap
              (λ h. (
                read_exchange json render (as_exchange json h),
                record c { next_id = suc c.next_id },
              ))
              full
            ∙ ap (λ r. (r, record c { next_id = suc c.next_id }))
                (read_replied render (request_id_of (Value.object request))
                  (dispatch F wording registry method (Value.object params) s).0 next _),
        ap (λ h. h.state) full ∙ (unfold replied in refl),
        ap (λ h. h.unread) full ∙ (unfold replied in refl),
      )
