-- ===== src/HttpServer/Responses.antt =====
-- The requests of plugin/http_server.py and their responses.
use ida_pro_mcp.Prelude.{
  ℕ, zero, suc, ◌≤◌, ℤ, pos, negsuc, Text, txt, teq, not, Bool, true, false, Option, none, some,
  List, [], take, drop, ltb, ◌≡◌, refl, sym, ap, ◌∙◌, ◌⊎◌, inl, inr, arith, if◌then◌else◌,
}
use mathlib.Core.Path.{subst}
use ida_pro_mcp.Errors.{ErrorCode}
use ida_pro_mcp.PyInt.{int_10}
use ida_pro_mcp.Value.{Value, Fields}
use ida_pro_mcp.Coerce.{Floats}
use ida_pro_mcp.Registry.{Registry, Message}
use ida_pro_mcp.HttpServer.{
  plain_error, too_large, discard_unread_body, discard_body_unknown_len, discard_for_path, Loaded,
  value, decode_error, crash, Request, Handled, max_request_bytes, replied, handle_value,
  handle_body, handle_length, handle_headers, do_post,
}

module _ {S : Type 0} where
  -- One response, and the database is left alone.
  abbrev pub IsRefused : S → Handled S → Type 0
  IsRefused s h = (payload : Fields) × (unread : List ℕ) × (h ≡ replied payload unread s)

  -- No response: the exception leaves the handler.
  abbrev pub silent : List ℕ → S → Handled S
  silent unread s = record { sent = []; unread = unread; state = s; escaped = true }

  IsRefused-if :
      (b : Bool) (payload : Fields) (unread : List ℕ) (s : S) (k : Handled S)
      → IsRefused s (if b then replied payload unread s else k)
        ⊎ ((b ≡ false) × ((if b then replied payload unread s else k) ≡ k))
  IsRefused-if true payload unread s k = inl (payload, unread, refl)
  IsRefused-if false payload unread s k = inr (refl, refl)

-- A request gets as far as its body.
pub record HasBody (request : Request) (n : ℕ) : Type 0 where
  pub endpoint : teq request.path (txt "/mcp") ≡ true
  pub raw : Text
  pub header : request.raw_length ≡ some raw
  pub number : int_10 raw ≡ some (pos (suc n))
  pub legal : suc n ≤ max_request_bytes

legal_size : (n : ℕ) → ltb max_request_bytes (suc n) ≡ false → suc n ≤ max_request_bytes
legal_size n h = ground arith

not-not : (b : Bool) → not b ≡ false → b ≡ true
not-not b h = ground arith

module _ (F : Floats) (wording : Message → Text) (loads : List ℕ → Loaded) {S : Type 0} where
  abbrev pub BodyFate : Registry S → ℕ → List ℕ → S → Handled S → Type 0
  BodyFate registry n incoming s h =
      IsRefused s h
      ⊎ ((v : Value) × (loads (take n incoming) ≡ value v)
          × (h ≡ handle_value F wording loads registry v (drop n incoming) s))
      ⊎ ((loads (take n incoming) ≡ crash) × (h ≡ silent (drop n incoming) s))

  body_fate :
      (registry : Registry S) (n : ℕ) (incoming : List ℕ) (s : S)
      → BodyFate registry n incoming s (handle_body F wording loads registry n incoming s)
  unfolding handle_body
  body_fate registry n incoming s = by_load (loads (take n incoming)) refl
    where
      by_load :
          (l : Loaded)
          → loads (take n incoming) ≡ l
          → BodyFate registry n incoming s (elim l [
            | decode_error ↦
                replied
                  (plain_error ErrorCode.parse_error (txt "Parse error: invalid JSON"))
                  (drop n incoming)
                  s
            | crash ↦ record { sent = []; unread = drop n incoming; state = s; escaped = true }
            | value request ↦ handle_value F wording loads registry request (drop n incoming) s
          ])
      by_load decode_error e = inl (_, _, refl)
      by_load crash e = inr (inr (e, refl))
      by_load (value v) e = inr (inl (v, e, refl))

  length_fate :
      (registry : Registry S) (z : ℤ) (incoming : List ℕ) (s : S)
      → let h = handle_length F wording loads registry z incoming s in
        IsRefused s h
        ⊎ ((n : ℕ) × (z ≡ pos (suc n))
            × (suc n ≤ max_request_bytes)
            × (h ≡ handle_body F wording loads registry (suc n) incoming s))
  unfolding handle_length
  length_fate registry (pos zero) incoming s = inl (_, _, refl)
  length_fate registry (negsuc n) incoming s = inl (_, _, refl)
  length_fate registry (pos (suc n)) incoming s =
      let refusal = plain_error ErrorCode.invalid_request (too_large (suc n)) in
      let next = handle_body F wording loads registry (suc n) incoming s in
      elim (IsRefused-if (ltb max_request_bytes (suc n)) refusal
        (discard_unread_body (suc n) incoming) s next) [
          | inl refused ↦ inl refused
          | inr (legal, e) ↦ inr (n, refl, legal_size n legal, e)
        ]

  headers_fate :
      (registry : Registry S) (header : Option Text) (incoming : List ℕ) (s : S)
      → let h = handle_headers F wording loads registry header incoming s in
        IsRefused s h
        ⊎ ((raw : Text) × (z : ℤ) × (header ≡ some raw)
            × (int_10 raw ≡ some z)
            × (h ≡ handle_length F wording loads registry z incoming s))
  unfolding handle_headers
  headers_fate registry none incoming s = inl (_, _, refl)
  headers_fate registry (some raw) incoming s = by_number (int_10 raw) refl
    where
      by_number :
          (o : Option ℤ)
          → int_10 raw ≡ o
          → let h : Handled S = elim o [
            | none ↦
                replied
                  (plain_error ErrorCode.invalid_request (txt "Invalid Content-Length header"))
                  (discard_body_unknown_len incoming)
                  s
            | some n ↦ handle_length F wording loads registry n incoming s
          ] in
            IsRefused s h
            ⊎ ((r : Text) × (z : ℤ) × (some raw ≡ some r)
                × (int_10 r ≡ some z)
                × (h ≡ handle_length F wording loads registry z incoming s))
      by_number none e = inl (_, _, refl)
      by_number (some z) e = inr (raw, z, refl, e, refl)

  path_fate :
      (registry : Registry S) (request : Request) (s : S)
      → let h = do_post F wording loads registry request s in
        IsRefused s h
        ⊎ ((teq request.path (txt "/mcp") ≡ true)
            × (h ≡ handle_headers F wording loads registry request.raw_length request.incoming s))
  unfolding do_post
  path_fate registry request s =
      let refusal = plain_error ErrorCode.invalid_endpoint (txt "Invalid endpoint") in
      let next = handle_headers F wording loads registry request.raw_length request.incoming s in
      let left = discard_for_path request.raw_length request.incoming in
      elim (IsRefused-if (not (teq request.path (txt "/mcp"))) refusal left s next) [
        | inl refused ↦ inl refused
        | inr (same, e) ↦ inr (not-not (teq request.path (txt "/mcp")) same, e)
      ]

  -- Every request is refused with one response and no effect on the database; or its body, which
  -- is of a legal size, is JSON, and it is handed to the dispatcher with the bytes behind the body
  -- left unread; or `json.loads` fails on its body in another way than `JSONDecodeError`, and the
  -- request has no response.
  pub do_post_fate :
      (registry : Registry S) (request : Request) (s : S)
      → let h = do_post F wording loads registry request s in
        IsRefused s h
        ⊎ ((n : ℕ) × HasBody request n × BodyFate registry (suc n) request.incoming s h)
  do_post_fate registry request s = elim (path_fate registry request s) [
    | inl refused ↦ inl refused
    | inr (endpoint, e) ↦ elim (headers_fate registry request.raw_length request.incoming s) [
      | inl (p, u, r) ↦ inl (p, u, e ∙ r)
      | inr (raw, z, header, number, e') ↦ elim (length_fate registry z request.incoming s) [
        | inl (p, u, r) ↦ inl (p, u, e ∙ e' ∙ r)
        | inr (n, is_n, legal, e'') ↦ inr (
          n,
          record {
            endpoint = endpoint;
            raw = raw;
            header = header;
            number = number ∙ ap some is_n;
            legal = legal;
          },
          subst (BodyFate registry (suc n) request.incoming s) (sym (e ∙ e' ∙ e''))
              (body_fate registry (suc n) request.incoming s),
        )
      ]
    ]
  ]
