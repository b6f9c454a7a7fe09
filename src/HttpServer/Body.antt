-- ===== src/HttpServer/Body.antt =====
-- `_discard_unread_body` of plugin/http_server.py on the bytes of a connection.
use ida_pro_mcp.Prelude.{
  ℕ, zero, suc, ◌+◌, ◌-◌, ◌≤◌, ◌<◌, ◌≡◌, ◌⊎◌, refl, sym, ap, ◌∙◌, List, [], ◌∷◌, length, take, drop,
  arith, inl, inr,
}
use ida_pro_mcp.HttpServer.{
  minimum, discard_loop, discard_unread_body, read_discard_chunk, max_request_bytes,
}

module _ {ℓ} {A : Type ℓ} where
  pub drop-nil : (n : ℕ) → drop {A = A} n [] ≡ []
  drop-nil zero = refl
  drop-nil (suc n) = refl

  drop_past_end : (n : ℕ) (xs : List A) → length xs ≤ n → drop n xs ≡ []
  drop_past_end n [] h = drop-nil n
  drop_past_end zero (x ∷ xs) h = absurd (omega arith)
  drop_past_end (suc n) (x ∷ xs) h = drop_past_end n xs (omega arith)

  drop-drop : (a b : ℕ) (xs : List A) → drop a (drop b xs) ≡ drop (b + a) xs
  drop-drop a zero xs = ap (λ n. drop n xs) (omega arith)
  drop-drop a (suc b) [] = drop-nil a ∙ sym (drop-nil (suc b + a))
  drop-drop a (suc b) (x ∷ xs) =
      drop-drop a b xs ∙ ap {A = ℕ} (λ n. drop n (x ∷ xs)) {x = suc (b + a)} (omega arith)

  -- A short read is the rest of the data.
  take_cases :
      (n : ℕ) (xs : List A)
      → ((length (take n xs) ≡ n) × (n ≤ length xs))
        ⊎ ((length (take n xs) ≡ length xs) × (length xs < n))
  take_cases zero xs = inl (refl, omega arith)
  take_cases (suc n) [] = inr (refl, omega arith)
  take_cases (suc n) (x ∷ xs) = step (take_cases n xs)
    where
      step :
          ((length (take n xs) ≡ n) × (n ≤ length xs))
            ⊎ ((length (take n xs) ≡ length xs) × (length xs < n))
          → ((length (take (suc n) (x ∷ xs)) ≡ suc n) × (suc n ≤ length (x ∷ xs)))
            ⊎ ((length (take (suc n) (x ∷ xs)) ≡ length (x ∷ xs)) × (length (x ∷ xs) < suc n))
      step (inl (e, h)) = inl (omega arith, omega arith)
      step (inr (e, h)) = inr (omega arith, omega arith)

minimum_facts :
    (r : ℕ) → (minimum read_discard_chunk r ≤ r) × (0 < r → 0 < minimum read_discard_chunk r)
unfolding minimum read_discard_chunk
minimum_facts r = (ground arith, λ h. ground arith)

discard_loop_lem :
    (fuel remaining : ℕ) (incoming : List ℕ)
    → remaining < fuel
    → discard_loop fuel remaining incoming ≡ drop remaining incoming
unfolding discard_loop
discard_loop_lem zero remaining incoming h = elim h [ ]
discard_loop_lem (suc fuel) zero incoming h = refl
discard_loop_lem (suc fuel) (suc r) incoming h =
    let (small, positive) = minimum_facts (suc r) in
    let wanted = minimum read_discard_chunk (suc r) in
    elim (take_cases wanted incoming) [
      | inl (e, fits) ↦
          let left = suc r - wanted in
          ground (
            arith,
            discard_loop_lem fuel left (drop wanted incoming),
            drop-drop left wanted incoming,
            positive (omega arith),
          )
      | inr (e, short) ↦
          let left = suc r - length incoming in
          ground (
            arith,
            discard_loop_lem fuel left (drop wanted incoming),
            drop_past_end wanted incoming (omega arith),
            drop_past_end (suc r) incoming (omega arith),
            drop-nil {A = ℕ} left,
          )
    ]

-- Chunked reading discards the bytes that were asked for, as far as the client has sent them and
-- up to the ceiling, and nothing behind them.
pub discard_unread_body_lem :
    (n : ℕ) (incoming : List ℕ)
    → discard_unread_body n incoming ≡ drop (minimum n max_request_bytes) incoming
unfolding discard_unread_body
discard_unread_body_lem n incoming =
    discard_loop_lem _ (minimum n max_request_bytes) incoming (omega arith)
