-- ===== src/Paginate/Walk.antt =====
-- A client that follows `next_offset` of plugin/tools/_helpers.py from page to page.
use ida_pro_mcp.Prelude.{
  ℕ, zero, suc, ◌+◌, ◌-◌, ◌<◌, ◌≤◌, pos, true, false, none, some, List, [], ◌∷◌, ◌++◌, length, take,
  drop, ltb, ◌≡◌, refl, sym, ap, ◌∙◌, inl, inr, arith, Bool-cases,
}
use ida_pro_mcp.Errors.{ok, err}
use ida_pro_mcp.Paginate.{page_end, page_of, paginate}

module _ {ℓ} {A : Type ℓ} where
  -- The items that a client collects with at most `n` calls, from an offset on.
  unfoldable pub follow : ℕ → List A → ℕ → ℕ → List A
  follow zero items count offset = []
  follow (suc n) items count offset = elim (paginate items (pos offset) (pos count)) [
    | err e ↦ []
    | ok page ↦
        page.page_data
        ++ elim page.next_offset [ none ↦ [] | some next ↦ follow n items count next ]
  ]

  take-all : (n : ℕ) (xs : List A) → length xs ≤ n → take n xs ≡ xs
  take-all zero [] h = refl
  take-all zero (x ∷ xs) h = absurd (omega arith)
  take-all (suc n) [] h = refl
  take-all (suc n) (x ∷ xs) h = ap (λ t. x ∷ t) (take-all n xs (omega arith))

  length-drop : (n : ℕ) (xs : List A) → length (drop n xs) ≡ length xs - n
  length-drop zero xs = omega arith
  length-drop (suc n) [] = omega arith
  length-drop (suc n) (x ∷ xs) = omega (arith, length-drop n xs)

  take-append-drop : (n : ℕ) (xs : List A) → take n xs ++ drop n xs ≡ xs
  take-append-drop zero xs = refl
  take-append-drop (suc n) [] = refl
  take-append-drop (suc n) (x ∷ xs) = ap (λ t. x ∷ t) (take-append-drop n xs)

  drop_nil : (n : ℕ) → drop {A = A} n [] ≡ []
  drop_nil zero = refl
  drop_nil (suc n) = refl

  drop-drop : (m n k : ℕ) (xs : List A) → k ≡ m + n → drop n (drop m xs) ≡ drop k xs
  drop-drop zero n k xs h = ap (λ j. drop j xs) (omega arith)
  drop-drop (suc m) n k [] h = drop_nil n ∙ sym (drop_nil k)
  drop-drop (suc m) n zero (x ∷ xs) h = absurd (omega arith)
  drop-drop (suc m) n (suc k) (x ∷ xs) h = drop-drop m n k xs (omega arith)

  append_nil : (xs : List A) → xs ++ [] ≡ xs
  append_nil [] = refl
  append_nil (x ∷ xs) = ap (λ t. x ∷ t) (append_nil xs)

  follow_from :
      (n : ℕ) (items : List A) (count offset : ℕ)
      → length items - offset < n
      → follow n items count offset ≡ drop offset items
  unfolding follow paginate page_of
  follow_from zero items count offset h = absurd (omega arith)
  follow_from (suc n) items count offset h =
      elim (Bool-cases (ltb (page_end offset count (length items)) (length items))) [
        | inl more ↦ rw (more) (
            ap (λ t. take (page_end offset count (length items) - offset) (drop offset items) ++ t)
              (follow_from n items count (page_end offset count (length items)) (fewer count more))
            ∙ cut count more)
        | inr done ↦ rw (done) (
            append_nil (take (page_end offset count (length items) - offset) (drop offset items))
            ∙ take-all (page_end offset count (length items) - offset) (drop offset items)
                (omega (arith, length-drop offset items, whole count done)))
      ]
    where
      fewer :
          (c : ℕ)
          → ltb (page_end offset c (length items)) (length items) ≡ true
          → length items - page_end offset c (length items) < n
      fewer zero more = unfold page_end in ground arith
      fewer (suc c) more = unfold page_end in ground arith

      whole :
          (c : ℕ)
          → ltb (page_end offset c (length items)) (length items) ≡ false
          → length items ≤ page_end offset c (length items)
      whole c done = ground arith

      stop_eq :
          (c : ℕ)
          → ltb (page_end offset c (length items)) (length items) ≡ true
          → page_end offset c (length items) ≡ offset + c
      stop_eq zero more = unfold page_end in ground arith
      stop_eq (suc c) more = unfold page_end in ground arith

      cut :
          (c : ℕ)
          → ltb (page_end offset c (length items)) (length items) ≡ true
          → take (page_end offset c (length items) - offset) (drop offset items)
              ++ drop (page_end offset c (length items)) items
            ≡ drop offset items
      cut c more =
          let stop = page_end offset c (length items) in
          ap (λ t. take (stop - offset) (drop offset items) ++ t)
            (sym (drop-drop offset (stop - offset) stop items (omega (arith, stop_eq c more))))
          ∙ take-append-drop (stop - offset) (drop offset items)

  -- A client that starts at offset zero and follows `next_offset` has every item, once and in
  -- order, after at most one call more than there are items, whatever the page size.
  pub follow_all : (items : List A) (count : ℕ) → follow (suc (length items)) items count 0 ≡ items
  follow_all items count = follow_from (suc (length items)) items count 0 (omega arith)
