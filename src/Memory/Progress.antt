-- ===== src/Memory/Progress.antt =====
-- How far the loop of `patch_address_assembles` comes, and what it leaves in memory.
use mathlib.Core.Path.{subst}
use ida_pro_mcp.Prelude.{
  ℕ, suc, ◌+◌, ℤ, pos, ◌+ℤ◌, ◌≤ℤ◌, Text, length, Option, none, some, List, [], ◌∷◌, ◌++◌, ◌≡◌, ◌≢◌,
  refl, sym, ap, ◌∙◌, ◌⊎◌, Option-cases, inl, inr, arith, length-append,
}
use ida_pro_mcp.Errors.{IdaError, Result, ok, err}
use ida_pro_mcp.Memory.{Sdk, patch_raw, patch_assembled, assemble_and_patch, patch_pieces}

-- An address outside of `n` bytes from `ea`.
abbrev pub Outside : ℤ → ℕ → ℤ → Type 0
Outside ea n a = ((a +ℤ pos 1) ≤ℤ ea) ⊎ ((ea +ℤ pos n) ≤ℤ a)

step_add : (ea : ℤ) (n : ℕ) → ea +ℤ pos (suc n) ≡ ea +ℤ pos 1 +ℤ pos n
unfolding ◌+ℤ◌
step_add ea n = ground arith

add_zero : (ea : ℤ) → ea +ℤ pos 0 ≡ ea
unfolding ◌+ℤ◌
add_zero ea = ground arith

before_rest : (ea a : ℤ) (n k : ℕ) → Outside ea (n + k) a → Outside (ea +ℤ pos n) k a
unfolding ◌+ℤ◌
before_rest ea a n k o = ground arith

before_first : (ea a : ℤ) (n k : ℕ) → Outside ea (n + k) a → Outside ea n a
unfolding ◌+ℤ◌
before_first ea a n k o = ground arith

first_bound : (ea : ℤ) (n : ℕ) → (ea +ℤ pos 1) ≤ℤ (ea +ℤ pos (suc n))
unfolding ◌+ℤ◌
first_bound ea n = ground arith

rest_bound :
    (ea a : ℤ) (n : ℕ)
    → (a +ℤ pos 1) ≤ℤ (ea +ℤ pos 1 +ℤ pos n)
    → (a +ℤ pos 1) ≤ℤ (ea +ℤ pos (suc n))
unfolding ◌+ℤ◌
rest_bound ea a n h = ground arith

-- `byte` is the byte at an address, if it has a value.
module _ {S : Type 0} (sdk : Sdk S) (byte : S → ℤ → Option ℕ) where
  -- These bytes stand from `ea` on.
  unfoldable pub Holds : S → ℤ → List ℕ → Type 0
  Holds db ea [] = Unit
  Holds db ea (b ∷ raw) = (byte db ea ≡ some b) × Holds db (ea +ℤ pos 1) raw

  -- `patch_bytes` puts the bytes where it is told, and changes no other; `get_bytes` reads bytes
  -- that have a value.
  unfoldable pub Patches : Type 0
  Patches =
      (db after : S) (ea : ℤ) (raw : List ℕ)
      → sdk.patch_bytes db ea raw ≡ some after
      → Holds after ea raw × ((a : ℤ) → Outside ea (length raw) a → byte after a ≡ byte db a)

  unfoldable pub Reads : Type 0
  Reads =
      (db : S) (ea : ℤ) (raw : List ℕ)
      → Holds db ea raw
      → sdk.get_bytes db ea (pos (length raw)) ≡ some raw

  -- The code of these instructions, each assembled for the address where its code begins.
  unfoldable pub Emits : List Text → ℤ → List ℕ → Type 0
  Emits [] ea raw = raw ≡ []
  Emits (instruction ∷ pieces) ea raw =
      (db : S) × (code rest : List ℕ) × (sdk.assemble db ea instruction ≡ some code)
      × (code ++ rest ≡ raw)
      × Emits pieces (ea +ℤ pos (length code)) rest

  Holds-append :
      (db : S) (ea : ℤ) (xs ys : List ℕ)
      → Holds db ea xs
      → Holds db (ea +ℤ pos (length xs)) ys
      → Holds db ea (xs ++ ys)
  unfolding Holds
  Holds-append db ea [] ys h k = subst (λ a. Holds db a ys) (add_zero ea) k
  Holds-append db ea (x ∷ xs) ys (e, h) k = (
    e,
    Holds-append db (ea +ℤ pos 1) xs ys h (subst (λ a. Holds db a ys) (step_add ea (length xs)) k),
  )

  Holds-kept :
      (db after : S) (ea : ℤ) (raw : List ℕ)
      → ((a : ℤ) → (a +ℤ pos 1) ≤ℤ (ea +ℤ pos (length raw)) → byte after a ≡ byte db a)
      → Holds db ea raw
      → Holds after ea raw
  unfolding Holds
  Holds-kept db after ea [] same h = tt
  Holds-kept db after ea (x ∷ raw) same (e, h) = (
    same ea (first_bound ea (length raw)) ∙ e,
    Holds-kept db after (ea +ℤ pos 1) raw (λ a b. same a (rest_bound ea a (length raw) b)) h,
  )

  -- How far the loop comes: `done` are the instructions of which the code stands from `ea` on.
  pub record Progress (pieces : List Text) (ea : ℤ) (db after : S) (outcome : Result (Unit {0}))
      : Type 0 where
    pub done : List Text
    pub rest : List Text
    pub raw : List ℕ
    pub pieces_are : done ++ rest ≡ pieces
    pub complete : outcome ≡ ok tt → rest ≡ []
    pub partly : (e : IdaError) → outcome ≡ err e → rest ≢ []
    pub emits : Emits done ea raw
    pub holds : Holds after ea raw
    pub same : (a : ℤ) → Outside ea (length raw) a → byte after a ≡ byte db a

  stopped :
      (p : Text) (pieces : List Text) (ea : ℤ) (db : S) (e : IdaError)
      → Progress (p ∷ pieces) ea db db (err e)
  unfolding Emits Holds
  stopped p pieces ea db e = record {
    done = [];
    rest = p ∷ pieces;
    raw = [];
    pieces_are = refl;
    complete = λ h. cc;
    partly = λ e h. λ k. cc;
    emits = refl;
    holds = tt;
    same = λ a o. refl;
  }

  module _ (patches : Patches) (repr : Text → Text) (decode : List ℕ → Text) where
    advanced :
        (p : Text) (pieces : List Text) (ea : ℤ) (db mid after : S) (code : List ℕ)
        (outcome : Result (Unit {0}))
        → sdk.assemble db ea p ≡ some code
        → sdk.patch_bytes db ea code ≡ some mid
        → Progress pieces (ea +ℤ pos (length code)) mid after outcome
        → Progress (p ∷ pieces) ea db after outcome
    unfolding Emits Patches
    advanced p pieces ea db mid after code outcome made put v =
        let (written, kept) = patches db mid ea code put in
        record {
          done = p ∷ v.done;
          rest = v.rest;
          raw = code ++ v.raw;
          pieces_are = ap (λ ps. p ∷ ps) v.pieces_are;
          complete = v.complete;
          partly = v.partly;
          emits = (db, code, v.raw, made, refl, v.emits);
          holds =
              Holds-append after ea code v.raw
                (Holds-kept mid after ea code (λ a b. v.same a (inl b)) written) v.holds;
          same = λ a o.
              let o' = subst (λ n. Outside ea n a) (length-append code v.raw) o in
              v.same a (before_rest ea a (length code) (length v.raw) o')
              ∙ kept a (before_first ea a (length code) (length v.raw) o');
        }

    stops :
        (p : Text) (pieces : List Text) (ea : ℤ) (db after : S) (e : IdaError)
        → assemble_and_patch sdk repr decode db ea p ≡ (err e, after)
        → patch_pieces sdk repr decode (p ∷ pieces) ea db ≡ (err e, after)
    unfolding patch_pieces
    stops p pieces ea db after e h = grind arith

    goes_on :
        (p : Text) (pieces : List Text) (ea : ℤ) (db mid : S) (size : ℕ)
        → assemble_and_patch sdk repr decode db ea p ≡ (ok size, mid)
        → patch_pieces sdk repr decode (p ∷ pieces) ea db
          ≡ patch_pieces sdk repr decode pieces (ea +ℤ pos size) mid
    unfolding patch_pieces
    goes_on p pieces ea db mid size h = grind arith

    unassembled :
        (p : Text) (ea : ℤ) (db : S)
        → sdk.assemble db ea p ≡ none
        → (e : IdaError) × (assemble_and_patch sdk repr decode db ea p ≡ (err e, db))
    unfolding assemble_and_patch patch_assembled
    unassembled p ea db h = (_, ap (patch_assembled sdk repr decode db ea p) h)

    unpatched :
        (p : Text) (ea : ℤ) (db : S) (code : List ℕ)
        → sdk.assemble db ea p ≡ some code
        → sdk.patch_bytes db ea code ≡ none
        → (e : IdaError) × (assemble_and_patch sdk repr decode db ea p ≡ (err e, db))
    unfolding assemble_and_patch patch_assembled patch_raw
    unpatched p ea db code h k = (
      _,
      ap (patch_assembled sdk repr decode db ea p) h ∙ ap (patch_raw sdk repr decode db ea code) k,
    )

    patched :
        (p : Text) (ea : ℤ) (db mid : S) (code : List ℕ)
        → sdk.assemble db ea p ≡ some code
        → sdk.patch_bytes db ea code ≡ some mid
        → assemble_and_patch sdk repr decode db ea p ≡ (ok (length code), mid)
    unfolding assemble_and_patch patch_assembled patch_raw
    patched p ea db mid code h k = rw (h, k) refl

    failed :
        (p : Text) (pieces : List Text) (ea : ℤ) (db : S)
        → (e : IdaError) × (assemble_and_patch sdk repr decode db ea p ≡ (err e, db))
        → let run = patch_pieces sdk repr decode (p ∷ pieces) ea db in
          Progress (p ∷ pieces) ea db run.1 run.0
    failed p pieces ea db (e, h) =
        subst (λ run. Progress (p ∷ pieces) ea db run.1 run.0) (sym (stops p pieces ea db db e h))
          (stopped p pieces ea db e)

    pub patch_pieces_lem :
        (pieces : List Text) (ea : ℤ) (db : S)
        → let run = patch_pieces sdk repr decode pieces ea db in Progress pieces ea db run.1 run.0
    unfolding patch_pieces Emits Holds
    patch_pieces_lem [] ea db = record {
      done = [];
      rest = [];
      raw = [];
      pieces_are = refl;
      complete = λ h. refl;
      partly = λ e h. cc;
      emits = refl;
      holds = tt;
      same = λ a o. refl;
    }
    patch_pieces_lem (p ∷ pieces) ea db = elim (Option-cases (sdk.assemble db ea p)) [
      | inl h ↦ failed p pieces ea db (unassembled p ea db h)
      | inr (code, h) ↦ elim (Option-cases (sdk.patch_bytes db ea code)) [
        | inl k ↦ failed p pieces ea db (unpatched p ea db code h k)
        | inr (mid, k) ↦
            subst (λ run. Progress (p ∷ pieces) ea db run.1 run.0)
              (sym (goes_on p pieces ea db mid (length code) (patched p ea db mid code h k)))
              (advanced p pieces ea db mid _ code _ h k
                (patch_pieces_lem pieces (ea +ℤ pos (length code)) mid))
      ]
    ]
