-- ===== src/Memory/Patched.antt =====
-- What `patch_address_assembles` leaves in memory, and what `read_bytes` then reads.
use mathlib.Core.Path.{subst}
use ida_pro_mcp.Prelude.{
  ℕ, ℤ, pos, Text, txt, teq, length, Option, List, [], ◌∷◌, ◌++◌, ◌≡◌, ◌≢◌, refl, sym, ap, ◌∙◌,
  arith,
}
use ida_pro_mcp.Errors.{IdaError, Result, ok, err}
use ida_pro_mcp.Format.{TextOrInt, int, parse_ea}
use ida_pro_mcp.Memory.Progress.{Outside, Holds, Patches, Reads, Emits, patch_pieces_lem}
use ida_pro_mcp.Memory.{
  Sdk, instruction_pieces, hex_compact, patch_pieces, report_patched, patch_at,
  patch_address_assembles, format_raw_bytes, render_read, read_bytes,
}

module _ {S : Type 0} (sdk : Sdk S) (byte : S → ℤ → Option ℕ) (patches : Patches sdk byte)
    (repr : Text → Text) (decode : List ℕ → Text) where
  -- What the tool leaves: the code of the instructions `done` from `ea` on, each assembled for
  -- the address at which its code begins, and every other byte as it was; `read_bytes` gives
  -- that code. When there are instructions, these are all just when the tool succeeds.
  pub record Patched (pieces : List Text) (ea : ℤ) (db after : S) (outcome : Result Text)
      : Type 0 where
    pub done : List Text
    pub rest : List Text
    pub raw : List ℕ
    pub pieces_are : done ++ rest ≡ pieces
    pub complete : (message : Text) → outcome ≡ ok message → rest ≡ []
    pub partly : (e : IdaError) → outcome ≡ err e → pieces ≢ [] → rest ≢ []
    pub emits : Emits sdk byte done ea raw
    pub read_back :
        read_bytes sdk repr decode after (int ea) (pos (length raw)) (txt "hex_compact")
        ≡ ok (hex_compact raw)
    pub same : (a : ℤ) → Outside ea (length raw) a → byte after a ≡ byte db a

  read_back_lem :
      (reads : Reads sdk byte) (db : S) (ea : ℤ) (raw : List ℕ)
      → Holds sdk byte db ea raw
      → read_bytes sdk repr decode db (int ea) (pos (length raw)) (txt "hex_compact")
        ≡ ok (hex_compact raw)
  unfolding Reads read_bytes parse_ea render_read format_raw_bytes teq txt
  read_back_lem reads db ea raw h =
      ap (render_read sdk repr decode ea (pos (length raw)) (txt "hex_compact")) (reads db ea raw h)
      ∙ grind arith

  reported_ok :
      (n : ℕ) (outcome : Result (Unit {0})) (after : S) (message : Text)
      → (report_patched sdk repr decode n (outcome, after)).0 ≡ ok message
      → outcome ≡ ok tt
  unfolding report_patched
  reported_ok n (ok done) after message h = refl
  reported_ok n (err e) after message h = cc

  reported_err :
      (n : ℕ) (outcome : Result (Unit {0})) (after : S) (e : IdaError)
      → (report_patched sdk repr decode n (outcome, after)).0 ≡ err e
      → (cause : IdaError) × (outcome ≡ err cause)
  unfolding report_patched
  reported_err n (ok done) after e h = cc
  reported_err n (err cause) after e h = (cause, refl)

  reported_state :
      (n : ℕ) (outcome : Result (Unit {0})) (after : S)
      → after ≡ (report_patched sdk repr decode n (outcome, after)).1
  unfolding report_patched
  reported_state n (ok done) after = refl
  reported_state n (err e) after = refl

  patch_at_lem :
      (reads : Reads sdk byte) (ea : ℤ) (pieces : List Text) (db : S)
      → let run = patch_at sdk repr decode ea pieces db in Patched pieces ea db run.1 run.0
  unfolding patch_at Emits Holds
  patch_at_lem reads ea [] db = record {
    done = [];
    rest = [];
    raw = [];
    pieces_are = refl;
    complete = λ message h. refl;
    partly = λ e h some_piece. some_piece;
    emits = refl;
    read_back = read_back_lem reads db ea [] tt;
    same = λ a o. refl;
  }
  patch_at_lem reads ea (p ∷ pieces) db =
      let run = patch_pieces sdk repr decode (p ∷ pieces) ea db in
      let v = patch_pieces_lem sdk byte patches repr decode (p ∷ pieces) ea db in
      let n = length (p ∷ pieces) in
      record {
        done = v.done;
        rest = v.rest;
        raw = v.raw;
        pieces_are = v.pieces_are;
        complete = λ message h. v.complete (reported_ok n run.0 run.1 message h);
        partly =
            λ e h some_piece. let (cause, k) = reported_err n run.0 run.1 e h in v.partly cause k;
        emits = v.emits;
        read_back =
            subst
              (λ s.
                read_bytes sdk repr decode s (int ea) (pos (length v.raw)) (txt "hex_compact")
                ≡ ok (hex_compact v.raw))
              (reported_state n run.0 run.1) (read_back_lem reads run.1 ea v.raw v.holds);
        same = λ a o. subst (λ s. byte s a ≡ byte db a) (reported_state n run.0 run.1) (v.same a o);
      }

  at_address :
      (address : TextOrInt) (instructions : Text) (db : S) (ea : ℤ)
      → parse_ea address ≡ ok ea
      → patch_address_assembles sdk repr decode address instructions db
        ≡ patch_at sdk repr decode ea (instruction_pieces instructions) db
  unfolding patch_address_assembles
  at_address address instructions db ea h = rw (patch_address_assembles, h) refl

  -- `patch_address_assembles` at an address that can be read, when IDA patches and reads as it
  -- is told: however it ends, the code of its first instructions stands from the address on,
  -- each assembled for the address at which its code begins, and `read_bytes` gives that code;
  -- every other byte is as it was. When there are instructions, those are all of them if the
  -- tool succeeds, and only if it does.
  pub patch_address_assembles_lem :
      (reads : Reads sdk byte) (address : TextOrInt) (instructions : Text) (db : S) (ea : ℤ)
      → parse_ea address ≡ ok ea
      → let run = patch_address_assembles sdk repr decode address instructions db in
        Patched (instruction_pieces instructions) ea db run.1 run.0
  patch_address_assembles_lem reads address instructions db ea h =
      let pieces = instruction_pieces instructions in
      subst (λ run. Patched pieces ea db run.1 run.0)
        (sym (at_address address instructions db ea h)) (patch_at_lem reads ea pieces db)
