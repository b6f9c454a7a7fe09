-- ===== src/Memory/Tests.antt =====
-- An instance of the theorem on `patch_address_assembles`: a memory of which each address may have
-- a byte, and an assembler that takes the text of an instruction for its code.
use mathlib.Core.Path.{subst}
use mathlib.Core.Option.{some-injective}
use ida_pro_mcp.Prelude.{
  ℕ, zero, suc, ℤ, pos, pos_part, eq_ℤ, ◌+ℤ◌, ◌≤ℤ◌, txt, length, true, false, Option, none, some,
  List, [], ◌∷◌, ◌≡◌, refl, ◌∙◌, arith, if◌then◌else◌,
}
use ida_pro_mcp.Format.{int, parse_ea}
use ida_pro_mcp.Errors.{ok}
use ida_pro_mcp.Memory.{Sdk, instruction_pieces, patch_address_assembles}
use ida_pro_mcp.Memory.Progress.{Outside, Holds, Patches, Reads}
use ida_pro_mcp.Memory.Patched.{Patched, patch_address_assembles_lem}

abbrev Bytes : Type 0
Bytes = ℤ → Option ℕ

over : Bytes → ℤ → List ℕ → Bytes
over db ea [] a = db a
over db ea (b ∷ raw) a =
    let rest = over db (ea +ℤ pos 1) raw a in if eq_ℤ a ea then some b else rest

-- The bytes from an address on, if all have a value.
cons : Option ℕ → Option (List ℕ) → Option (List ℕ)
cons none rest = none
cons (some b) none = none
cons (some b) (some raw) = some (b ∷ raw)

reading : Bytes → ℤ → ℕ → Option (List ℕ)
reading db ea zero = some []
reading db ea (suc n) = cons (db ea) (reading db (ea +ℤ pos 1) n)

abbrev sdk : Sdk Bytes
sdk = record {
  get_fixed = λ db size ea. 0;
  is_64bit = λ db. true;
  get_bytes = λ db ea size. reading db ea (pos_part size);
  strlit_contents = λ db ea. none;
  tinfo = λ db ea. none;
  has_any_name = λ db ea. false;
  item_size = λ db ea. 0;
  assemble = λ db ea instruction. some instruction;
  patch_bytes = λ db ea raw. some (over db ea raw);
}

abbrev byte : Bytes → ℤ → Option ℕ
byte db a = db a

over_first : (db : Bytes) (ea : ℤ) (b : ℕ) (raw : List ℕ) → over db ea (b ∷ raw) ea ≡ some b
unfolding over
over_first db ea b raw = ground arith

over_rest :
    (db : Bytes) (ea a : ℤ) (b : ℕ) (raw : List ℕ)
    → (ea +ℤ pos 1) ≤ℤ a
    → over db ea (b ∷ raw) a ≡ over db (ea +ℤ pos 1) raw a
unfolding over ◌+ℤ◌
over_rest db ea a b raw h = ground arith

from_next : (ea a : ℤ) → (ea +ℤ pos 1) ≤ℤ a → ea ≤ℤ a
unfolding ◌+ℤ◌
from_next ea a h = ground arith

from_self : (ea : ℤ) → ea ≤ℤ ea
from_self ea = ground arith

over-Holds :
    (m db : Bytes) (ea : ℤ) (raw : List ℕ)
    → ((a : ℤ) → ea ≤ℤ a → m a ≡ over db ea raw a)
    → Holds sdk byte m ea raw
unfolding Holds
over-Holds m db ea [] same = tt
over-Holds m db ea (b ∷ raw) same = (
  same ea (from_self ea) ∙ over_first db ea b raw,
  over-Holds m db (ea +ℤ pos 1) raw (λ a h. same a (from_next ea a h) ∙ over_rest db ea a b raw h),
)

not_first : (ea a : ℤ) (n : ℕ) → Outside ea (suc n) a → eq_ℤ a ea ≡ false
unfolding ◌+ℤ◌
not_first ea a n o = ground arith

before_next : (ea a : ℤ) (n : ℕ) → Outside ea (suc n) a → Outside (ea +ℤ pos 1) n a
unfolding ◌+ℤ◌
before_next ea a n o = ground arith

over-same :
    (db : Bytes) (ea : ℤ) (raw : List ℕ) (a : ℤ)
    → Outside ea (length raw) a
    → over db ea raw a ≡ db a
unfolding over
over-same db ea [] a o = refl
over-same db ea (b ∷ raw) a o =
    rw (not_first ea a (length raw) o)
      (over-same db (ea +ℤ pos 1) raw a (before_next ea a (length raw) o))

patches : Patches sdk byte
unfolding Patches
patches db after ea raw e =
    subst
      (λ m. Holds sdk byte m ea raw × ((a : ℤ) → Outside ea (length raw) a → byte m a ≡ byte db a))
      (some-injective _ _ e)
      (over-Holds (over db ea raw) db ea raw (λ a h. refl), over-same db ea raw)

reading_lem :
    (db : Bytes) (ea : ℤ) (raw : List ℕ)
    → Holds sdk byte db ea raw
    → reading db ea (length raw) ≡ some raw
unfolding Holds reading cons
reading_lem db ea [] h = refl
reading_lem db ea (b ∷ raw) (e, h) = rw (e, reading_lem db (ea +ℤ pos 1) raw h) refl

reads : Reads sdk byte
unfolding Reads
reads db ea raw h = reading_lem db ea raw h

abbrev empty : Bytes
empty a = none

at : parse_ea (int (pos 16)) ≡ ok (pos 16)
unfolding parse_ea
at = refl

patch_address_assembles_lem_example :
    let run =
      patch_address_assembles sdk (λ t. t) (λ raw. raw) (int (pos 16)) (txt "nop; ret") empty in
    Patched sdk byte patches
      (λ t. t)
      (λ raw. raw)
      (instruction_pieces (txt "nop; ret"))
      (pos 16)
      empty
      run.1
      run.0
patch_address_assembles_lem_example =
    patch_address_assembles_lem sdk byte patches (λ t. t) (λ raw. raw) reads (int (pos 16))
      (txt "nop; ret") empty (pos 16) at
