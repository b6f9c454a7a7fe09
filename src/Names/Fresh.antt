-- ===== src/Names/Fresh.antt =====
-- The cache of demangled names is not seen in the answers.
use ida_pro_mcp.Prelude.{
  ℤ, Text, txt, teq, strip, ◌≡◌, refl, sym, true, Option, none, some, List, [], ◌∷◌, Bool-cases,
  inl, inr, if◌then◌else◌, ap,
}
use mathlib.Core.Path.{ap₂, subst}
use ida_pro_mcp.Errors.{Result, ok, raise, invalid_input}
use ida_pro_mcp.Format.{TextOrInt, text, int, parse_ea}
use ida_pro_mcp.Names.{
  Idb, Cache, invalidate, invalidate_all, invalidators, resolve_name_ea, find, current_key, build,
  has_key, get, or_missing, from_cache, or_demangled, or_by_name, look_again,
  lookup_function_ea_by_name, fast_path, resolve_function_target, checked, get_func_or_raise,
  Plugin, Event, asks, renamed, closed, notify, answers,
}

-- A cache for the open database holds the names of the database.
abbrev pub IsFresh : Idb → Cache → Type 0
IsFresh idb c = has_key (current_key idb) c.key ≡ true → c.mapping ≡ build idb

-- What the lookups mean, without a cache.
or_by_demangled : Idb → Text → Option ℤ → Result ℤ
or_by_demangled idb name (some ea) = ok ea
or_by_demangled idb name none = or_missing name (find name (build idb))

by_name : Idb → Text → Result ℤ
by_name idb name = or_by_demangled idb name (resolve_name_ea idb name)

or_name : Idb → Text → Option ℤ → Result ℤ
or_name idb t (some ea) = ok ea
or_name idb t none = by_name idb t

by_target : Idb → Text → Result ℤ
by_target idb target =
    if teq (strip target) []
    then raise (txt "Empty function target") invalid_input
    else or_name idb (strip target) (fast_path idb (strip target))

function_at : Idb → TextOrInt → Result ℤ
function_at idb (int ea) = checked idb (parse_ea (int ea))
function_at idb (text target) = checked idb (by_target idb target)

pub expected : List Event → Idb → List (Result ℤ)
expected [] idb = []
expected (asks target ∷ events) idb = function_at idb target ∷ expected events idb
expected (renamed next ∷ events) idb = expected events next
expected (closed next ∷ events) idb = expected events next

get-mapping : (idb : Idb) (c : Cache) → IsFresh idb c → (get idb c).mapping ≡ build idb
unfolding get
get-mapping idb c f = elim (Bool-cases (has_key (current_key idb) c.key)) [
  | inl e ↦ rw e (f e)
  | inr e ↦ rw e refl
]

get-IsFresh : (idb : Idb) (c : Cache) → IsFresh idb c → IsFresh idb (get idb c)
get-IsFresh idb c f = λ e. get-mapping idb c f

invalid-IsFresh : (idb : Idb) (c : Cache) → IsFresh idb (invalidate c)
unfolding invalidate has_key
invalid-IsFresh idb c = λ e. absurd cc

-- A lookup gives what it means, and leaves a fresh cache.
abbrev Agrees : Idb → Result ℤ → Result ℤ × Cache → Type 0
Agrees idb r p = (p.0 ≡ r) × IsFresh idb p.1

look_again-Agrees :
    (idb : Idb) (name : Text) (c : Cache)
    → Agrees idb (or_missing name (find name (build idb))) (look_again idb name c)
unfolding look_again
look_again-Agrees idb name c =
    let f = invalid-IsFresh idb c in
    (
      ap (λ m. or_missing name (find name m)) (get-mapping idb (invalidate c) f),
      get-IsFresh idb _ f,
    )

from_cache-Agrees :
    (idb : Idb) (name : Text) (c : Cache) (o : Option ℤ)
    → o ≡ find name (build idb)
    → IsFresh idb c
    → Agrees idb (or_missing name o) (from_cache idb name c o)
unfolding from_cache or_missing
from_cache-Agrees idb name c (some ea) e f = (refl, f)
from_cache-Agrees idb name c none e f =
    subst (λ o. Agrees idb (or_missing name o) (look_again idb name c)) (sym e)
      (look_again-Agrees idb name c)

or_demangled-Agrees :
    (idb : Idb) (name : Text) (c : Cache) (o : Option ℤ)
    → IsFresh idb c
    → Agrees idb (or_by_demangled idb name o) (or_demangled idb name c o)
unfolding or_by_demangled or_demangled
or_demangled-Agrees idb name c (some ea) f = (refl, f)
or_demangled-Agrees idb name c none f =
    let e = ap (find name) (get-mapping idb c f) in
    subst
      (λ o.
        Agrees idb (or_missing name o)
          (from_cache idb name (get idb c) (find name (get idb c).mapping)))
      e (from_cache-Agrees idb name (get idb c) _ e (get-IsFresh idb c f))

or_by_name-Agrees :
    (idb : Idb) (t : Text) (c : Cache) (o : Option ℤ)
    → IsFresh idb c
    → Agrees idb (or_name idb t o) (or_by_name idb t c o)
unfolding or_name or_by_name lookup_function_ea_by_name by_name
or_by_name-Agrees idb t c (some ea) f = (refl, f)
or_by_name-Agrees idb t c none f = or_demangled-Agrees idb t c (resolve_name_ea idb t) f

target-Agrees :
    (idb : Idb) (target : Text) (c : Cache)
    → IsFresh idb c
    → Agrees idb (by_target idb target) (resolve_function_target idb target c)
unfolding by_target resolve_function_target
target-Agrees idb target c f = elim (Bool-cases (teq (strip target) [])) [
  | inl e ↦ rw e (refl, f)
  | inr e ↦ rw e (or_by_name-Agrees idb (strip target) c (fast_path idb (strip target)) f)
]

function-Agrees :
    (idb : Idb) (target : TextOrInt) (c : Cache)
    → IsFresh idb c
    → Agrees idb (function_at idb target) (get_func_or_raise idb target c)
unfolding function_at get_func_or_raise
function-Agrees idb (int ea) c f = (refl, f)
function-Agrees idb (text target) c f =
    let (same, fresh) = target-Agrees idb target c f in (ap (checked idb) same, fresh)

hooks-IsFresh : (idb : Idb) (c : Cache) → IsFresh idb (invalidate_all invalidators c)
unfolding invalidate_all invalidators
hooks-IsFresh idb c = invalid-IsFresh idb c

notified :
    (idb : Idb) (p : Plugin) → p.hooked ≡ true → IsFresh (notify idb p).idb (notify idb p).cache
unfolding notify
notified idb p h = rw h (hooks-IsFresh idb p.cache)

-- When the listener is installed and the cache is fresh at the start, every tool that asks for a
-- function, whatever names change and databases open in between, is answered from the names that
-- the database has at that time, as if there were no cache.
pub answers_lem :
    (events : List Event) (p : Plugin)
    → p.hooked ≡ true
    → IsFresh p.idb p.cache
    → answers events p ≡ expected events p.idb
unfolding answers expected notify
answers_lem [] p h f = refl
answers_lem (asks target ∷ events) p h f =
    let (same, fresh) = function-Agrees p.idb target p.cache f in
    ap₂ (λ r rs. r ∷ rs) same (answers_lem events _ h fresh)
answers_lem (renamed idb ∷ events) p h f = answers_lem events (notify idb p) h (notified idb p h)
answers_lem (closed idb ∷ events) p h f = answers_lem events (notify idb p) h (notified idb p h)
