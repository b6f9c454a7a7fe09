-- ===== src/SessionId/Safe.antt =====
-- The characters of a session id of plugin/session.py.
use ida_pro_mcp.Prelude.{
  ℕ, zero, suc, ◌<◌, ◌+◌, Text, txt, true, [], ◌∷◌, ◌++◌, take, ◌==◌, All, All-append, length,
  length-append, ◌≡◌, refl, inl, inr, arith, Bool-cases, if◌then◌else◌,
}
use ida_pro_mcp.SessionId.{
  is_allowed, in_run, sub_dash, lstrip_dash, rstrip_dash, or_default, slug, basename,
  derive_session_id,
}

abbrev pub IsSafe : Text → Type 0
IsSafe = All (λ c. is_allowed c ≡ true)

sub_dash-IsSafe : (text : Text) → IsSafe (sub_dash text)
unfolding sub_dash
sub_dash-IsSafe [] = tt
sub_dash-IsSafe (c ∷ text) = elim (Bool-cases (is_allowed c)) [
  | inl e ↦ rw (e) (e, sub_dash-IsSafe text)
  | inr e ↦ elim (Bool-cases (in_run text)) [
    | inl r ↦ rw (e, r) (sub_dash-IsSafe text)
    | inr r ↦ rw (e, r) (unfold is_allowed in refl, sub_dash-IsSafe text)
  ]
]

lstrip_dash-IsSafe : (text : Text) → IsSafe text → IsSafe (lstrip_dash text)
unfolding lstrip_dash
lstrip_dash-IsSafe [] h = tt
lstrip_dash-IsSafe (c ∷ text) (hc, h) = elim (Bool-cases (c == b'-')) [
  | inl e ↦ rw e (lstrip_dash-IsSafe text h)
  | inr e ↦ rw e (hc, h)
]

rstrip_dash-IsSafe : (text : Text) → IsSafe text → IsSafe (rstrip_dash text)
unfolding rstrip_dash
rstrip_dash-IsSafe [] h = tt
rstrip_dash-IsSafe (c ∷ text) (hc, h) = last (rstrip_dash text) (rstrip_dash-IsSafe text h)
  where
    last :
        (rest : Text)
        → IsSafe rest
        → IsSafe (elim rest [ [] ↦ if c == b'-' then [] else c ∷ [] | d ∷ more ↦ c ∷ d ∷ more ])
    last [] ih = elim (Bool-cases (c == b'-')) [ inl e ↦ rw e tt | inr e ↦ rw e (hc, tt) ]
    last (d ∷ more) ih = (hc, ih)

or_default-IsSafe : (text : Text) → IsSafe text → IsSafe (or_default text (txt "ida"))
unfolding or_default
or_default-IsSafe [] h = unfold txt is_allowed in (refl, (refl, (refl, tt)))
or_default-IsSafe (c ∷ text) h = h

take-IsSafe : (n : ℕ) (text : Text) → IsSafe text → IsSafe (take n text)
take-IsSafe zero text h = tt
take-IsSafe (suc n) [] h = tt
take-IsSafe (suc n) (c ∷ text) (hc, h) = (hc, take-IsSafe n text h)

slug-IsSafe : (text : Text) → IsSafe (slug text)
unfolding slug
slug-IsSafe text = or_default-IsSafe (lstrip_dash (rstrip_dash (sub_dash text))) (
    lstrip_dash-IsSafe (rstrip_dash (sub_dash text))
      (rstrip_dash-IsSafe (sub_dash text) (sub_dash-IsSafe text)))

or_default-cons : (text : Text) → 0 < length (or_default text (txt "ida"))
unfolding or_default txt
or_default-cons [] = omega arith
or_default-cons (c ∷ text) = omega arith

-- Whatever the path, its session id consists of letters, digits, dots, underscores and dashes, so
-- that it names a file in the directory of sessions and none elsewhere, and is longer than the
-- dash and the digest, when a digest has only such characters.
pub derive_session_id-IsSafe :
    (sha1 : Text → Text) (path : Text)
    → ((text : Text) → IsSafe (sha1 text))
    → IsSafe (derive_session_id sha1 path)
      × (length (take 8 (sha1 path)) + 1 < length (derive_session_id sha1 path))
unfolding derive_session_id slug or_default
derive_session_id-IsSafe sha1 path hex =
    let s = slug (or_default (basename path) (txt "ida")) in
    let tail = take 8 (sha1 path) in
    (
      All-append _ s (txt "-" ++ tail) (slug-IsSafe (or_default (basename path) (txt "ida"))) (
          All-append _ (txt "-") tail (unfold txt is_allowed in (refl, tt))
            (take-IsSafe 8 (sha1 path) (hex path))),
      longer s tail (
          or_default-cons
            (lstrip_dash (rstrip_dash (sub_dash (or_default (basename path) (txt "ida")))))),
    )
  where
    longer : (s tail : Text) → 0 < length s → length tail + 1 < length (s ++ (txt "-" ++ tail))
    longer s tail h = unfold txt in omega (arith, length-append s (b'-' ∷ tail))
