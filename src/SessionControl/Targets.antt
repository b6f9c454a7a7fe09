-- ===== src/SessionControl/Targets.antt =====
-- The list that `resolve_targets` of session_control.py makes.
use ida_pro_mcp.Prelude.{
  Text, teq, teq_refl, teq→eq, mem_text, true, false, not, List, [], ◌∷◌, ◌++◌, map, keep, ◌≡◌,
  refl, sym, ap, ◌∙◌, inl, inr, arith, Bool-cases, if◌then◌else◌,
}
use ida_pro_mcp.SessionId.{session_id_for_path}
use ida_pro_mcp.SessionControl.{collect_targets, resolve_targets}

-- Each element at its first place.
unfoldable pub first_seen : List Text → List Text
first_seen [] = []
first_seen (id ∷ ids) = id ∷ keep (λ j. not (teq id j)) (first_seen ids)

abbrev pub IsUnique : List Text → Type 0
IsUnique [] = Unit
IsUnique (id ∷ ids) = (mem_text id ids ≡ false) × IsUnique ids

mem-keep_other :
    (id j : Text) (ids : List Text)
    → mem_text j (keep (λ k. not (teq id k)) ids) ≡ (if teq id j then false else mem_text j ids)
unfolding mem_text
mem-keep_other id j [] = ground arith
mem-keep_other id j (k ∷ ids) =
    ground
      (arith, mem-keep_other id j ids, teq→eq id k, teq→eq k j, teq→eq j k, teq_refl j, teq_refl k)

IsUnique-keep :
    (id : Text) (ids : List Text) → IsUnique ids → IsUnique (keep (λ k. not (teq id k)) ids)
IsUnique-keep id [] h = tt
IsUnique-keep id (k ∷ ids) (fresh, h) = elim (Bool-cases (teq id k)) [
  | inl e ↦ rw e (IsUnique-keep id ids h)
  | inr e ↦ rw (e) (mem-keep_other id k ids ∙ rw (e, fresh) refl, IsUnique-keep id ids h)
]

first_seen-IsUnique : (ids : List Text) → IsUnique (first_seen ids)
unfolding first_seen
first_seen-IsUnique [] = tt
first_seen-IsUnique (id ∷ ids) = (
  mem-keep_other id id (first_seen ids) ∙ rw (teq_refl) refl,
  IsUnique-keep id (first_seen ids) (first_seen-IsUnique ids),
)

mem-first_seen : (j : Text) (ids : List Text) → mem_text j (first_seen ids) ≡ mem_text j ids
unfolding first_seen mem_text
mem-first_seen j [] = refl
mem-first_seen j (id ∷ ids) = ground (
  arith,
  mem-first_seen j ids,
  mem-keep_other id j (first_seen ids),
  teq→eq id j,
  teq→eq j id,
  teq_refl j,
)

-- The test of the loop, as it is when one more has been seen.
keep-keep :
    (id : Text) (seen ids : List Text)
    → keep (λ j. not (mem_text j seen)) (keep (λ j. not (teq id j)) ids)
      ≡ keep (λ j. not (mem_text j (id ∷ seen))) ids
unfolding mem_text
keep-keep id seen [] = refl
keep-keep id seen (k ∷ ids) =
    ground (arith, keep-keep id seen ids, teq→eq id k, teq→eq k id, teq_refl k)

keep-absorb :
    (id : Text) (seen ids : List Text)
    → mem_text id seen ≡ true
    → keep (λ j. not (mem_text j seen)) (keep (λ j. not (teq id j)) ids)
      ≡ keep (λ j. not (mem_text j seen)) ids
keep-absorb id seen [] h = refl
keep-absorb id seen (k ∷ ids) h = ground (arith, keep-absorb id seen ids, teq→eq id k)

keep-all : (ids : List Text) → keep (λ j. not (mem_text j [])) ids ≡ ids
unfolding mem_text
keep-all [] = refl
keep-all (id ∷ ids) = ap (λ l. id ∷ l) (keep-all ids)

append_nil : (xs : List Text) → xs ++ [] ≡ xs
append_nil [] = refl
append_nil (x ∷ xs) = ap (λ l. x ∷ l) (append_nil xs)

append_assoc : (xs ys zs : List Text) → (xs ++ ys) ++ zs ≡ xs ++ (ys ++ zs)
append_assoc [] ys zs = refl
append_assoc (x ∷ xs) ys zs = ap (λ l. x ∷ l) (append_assoc xs ys zs)

collect_targets_lem :
    (ids seen ordered : List Text)
    → collect_targets ids seen ordered
      ≡ ordered ++ keep (λ j. not (mem_text j seen)) (first_seen ids)
unfolding collect_targets first_seen
collect_targets_lem [] seen ordered = sym (append_nil ordered)
collect_targets_lem (id ∷ ids) seen ordered = elim (Bool-cases (mem_text id seen)) [
  | inl e ↦
      rw (collect_targets, e)
        (collect_targets_lem ids seen ordered
          ∙ ap (λ l. ordered ++ l) (sym (keep-absorb id seen (first_seen ids) e)))
  | inr e ↦
      rw (collect_targets, e)
        (collect_targets_lem ids (id ∷ seen) (ordered ++ (id ∷ []))
          ∙ append_assoc ordered (id ∷ [])
              (keep (λ j. not (mem_text j (id ∷ seen))) (first_seen ids))
          ∙ ap (λ l. ordered ++ (id ∷ l)) (sym (keep-keep id seen (first_seen ids))))
]

-- The targets are the ids given and those of the paths given, each once, in the order of first
-- mention.
pub resolve_targets_lem :
    (sha1 normalize : Text → Text) (session_ids paths : List Text)
    → (resolve_targets sha1 normalize session_ids paths
        ≡ first_seen (session_ids ++ map (session_id_for_path sha1 normalize) paths))
      × IsUnique (resolve_targets sha1 normalize session_ids paths)
      × ((j : Text)
          → mem_text j (resolve_targets sha1 normalize session_ids paths)
            ≡ mem_text j (session_ids ++ map (session_id_for_path sha1 normalize) paths))
unfolding resolve_targets
resolve_targets_lem sha1 normalize session_ids paths =
    let all_ids = session_ids ++ map (session_id_for_path sha1 normalize) paths in
    let e : collect_targets all_ids [] [] ≡ first_seen all_ids =
      collect_targets_lem all_ids [] [] ∙ keep-all (first_seen all_ids) in
    (e, rw e (first_seen-IsUnique all_ids), λ j. rw e (mem-first_seen j all_ids))
