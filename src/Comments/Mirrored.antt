-- ===== src/Comments/Mirrored.antt =====
-- Where `set_comment` leaves the copy of a comment in the pseudocode.
use mathlib.Core.Path.{subst}
use ida_pro_mcp.Prelude.{
  ℤ, eq_ℤ, Text, true, false, some, List, [], ◌∷◌, ◌++◌, All, ◌≡◌, refl, sym, ap, ◌∙◌, ◌⊎◌, inl,
  inr, arith, Bool-cases,
}
use ida_pro_mcp.Errors.{IdaError, Result, ok, err}
use ida_pro_mcp.Format.{TextOrInt, parse_ea}
use ida_pro_mcp.Comments.{
  Sdk, itp_candidate_names, itp_values, or_no_itp, itp_candidates, decompile_checked,
  without_orphans, probe, probe_all, try_attach_at_ctree_ea, attach_at, attach_to_pseudocode,
  best_effort, mirror, set_at, set_comment,
}

module _ {S C : Type 0} (sdk : Sdk S C) where
  -- `del_orphan_cmts` leaves no orphan; and after a comment that was placed as an orphan among
  -- none, it leaves the function as it was before.
  unfoldable pub Cleans : Type 0
  Cleans = (c : C) (s : S) → sdk.has_orphan_cmts c (sdk.del_orphan_cmts c s) ≡ false

  unfoldable pub Undoes : Type 0
  Undoes =
      (c : C) (s : S) (anchor itp : ℤ) (comment : Text)
      → sdk.has_orphan_cmts c s ≡ false
      → sdk.has_orphan_cmts c (sdk.set_user_cmt c anchor itp comment s) ≡ true
      → sdk.del_orphan_cmts c (sdk.set_user_cmt c anchor itp comment s) ≡ s

  module _ (c : C) (anchor : ℤ) (comment : Text) where
    -- Placed there, the comment is an orphan.
    abbrev pub Orphaned : S → ℤ → Type 0
    Orphaned clean itp = sdk.has_orphan_cmts c (sdk.set_user_cmt c anchor itp comment clean) ≡ true

    -- The comment stands at the first place at which it is no orphan, and nowhere if there is none.
    abbrev pub Placed : List ℤ → S → S → Type 0
    Placed itps clean after =
        ((after ≡ clean) × All (Orphaned clean) itps)
        ⊎ ((before rest : List ℤ) × (itp : ℤ) × (before ++ itp ∷ rest ≡ itps)
            × All (Orphaned clean) before
            × (sdk.has_orphan_cmts c (sdk.set_user_cmt c anchor itp comment clean) ≡ false)
            × (after
                ≡ sdk.refresh_func_ctext c
                    (sdk.save_user_cmts c (sdk.set_user_cmt c anchor itp comment clean))))

    past :
        (itp : ℤ) (itps : List ℤ) (clean after : S)
        → Orphaned clean itp
        → Placed itps clean after
        → Placed (itp ∷ itps) clean after
    past itp itps clean after orphan (inl (e, all)) = inl (e, (orphan, all))
    past itp itps clean after orphan (inr (before, rest, at, split, all, fits, e)) =
        inr (itp ∷ before, rest, at, ap (λ xs. itp ∷ xs) split, (orphan, all), fits, e)

    probe_hit :
        (itp : ℤ) (itps : List ℤ) (s : S)
        → sdk.has_orphan_cmts c (sdk.set_user_cmt c anchor itp comment s) ≡ false
        → (probe sdk c anchor comment (itp ∷ itps) s).1
          ≡ sdk.refresh_func_ctext c
              (sdk.save_user_cmts c (sdk.set_user_cmt c anchor itp comment s))
    unfolding probe
    probe_hit itp itps s h = rw (probe, h) refl

    probe_miss :
        (itp : ℤ) (itps : List ℤ) (s : S)
        → Orphaned s itp
        → probe sdk c anchor comment (itp ∷ itps) s
          ≡ probe sdk c anchor comment itps
              (sdk.del_orphan_cmts c (sdk.set_user_cmt c anchor itp comment s))
    unfolding probe
    probe_miss itp itps s h = rw (probe, h) refl

    probe-Placed :
        (undoes : Undoes) (itps : List ℤ) (s : S)
        → sdk.has_orphan_cmts c s ≡ false
        → Placed itps s (probe sdk c anchor comment itps s).1
    unfolding probe Undoes
    probe-Placed undoes [] s h = inl (refl, tt)
    probe-Placed undoes (itp ∷ itps) s h =
        elim (Bool-cases (sdk.has_orphan_cmts c (sdk.set_user_cmt c anchor itp comment s))) [
          | inl orphan ↦
              let back = undoes c s anchor itp comment h orphan in
              past itp itps s _ orphan (
                subst (λ run. Placed itps s run.1)
                  (sym (probe_miss itp itps s orphan ∙ ap (probe sdk c anchor comment itps) back))
                  (probe-Placed undoes itps s h))
          | inr fits ↦ inr ([], itps, itp, refl, tt, fits, probe_hit itp itps s fits)
        ]

  clean_lem :
      (cleans : Cleans) (c : C) (s : S) → sdk.has_orphan_cmts c (without_orphans sdk c s) ≡ false
  unfolding Cleans without_orphans
  clean_lem cleans c s = grind arith

  -- Without a place to try, an error; else success, whether or not the copy has found a place.
  abbrev pub Mirrored : C → ℤ → Text → List ℤ → S → Result (Unit {0}) × S → Type 0
  Mirrored c anchor comment itps clean run =
      ((itps ≡ []) × (e : IdaError) × (run ≡ (err e, clean)))
      ⊎ ((run.0 ≡ ok tt) × Placed c anchor comment itps clean run.1)

  probed :
      (undoes : Undoes) (c : C) (anchor : ℤ) (comment : Text) (itps : List ℤ) (clean : S)
      → sdk.has_orphan_cmts c clean ≡ false
      → Mirrored c anchor comment itps clean
          (best_effort sdk (probe_all sdk c anchor comment (or_no_itp itps) clean))
  unfolding best_effort probe_all or_no_itp
  probed undoes c anchor comment [] clean h = inl (refl, _, refl)
  probed undoes c anchor comment (itp ∷ itps) clean h =
      inr (refl, probe-Placed c anchor comment undoes (itp ∷ itps) clean h)

  set_comment_run :
      (address : TextOrInt) (comment : Text) (s written : S) (c : C) (ea anchor : ℤ)
      → parse_ea address ≡ ok ea
      → sdk.set_cmt s ea comment ≡ some written
      → decompile_checked sdk written ea ≡ ok c
      → eq_ℤ ea (sdk.entry_ea c) ≡ false
      → sdk.tree_ea c ea ≡ some anchor
      → set_comment sdk address comment s
        ≡ best_effort sdk (
            probe_all sdk c anchor comment
              (itp_candidates sdk.itp_value)
              (without_orphans sdk c written))
  unfolding set_comment set_at mirror attach_to_pseudocode attach_at try_attach_at_ctree_ea
  set_comment_run address comment s written c ea anchor parsed set found inner node =
      rw (set_comment, parsed, set, found, inner, node) refl

  -- `set_comment` inside a function, at an address that has a node in its pseudocode, when IDA
  -- has set the comment in the disassembly and its orphans behave as they should. Orphans of
  -- before are gone. If the SDK has a kind of place to try, the call succeeds, and the copy stands
  -- at the first kind at which it is no orphan, and is saved; where there is none, the function
  -- has no copy. If the SDK has no such kind, the call fails all the same.
  pub set_comment_lem :
      (cleans : Cleans) (undoes : Undoes) (address : TextOrInt) (comment : Text) (s written : S)
      (c : C) (ea anchor : ℤ)
      → parse_ea address ≡ ok ea
      → sdk.set_cmt s ea comment ≡ some written
      → decompile_checked sdk written ea ≡ ok c
      → eq_ℤ ea (sdk.entry_ea c) ≡ false
      → sdk.tree_ea c ea ≡ some anchor
      → (sdk.has_orphan_cmts c (without_orphans sdk c written) ≡ false)
        × Mirrored c anchor comment
            (itp_values sdk.itp_value itp_candidate_names)
            (without_orphans sdk c written)
            (set_comment sdk address comment s)
  unfolding itp_candidates
  set_comment_lem cleans undoes address comment s written c ea anchor parsed set found inner node =
      let clean = clean_lem cleans c written in
      let itps = itp_values sdk.itp_value itp_candidate_names in
      (
        clean,
        subst (Mirrored c anchor comment itps (without_orphans sdk c written))
            (sym
              (set_comment_run address comment s written c ea anchor parsed set found inner node))
            (probed undoes c anchor comment itps (without_orphans sdk c written) clean),
      )
