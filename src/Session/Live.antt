-- ===== src/Session/Live.antt =====
-- What `list_all` and `get` of plugin/session.py find.
use ida_pro_mcp.Prelude.{
  ℕ, Text, teq, teq_refl, Bool, true, false, not, Option, none, some, List, [], ◌∷◌, All, ◌≡◌, refl,
  inl, inr, Bool-cases, if◌then◌else◌,
}
use ida_pro_mcp.Value.{Value}
use ida_pro_mcp.Session.{
  SessionInfo, to_dict, System, Disk, read, unlink, store, parse_file, payload, is_pid_alive,
  sidecar_name, load, replace, write, remove, get, insert, sort_from, earlier,
}
use ida_pro_mcp.Session.Directory.{read-store, read-unlink, from_dict-to_dict}

insert-All :
    (P : SessionInfo → Type 0) (x : SessionInfo) (xs : List SessionInfo)
    → P x
    → All P xs
    → All P (insert x xs)
unfolding insert
insert-All P x [] p h = (p, tt)
insert-All P x (y ∷ ys) p (q, h) = elim (Bool-cases (earlier x.created_at y.created_at)) [
  | inl e ↦ rw e (p, (q, h))
  | inr e ↦ rw e (q, insert-All P x ys p h)
]

pub sort_from-All :
    (P : SessionInfo → Type 0) (acc xs : List SessionInfo)
    → All P acc
    → All P xs
    → All P (sort_from acc xs)
unfolding sort_from
sort_from-All P acc [] ha hx = ha
sort_from-All P acc (x ∷ xs) ha (p, hx) =
    sort_from-All P (insert x acc) xs (insert-All P x acc p ha) hx

module _ (sys : System) where
  abbrev pub IsAlive : SessionInfo → Type 0
  IsAlive info = is_pid_alive sys.kill info.pid ≡ true

  replace-store :
      (temp target : Text) (bytes : List ℕ) (disk : Disk)
      → replace sys temp target (store temp bytes disk)
        ≡ some (store target bytes (unlink temp (store temp bytes disk)))
  unfolding replace store
  replace-store temp target bytes disk = rw (replace, read-store, teq_refl) refl

  load-store :
      (info : SessionInfo) (target : Text) (disk : Disk)
      → sys.loads (payload sys info) ≡ some (Value.object (to_dict info))
      → load sys target (store target (payload sys info) disk) ≡ some info
  unfolding load parse_file
  load-store info target disk json =
      rw (load, read-store, teq_refl, parse_file, json) (from_dict-to_dict sys info)

  -- A session that is written, when the JSON that is written for it is read back: `get` finds it if
  -- its process runs, and removes its file if not. Any other file `f` but the temporary one is as
  -- it was.
  pub get-write :
      (temp f : Text) (info : SessionInfo) (disk : Disk)
      → sys.loads (payload sys info) ≡ some (Value.object (to_dict info))
      → teq temp f ≡ false
      → teq (sidecar_name info.session_id) f ≡ false
      → (after : Disk) × (write sys temp info disk ≡ some after)
        × (get sys info.session_id after ≡ (
            if is_pid_alive sys.kill info.pid
            then (some info, after)
            else (none, remove sys info.session_id after)))
        × (read f after ≡ read f disk)
  unfolding write get
  get-write temp f info disk json ne ne' =
      let target = sidecar_name info.session_id in
      let moved = unlink temp (store temp (payload sys info) (store temp [] disk)) in
      (
        store target (payload sys info) moved,
        replace-store temp target (payload sys info) (store temp [] disk),
        rw (get, load-store info target moved json)
            (get_result (store target (payload sys info) moved) (is_pid_alive sys.kill info.pid)),
        rw (read-store, ne', read-unlink, ne, read-store, ne, read-store, ne),
      )
    where
      get_result :
          (d : Disk) (b : Bool)
          → ◌≡◌ {A = Option SessionInfo × Disk}
              (if not b then (none, remove sys info.session_id d) else (some info, d))
              (if b then (some info, d) else (none, remove sys info.session_id d))
      get_result d true = refl
      get_result d false = refl
