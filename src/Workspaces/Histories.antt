-- ===== src/Workspaces/Histories.antt =====
-- The histories of a registry, packages/workspaces/src/index.ts.
use vibe_go.Base.{
  length, ltb, ◌≡◌, refl, Bool, Option, none, some, List, [], ◌∷◌, arith, inl, inr, Bool-cases,
  String, if◌then◌else◌, ap, sym, ◌∙◌,
}
use vibe_go.Base.Keyed.{put, has, Distinct, Distinct-put}
use vibe_go.Workspaces.{
  has_persistence, opened, persistence_failed, default_entry, restore_persisted_entries,
  restore_next, open_at, restore_all, thrown, normalize_directory, Result, remove, done, new,
  entry_key, create_custom_entry, add, WorkspaceEntry, Host, Registry, RegistrationInput,
}
use vibe_go.Workspaces.Keeping.{
  IsOrdered, IsRegistry, Result-cases, IsRegistry-transport, put-IsOrdered, remove-IsRegistry,
  create_custom_entry-IsCustom, with_entry-IsRegistry,
}

module _ (h : Host) where
  -- What callers can do; whether a save fails is decided outside.
  pub data Step (r : Registry) : Registry → Type 0 where
    adds : (input : RegistrationInput) (fails : Bool) → Step r (add h input fails r).0
    removes : (id : String) (fails : Bool) → Step r (remove id fails r).0

  pub data Reach : Registry → Type 0 where
    start :
        (root : String) (load : Option (List RegistrationInput)) {r : Registry}
        → new h root load ≡ done r
        → Reach r
    next : {r t : Registry} → Reach r → Step r t → Reach t

  restore_all-IsOrdered :
      (rs : List RegistrationInput) (es es' : List WorkspaceEntry)
      → restore_all h rs es ≡ done es'
      → IsOrdered es × Distinct entry_key es
      → IsOrdered es' × Distinct entry_key es'
  unfolding restore_all
  restore_all-IsOrdered [] es es' same k = IsRegistry-transport es es' (ground (arith, same)) k
  restore_all-IsOrdered (x ∷ rs) es es' same k = elim (Result-cases (create_custom_entry h x)) [
    | inl (code, bad) ↦ absurd (ground (arith, sym (ap (restore_next h rs es) bad) ∙ same))
    | inr (e, good) ↦
        let step = sym (ap (restore_next h rs es) good) ∙ same in
        elim (Bool-cases (has entry_key e.id es)) [
          | inl known ↦ absurd (ground (arith, step, known))
          | inr new_id ↦
              restore_all-IsOrdered rs (put entry_key e es) es'
                (sym (
                    ap
                      (λ b.
                        if b
                        then thrown persistence_failed
                        else restore_all h rs (put entry_key e es))
                      new_id)
                  ∙ step)
                (
                  put-IsOrdered e es (create_custom_entry-IsCustom h x e good) k.0,
                  Distinct-put entry_key e es k.1,
                )
        ]
  ]

  restore_persisted_entries-IsOrdered :
      (load : Option (List RegistrationInput)) (root : String) (es : List WorkspaceEntry)
      → restore_persisted_entries h load (default_entry h root ∷ []) ≡ done es
      → IsOrdered es × Distinct entry_key es
  unfolding restore_persisted_entries has
  restore_persisted_entries-IsOrdered none root es same =
      IsRegistry-transport (default_entry h root ∷ []) es (ground (arith, same))
        (((refl, refl), tt), (refl, tt))
  restore_persisted_entries-IsOrdered (some rs) root es same =
      elim (Bool-cases (ltb 128 (length rs))) [
        | inl many ↦ absurd (ground (arith, same, many))
        | inr few ↦
            restore_all-IsOrdered rs (default_entry h root ∷ []) es
              (sym (
                  ap
                    (λ b.
                      if b
                      then thrown persistence_failed
                      else restore_all h rs (default_entry h root ∷ []))
                    few)
                ∙ same)
              (((refl, refl), tt), (refl, tt))
      ]

  opened-IsRegistry :
      (load : Option (List RegistrationInput)) (path : String) (r : Registry)
      (res : Result (List WorkspaceEntry))
      → restore_persisted_entries h load (default_entry h path ∷ []) ≡ res
      → opened h (has_persistence h load) res ≡ done r
      → IsRegistry r
  opened-IsRegistry load path r (done es) from same =
      IsRegistry-transport es r.entries (ground (arith, same))
        (restore_persisted_entries-IsOrdered load path es from)
  opened-IsRegistry load path r (thrown code) from same = absurd (ground (arith, same))

  new-IsRegistry :
      (root : String) (load : Option (List RegistrationInput)) (r : Registry)
      → new h root load ≡ done r
      → IsRegistry r
  unfolding new
  new-IsRegistry root load r e = elim (Result-cases (normalize_directory h root)) [
    | inl (code, bad) ↦ absurd (ground (arith, sym (ap (open_at h load) bad) ∙ e))
    | inr (path, good) ↦ opened-IsRegistry load path r _ refl (sym (ap (open_at h load) good) ∙ e)
  ]

  -- In every history of adding and removing, whether saves fail or not, the default workspace comes
  -- first and is the only one so marked, every other one has a valid id, and no id occurs twice.
  pub Reach-IsRegistry : {r : Registry} → Reach r → IsRegistry r
  unfolding add
  Reach-IsRegistry (start root load {r} e) = new-IsRegistry root load r e
  Reach-IsRegistry (next {r} reach (adds input fails)) =
      with_entry-IsRegistry h fails r (create_custom_entry h input)
        (λ e same. create_custom_entry-IsCustom h input e same) (Reach-IsRegistry reach)
  Reach-IsRegistry (next {r} reach (removes id fails)) =
      remove-IsRegistry id fails r (Reach-IsRegistry reach)
