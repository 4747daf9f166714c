-- ===== src/Workspaces/Keeping.antt =====
-- What the registry of packages/workspaces/src/index.ts keeps: in every history, and when a save fails.
use vibe_go.Base.{
  ◌⊎◌, subst, ◌≡◌, refl, Bool, true, false, Option, some, List, [], ◌∷◌, arith, inl, inr,
  Option-cases, Bool-cases, String, ◌=s◌, if◌then◌else◌, ap, sym, ◌∙◌, eq_iff, All,
}
use vibe_go.Base.Keyed.{
  find, put, delete, has, Distinct, All-put, All-delete, Distinct-put, Distinct-delete, delete-put,
  All-find,
}
use vibe_go.Workspaces.{
  ErrorCode, set_entries, without_entry, with_entry, remove_found, label_of, workspace_protected,
  validate_label, invalid_id, thrown, rooted, normalize_directory, labelled, with_id, persist,
  insert_entry, Result, validate_id, remove, is_workspace_id, done, entry_key, create_custom_entry,
  WorkspaceEntry, Host, Registry, RegistrationInput,
}

-- The default workspace comes first; every later one is not the default and passed its checks.
abbrev pub IsCustom : WorkspaceEntry → Type 0
IsCustom e = (is_workspace_id e.id ≡ true) × ((e.id =s "default") ≡ false) × (e.is_default ≡ false)

abbrev pub IsDefault : WorkspaceEntry → Type 0
IsDefault e = (e.id ≡ "default") × (e.is_default ≡ true)

abbrev pub IsOrdered : List WorkspaceEntry → Type 0
IsOrdered [] = ⊥
IsOrdered (e ∷ es) = IsDefault e × All IsCustom es

abbrev pub IsRegistry : Registry → Type 0
IsRegistry r = IsOrdered r.entries × Distinct entry_key r.entries

pub put-IsOrdered :
    (e : WorkspaceEntry) (es : List WorkspaceEntry)
    → IsCustom e
    → IsOrdered es
    → IsOrdered (put entry_key e es)
unfolding put
put-IsOrdered e [] c h = absurd h
put-IsOrdered e (x ∷ es) c (d, cs) = elim (Bool-cases (x.id =s e.id)) [
  | inl same ↦ absurd (ground (arith, same, c, d, eq_iff x.id e.id, eq_iff e.id "default"))
  | inr apart ↦ rw apart (d, All-put entry_key IsCustom e es cs c)
]

delete-IsOrdered :
    (id : String) (es : List WorkspaceEntry)
    → (id =s "default") ≡ false
    → IsOrdered es
    → IsOrdered (delete entry_key id es)
unfolding delete
delete-IsOrdered id [] n h = absurd h
delete-IsOrdered id (x ∷ es) n (d, cs) = elim (Bool-cases (x.id =s id)) [
  | inl same ↦ absurd (ground (arith, same, d, n, eq_iff x.id id, eq_iff id "default"))
  | inr apart ↦ rw apart (d, All-delete entry_key IsCustom id es cs)
]

persist-entries : (fails : Bool) (r : Registry) → (persist fails r).0.entries ≡ r.entries
unfolding persist
persist-entries fails r = ground arith

pub Result-cases {ℓ} :
    {A : Type ℓ} (res : Result A)
    → ((code : ErrorCode) × (res ≡ thrown code)) ⊎ ((a : A) × (res ≡ done a))
Result-cases (thrown code) = inl (code, refl)
Result-cases (done a) = inr (a, refl)

pub IsRegistry-transport :
    (es es' : List WorkspaceEntry)
    → es' ≡ es
    → IsOrdered es × Distinct entry_key es
    → IsOrdered es' × Distinct entry_key es'
IsRegistry-transport es es' e h = subst (λ x. IsOrdered x × Distinct entry_key x) (sym e) h

find-IsCustom :
    (id : String) (es : List WorkspaceEntry) (x : WorkspaceEntry)
    → (id =s "default") ≡ false
    → IsOrdered es
    → find entry_key id es ≡ some x
    → IsCustom x
unfolding find
find-IsCustom id [] x n h there = absurd h
find-IsCustom id (y ∷ es) x n (d, cs) there = elim (Bool-cases (y.id =s id)) [
  | inl same ↦ absurd (ground (arith, same, d, n, eq_iff y.id id, eq_iff id "default"))
  | inr apart ↦
      All-find entry_key IsCustom id es x cs
        (sym (ap (λ b. if b then some y else find entry_key id es) apart) ∙ there)
]

without_entry-entries :
    (x : WorkspaceEntry) (id : String) (fails : Bool) (r : Registry)
    → ((without_entry x id fails r).0.entries ≡ delete entry_key id r.entries)
      ⊎ ((without_entry x id fails r).0.entries ≡ put entry_key x (delete entry_key id r.entries))
without_entry-entries x id fails r =
    let t = set_entries (delete entry_key id r.entries) r in
    elim (Bool-cases (persist fails t).1) [
      | inl kept ↦ inl (rw kept (persist-entries fails t))
      | inr failed ↦ inr (rw failed (ap (put entry_key x) (persist-entries fails t)))
    ]

without_entry-IsRegistry :
    (x : WorkspaceEntry) (id : String) (fails : Bool) (r : Registry)
    → (id =s "default") ≡ false
    → IsCustom x
    → IsRegistry r
    → IsRegistry (without_entry x id fails r).0
without_entry-IsRegistry x id fails r n c (o, apart) =
    let less = delete-IsOrdered id r.entries n o in
    let distinct = Distinct-delete entry_key id r.entries apart in
    elim (without_entry-entries x id fails r) [
      | inl kept ↦ IsRegistry-transport _ _ kept (less, distinct)
      | inr failed ↦
          IsRegistry-transport _ _ failed
            (put-IsOrdered x _ c less, Distinct-put entry_key x _ distinct)
    ]

remove_found-IsRegistry :
    (id : String) (fails : Bool) (r : Registry)
    → (id =s "default") ≡ false
    → IsRegistry r
    → IsRegistry (remove_found id fails r (find entry_key id r.entries)).0
remove_found-IsRegistry id fails r n k = elim (Option-cases (find entry_key id r.entries)) [
  | inl missing ↦ rw missing k
  | inr (x, there) ↦
      subst (λ o. IsRegistry (remove_found id fails r o).0) (sym there)
        (without_entry-IsRegistry x id fails r n (find-IsCustom id r.entries x n k.0 there) k)
]

pub remove-IsRegistry :
    (id : String) (fails : Bool) (r : Registry) → IsRegistry r → IsRegistry (remove id fails r).0
unfolding remove
remove-IsRegistry id fails r k = elim (Bool-cases (id =s "default")) [
  | inl protected ↦ rw (protected, remove) k
  | inr free ↦ rw (free, remove) (remove_found-IsRegistry id fails r free k)
]

labelled-IsCustom :
    (h : Host) (id root : String) (res : Result String) (e : WorkspaceEntry)
    → labelled h id root res ≡ done e
    → (e.id ≡ id) × (e.is_default ≡ false)
labelled-IsCustom h id root (done label) e same = (ground (arith, same), ground (arith, same))
labelled-IsCustom h id root (thrown code) e same = absurd (ground (arith, same))

rooted-IsCustom :
    (h : Host) (id : String) (label : Option String) (res : Result String) (e : WorkspaceEntry)
    → rooted h id label res ≡ done e
    → (e.id ≡ id) × (e.is_default ≡ false)
rooted-IsCustom h id label (done root) e same =
    labelled-IsCustom h id root (validate_label (label_of h root label)) e same
rooted-IsCustom h id label (thrown code) e same = absurd (ground (arith, same))

with_id-IsCustom :
    (h : Host) (input : RegistrationInput) (id : String) (e : WorkspaceEntry)
    → is_workspace_id id ≡ true
    → with_id h input (done id) ≡ done e
    → IsCustom e
with_id-IsCustom h input id e fine same = elim (Bool-cases (id =s "default")) [
  | inl protected ↦ absurd (ground (arith, same, protected))
  | inr free ↦
      let (name, plain) = rooted-IsCustom h id input.label (normalize_directory h input.path) e (
        sym (
          ap
            (λ b.
              if b
              then thrown workspace_protected
              else rooted h id input.label (normalize_directory h input.path))
            free)
        ∙ same) in
      (
        subst (λ x. is_workspace_id x ≡ true) (sym name) fine,
        subst (λ x. (x =s "default") ≡ false) (sym name) free,
        plain,
      )
]

pub create_custom_entry-IsCustom :
    (h : Host) (input : RegistrationInput) (e : WorkspaceEntry)
    → create_custom_entry h input ≡ done e
    → IsCustom e
unfolding create_custom_entry validate_id
create_custom_entry-IsCustom h input e same = elim (Bool-cases (is_workspace_id input.id)) [
  | inl fine ↦
      with_id-IsCustom h input input.id e fine (
        sym (ap (λ b. with_id h input (if b then done input.id else thrown invalid_id)) fine)
        ∙ same)
  | inr bad ↦ absurd (
      ground (
        arith,
        sym (ap (λ b. with_id h input (if b then done input.id else thrown invalid_id)) bad) ∙ same,
      ))
]

insert_entry-entries :
    (h : Host) (e : WorkspaceEntry) (fails : Bool) (r : Registry)
    → ((insert_entry h e fails r).0.entries ≡ put entry_key e r.entries)
      ⊎ ((insert_entry h e fails r).0.entries ≡ delete entry_key e.id (put entry_key e r.entries))
insert_entry-entries h e fails r =
    let t = set_entries (put entry_key e r.entries) r in
    elim (Bool-cases (persist fails t).1) [
      | inl kept ↦ inl (rw kept (persist-entries fails t))
      | inr failed ↦ inr (rw failed (ap (delete entry_key e.id) (persist-entries fails t)))
    ]

insert_entry-IsRegistry :
    (h : Host) (e : WorkspaceEntry) (fails : Bool) (r : Registry)
    → IsCustom e
    → has entry_key e.id r.entries ≡ false
    → IsRegistry r
    → IsRegistry (insert_entry h e fails r).0
insert_entry-IsRegistry h e fails r c new_id (o, apart) = elim (insert_entry-entries h e fails r) [
  | inl kept ↦
      IsRegistry-transport _ _ kept
        (put-IsOrdered e r.entries c o, Distinct-put entry_key e r.entries apart)
  | inr failed ↦
      IsRegistry-transport _ _ (failed ∙ delete-put entry_key e r.entries new_id) (o, apart)
]

pub with_entry-IsRegistry :
    (h : Host) (fails : Bool) (r : Registry) (res : Result WorkspaceEntry)
    → ((e : WorkspaceEntry) → res ≡ done e → IsCustom e)
    → IsRegistry r
    → IsRegistry (with_entry h fails r res).0
with_entry-IsRegistry h fails r (thrown code) custom k = k
with_entry-IsRegistry h fails r (done e) custom k =
    elim (Bool-cases (has entry_key e.id r.entries)) [
      | inl known ↦ rw known k
      | inr new_id ↦ rw new_id (insert_entry-IsRegistry h e fails r (custom e refl) new_id k)
    ]
