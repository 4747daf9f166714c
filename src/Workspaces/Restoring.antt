-- ===== src/Workspaces/Restoring.antt =====
-- A save that fails, and a registry that is opened again, packages/workspaces/src/index.ts.
use vibe_go.Base.{
  All-zip, ◌≤◌, subst, suc, =s→eq, ◌≡◌, refl, Bool, true, false, Option, none, some, List, [], ◌∷◌,
  arith, inl, inr, Option-cases, Bool-cases, String, ◌=s◌, if◌then◌else◌, ap, sym, ◌∙◌, eq_iff, All,
  ◌++◌, ltb, length, map,
}
use vibe_go.Base.Keyed.{
  Distinct, find, put, delete, has, find-put, find-delete, key-find, delete-put, put-append,
  has-append,
}
use vibe_go.Base.Text.{trim, units, codes, some_in, is_line_end}
use vibe_go.Workspaces.Keeping.{IsCustom, IsRegistry}
use vibe_go.Workspaces.{
  validate_id, validate_label, open_at, snapshot, restore_next, opened, default_entry,
  normalize_directory, restore_persisted_entries, to_registration, restore_all, remove_found, new,
  create_custom_entry, set_entries, persistence_failed, thrown, remove, insert_entry, with_entry,
  resolve_root, entry_key, done, persist, add, WorkspaceEntry, Result, Host, Registry,
  RegistrationInput,
}

abbrev pub is_done {ℓ} : {A : Type ℓ} → Result A → Bool
is_done (done a) = true
is_done (thrown code) = false

persist_fails : (r : Registry) → r.persists ≡ true → persist true r ≡ (r, false)
unfolding persist
persist_fails r e = rw (e, persist) refl

insert_entry_fails :
    (h : Host) (e : WorkspaceEntry) (r : Registry)
    → r.persists ≡ true
    → has entry_key e.id r.entries ≡ false
    → insert_entry h e true r ≡ (r, thrown persistence_failed)
insert_entry_fails h e r p new_id =
    let t = set_entries (put entry_key e r.entries) r in
    rw (persist_fails t p) (
      ap (λ es. (set_entries es r, thrown persistence_failed))
        (delete-put entry_key e r.entries new_id))

with_entry_fails :
    (h : Host) (r : Registry) (res : Result WorkspaceEntry)
    → r.persists ≡ true
    → ((with_entry h true r res).0 ≡ r) × (is_done (with_entry h true r res).1 ≡ false)
with_entry_fails h r (thrown code) p = (refl, refl)
with_entry_fails h r (done e) p = elim (Bool-cases (has entry_key e.id r.entries)) [
  | inl known ↦ rw known (refl, refl)
  | inr new_id ↦
      let all = insert_entry_fails h e r p new_id in
      rw new_id (ap (λ x. x.0) all, ap (λ x. is_done x.1) all)
]

add_fails :
    (h : Host) (input : RegistrationInput) (r : Registry)
    → r.persists ≡ true
    → ((add h input true r).0 ≡ r) × (is_done (add h input true r).1 ≡ false)
unfolding add
add_fails h input r p = with_entry_fails h r (create_custom_entry h input) p

abbrev root_of : Option WorkspaceEntry → Option String
root_of o = elim o [ none ↦ none | some e ↦ some e.root ]

put_back :
    (id asked : String) (es : List WorkspaceEntry) (x : WorkspaceEntry)
    → find entry_key id es ≡ some x
    → find entry_key asked (put entry_key x (delete entry_key id es)) ≡ find entry_key asked es
put_back id asked es x there =
    let own = key-find entry_key id es x there in
    elim (Bool-cases (id =s asked)) [
      | inl same ↦ ground (
        arith,
        find-put entry_key asked x (delete entry_key id es),
        own,
        same,
        there,
        ap (λ k. find entry_key k es) (=s→eq id asked same),
        eq_iff x.id asked,
        eq_iff id asked,
      )
      | inr apart ↦ ground (
        arith,
        find-put entry_key asked x (delete entry_key id es),
        find-delete entry_key asked id es,
        apart,
        own,
        eq_iff x.id asked,
        eq_iff id asked,
      )
    ]

remove_found_fails :
    (id asked : String) (r : Registry)
    → r.persists ≡ true
    → (resolve_root asked (remove_found id true r (find entry_key id r.entries)).0
        ≡ resolve_root asked r)
      × (is_done (remove_found id true r (find entry_key id r.entries)).1 ≡ false)
unfolding resolve_root
remove_found_fails id asked r p = elim (Option-cases (find entry_key id r.entries)) [
  | inl missing ↦ rw missing (refl, refl)
  | inr (x, there) ↦
      let t = set_entries (delete entry_key id r.entries) r in
      let all : remove_found id true r (find entry_key id r.entries) ≡ (
        set_entries (put entry_key x (delete entry_key id r.entries)) r,
        thrown persistence_failed,
      ) =
        ap (remove_found id true r) there ∙ rw (persist_fails t p) refl in
      (
        ap (λ y. resolve_root asked y.0) all ∙ ap root_of (put_back id asked r.entries x there),
        ap (λ y. is_done y.1) all,
      )
]

-- A save that fails undoes the operation: `add` leaves the registry as it was, and after `remove` every
-- id resolves to the same root as before; both throw.
pub save_failure-rollback :
    (h : Host) (r : Registry) (input : RegistrationInput) (id asked : String)
    → r.persists ≡ true
    → ((add h input true r).0 ≡ r)
      × (is_done (add h input true r).1 ≡ false)
      × (resolve_root asked (remove id true r).0 ≡ resolve_root asked r)
      × (is_done (remove id true r).1 ≡ false)
unfolding remove
save_failure-rollback h r input id asked p =
    let (same, undone) = add_fails h input r p in
    elim (Bool-cases (id =s "default")) [
      | inl protected ↦ rw (protected, remove) (same, undone, refl, refl)
      | inr free ↦
          let (roots, failed) = remove_found_fails id asked r p in
          rw (free, remove) (same, undone, roots, failed)
    ]

has-before :
    (es cs : List WorkspaceEntry) (e : WorkspaceEntry)
    → Distinct entry_key (es ++ e ∷ cs)
    → has entry_key e.id es ≡ false
unfolding has
has-before [] cs e apart = refl
has-before (x ∷ es) cs e apart = ground (
  arith,
  has-before es cs e apart.1,
  has-append entry_key x.id es (e ∷ cs),
  apart.0,
  eq_iff x.id e.id,
  eq_iff e.id x.id,
)

append_assoc :
    (es cs : List WorkspaceEntry) (e : WorkspaceEntry) → (es ++ e ∷ []) ++ cs ≡ es ++ e ∷ cs
append_assoc [] cs e = refl
append_assoc (x ∷ es) cs e = ap (λ ys. x ∷ ys) (append_assoc es cs e)

append_nil : (es : List WorkspaceEntry) → es ++ [] ≡ es
append_nil [] = refl
append_nil (x ∷ es) = ap (λ ys. x ∷ ys) (append_nil es)

-- Neither the root nor the label of a workspace changes when it is checked again: the root is a real
-- directory, and the label is trimmed, of one line and of 1 to 80 units.
abbrev pub IsStable : Host → WorkspaceEntry → Type 0
IsStable h e =
    (normalize_directory h e.root ≡ done e.root)
    × (trim e.label ≡ e.label)
    × (1 ≤ units (codes e.label))
    × (units (codes e.label) ≤ 80)
    × (some_in is_line_end (codes e.label) ≡ false)

validate_label-stable :
    (h : Host) (e : WorkspaceEntry) → IsStable h e → validate_label e.label ≡ done e.label
unfolding validate_label
validate_label-stable h e (_, trimmed, some_text, short, line) =
    ground (arith, trimmed, ap (λ s. units (codes s)) trimmed, some_text, short, line)

-- The registration of such a workspace makes the same workspace again.
create_custom_entry-stable :
    (h : Host) (e : WorkspaceEntry)
    → IsCustom e
    → IsStable h e
    → create_custom_entry h (to_registration e) ≡ done e
unfolding create_custom_entry validate_id
create_custom_entry-stable h e (id, named, custom) stable =
    rw (id, named, stable.0, validate_label-stable h e stable)
      (ap (λ b. done (record e { is_default = b })) (sym custom))

restore_all-stable :
    (h : Host) (cs es : List WorkspaceEntry)
    → All (λ e. create_custom_entry h (to_registration e) ≡ done e) cs
    → Distinct entry_key (es ++ cs)
    → restore_all h (map to_registration cs) es ≡ done (es ++ cs)
unfolding restore_all
restore_all-stable h [] es stable apart = ap done (sym (append_nil es))
restore_all-stable h (e ∷ cs) es stable apart =
    let fresh = has-before es cs e apart in
    let longer : put entry_key e es ++ cs ≡ es ++ e ∷ cs =
      ap (λ ys. ys ++ cs) (put-append entry_key e es fresh) ∙ append_assoc es cs e in
    ap (restore_next h (map to_registration cs) es) stable.0
    ∙ ap
        (λ b.
          if b
          then thrown persistence_failed
          else restore_all h (map to_registration cs) (put entry_key e es))
        fresh
    ∙ restore_all-stable h cs (put entry_key e es) stable.1
        (subst (Distinct entry_key) (sym longer) apart)
    ∙ ap done longer

snapshot-customs :
    (cs : List WorkspaceEntry) → All IsCustom cs → snapshot cs ≡ map to_registration cs
snapshot-customs [] c = refl
snapshot-customs (e ∷ cs) c = rw c.0.2 (ap (λ rs. to_registration e ∷ rs) (snapshot-customs cs c.1))

length-map : (cs : List WorkspaceEntry) → length (map to_registration cs) ≡ length cs
length-map [] = refl
length-map (e ∷ cs) = ap suc (length-map cs)

opened_if :
    (h : Host) (b : Bool) (es : List WorkspaceEntry)
    → opened h true (if b then thrown persistence_failed else done es) ≡ (
        if b
        then thrown persistence_failed
        else done (record { entries = es; persists = true; saved = none }))
opened_if h true es = refl
opened_if h false es = refl

-- A registry that is opened with the snapshot of another one, whose workspaces have stable roots and
-- labels, has the same workspaces in the same order if there are at most 128 besides the default one.
-- Otherwise opening throws.
pub new-snapshot :
    (h : Host) (root path : String) (customs : List WorkspaceEntry)
    → normalize_directory h root ≡ done path
    → IsRegistry
        (record { entries = default_entry h path ∷ customs; persists = true; saved = none })
    → All (IsStable h) customs
    → new h root (some (snapshot (default_entry h path ∷ customs))) ≡ (
        if ltb 128 (length customs)
        then thrown persistence_failed
        else done
            (record { entries = default_entry h path ∷ customs; persists = true; saved = none }))
unfolding new restore_persisted_entries
new-snapshot h root path customs there (ordered, apart) stable =
    let shot = snapshot-customs customs ordered.1 in
    let made = All-zip customs (λ e c k. create_custom_entry-stable h e c k) ordered.1 stable in
    let again = restore_all-stable h customs (default_entry h path ∷ []) made apart in
    ap (open_at h (some (snapshot customs))) there
    ∙ ap
        (λ rs. opened h true (
          if ltb 128 (length rs)
          then thrown persistence_failed
          else restore_all h rs (default_entry h path ∷ [])))
        shot
    ∙ ap
        (λ n. opened h true (
          if ltb 128 n
          then thrown persistence_failed
          else restore_all h (map to_registration customs) (default_entry h path ∷ [])))
        (length-map customs)
    ∙ ap
        (λ res. opened h true (if ltb 128 (length customs) then thrown persistence_failed else res))
        again
    ∙ opened_if h (ltb 128 (length customs)) (default_entry h path ∷ customs)
