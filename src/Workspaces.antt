-- ===== src/Workspaces.antt =====
-- packages/workspaces/src/index.ts: the registry of the workspaces of one user. The calls of the host's
-- file system and of `basename` are parameters (Host), and so is whether a call of `save` throws.
pub mod Keeping
pub mod Histories
pub mod Restoring
mod Examples
use vibe_go.Base.{
  ℕ, String, Bool, true, false, not, ◌&&◌, ◌||◌, Option, none, some, List, [], ◌∷◌, ◌==◌, ◌=s◌, ltb,
  if◌then◌else◌, length, map, filter_by,
}
use vibe_go.Base.Keyed.{find, has, put, delete}
use vibe_go.Base.Text.{codes, some_in, between, is_digit, is_line_end, has_shape, units, trim}

pub data ErrorCode : Type 0 where
  invalid_id invalid_label invalid_path workspace_duplicate workspace_not_found : ErrorCode
  workspace_protected persistence_failed : ErrorCode

pub data Result {ℓ} (A : Type ℓ) : Type ℓ where
  done : A → Result A
  thrown : ErrorCode → Result A

pub record RegistrationInput : Type 0 where
  pub id : String
  pub path : String
  pub label : Option String

pub record WorkspaceEntry : Type 0 where
  pub id : String
  pub label : String
  pub root : String
  pub is_default : Bool

pub record WorkspaceStatus : Type 0 where
  pub id : String
  pub label : String
  pub is_default : Bool
  pub can_remove : Bool

-- `realpath` gives nothing where it throws; `cut` is `slice(0, n)`.
pub record Host : Type 0 where
  pub resolve_path : String → String
  pub realpath : String → Option String
  pub is_directory : String → Bool
  pub basename : String → String
  pub cut : ℕ → String → String

-- The map `entries`, whether there is a persistence, and what it has saved last.
pub record Registry : Type 0 where
  pub entries : List WorkspaceEntry
  pub persists : Bool
  pub saved : Option (List RegistrationInput)

abbrev pub entry_key : WorkspaceEntry → String
entry_key e = e.id

abbrev pub registration_key : RegistrationInput → String
registration_key r = r.id

abbrev is_id_start : ℕ → Bool
is_id_start c = between b'a' b'z' c || is_digit c

abbrev is_id_char : ℕ → Bool
is_id_char c = is_id_start c || (c == b'_') || (c == b'-')

-- `WORKSPACE_ID_PATTERN`
abbrev pub is_workspace_id : String → Bool
is_workspace_id s = has_shape is_id_start is_id_char 63 (codes s)

unfoldable pub validate_id : String → Result String
validate_id s = if is_workspace_id s then done s else thrown invalid_id

unfoldable pub validate_label : String → Result String
validate_label s =
    if (units (codes (trim s)) == 0) || ltb 80 (units (codes s)) || some_in is_line_end (codes s)
    then thrown invalid_label
    else done (trim s)

abbrev pub bad_path : String → Bool
bad_path s =
    (units (codes (trim s)) == 0) || ltb 4096 (units (codes s)) || some_in is_line_end (codes s)

-- `[...].filter((entry) => !entry.isDefault).map(…)`
abbrev pub to_registration : WorkspaceEntry → RegistrationInput
to_registration e = record { id = e.id; path = e.root; label = some e.label }

abbrev pub snapshot : List WorkspaceEntry → List RegistrationInput
snapshot es = map to_registration (filter_by (λ e. not e.is_default) es)

abbrev pub to_status : WorkspaceEntry → WorkspaceStatus
to_status e = record {
  id = e.id;
  label = e.label;
  is_default = e.is_default;
  can_remove = not e.is_default;
}

unfoldable pub status : Registry → List WorkspaceStatus
status r = map to_status r.entries

unfoldable pub resolve_root : String → Registry → Option String
resolve_root id r = elim (find entry_key id r.entries) [ none ↦ none | some e ↦ some e.root ]

-- `fails` tells whether `save` throws. The registry without a new snapshot is thrown back.
unfoldable pub persist : Bool → Registry → Registry × Bool
persist fails r =
    if not r.persists
    then (r, true)
    else if fails
    then (r, false)
    else (record r { saved = some (snapshot r.entries) }, true)

abbrev pub set_entries : List WorkspaceEntry → Registry → Registry
set_entries es r = record r { entries = es }

abbrev pub without_entry : WorkspaceEntry → String → Bool → Registry → Registry × Result (Unit {0})
without_entry existing id fails r =
    let after = persist fails (set_entries (delete entry_key id r.entries) r) in
    if after.1
    then (after.0, done tt)
    else (set_entries (put entry_key existing after.0.entries) after.0, thrown persistence_failed)

abbrev pub remove_found :
    String → Bool → Registry → Option WorkspaceEntry → Registry × Result (Unit {0})
remove_found id fails r none = (r, thrown workspace_not_found)
remove_found id fails r (some existing) = without_entry existing id fails r

unfoldable pub remove : String → Bool → Registry → Registry × Result (Unit {0})
remove id fails r =
    if id =s "default"
    then (r, thrown workspace_protected)
    else remove_found id fails r (find entry_key id r.entries)

module _ (h : Host) where
  -- `displayLabel`
  unfoldable pub display_label : String → String
  display_label root =
      if units (codes (trim (h.basename root))) == 0
      then "workspace"
      else h.cut 80 (trim (h.basename root))

  unfoldable pub normalize_directory : String → Result String
  normalize_directory input =
      if bad_path input
      then thrown invalid_path
      else elim (h.realpath (h.resolve_path (trim input))) [
        | none ↦ thrown invalid_path
        | some path ↦ if h.is_directory path then done path else thrown invalid_path
      ]

  abbrev pub label_of : String → Option String → String
  label_of root none = display_label root
  label_of root (some label) = label

  abbrev pub labelled : String → String → Result String → Result WorkspaceEntry
  labelled id root (done label) =
      done (record { id = id; label = label; root = root; is_default = false })
  labelled id root (thrown code) = thrown code

  abbrev pub rooted : String → Option String → Result String → Result WorkspaceEntry
  rooted id label (done root) = labelled id root (validate_label (label_of root label))
  rooted id label (thrown code) = thrown code

  abbrev pub with_id : RegistrationInput → Result String → Result WorkspaceEntry
  with_id r (thrown code) = thrown code
  with_id r (done id) =
      if id =s "default"
      then thrown workspace_protected
      else rooted id r.label (normalize_directory r.path)

  unfoldable pub create_custom_entry : RegistrationInput → Result WorkspaceEntry
  create_custom_entry r = with_id r (validate_id r.id)

  abbrev pub insert_entry : WorkspaceEntry → Bool → Registry → Registry × Result WorkspaceStatus
  insert_entry e fails r =
      let after = persist fails (set_entries (put entry_key e r.entries) r) in
      if after.1
      then (after.0, done (to_status e))
      else (set_entries (delete entry_key e.id after.0.entries) after.0, thrown persistence_failed)

  abbrev pub with_entry :
      Bool → Registry → Result WorkspaceEntry → Registry × Result WorkspaceStatus
  with_entry fails r (thrown code) = (r, thrown code)
  with_entry fails r (done e) =
      if has entry_key e.id r.entries
      then (r, thrown workspace_duplicate)
      else insert_entry e fails r

  unfoldable pub add : RegistrationInput → Bool → Registry → Registry × Result WorkspaceStatus
  add input fails r = with_entry fails r (create_custom_entry input)

  -- The loop of `restorePersistedEntries`; its errors all become `PERSISTENCE_FAILED`.
  unfoldable pub restore_all :
      List RegistrationInput → List WorkspaceEntry → Result (List WorkspaceEntry)
  restore_all [] es = done es
  restore_all (r ∷ rs) es = elim (create_custom_entry r) [
    | thrown code ↦ thrown persistence_failed
    | done e ↦
        if has entry_key e.id es
        then thrown persistence_failed
        else restore_all rs (put entry_key e es)
  ]

  -- What the loop does with the entry that is made of a registration.
  abbrev pub restore_next :
      List RegistrationInput
      → List WorkspaceEntry
      → Result WorkspaceEntry
      → Result (List WorkspaceEntry)
  restore_next rs es (thrown code) = thrown persistence_failed
  restore_next rs es (done e) =
      if has entry_key e.id es
      then thrown persistence_failed
      else restore_all rs (put entry_key e es)

  unfoldable pub restore_persisted_entries :
      Option (List RegistrationInput) → List WorkspaceEntry → Result (List WorkspaceEntry)
  restore_persisted_entries none es = done es
  restore_persisted_entries (some rs) es =
      if ltb 128 (length rs) then thrown persistence_failed else restore_all rs es

  abbrev pub default_entry : String → WorkspaceEntry
  default_entry root = record {
    id = "default";
    label = display_label root;
    root = root;
    is_default = true;
  }

  abbrev pub opened : Bool → Result (List WorkspaceEntry) → Result Registry
  opened persists (done es) = done (record { entries = es; persists = persists; saved = none })
  opened persists (thrown code) = thrown code

  abbrev pub has_persistence : Option (List RegistrationInput) → Bool
  has_persistence none = false
  has_persistence (some rs) = true

  abbrev pub open_at : Option (List RegistrationInput) → Result String → Result Registry
  open_at load (thrown code) = thrown code
  open_at load (done root) =
      opened (has_persistence load) (restore_persisted_entries load (default_entry root ∷ []))

  -- The constructor: the default root, and what `load` gives where there is a persistence.
  unfoldable pub new : String → Option (List RegistrationInput) → Result Registry
  new default_root load = open_at load (normalize_directory default_root)
