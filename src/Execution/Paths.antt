-- ===== src/Execution/Paths.antt =====
-- `PathGuard` of packages/execution/src/index.ts. The file system and the functions of node:path are
-- parameters (Host); a call that throws gives nothing.
pub mod Safety
pub mod Inside
use Prim.Native.Char.{Char, code}
use vibe_go.Base.{
  ◌-◌, ltb, ℕ, ◌+◌, String, Bool, true, false, not, ◌&&◌, ◌||◌, Option, none, some, List, [], ◌∷◌,
  ◌==◌, ◌=s◌, if◌then◌else◌, length, filter_by,
}
use vibe_go.Base.Text.{codes, some_in, is_letter, units}

pub data PathGuardErrorCode : Type 0 where
  empty_path nul_byte absolute_path windows_path path_traversal root_unavailable :
      PathGuardErrorCode
  target_unavailable symlink_escape parent_unavailable : PathGuardErrorCode

pub data Guarded {ℓ} (A : Type ℓ) : Type ℓ where
  passes : A → Guarded A
  refused : PathGuardErrorCode → Guarded A

-- `is_symbolic_link` is false also where `lstat` throws.
pub record Host : Type 0 where
  pub realpath : String → Option String
  pub is_symbolic_link : String → Bool
  pub is_absolute : String → Bool
  pub resolve_path : String → List String → String
  pub relative : String → String → String
  pub dirname : String → String
  pub sep : String

abbrev pub slash : Char
slash = "/"

-- `split('/')`
abbrev pub add_character : Char → List String → List String
add_character c [] = String.◌∷◌ c "" ∷ []
add_character c (p ∷ ps) = String.◌∷◌ c p ∷ ps

unfoldable pub split : String → List String
split String.[] = "" ∷ []
split (String.◌∷◌ c s) =
    let rest = split s in if code c == b'/' then "" ∷ rest else add_character c rest

abbrev pub append : String → String → String
append String.[] t = t
append (String.◌∷◌ c s) t = String.◌∷◌ c (append s t)

-- `join('/')`
unfoldable pub join : List String → String
join [] = ""
join (p ∷ []) = p
join (p ∷ (q ∷ ps)) = append p (String.◌∷◌ slash (join (q ∷ ps)))

-- `replaceAll('\\', '/')`
abbrev pub to_portable : String → String
to_portable String.[] = ""
to_portable (String.◌∷◌ c s) = String.◌∷◌ (if code c == 92 then slash else c) (to_portable s)

abbrev pub starts_with : List ℕ → List ℕ → Bool
starts_with [] s = true
starts_with (c ∷ cs) [] = false
starts_with (c ∷ cs) (d ∷ ds) = (c == d) && starts_with cs ds

-- `/^[A-Za-z]:/u`
abbrev pub has_drive : List ℕ → Bool
has_drive (c ∷ d ∷ cs) = is_letter c && (d == b':')
has_drive _ = false

abbrev pub is_parent : String → Bool
is_parent p = p =s ".."

abbrev pub some_part : (String → Bool) → List String → Bool
some_part f [] = false
some_part f (p ∷ ps) = f p || some_part f ps

abbrev pub is_kept : String → Bool
is_kept p = not (p =s "") && not (p =s ".")

abbrev pub join_parts : List String → Guarded String
join_parts [] = refused empty_path
join_parts (p ∷ ps) = passes (join (p ∷ ps))

unfoldable pub normalize_parts : List String → Guarded String
normalize_parts parts =
    if some_part is_parent parts
    then refused path_traversal
    else join_parts (filter_by is_kept parts)

-- `slice(n)`, which counts the units of UTF-16; a cut through a character takes all of it away.
unfoldable pub slice_from : ℕ → String → String
slice_from n String.[] = ""
slice_from n (String.◌∷◌ c s) =
    let rest = slice_from (n - (if ltb 65535 (code c) then 2 else 1)) s in
    if n == 0 then String.◌∷◌ c s else rest

module _ (h : Host) where
  unfoldable pub normalize_relative_path : String → Guarded String
  normalize_relative_path value =
      if value =s ""
      then refused empty_path
      else if some_in (λ c. c == 0) (codes value)
      then refused nul_byte
      else if starts_with (b'/' ∷ []) (codes (to_portable value))
          || h.is_absolute value
          || starts_with (b'/' ∷ b'/' ∷ []) (codes (to_portable value))
      then refused absolute_path
      else if has_drive (codes (to_portable value))
      then refused windows_path
      else normalize_parts (split (to_portable value))

  unfoldable pub is_within : String → String → Bool
  is_within root candidate =
      (h.relative root candidate =s "")
      || (not (h.is_absolute (h.relative root candidate))
          && not (h.relative root candidate =s "..")
          && not (starts_with (codes (append ".." h.sep)) (codes (h.relative root candidate))))

  -- The target is missing: its real parent is checked.
  unfoldable pub resolve_missing : String → String → Guarded String
  resolve_missing root candidate = elim (h.realpath (h.dirname candidate)) [
    | none ↦ refused parent_unavailable
    | some real_parent ↦
        if not (is_within root real_parent)
        then refused symlink_escape
        else passes (
            h.resolve_path real_parent
              (slice_from (units (codes (h.dirname candidate)) + 1) candidate ∷ []))
  ]

  unfoldable pub resolve_candidate : String → String → Guarded String
  resolve_candidate root candidate =
      if not (is_within root candidate)
      then refused path_traversal
      else elim (h.realpath candidate) [
        | some existing ↦
            if not (is_within root existing) then refused symlink_escape else passes existing
        | none ↦
            if h.is_symbolic_link candidate
            then refused symlink_escape
            else resolve_missing root candidate
      ]

  abbrev pub with_path : String → Guarded String → Guarded String
  with_path workspace_root (refused code) = refused code
  with_path workspace_root (passes normalized) = elim (h.realpath workspace_root) [
    | none ↦ refused root_unavailable
    | some root ↦ resolve_candidate root (h.resolve_path root (split normalized))
  ]

  -- A guard is its workspace root.
  unfoldable pub new : String → Guarded String
  new workspace_root =
      if (workspace_root =s "") || some_in (λ c. c == 0) (codes workspace_root)
      then refused root_unavailable
      else passes workspace_root

  unfoldable pub resolve : String → String → Guarded String
  resolve workspace_root relative_path =
      with_path workspace_root (normalize_relative_path relative_path)
