-- ===== src/Execution/Paths/Inside.antt =====
-- Where a path that `PathGuard` of packages/execution/src/index.ts returns lies.
use Prim.Native.Char.{Char, code}
use vibe_go.Base.{
  ℕ, ◌≤◌, ◌-◌, ◌==◌, ltb, if◌then◌else◌, ◌∙◌, ap, ◌≡◌, refl, sym, subst, String, true, false, ◌⊎◌,
  inl, inr, [], ◌∷◌, All, arith, Bool-cases, Option-cases, ◌+◌, some, none,
}
use vibe_go.Base.Text.{codes, units}
use vibe_go.Execution.Paths.{
  slice_from, append, slash, refused, normalize_relative_path, is_within, PathGuardErrorCode,
  resolve_missing, resolve_candidate, resolve, passes, Host, Guarded, split,
}
use vibe_go.Execution.Paths.Safety.{IsPart, normalize_relative_path-parts}

-- The target is there and its real path is inside the root; or it is missing and is no link, the real
-- path of its directory is inside the root, and the path is its name in there, where the target is
-- written as its directory, a slash and the name.
abbrev pub IsInside : Host → String → String → String → Type 0
IsInside h root candidate p =
    ((h.realpath candidate ≡ some p) × (is_within h root p ≡ true))
    ⊎ ((parent : String) × (h.realpath candidate ≡ none)
        × (h.is_symbolic_link candidate ≡ false)
        × (h.realpath (h.dirname candidate) ≡ some parent)
        × (is_within h root parent ≡ true)
        × ((name : String)
            → candidate ≡ append (h.dirname candidate) (String.◌∷◌ slash name)
            → p ≡ h.resolve_path parent (name ∷ [])))

slice_from-zero : (s : String) → slice_from 0 s ≡ s
unfolding slice_from
slice_from-zero String.[] = refl
slice_from-zero (String.◌∷◌ c s) = refl

-- The units of one character.
abbrev width : Char → ℕ
width c = if ltb 65535 (code c) then 2 else 1

width_positive : (c : Char) → 1 ≤ width c
width_positive c = ground arith

positive_sum : (k u n : ℕ) → 1 ≤ k → ((k + u + n) == 0) ≡ false
positive_sum k u n h = ground (arith, h)

slice_from-append :
    (d s : String) (n : ℕ) → slice_from (units (codes d) + n) (append d s) ≡ slice_from n s
unfolding slice_from
slice_from-append String.[] s n = ap (λ m. slice_from m s) (omega arith)
slice_from-append (String.◌∷◌ c d) s n =
    let apart : ((width c + units (codes d) + n) == 0) ≡ false =
      positive_sum (width c) (units (codes d)) n (width_positive c) in
    let less : (width c + units (codes d) + n) - width c ≡ units (codes d) + n = omega arith in
    rw apart (ap (λ m. slice_from m (append d s)) less ∙ slice_from-append d s n)

slice_from-name :
    (d name : String) → slice_from (units (codes d) + 1) (append d (String.◌∷◌ slash name)) ≡ name
unfolding slice_from
slice_from-name d name = slice_from-append d (String.◌∷◌ slash name) 1 ∙ slice_from-zero name

passes_inj : (a b : String) → passes a ≡ passes b → a ≡ b
passes_inj a b e = ground (arith, e)

Guarded-cases :
    (g : Guarded String)
    → ((code : PathGuardErrorCode) × (g ≡ refused code)) ⊎ ((a : String) × (g ≡ passes a))
Guarded-cases (refused code) = inl (code, refl)
Guarded-cases (passes a) = inr (a, refl)

resolve_missing-IsInside :
    (h : Host) (root candidate p : String)
    → h.realpath candidate ≡ none
    → h.is_symbolic_link candidate ≡ false
    → resolve_missing h root candidate ≡ passes p
    → IsInside h root candidate p
unfolding resolve_missing
resolve_missing-IsInside h root candidate p gone link e =
    elim (Option-cases (h.realpath (h.dirname candidate))) [
      | inl none_there ↦ absurd (ground (arith, none_there, e))
      | inr (parent, there) ↦ elim (Bool-cases (is_within h root parent)) [
        | inl inside ↦ inr (
          parent,
          gone,
          link,
          there,
          inside,
          λ name same.
              sym (passes_inj _ p (ground (arith, there, inside, e)))
              ∙ ap (λ t. h.resolve_path parent (t ∷ []))
                  (ap (slice_from (units (codes (h.dirname candidate)) + 1)) same
                    ∙ slice_from-name (h.dirname candidate) name),
        )
        | inr outside ↦ absurd (ground (arith, there, outside, e))
      ]
    ]

resolve_candidate-IsInside :
    (h : Host) (root candidate p : String)
    → resolve_candidate h root candidate ≡ passes p
    → (is_within h root candidate ≡ true) × IsInside h root candidate p
unfolding resolve_candidate
resolve_candidate-IsInside h root candidate p e = elim (Bool-cases (is_within h root candidate)) [
  | inr outside ↦ absurd (ground (arith, outside, e))
  | inl within ↦ elim (Option-cases (h.realpath candidate)) [
    | inr (existing, there) ↦ elim (Bool-cases (is_within h root existing)) [
      | inr outside ↦ absurd (ground (arith, within, there, outside, e))
      | inl inside ↦
          let same = passes_inj existing p (ground (arith, within, there, inside, e)) in
          (
            within,
            inl (
                subst (λ q. (h.realpath candidate ≡ some q) × (is_within h root q ≡ true)) same
                  (there, inside)),
          )
    ]
    | inl gone ↦ elim (Bool-cases (h.is_symbolic_link candidate)) [
      | inl link ↦ absurd (ground (arith, within, gone, link, e))
      | inr plain ↦ (
        within,
        resolve_missing-IsInside h root candidate p gone plain
            (ground (arith, within, gone, plain, e)),
      )
    ]
  ]
]

-- A path that the guard returns was asked for by parts that each name an entry of a directory, and
-- its target is inside the real workspace root. If there is a target, the path is its real path, which
-- is inside the root; otherwise it is no link, the real path of its directory is inside the root, and
-- the path is its name in there, provided that the target is its directory, a slash and the name (in
-- the root of the file system it is not).
pub resolve-IsInside :
    (h : Host) (workspace_root value p : String)
    → resolve h workspace_root value ≡ passes p
    → (root : String) × (normalized : String) × (h.realpath workspace_root ≡ some root)
      × (normalize_relative_path h value ≡ passes normalized)
      × All IsPart (split normalized)
      × (is_within h root (h.resolve_path root (split normalized)) ≡ true)
      × IsInside h root (h.resolve_path root (split normalized)) p
unfolding resolve
resolve-IsInside h workspace_root value p e =
    elim (Guarded-cases (normalize_relative_path h value)) [
      | inl (code, bad) ↦ absurd (ground (arith, bad, e))
      | inr (normalized, fine) ↦ elim (Option-cases (h.realpath workspace_root)) [
        | inl missing ↦ absurd (ground (arith, fine, missing, e))
        | inr (root, there) ↦
            let (within, inside) =
              resolve_candidate-IsInside h root (h.resolve_path root (split normalized)) p
                (ground (arith, fine, there, e)) in
            (
              root,
              normalized,
              there,
              fine,
              (normalize_relative_path-parts h value normalized fine).1,
              within,
              inside,
            )
      ]
    ]
