-- ===== src/Execution/Paths/Safety.antt =====
-- What `PathGuard` of packages/execution/src/index.ts lets through.
use Prim.Native.Char.{Char, code}
use vibe_go.Base.{
  ◌≡◌, refl, sym, subst, ◌∙◌, ap, String, true, false, ◌≢◌, inl, inr, List, [], ◌∷◌, All, arith,
  Bool-cases, eq_iff, ◌==◌, filter_by,
}
use vibe_go.Base.Text.{codes, some_in}
use vibe_go.Execution.Paths.{
  has_drive, to_portable, Host, passes, normalize_relative_path, normalize_parts, join_parts, slash,
  is_kept, some_part, join, is_parent, append, add_character, split,
}

abbrev pub NoSlash : String → Type 0
NoSlash p = some_in (λ c. c == b'/') (codes p) ≡ false

-- A part of a path that names an entry of the directory before it.
abbrev pub IsPart : String → Type 0
IsPart p = (p ≢ "") × (p ≢ ".") × (p ≢ "..") × NoSlash p

NoSlash-head : (c : Char) (p : String) → NoSlash (String.◌∷◌ c p) → (code c == b'/') ≡ false
NoSlash-head c p e = ground (arith, e)

NoSlash-tail : (c : Char) (p : String) → NoSlash (String.◌∷◌ c p) → NoSlash p
NoSlash-tail c p e = ground (arith, e)

split_plain : (p : String) → NoSlash p → split p ≡ p ∷ []
unfolding split
split_plain String.[] e = refl
split_plain (String.◌∷◌ c p) e = rw (NoSlash-head c p e, split_plain p (NoSlash-tail c p e)) refl

split-append : (p s : String) → NoSlash p → split (append p (String.◌∷◌ slash s)) ≡ p ∷ split s
unfolding split
split-append String.[] s e = refl
split-append (String.◌∷◌ c p) s e =
    rw (NoSlash-head c p e, split-append p s (NoSlash-tail c p e)) refl

split-join : (p : String) (ps : List String) → All NoSlash (p ∷ ps) → split (join (p ∷ ps)) ≡ p ∷ ps
unfolding join
split-join p [] h = split_plain p h.0
split-join p (q ∷ ps) h =
    split-append p (join (q ∷ ps)) h.0 ∙ ap (λ qs. p ∷ qs) (split-join q ps h.1)

add_character-NoSlash :
    (c : Char) (ps : List String)
    → (code c == b'/') ≡ false
    → All NoSlash ps
    → All NoSlash (add_character c ps)
add_character-NoSlash c [] e h = (ground (arith, e), tt)
add_character-NoSlash c (p ∷ ps) e h = (ground (arith, e, h.0), h.1)

split-hit :
    (c : Char) (s : String) → (code c == b'/') ≡ true → split (String.◌∷◌ c s) ≡ "" ∷ split s
unfolding split
split-hit c s e = rw e refl

split-miss :
    (c : Char) (s : String)
    → (code c == b'/') ≡ false
    → split (String.◌∷◌ c s) ≡ add_character c (split s)
unfolding split
split-miss c s e = rw e refl

split-NoSlash : (s : String) → All NoSlash (split s)
unfolding split
split-NoSlash String.[] = (refl, tt)
split-NoSlash (String.◌∷◌ c s) = elim (Bool-cases (code c == b'/')) [
  | inl hit ↦ subst (All NoSlash) (sym (split-hit c s hit)) (refl, split-NoSlash s)
  | inr miss ↦
      subst (All NoSlash) (sym (split-miss c s miss))
        (add_character-NoSlash c (split s) miss (split-NoSlash s))
]

part : (p : String) → NoSlash p → is_parent p ≡ false → is_kept p ≡ true → IsPart p
part p slash_free up kept = (
  ground (arith, kept, eq_iff p ""),
  ground (arith, kept, eq_iff p "."),
  ground (arith, up, eq_iff p ".."),
  slash_free,
)

some_part-false :
    (p : String) (ps : List String)
    → some_part is_parent (p ∷ ps) ≡ false
    → (is_parent p ≡ false) × (some_part is_parent ps ≡ false)
some_part-false p ps e = (ground (arith, e), ground (arith, e))

filter_by-keeps :
    (p : String) (ps : List String)
    → is_kept p ≡ true
    → filter_by is_kept (p ∷ ps) ≡ p ∷ filter_by is_kept ps
filter_by-keeps p ps e = ground (arith, e)

filter_by-drops :
    (p : String) (ps : List String)
    → is_kept p ≡ false
    → filter_by is_kept (p ∷ ps) ≡ filter_by is_kept ps
filter_by-drops p ps e = ground (arith, e)

filter_by-IsPart :
    (ps : List String)
    → All NoSlash ps
    → some_part is_parent ps ≡ false
    → All IsPart (filter_by is_kept ps)
filter_by-IsPart [] h e = tt
filter_by-IsPart (p ∷ ps) h e =
    let (a, b) = some_part-false p ps e in
    elim (Bool-cases (is_kept p)) [
      | inl kept ↦
          subst (All IsPart) (sym (filter_by-keeps p ps kept))
            (part p h.0 a kept, filter_by-IsPart ps h.1 b)
      | inr dropped ↦
          subst (All IsPart) (sym (filter_by-drops p ps dropped)) (filter_by-IsPart ps h.1 b)
    ]

passes_inj {ℓ} : {A : Type ℓ} (a b : A) → passes a ≡ passes b → a ≡ b
passes_inj a b e = ground (arith, e)

All-NoSlash : (ps : List String) → All IsPart ps → All NoSlash ps
All-NoSlash [] h = tt
All-NoSlash (p ∷ ps) h = (h.0.3, All-NoSlash ps h.1)

join_parts-split :
    (ps : List String) (s : String)
    → All IsPart ps
    → join_parts ps ≡ passes s
    → (split s ≡ ps) × All IsPart (split s)
join_parts-split [] s h e = absurd (ground (arith, e))
join_parts-split (p ∷ ps) s h e =
    let same =
      subst (λ t. split t ≡ p ∷ ps) (passes_inj _ s e) (split-join p ps (All-NoSlash (p ∷ ps) h)) in
    (same, subst (All IsPart) (sym same) h)

normalize_parts-split :
    (t s : String)
    → normalize_parts (split t) ≡ passes s
    → (split s ≡ filter_by is_kept (split t)) × All IsPart (split s)
unfolding normalize_parts
normalize_parts-split t s e = elim (Bool-cases (some_part is_parent (split t))) [
  | inl up ↦ absurd (ground (arith, up, e))
  | inr down ↦
      join_parts-split (filter_by is_kept (split t)) s
        (filter_by-IsPart (split t) (split-NoSlash t) down) (ground (arith, down, e))
]

-- A relative path that is accepted is brought to parts that each name an entry of a directory: none
-- is empty, the directory itself or its parent, and they are the parts of the given path in their order,
-- without the empty ones and the dots. The given path has no zero character and is not absolute.
pub normalize_relative_path-parts :
    (h : Host) (value normalized : String)
    → normalize_relative_path h value ≡ passes normalized
    → (split normalized ≡ filter_by is_kept (split (to_portable value)))
      × All IsPart (split normalized)
      × (some_in (λ c. c == 0) (codes value) ≡ false)
      × (h.is_absolute value ≡ false)
      × (has_drive (codes (to_portable value)) ≡ false)
unfolding normalize_relative_path
normalize_relative_path-parts h value normalized e =
    let (a, b) = normalize_parts-split (to_portable value) normalized (ground (arith, e)) in
    (a, b, ground (arith, e), ground (arith, e), ground (arith, e))
