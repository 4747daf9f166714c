-- ===== src/Base/Keyed.antt =====
-- A JavaScript `Map` whose keys are a function of its values, as a list in insertion order.
use Prim.Native.Nat.{ℕ, zero, suc, ◌≤◌}
use Prim.Native.String.{String}
use mathlib.Core.Path.{◌≡◌, refl, ap, sym, ◌∙◌}
use mathlib.Core.Logic.{inl, inr}
use mathlib.Core.Bool.{Bool, true, false, ◌||◌}
use mathlib.Core.Option.{Option, none, some}
use mathlib.Core.List.{List, [], ◌∷◌, ◌++◌}
use native.Mathlib.Omega.{arith}
use text.Mathlib.TextEquality.{eq_iff}
use vibe_go.Base.Tests.{◌=s◌, if◌then◌else◌, =s→eq, =s-refl, Bool-cases}
use vibe_go.Base.Lists.{length, All, get_elem?, filter_by}

module _ {ℓ} {A : Type ℓ} (key : A → String) where
  -- `map.get(k)`
  unfoldable pub find : String → List A → Option A
  find k [] = none
  find k (x ∷ xs) = if key x =s k then some x else find k xs

  -- `map.has(k)`
  unfoldable pub has : String → List A → Bool
  has k [] = false
  has k (x ∷ xs) = (key x =s k) || has k xs

  -- `map.set(key(a), a)`: in place if the key is there, else at the end.
  unfoldable pub put : A → List A → List A
  put a [] = a ∷ []
  put a (x ∷ xs) = if key x =s key a then a ∷ xs else x ∷ put a xs

  -- `map.delete(k)`
  unfoldable pub delete : String → List A → List A
  delete k [] = []
  delete k (x ∷ xs) = let rest = delete k xs in if key x =s k then rest else x ∷ rest

  -- No key twice, which is what makes the list a map.
  abbrev pub Distinct : List A → Type 0
  Distinct [] = Unit {0}
  Distinct (x ∷ xs) = (has (key x) xs ≡ false) × Distinct xs

  pub find-none_of_has : (k : String) (xs : List A) → has k xs ≡ false → find k xs ≡ none
  unfolding find has
  find-none_of_has k [] h = refl
  find-none_of_has k (x ∷ xs) h = ground (arith, find-none_of_has k xs)

  pub has-false_of_find : (k : String) (xs : List A) → find k xs ≡ none → has k xs ≡ false
  unfolding find has
  has-false_of_find k [] h = refl
  has-false_of_find k (x ∷ xs) h = ground (arith, has-false_of_find k xs)

  pub key-find : (k : String) (xs : List A) (a : A) → find k xs ≡ some a → key a ≡ k
  unfolding find
  key-find k [] a h = ground arith
  key-find k (x ∷ xs) a h = ground (arith, key-find k xs a, eq_iff (key x) k)

  pub has_of_find : (k : String) (xs : List A) (a : A) → find k xs ≡ some a → has k xs ≡ true
  unfolding find has
  has_of_find k [] a h = ground arith
  has_of_find k (x ∷ xs) a h = ground (arith, has_of_find k xs a)

  pub has_of_get_elem? :
      (i : ℕ) (xs : List A) (a : A) → get_elem? xs i ≡ some a → has (key a) xs ≡ true
  unfolding has
  has_of_get_elem? i [] a h = ground arith
  has_of_get_elem? zero (x ∷ xs) a h = ground (arith, eq_iff (key x) (key a))
  has_of_get_elem? (suc i) (x ∷ xs) a h = ground (arith, has_of_get_elem? i xs a h)

  pub has-append : (k : String) (xs ys : List A) → has k (xs ++ ys) ≡ (has k xs || has k ys)
  unfolding has
  has-append k [] ys = refl
  has-append k (x ∷ xs) ys = ground (arith, has-append k xs ys)

  pub Distinct-concat :
      (xs : List A) (a : A) → Distinct xs → has (key a) xs ≡ false → Distinct (xs ++ a ∷ [])
  unfolding has
  Distinct-concat [] a h k = (refl, tt)
  Distinct-concat (x ∷ xs) a h k = (
    ground (arith, has-append (key x) xs (a ∷ []), eq_iff (key x) (key a), eq_iff (key a) (key x)),
    Distinct-concat xs a h.1 (ground arith),
  )

  pub find-put :
      (k : String) (a : A) (xs : List A)
      → find k (put a xs) ≡ (if key a =s k then some a else find k xs)
  unfolding find put
  find-put k a [] = refl
  find-put k a (x ∷ xs) =
      ground (arith, find-put k a xs, eq_iff (key x) (key a), eq_iff (key a) k, eq_iff (key x) k)

  pub find-put_self : (a : A) (xs : List A) → find (key a) (put a xs) ≡ some a
  find-put_self a xs =
      find-put (key a) a xs ∙ ap (λ b. if b then some a else find (key a) xs) (=s-refl (key a))

  pub has-put : (k : String) (a : A) (xs : List A) → has k (put a xs) ≡ ((key a =s k) || has k xs)
  unfolding has put
  has-put k a [] = refl
  has-put k a (x ∷ xs) =
      ground (arith, has-put k a xs, eq_iff (key x) (key a), eq_iff (key a) k, eq_iff (key x) k)

  pub has-put_keep : (k : String) (a : A) (xs : List A) → has k xs ≡ true → has k (put a xs) ≡ true
  has-put_keep k a xs h = ground (arith, has-put k a xs)

  pub has-put_self : (a : A) (xs : List A) → has (key a) (put a xs) ≡ true
  has-put_self a xs = ground (arith, has-put (key a) a xs, eq_iff (key a) (key a))

  pub find-delete :
      (k j : String) (xs : List A) → find k (delete j xs) ≡ (if j =s k then none else find k xs)
  unfolding find delete
  find-delete k j [] = ground arith
  find-delete k j (x ∷ xs) =
      ground (arith, find-delete k j xs, eq_iff (key x) j, eq_iff j k, eq_iff (key x) k)

  pub has-delete_self : (k : String) (xs : List A) → has k (delete k xs) ≡ false
  unfolding has delete
  has-delete_self k [] = refl
  has-delete_self k (x ∷ xs) = ground (arith, has-delete_self k xs)

  pub All-absent :
      (k : String) (xs : List A) → has k xs ≡ false → All (λ x. (key x =s k) ≡ false) xs
  unfolding has
  All-absent k [] h = tt
  All-absent k (x ∷ xs) h = (ground arith, All-absent k xs (ground arith))

  pub All-without : (k : String) (xs : List A) → All (λ x. (key x =s k) ≡ false) (delete k xs)
  All-without k xs = All-absent k (delete k xs) (has-delete_self k xs)

  pub has-delete : (k j : String) (xs : List A) → has k xs ≡ false → has k (delete j xs) ≡ false
  unfolding has delete
  has-delete k j [] h = refl
  has-delete k j (x ∷ xs) h = ground (arith, has-delete k j xs)

  pub delete-absent : (k : String) (xs : List A) → has k xs ≡ false → delete k xs ≡ xs
  unfolding has delete
  delete-absent k [] h = refl
  delete-absent k (x ∷ xs) h = ground (arith, delete-absent k xs)

  pub put-append : (a : A) (xs : List A) → has (key a) xs ≡ false → put a xs ≡ xs ++ a ∷ []
  unfolding has put
  put-append a [] h = refl
  put-append a (x ∷ xs) h = ground (arith, put-append a xs)

  pub delete-put : (a : A) (xs : List A) → has (key a) xs ≡ false → delete (key a) (put a xs) ≡ xs
  unfolding has put delete
  delete-put a [] h = ground (arith, eq_iff (key a) (key a))
  delete-put a (x ∷ xs) h = ground (arith, delete-put a xs)

  pub length-put : (a : A) (xs : List A) → length (put a xs) ≤ suc (length xs)
  unfolding put
  length-put a [] = omega arith
  length-put a (x ∷ xs) = ground (arith, length-put a xs)

  pub length-delete : (k : String) (xs : List A) → length (delete k xs) ≤ length xs
  unfolding delete
  length-delete k [] = omega arith
  length-delete k (x ∷ xs) = ground (arith, length-delete k xs)

  pub length-delete-has :
      (k : String) (xs : List A) → has k xs ≡ true → suc (length (delete k xs)) ≤ length xs
  unfolding delete has
  length-delete-has k [] h = ground arith
  length-delete-has k (x ∷ xs) h = ground (arith, length-delete-has k xs, length-delete k xs)

  pub Distinct-put : (a : A) (xs : List A) → Distinct xs → Distinct (put a xs)
  unfolding put has
  Distinct-put a [] h = (refl, tt)
  Distinct-put a (x ∷ xs) h = ground (
    arith,
    Distinct-put a xs h.1,
    has-put (key x) a xs,
    eq_iff (key x) (key a),
    eq_iff (key a) (key x),
  )

  pub Distinct-delete : (k : String) (xs : List A) → Distinct xs → Distinct (delete k xs)
  unfolding delete
  Distinct-delete k [] h = tt
  Distinct-delete k (x ∷ xs) h = ground (arith, Distinct-delete k xs h.1, has-delete (key x) k xs)

  module _ {κ} (P : A → Type κ) where
    pub All-put : (a : A) (xs : List A) → All P xs → P a → All P (put a xs)
    unfolding put
    All-put a [] h p = (p, tt)
    All-put a (x ∷ xs) h p = ground (arith, All-put a xs h.1 p)

    pub All-delete : (k : String) (xs : List A) → All P xs → All P (delete k xs)
    unfolding delete
    All-delete k [] h = tt
    All-delete k (x ∷ xs) h = ground (arith, All-delete k xs h.1)

    pub All-find : (k : String) (xs : List A) (a : A) → All P xs → find k xs ≡ some a → P a
    unfolding find
    All-find k [] a h e = ground arith
    All-find k (x ∷ xs) a h e = ground (arith, All-find k xs a h.1)

  pub has-filter_by :
      (p : A → Bool) (k : String) (xs : List A) → has k xs ≡ false → has k (filter_by p xs) ≡ false
  unfolding has
  has-filter_by p k [] h = refl
  has-filter_by p k (x ∷ xs) h = ground (arith, has-filter_by p k xs)

  pub Distinct-filter_by : (p : A → Bool) (xs : List A) → Distinct xs → Distinct (filter_by p xs)
  Distinct-filter_by p [] h = tt
  Distinct-filter_by p (x ∷ xs) h =
      ground (arith, has-filter_by p (key x) xs h.0, Distinct-filter_by p xs h.1)

  -- What a filter leaves under a key.
  abbrev pub kept : (A → Bool) → Option A → Option A
  kept p none = none
  kept p (some x) = if p x then some x else none

  pub find-filter_by :
      (p : A → Bool) (k : String) (xs : List A)
      → Distinct xs
      → find k (filter_by p xs) ≡ kept p (find k xs)
  unfolding find
  find-filter_by p k [] h = refl
  find-filter_by p k (x ∷ xs) h = elim (Bool-cases (key x =s k)) [
    | inr other ↦ ground (arith, find-filter_by p k xs h.1)
    | inl here ↦
        let gone : find k xs ≡ none =
          find-none_of_has k xs (ap (λ j. has j xs) (sym (=s→eq (key x) k here)) ∙ h.0) in
        ground (arith, find-filter_by p k xs h.1)
  ]
