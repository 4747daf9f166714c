-- ===== src/Context/Packing.antt =====
-- What `build` selects and what it drops.
use vibe_go.Base.{
  ℕ, ◌+◌, ◌≤◌, ◌≡◌, refl, ap, subst, inl, inr, false, List, [], ◌∷◌, arith, All, All-map,
  Bool-cases,
}
use vibe_go.Context.{
  ContextItem, Options, Totals, Selection, Result, ok, err, ◌>>=◌, to_message, message_bytes,
  message_tokens, is_protected, protected_totals, fits, consider, select,
}

-- Where a chain succeeds, its first part did, and the rest did with what that gave.
pub >>=-inv {ℓ κ} :
    {First : Type ℓ} {Last : Type κ} {last : Last} (first : Result First)
    (rest : First → Result Last)
    → (first >>= rest) ≡ ok last
    → (x : First) × (first ≡ ok x) × (rest x ≡ ok last)
>>=-inv (err why) rest done = absurd (ground arith)
>>=-inv (ok x) rest done = (x, refl, done)

pub ok-injective {ℓ} : {A : Type ℓ} {a b : A} → ok a ≡ ok b → a ≡ b
ok-injective h = ground arith

-- The items are split in two, each part in the order of the whole, and nothing protected is dropped.
pub data Splits : List ContextItem → List ContextItem → List ContextItem → Type 0 where
  end : Splits [] [] []
  keeps :
      {ks ds is : List ContextItem} (i : ContextItem)
      → Splits ks ds is
      → Splits (i ∷ ks) ds (i ∷ is)
  drops :
      {ks ds is : List ContextItem} (i : ContextItem)
      → is_protected i is ≡ false
      → Splits ks ds is
      → Splits ks (i ∷ ds) (i ∷ is)

-- The size of a list of items, where an estimate that is refused counts nothing.
abbrev pub tokens_or_zero : Result ℕ → ℕ
tokens_or_zero (ok n) = n
tokens_or_zero (err e) = 0

unfoldable pub sum_bytes : List ContextItem → ℕ
sum_bytes [] = 0
sum_bytes (i ∷ is) = message_bytes (to_message i) + sum_bytes is

unfoldable pub sum_tokens : Options → List ContextItem → ℕ
sum_tokens o [] = 0
sum_tokens o (i ∷ is) = tokens_or_zero (message_tokens o (to_message i)) + sum_tokens o is

-- An item that the totals have no room for.
abbrev pub IsOversize : Options → Totals → ContextItem → Type 0
IsOversize o t i =
    (tokens : ℕ) × (message_tokens o (to_message i) ≡ ok tokens)
    × (fits o t (message_bytes (to_message i)) tokens ≡ false)

abbrev pub IsWithin : Options → Totals → Type 0
IsWithin o t = (t.bytes ≤ o.max_bytes) × (t.tokens ≤ o.max_tokens)

-- `protected` is what the protected items of the list weigh, `start` where the loop started.
pub record IsPacked (o : Options) (start protected : Totals) (is : List ContextItem) (s : Selection)
    : Type 0 where
  pub splits : Splits s.selected s.dropped is
  pub bytes : s.totals.bytes + protected.bytes ≡ start.bytes + sum_bytes s.selected
  pub tokens : s.totals.tokens + protected.tokens ≡ start.tokens + sum_tokens o s.selected
  pub within : IsWithin o start → IsWithin o s.totals
  pub oversize : All (IsOversize o s.totals) s.dropped

IsOversize-mono :
    (o : Options) (t u : Totals) (i : ContextItem)
    → t.bytes ≤ u.bytes
    → t.tokens ≤ u.tokens
    → IsOversize o t i
    → IsOversize o u i
IsOversize-mono o t u i b k (tokens, e, no_room) = (tokens, e, ground arith)

module _ (o : Options) (start : Totals) where
  consider-IsPacked :
      (i : ContextItem) (is : List ContextItem) (tokens : ℕ) (p : Totals) (s : Selection)
      → is_protected i is ≡ false
      → message_tokens o (to_message i) ≡ ok tokens
      → IsPacked o start p is s
      → IsPacked o start p (i ∷ is) (consider o i tokens s)
  unfolding consider sum_bytes sum_tokens
  consider-IsPacked i is tokens p s free e h =
      elim (Bool-cases (fits o s.totals (message_bytes (to_message i)) tokens)) [
        | inl room ↦ rw room (record {
          splits = keeps i h.splits;
          bytes = omega (arith, h.bytes);
          tokens = omega (arith, h.tokens, ap tokens_or_zero e);
          within = λ w. (ground arith, ground arith);
          oversize =
              All-map s.dropped
                (λ x k. IsOversize-mono o s.totals _ x (omega arith) (omega arith) k) h.oversize;
        })
        | inr full ↦ rw full (record {
          splits = drops i free h.splits;
          bytes = h.bytes;
          tokens = h.tokens;
          within = h.within;
          oversize = ((tokens, e, full), h.oversize);
        })
      ]

  -- A protected item joins the selection; what it weighs is in `start` already.
  keep-IsPacked :
      (i : ContextItem) (is : List ContextItem) (tokens : ℕ) (p : Totals) (s : Selection)
      → message_tokens o (to_message i) ≡ ok tokens
      → IsPacked o start p is s
      → IsPacked o start
          (record { bytes = message_bytes (to_message i) + p.bytes; tokens = tokens + p.tokens })
          (i ∷ is)
          (record s { selected = i ∷ s.selected })
  unfolding sum_bytes sum_tokens
  keep-IsPacked i is tokens p s e h = record {
    splits = keeps i h.splits;
    bytes = omega (arith, h.bytes);
    tokens = omega (arith, h.tokens, ap tokens_or_zero e);
    within = h.within;
    oversize = h.oversize;
  }

  moved :
      (is : List ContextItem) {p q : Totals} {s r : Selection}
      → q ≡ p
      → r ≡ s
      → IsPacked o start q is r
      → IsPacked o start p is s
  moved is {p} {q} {s} {r} ep es h =
      subst (λ x. IsPacked o start p is x) es (subst (λ x. IsPacked o start x is r) ep h)

  pub select-IsPacked :
      (is : List ContextItem) (p : Totals) (s : Selection)
      → protected_totals o is ≡ ok p
      → select o start is ≡ ok s
      → IsPacked o start p is s
  unfolding protected_totals select sum_bytes sum_tokens
  select-IsPacked [] p s hp hs = moved [] (ok-injective hp) (ok-injective hs) (record {
    splits = end;
    bytes = omega arith;
    tokens = omega arith;
    within = λ w. w;
    oversize = tt;
  })
  select-IsPacked (i ∷ is) p s hp hs =
      let (q, hq, hp') = >>=-inv (protected_totals o is) _ hp in
      let (r, hr, hs') = >>=-inv (select o start is) _ hs in
      let ih = select-IsPacked is q r hq hr in
      elim (Bool-cases (is_protected i is)) [
        | inl kept ↦
            let (tokens, e, same) = >>=-inv (message_tokens o (to_message i)) _ (rw kept at hp') in
            moved (i ∷ is) (ok-injective same) (ok-injective (rw kept at hs'))
              (keep-IsPacked i is tokens q r e ih)
        | inr free ↦
            let (tokens, e, same) = >>=-inv (message_tokens o (to_message i)) _ (rw free at hs') in
            moved (i ∷ is) (ok-injective (rw free at hp')) (ok-injective same)
              (consider-IsPacked i is tokens q r free e ih)
      ]
