-- ===== src/Context/Budget.antt =====
-- What a caller of `build` can rely on.
use vibe_go.Base.{
  Bool, if◌then◌else◌, ◌⊎◌, ◌<◌, sym, ℕ, ◌+◌, ◌≤◌, ◌≡◌, refl, ap, subst, inl, inr, true, false,
  List, [], ◌∷◌, arith, All, Bool-cases, ltb, map, length, ◌∙◌,
}
use vibe_go.Context.{
  message_bytes, ContextItem, ContextMessage, ContextBuildResult, Options, Manager, Totals,
  Selection, Result, ok, err, budget, ◌>>=◌, to_message, message_tokens, is_protected,
  protected_totals, select, over_budget, build_selection, build, built, item_key,
}
use vibe_go.Context.Packing.{
  >>=-inv, ok-injective, Splits, end, keeps, drops, sum_bytes, sum_tokens, tokens_or_zero,
  IsOversize, IsPacked, select-IsPacked,
}

-- The result of a build, described from the items.
pub record IsBuilt (m : Manager) (r : ContextBuildResult) : Type 0 where
  pub selected : List ContextItem
  pub dropped : List ContextItem
  pub splits : Splits selected dropped m.items
  pub messages : r.messages ≡ map to_message selected
  pub dropped_item_ids : r.dropped_item_ids ≡ map item_key dropped
  pub dropped_count : r.dropped_count ≡ length (map item_key dropped)
  pub compacted : r.compacted ≡ ltb 0 (length (map item_key dropped))
  pub bytes : r.bytes ≡ sum_bytes selected
  pub tokens : r.tokens ≡ sum_tokens m.options selected
  pub bytes_within : r.bytes ≤ m.options.max_bytes
  pub tokens_within : r.tokens ≤ m.options.max_tokens
  pub oversize : All (IsOversize m.options (record { bytes = r.bytes; tokens = r.tokens })) dropped

not_over :
    (o : Options) (t : Totals)
    → over_budget o t ≡ false
    → (t.bytes ≤ o.max_bytes) × (t.tokens ≤ o.max_tokens)
unfolding over_budget
not_over o t h = ground arith

built-IsBuilt :
    (m : Manager) (t : Totals) (s : Selection)
    → over_budget m.options t ≡ false
    → IsPacked m.options t t m.items s
    → IsBuilt m (built s)
unfolding built
built-IsBuilt m t s room h =
    let (bytes, tokens) = h.within (not_over m.options t room) in
    record {
      selected = s.selected;
      dropped = s.dropped;
      splits = h.splits;
      messages = refl;
      dropped_item_ids = refl;
      dropped_count = refl;
      compacted = refl;
      bytes = omega (arith, h.bytes);
      tokens = omega (arith, h.tokens);
      bytes_within = bytes;
      tokens_within = tokens;
      oversize = h.oversize;
    }

-- A build that succeeds keeps the system and developer items, the preserved ones and the last
-- message of the user; its messages are those of the items that it kept, in their order, and the
-- dropped ids name the others; the bytes and tokens that it states are those of its messages and
-- within the budget; and no dropped item would have fitted beside them.
pub build-IsBuilt : (m : Manager) (r : ContextBuildResult) → build m ≡ ok r → IsBuilt m r
unfolding build build_selection
build-IsBuilt m r h =
    let (s, hs, same) = >>=-inv (build_selection m) _ h in
    let (t, ht, picked) = >>=-inv (protected_totals m.options m.items) _ hs in
    elim (Bool-cases (over_budget m.options t)) [
      | inl over ↦ absurd (ground (arith, over, picked))
      | inr room ↦ subst (IsBuilt m) (ok-injective same) (
          built-IsBuilt m t s room (select-IsPacked m.options t m.items t s ht (rw room at picked)))
    ]

Splits-sums :
    (o : Options) {ks ds is : List ContextItem}
    → Splits ks ds is
    → (sum_bytes is ≡ sum_bytes ks + sum_bytes ds)
      × (sum_tokens o is ≡ sum_tokens o ks + sum_tokens o ds)
unfolding sum_bytes sum_tokens
Splits-sums o end = (refl, refl)
Splits-sums o (keeps i s) = let (b, t) = Splits-sums o s in (omega (arith, b), omega (arith, t))
Splits-sums o (drops i free s) =
    let (b, t) = Splits-sums o s in (omega (arith, b), omega (arith, t))

Splits-all : {ks ds is : List ContextItem} → Splits ks ds is → ds ≡ [] → ks ≡ is
Splits-all end e = refl
Splits-all (keeps i s) e = ap (◌∷◌ i) (Splits-all s e)
Splits-all (drops i free s) e = cc

-- A dropped item is too large, so a list of dropped items that fits is empty.
no_oversize :
    (o : Options) (t : Totals) (ds : List ContextItem)
    → All (IsOversize o t) ds
    → t.bytes + sum_bytes ds ≤ o.max_bytes
    → t.tokens + sum_tokens o ds ≤ o.max_tokens
    → ds ≡ []
unfolding sum_bytes sum_tokens
no_oversize o t [] h bytes tokens = refl
no_oversize o t (d ∷ ds) h bytes tokens =
    let (n, e, full) = h.0 in absurd (ground (arith, full, bytes, tokens, ap tokens_or_zero e))

-- Where everything fits, nothing is dropped.
pub build_lossless :
    (m : Manager) (r : ContextBuildResult)
    → build m ≡ ok r
    → sum_bytes m.items ≤ m.options.max_bytes
    → sum_tokens m.options m.items ≤ m.options.max_tokens
    → (r.messages ≡ map to_message m.items) × (r.dropped_item_ids ≡ []) × (r.compacted ≡ false)
build_lossless m r h bytes tokens =
    let b = build-IsBuilt m r h in
    let (all_bytes, all_tokens) = Splits-sums m.options b.splits in
    let none_dropped : b.dropped ≡ [] =
      no_oversize m.options (record { bytes = r.bytes; tokens = r.tokens }) b.dropped b.oversize
        (omega (arith, b.bytes, all_bytes, bytes)) (omega (arith, b.tokens, all_tokens, tokens)) in
    (
      b.messages ∙ ap (map to_message) (Splits-all b.splits none_dropped),
      b.dropped_item_ids ∙ ap (map item_key) none_dropped,
      b.compacted ∙ ap (λ ds. ltb 0 (length (map item_key ds))) none_dropped,
    )

-- An estimator that returns a non-negative safe integer for every message.
abbrev pub IsTotal : Options → Type 0
IsTotal o = (msg : ContextMessage) → (n : ℕ) × (message_tokens o msg ≡ ok n)

abbrev pub IsOk {ℓ} : {A : Type ℓ} → Result A → Type ℓ
IsOk {A} r = (a : A) × (r ≡ ok a)

>>=-IsOk {ℓ κ} :
    {A : Type ℓ} {B : Type κ} (m : Result A) (f : A → Result B)
    → IsOk m
    → ((a : A) → IsOk (f a))
    → IsOk (m >>= f)
>>=-IsOk (ok a) f h k = k a
>>=-IsOk (err e) f h k = absurd (ground (arith, h.1))

module _ (o : Options) (total : IsTotal o) where
  protected_totals-IsOk : (is : List ContextItem) → IsOk (protected_totals o is)
  unfolding protected_totals
  protected_totals-IsOk [] = (_, refl)
  protected_totals-IsOk (i ∷ is) =
      >>=-IsOk (protected_totals o is) _ (protected_totals-IsOk is) λ t.
        elim (Bool-cases (is_protected i is)) [
          | inl kept ↦
              rw kept (
                >>=-IsOk (message_tokens o (to_message i)) _ (total (to_message i))
                  (λ n. (_, refl)))
          | inr free ↦ rw free (t, refl)
        ]

  select-IsOk : (t : Totals) (is : List ContextItem) → IsOk (select o t is)
  unfolding select
  select-IsOk t [] = (_, refl)
  select-IsOk t (i ∷ is) = >>=-IsOk (select o t is) _ (select-IsOk t is) λ s.
      elim (Bool-cases (is_protected i is)) [
        | inl kept ↦ rw kept (_, refl)
        | inr free ↦
            rw free
              (>>=-IsOk (message_tokens o (to_message i)) _ (total (to_message i)) (λ n. (_, refl)))
      ]

-- What the items that a build always keeps weigh.
abbrev pub protected_bytes : List ContextItem → ℕ
protected_bytes [] = 0
protected_bytes (i ∷ is) =
    (if is_protected i is then message_bytes (to_message i) else 0) + protected_bytes is

abbrev pub protected_tokens : Options → List ContextItem → ℕ
protected_tokens o [] = 0
protected_tokens o (i ∷ is) =
    (if is_protected i is then tokens_or_zero (message_tokens o (to_message i)) else 0)
    + protected_tokens o is

weighed :
    (b : Bool) (m : Result ℕ) (bytes : ℕ) (rest t : Totals)
    → (if b
        then m
          >>= (λ tokens. ok (record { bytes = bytes + rest.bytes; tokens = tokens + rest.tokens }))
        else ok rest)
      ≡ ok t
    → (t.bytes ≡ (if b then bytes else 0) + rest.bytes)
      × (t.tokens ≡ (if b then tokens_or_zero m else 0) + rest.tokens)
weighed true (ok n) bytes rest t h = (ground (arith, h), ground (arith, h))
weighed true (err e) bytes rest t h = absurd (ground (arith, h))
weighed false m bytes rest t h = (ground (arith, h), ground (arith, h))

protected_totals-sums :
    (o : Options) (is : List ContextItem) (t : Totals)
    → protected_totals o is ≡ ok t
    → (t.bytes ≡ protected_bytes is) × (t.tokens ≡ protected_tokens o is)
unfolding protected_totals
protected_totals-sums o [] t h = (ground (arith, h), ground (arith, h))
protected_totals-sums o (i ∷ is) t h =
    let (rest, made, body) = >>=-inv (protected_totals o is) _ h in
    let (bytes, tokens) = protected_totals-sums o is rest made in
    let (here, read) =
      weighed (is_protected i is) (message_tokens o (to_message i)) (message_bytes (to_message i))
        rest t body in
    (omega (arith, here, bytes), omega (arith, read, tokens))

is_over :
    (o : Options) (t : Totals)
    → (o.max_bytes < t.bytes) ⊎ (o.max_tokens < t.tokens)
    → over_budget o t ≡ true
unfolding over_budget
is_over o t (inl h) = ground (arith, h)
is_over o t (inr h) = ground (arith, h)

is_within :
    (o : Options) (t : Totals)
    → t.bytes ≤ o.max_bytes
    → t.tokens ≤ o.max_tokens
    → over_budget o t ≡ false
unfolding over_budget
is_within o t b k = ground (arith, b, k)

-- With an estimator that returns for every message, a build fails exactly where the protected items
-- alone exceed the budget in bytes or in tokens, and then names what they weigh; otherwise it returns a
-- result.
pub build_total :
    (m : Manager)
    → IsTotal m.options
    → ((m.options.max_bytes < protected_bytes m.items)
          ⊎ (m.options.max_tokens < protected_tokens m.options m.items)
        → build m ≡ err (budget (protected_bytes m.items) (protected_tokens m.options m.items)))
      × (protected_bytes m.items ≤ m.options.max_bytes
          → protected_tokens m.options m.items ≤ m.options.max_tokens
          → IsOk (build m))
unfolding build build_selection
build_total m total =
    let (t, e) = protected_totals-IsOk m.options total m.items in
    let (bytes, tokens) = protected_totals-sums m.options m.items t e in
    (
      (λ over.
          let full : over_budget m.options t ≡ true =
            is_over m.options t (rw (sym bytes, sym tokens) at over) in
          rw (e, full) (ground (arith, bytes, tokens))),
      (λ few_bytes few_tokens.
          let room : over_budget m.options t ≡ false =
            is_within m.options t (omega (arith, bytes, few_bytes))
              (omega (arith, tokens, few_tokens)) in
          rw (e, room)
            (>>=-IsOk (select m.options t m.items) _ (select-IsOk m.options total t m.items)
              (λ s. (built s, refl)))),
    )
