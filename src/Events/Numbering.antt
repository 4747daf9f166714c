-- ===== src/Events/Numbering.antt =====
-- The sequence numbers of a log: 1, 2, 3, and so on.
use vibe_go.Base.{
  ℕ, suc, ◌+◌, ◌≤◌, ◌≡◌, refl, subst, inl, inr, String, Bool, List, [], ◌∷◌, ◌++◌, ltb, length,
  filter_by, All, arith, map, Option-cases, ap, ◌∙◌, none, some,
}
use vibe_go.Base.Keyed.{find, find-put_self, key-find, Distinct, All-find}
use vibe_go.Events.{
  NewDomainEvent, StoredEvent, Log, log_key, events_of, last_of, build_batch, append, build_stored,
  last_seq,
}
use mathlib.Core.List.{map-append}

module _ {P : Type 0} where
  -- The numbers follow `n`.
  abbrev pub IsNumbered : ℕ → List (StoredEvent P) → Type 0
  IsNumbered n [] = Unit {0}
  IsNumbered n (e ∷ es) = (e.seq ≡ suc n) × IsNumbered (suc n) es

  pub IsNumbered-append :
      (n m : ℕ) (es fs : List (StoredEvent P))
      → IsNumbered n es
      → m ≡ n + length es
      → IsNumbered m fs
      → IsNumbered n (es ++ fs)
  IsNumbered-append n m [] fs h e k = subst (λ x. IsNumbered x fs) (omega (arith, e)) k
  IsNumbered-append n m (x ∷ es) fs h e k =
      (h.0, IsNumbered-append (suc n) m es fs h.1 (omega (arith, e)) k)

  pub IsNumbered-build_batch :
      (es : List (NewDomainEvent P)) (make_id : ℕ → String) (at : String) (count index : ℕ)
      → IsNumbered (count + index) (build_batch es make_id at count index)
  unfolding build_batch
  IsNumbered-build_batch [] make_id at count index = tt
  IsNumbered-build_batch (e ∷ es) make_id at count index = (
    omega arith,
    subst (λ x. IsNumbered x (build_batch es make_id at count (suc index))) (omega arith)
        (IsNumbered-build_batch es make_id at count (suc index)),
  )

  pub last_of-IsNumbered :
      (n : ℕ) (e : StoredEvent P) (es : List (StoredEvent P))
      → IsNumbered n (e ∷ es)
      → last_of (e ∷ es) ≡ n + length (e ∷ es)
  last_of-IsNumbered n e [] h = omega (arith, h.0)
  last_of-IsNumbered n e (f ∷ es) h = omega (arith, last_of-IsNumbered (suc n) f es h.1)

  pub last_of_numbered : (es : List (StoredEvent P)) → IsNumbered 0 es → last_of es ≡ length es
  last_of_numbered [] h = refl
  last_of_numbered (e ∷ es) h = omega (arith, last_of-IsNumbered 0 e es h)

  -- Reading after a number leaves out what it counts, and keeps what follows.
  pub filter_by-before :
      (n m : ℕ) (es : List (StoredEvent P))
      → IsNumbered n es
      → n + length es ≤ m
      → filter_by (λ e. ltb m e.seq) es ≡ []
  filter_by-before n m [] h le = refl
  filter_by-before n m (e ∷ es) h le =
      ground (arith, h, filter_by-before (suc n) m es h.1 (omega (arith, le)))

  pub filter_by-after :
      (n m : ℕ) (es : List (StoredEvent P))
      → IsNumbered n es
      → m ≤ n
      → filter_by (λ e. ltb m e.seq) es ≡ es
  filter_by-after n m [] h le = refl
  filter_by-after n m (e ∷ es) h le =
      ground (arith, h, filter_by-after (suc n) m es h.1 (omega (arith, le)))

  pub filter_by-append :
      (f : StoredEvent P → Bool) (es fs : List (StoredEvent P))
      → filter_by f (es ++ fs) ≡ filter_by f es ++ filter_by f fs
  filter_by-append f [] fs = refl
  filter_by-append f (e ∷ es) fs = ground (arith, filter_by-append f es fs)

  -- The log of a run is numbered and holds events of this run only.
  abbrev pub IsLogOf : String → List (StoredEvent P) → Type 0
  IsLogOf run_id es = IsNumbered 0 es × All (λ e. e.event.run_id ≡ run_id) es

  abbrev pub IsSoundStore : List (Log P) → Type 0
  IsSoundStore s = Distinct log_key s × All (λ l. IsLogOf l.run_id l.events) s

  pub events_of-IsLogOf :
      (run_id : String) (s : List (Log P)) → IsSoundStore s → IsLogOf run_id (events_of run_id s)
  unfolding events_of
  events_of-IsLogOf run_id s h = elim (Option-cases (find log_key run_id s)) [
    | inl missing ↦ rw (missing, events_of) (tt, tt)
    | inr (l, there) ↦
        rw (there, events_of)
          (subst (λ id. IsLogOf id l.events) (key-find log_key run_id s l there)
            (All-find log_key (λ x. IsLogOf x.run_id x.events) run_id s l h.1 there))
  ]

  last_of-concat : (es : List (StoredEvent P)) (e : StoredEvent P) → last_of (es ++ e ∷ []) ≡ e.seq
  last_of-concat [] e = refl
  last_of-concat (x ∷ []) e = refl
  last_of-concat (x ∷ y ∷ es) e = last_of-concat (y ∷ es) e

  events_of-append :
      (e : NewDomainEvent P) (id at : String) (s : List (Log P))
      → events_of e.run_id (append e id at s).0
        ≡ events_of e.run_id s ++ build_stored e id at s ∷ []
  unfolding append events_of
  events_of-append e id at s =
      ap (λ o. elim o as (λ _. List (StoredEvent P)) [ none ↦ [] | some l ↦ l.events ])
        (find-put_self log_key
          (record {
            run_id = e.run_id;
            events = events_of e.run_id s ++ build_stored e id at s ∷ [];
          })
          s)

  -- An event takes the number after the last one of its run.
  pub append-last_seq :
      (e : NewDomainEvent P) (id at : String) (s : List (Log P))
      → last_seq e.run_id (append e id at s).0 ≡ last_seq e.run_id s + 1
  unfolding last_seq build_stored
  append-last_seq e id at s =
      ap last_of (events_of-append e id at s)
      ∙ last_of-concat (events_of e.run_id s) (build_stored e id at s)

  -- The payload of an event comes behind those of its run.
  pub append-payloads :
      (e : NewDomainEvent P) (id at : String) (s : List (Log P))
      → map (λ f. f.event.payload) (events_of e.run_id (append e id at s).0)
        ≡ map (λ f. f.event.payload) (events_of e.run_id s) ++ e.payload ∷ []
  unfolding build_stored
  append-payloads e id at s =
      ap (map (λ f. f.event.payload)) (events_of-append e id at s)
      ∙ map-append (λ f. f.event.payload) (events_of e.run_id s) (build_stored e id at s ∷ [])
