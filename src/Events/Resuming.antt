-- ===== src/Events/Resuming.antt =====
-- What a reader of the store relies on: it can read a log in parts.
use vibe_go.Base.{
  ℕ, suc, ◌≡◌, ◌≢◌, refl, ap, subst, inl, inr, String, true, false, not, List, [], ◌∷◌, ◌++◌, ◌=s◌,
  ltb, length, filter_by, map, All, All-append, arith, Bool-cases, any, if◌then◌else◌, =s→eq,
  =s-refl, eq_iff,
}
use vibe_go.Base.Keyed.{put, All-put, Distinct-put, find-put}
use vibe_go.Events.{
  NewDomainEvent, StoredEvent, Log, stored, no_single_run, log_key, events_of, last_seq,
  build_stored, append, build_batch, single_run, append_batch, read,
}
use vibe_go.Events.Numbering.{
  IsNumbered, IsNumbered-append, IsNumbered-build_batch, last_of_numbered, filter_by-before,
  filter_by-after, filter_by-append, IsLogOf, IsSoundStore, events_of-IsLogOf,
}

module _ {P : Type 0} where
  -- What callers can do, in any order.
  pub data Step (s : List (Log P)) : List (Log P) → Type 0 where
    appends : (e : NewDomainEvent P) (id at : String) → Step s (append e id at s).0
    batches :
        (es : List (NewDomainEvent P)) (make_id : ℕ → String) (at : String)
        → Step s (append_batch es make_id at s).0

  pub data Reach : List (Log P) → Type 0 where
    start : Reach []
    next : {s t : List (Log P)} → Reach s → Step s t → Reach t

  -- The store after some events were stored at the end of the log of one run.
  extended : String → List (StoredEvent P) → List (Log P) → List (Log P)
  extended run_id fs s =
      put log_key (record { run_id = run_id; events = events_of run_id s ++ fs }) s

  extended-IsSoundStore :
      (run_id : String) (fs : List (StoredEvent P)) (s : List (Log P))
      → IsSoundStore s
      → IsNumbered (length (events_of run_id s)) fs
      → All (λ e. e.event.run_id ≡ run_id) fs
      → IsSoundStore (extended run_id fs s)
  unfolding extended
  extended-IsSoundStore run_id fs s h n own =
      let log = events_of-IsLogOf run_id s h in
      (
        Distinct-put log_key (record { run_id = run_id; events = events_of run_id s ++ fs }) s h.0,
        All-put log_key (λ x. IsLogOf x.run_id x.events)
            (record { run_id = run_id; events = events_of run_id s ++ fs }) s h.1
            (
              IsNumbered-append 0 (length (events_of run_id s)) (events_of run_id s) fs log.0
                  (omega arith) n,
              All-append _ (events_of run_id s) fs log.1 own,
            ),
      )

  events_of-extended :
      (other run_id : String) (fs : List (StoredEvent P)) (s : List (Log P))
      → events_of other (extended run_id fs s)
        ≡ (if run_id =s other then events_of run_id s ++ fs else events_of other s)
  unfolding extended events_of
  events_of-extended other run_id fs s = ground (
    arith,
    find-put log_key other (record { run_id = run_id; events = events_of run_id s ++ fs }) s,
  )

  last_seq-length :
      (run_id : String) (s : List (Log P))
      → IsSoundStore s
      → last_seq run_id s ≡ length (events_of run_id s)
  unfolding last_seq
  last_seq-length run_id s h =
      last_of_numbered (events_of run_id s) (events_of-IsLogOf run_id s h).0

  build_batch_own :
      (run_id : String) (es : List (NewDomainEvent P)) (make_id : ℕ → String) (at : String)
      (count index : ℕ)
      → any (λ e. not (e.run_id =s run_id)) es ≡ false
      → All (λ e. e.event.run_id ≡ run_id) (build_batch es make_id at count index)
  unfolding build_batch
  build_batch_own run_id [] make_id at count index h = tt
  build_batch_own run_id (e ∷ es) make_id at count index h = (
    =s→eq e.run_id run_id (ground arith),
    build_batch_own run_id es make_id at count (suc index) (ground arith),
  )

  single_run-any :
      (run_id : String) (es : List (NewDomainEvent P))
      → single_run run_id es ≡ true
      → any (λ e. not (e.run_id =s run_id)) es ≡ false
  unfolding single_run
  single_run-any run_id es h = ground arith

  -- How an append or a batch changed the store: not at all, or by extending one log.
  IsExtension : List (Log P) → List (Log P) → String → List (StoredEvent P) → Type 0
  IsExtension s t run_id fs =
      (t ≡ extended run_id fs s)
      × IsNumbered (length (events_of run_id s)) fs
      × All (λ e. e.event.run_id ≡ run_id) fs

  append-IsExtension :
      (e : NewDomainEvent P) (id at : String) (s : List (Log P))
      → IsSoundStore s
      → IsExtension s (append e id at s).0 e.run_id ((append e id at s).1 ∷ [])
  unfolding append build_stored extended IsExtension
  append-IsExtension e id at s h =
      (refl, (omega (arith, last_seq-length e.run_id s h), tt), (refl, tt))

  append_batch-IsExtension :
      (e : NewDomainEvent P) (es : List (NewDomainEvent P)) (make_id : ℕ → String) (at : String)
      (s : List (Log P))
      → single_run e.run_id (e ∷ es) ≡ true
      → let fs = build_batch (e ∷ es) make_id at (length (events_of e.run_id s)) 0 in
        (append_batch (e ∷ es) make_id at s ≡ (extended e.run_id fs s, stored fs))
        × IsNumbered (length (events_of e.run_id s)) fs
        × All (λ f. f.event.run_id ≡ e.run_id) fs
  unfolding append_batch extended
  append_batch-IsExtension e es make_id at s h = (
    rw (h, append_batch) refl,
    subst (λ n. IsNumbered n (build_batch (e ∷ es) make_id at (length (events_of e.run_id s)) 0))
        (omega arith)
        (IsNumbered-build_batch (e ∷ es) make_id at (length (events_of e.run_id s)) 0),
    build_batch_own e.run_id (e ∷ es) make_id at (length (events_of e.run_id s)) 0
        (single_run-any e.run_id (e ∷ es) h),
  )

  build_batch_events :
      (es : List (NewDomainEvent P)) (make_id : ℕ → String) (at : String) (count index : ℕ)
      → map (λ f. f.event) (build_batch es make_id at count index) ≡ es
  unfolding build_batch
  build_batch_events [] make_id at count index = refl
  build_batch_events (e ∷ es) make_id at count index =
      ap (λ xs. e ∷ xs) (build_batch_events es make_id at count (suc index))

  Step-IsSoundStore : {s t : List (Log P)} → Step s t → IsSoundStore s → IsSoundStore t
  unfolding IsExtension append_batch
  Step-IsSoundStore {s} (Step.appends e id at) h =
      let (same, n, own) = append-IsExtension e id at s h in
      rw same (extended-IsSoundStore e.run_id _ s h n own)
  Step-IsSoundStore {s} (Step.batches [] make_id at) h = h
  Step-IsSoundStore {s} (Step.batches (e ∷ es) make_id at) h =
      elim (Bool-cases (single_run e.run_id (e ∷ es))) [
        | inl one ↦
            let (same, n, own) = append_batch-IsExtension e es make_id at s one in
            rw same (extended-IsSoundStore e.run_id _ s h n own)
        | inr mixed ↦ rw (mixed, append_batch) h
      ]

  -- In every history the events of a log are numbered 1, 2, 3, and so on, and belong to its run, and
  -- a run has one log.
  pub Reach-IsSoundStore : {s : List (Log P)} → Reach s → IsSoundStore s
  Reach-IsSoundStore Reach.start = (tt, tt)
  Reach-IsSoundStore (Reach.next r step) = Step-IsSoundStore step (Reach-IsSoundStore r)

  -- A reader that has all of `s` gets exactly the new events of the run, and no other log moved.
  pub Resumes : List (Log P) → List (Log P) → String → List (StoredEvent P) → Type 0
  Resumes s t run_id fs =
      (read run_id (last_seq run_id s) t ≡ fs)
      × (read run_id 0 t ≡ read run_id 0 s ++ fs)
      × ((other : String) (n : ℕ) → other ≢ run_id → read other n t ≡ read other n s)

  extended-Resumes :
      (run_id : String) (fs : List (StoredEvent P)) (s : List (Log P))
      → IsSoundStore s
      → IsNumbered (length (events_of run_id s)) fs
      → Resumes s (extended run_id fs s) run_id fs
  unfolding read Resumes
  extended-Resumes run_id fs s h n =
      let old = (events_of-IsLogOf run_id s h).0 in
      let here : events_of run_id (extended run_id fs s) ≡ events_of run_id s ++ fs =
        ground (arith, events_of-extended run_id run_id fs s, =s-refl run_id) in
      (
        rw
            (
              here,
              last_seq-length run_id s h,
              filter_by-append (λ e. ltb (length (events_of run_id s)) e.seq) (events_of run_id s)
                  fs,
              filter_by-before 0 (length (events_of run_id s)) (events_of run_id s) old
                  (omega arith),
            )
            (filter_by-after (length (events_of run_id s)) (length (events_of run_id s)) fs n
              (omega arith)),
        rw (here, filter_by-append (λ e. ltb 0 e.seq) (events_of run_id s) fs)
            (ap (λ xs. filter_by (λ e. ltb 0 e.seq) (events_of run_id s) ++ xs)
              (filter_by-after (length (events_of run_id s)) 0 fs n (omega arith))),
        (λ other m ne.
            ap (filter_by (λ e. ltb m e.seq))
              (ground (arith, events_of-extended other run_id fs s, eq_iff run_id other, ne))),
      )

  -- After an append a reader that resumes behind the last number it has seen gets the new event and
  -- nothing else; the whole log is the old one with the event at its end; and the logs of other runs
  -- read as before.
  pub append-Resumes :
      (e : NewDomainEvent P) (id at : String) {s : List (Log P)}
      → Reach s
      → Resumes s (append e id at s).0 e.run_id ((append e id at s).1 ∷ [])
  unfolding IsExtension
  append-Resumes e id at {s} r =
      let h = Reach-IsSoundStore r in
      let (same, n, own) = append-IsExtension e id at s h in
      rw same (extended-Resumes e.run_id _ s h n)

  -- The events of a batch belong to one run, which has a name.
  abbrev pub IsOneRun : NewDomainEvent P → List (NewDomainEvent P) → Type 0
  IsOneRun e es = (e.run_id ≢ "") × All (λ f. f.run_id ≡ e.run_id) es

  All-any :
      (run_id : String) (es : List (NewDomainEvent P))
      → All (λ f. f.run_id ≡ run_id) es
      → any (λ e. not (e.run_id =s run_id)) es ≡ false
  All-any run_id [] h = refl
  All-any run_id (e ∷ es) h = ground (arith, eq_iff e.run_id run_id, h.0, All-any run_id es h.1)

  any-All :
      (run_id : String) (es : List (NewDomainEvent P))
      → any (λ e. not (e.run_id =s run_id)) es ≡ false
      → All (λ f. f.run_id ≡ run_id) es
  any-All run_id [] h = tt
  any-All run_id (e ∷ es) h =
      (ground (arith, eq_iff e.run_id run_id, h), any-All run_id es (ground (arith, h)))

  IsOneRun-single_run :
      (e : NewDomainEvent P) (es : List (NewDomainEvent P))
      → IsOneRun e es
      → single_run e.run_id (e ∷ es) ≡ true
  unfolding single_run
  IsOneRun-single_run e es (name, own) =
      ground (arith, eq_iff e.run_id "", =s-refl e.run_id, name, All-any e.run_id es own)

  single_run-IsOneRun :
      (e : NewDomainEvent P) (es : List (NewDomainEvent P))
      → single_run e.run_id (e ∷ es) ≡ true
      → IsOneRun e es
  unfolding single_run
  single_run-IsOneRun e es h =
      (ground (arith, eq_iff e.run_id "", h), any-All e.run_id es (ground (arith, h)))

  -- Of a batch of one or more events: if they belong to one run with a name, all are stored, and the
  -- store then reads like after an append of them: a reader that resumes gets them and nothing else,
  -- the whole log is the old one with them at its end, and the logs of other runs read as before.
  -- Otherwise nothing is stored.
  pub append_batch-Resumes :
      (e : NewDomainEvent P) (es : List (NewDomainEvent P)) (make_id : ℕ → String) (at : String)
      {s : List (Log P)}
      → Reach s
      → (IsOneRun e es
          → (fs : List (StoredEvent P)) × ((append_batch (e ∷ es) make_id at s).1 ≡ stored fs)
            × (map (λ f. f.event) fs ≡ e ∷ es)
            × Resumes s (append_batch (e ∷ es) make_id at s).0 e.run_id fs)
        × ((IsOneRun e es → ⊥) → append_batch (e ∷ es) make_id at s ≡ (s, no_single_run))
  append_batch-Resumes e es make_id at {s} r = (
    λ own.
        let h = Reach-IsSoundStore r in
        let (same, n, own') =
          append_batch-IsExtension e es make_id at s (IsOneRun-single_run e es own) in
        (
          _,
          ap (λ x. x.1) same,
          build_batch_events (e ∷ es) make_id at _ 0,
          rw same (extended-Resumes e.run_id _ s h n),
        ),
    λ mixed. elim (Bool-cases (single_run e.run_id (e ∷ es))) [
      | inl one ↦ absurd (mixed (single_run-IsOneRun e es one))
      | inr apart ↦ unfold append_batch in rw (apart, append_batch) refl
    ],
  )
