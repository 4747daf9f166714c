-- ===== src/Approval/Decisions.antt =====
-- What a decision does, and what allows a request.
use vibe_go.Base.{
  if◌then◌else◌, ℕ, suc, String, ◌≡◌, ◌<◌, refl, ap, ◌⊎◌, inl, inr, false, Option, none, some, List,
  [], ◌∷◌, arith, Bool-cases, Option-cases, leb, =s-refl, ◌≢◌, true,
}
use vibe_go.Base.Keyed.{find, find-put, find-delete, key-find}
use vibe_go.Approval.{
  not_found, Broker, ApprovalRequest, ApprovalDecision, allow, deny, accepted, already_decided,
  HistoryState, allowed, denied, expired, cancelled, HistoryEntry, PendingEntry, Signal,
  pending_key, history_key, settle, expire, abort, remember, open_wait, remember_request,
  wait_for_decision, decide, decide_past, state_of, other_run,
}
use vibe_go.Approval.History.{Step}

find-remember :
    (most : ℕ) (h : HistoryEntry) (hs : List HistoryEntry)
    → find history_key (history_key h) (remember most h hs) ≡ some h
unfolding remember
find-remember most h hs = rw (find-put history_key (history_key h) h, =s-refl (history_key h))

decide_accepted :
    (now : ℕ) (id : String) (decision : ApprovalDecision) (run_id : Option String) (b : Broker)
    → (decide now id decision run_id b).1 ≡ accepted
    → (e : PendingEntry) × (find pending_key id b.pending ≡ some e)
      × (other_run run_id e.request.run_id ≡ false)
      × (now < e.request.expires_at)
      × ((decide now id decision run_id b).0 ≡ settle e (state_of decision) b)
unfolding decide decide_past
decide_accepted now id decision run_id b h = elim (Option-cases (find pending_key id b.pending)) [
  | inl missing ↦ absurd (ground arith)
  | inr (e, there) ↦ (e, there, ground arith, ground arith, ground arith)
]

state_of-past : (d : ApprovalDecision) → (state_of d ≢ expired) × (state_of d ≢ cancelled)
state_of-past allow = (λ e. cc, λ e. cc)
state_of-past deny = (λ e. cc, λ e. cc)

-- What a settled entry leaves behind.
abbrev pub IsEnded : String → PendingEntry → HistoryState → Broker → Type 0
IsEnded id e state b =
    (find pending_key id b.pending ≡ none)
    × (find history_key id b.history
        ≡ some (record { approval_id = id; run_id = e.request.run_id; state = state }))

settle-IsEnded :
    (id : String) (e : PendingEntry) (state : HistoryState) (b : Broker)
    → find pending_key id b.pending ≡ some e
    → IsEnded id e state (settle e state b)
unfolding settle
settle-IsEnded id e state b there =
    let same : pending_key e ≡ id = key-find pending_key id b.pending e there in
    rw (← same) (
      rw (
        find-delete pending_key (pending_key e) (pending_key e) b.pending,
        =s-refl (pending_key e),
      ),
      find-remember b.max_history _ b.history,
    )

settled-settle :
    (e : PendingEntry) (state : HistoryState) (b : Broker)
    → (settle e state b).settled ≡ (e.ticket, state) ∷ b.settled
unfolding settle
settled-settle e state b = refl

decide_ended :
    (now : ℕ) (id : String) (decision : ApprovalDecision) (run_id : Option String)
    (e : PendingEntry) (state : HistoryState) (b : Broker)
    → IsEnded id e state b
    → other_run run_id e.request.run_id ≡ false
    → state ≢ expired
    → decide now id decision run_id b ≡ (b, already_decided)
unfolding decide decide_past
decide_ended now id decision run_id e state b ended same ne = ground arith

decide_elsewhere :
    (now : ℕ) (id : String) (decision : ApprovalDecision) (run_id : Option String)
    (e : PendingEntry) (state : HistoryState) (b : Broker)
    → IsEnded id e state b
    → other_run run_id e.request.run_id ≡ true
    → decide now id decision run_id b ≡ (b, not_found)
unfolding decide decide_past
decide_elsewhere now id decision run_id e state b ended other = ground arith

decide_again :
    (now : ℕ) (id : String) (decision : ApprovalDecision) (run_id : Option String)
    (e : PendingEntry) (state : HistoryState) (b : Broker)
    → IsEnded id e state b
    → state ≢ expired
    → decide now id decision run_id b
      ≡ (b, if other_run run_id e.request.run_id then not_found else already_decided)
decide_again now id decision run_id e state b ended ne =
    elim (Bool-cases (other_run run_id e.request.run_id)) [
      | inl other ↦ rw other (decide_elsewhere now id decision run_id e state b ended other)
      | inr same ↦ rw same (decide_ended now id decision run_id e state b ended same ne)
    ]

-- An accepted decision settles the wait that was pending under the id, for the run that was named
-- and before the request expires: its promise takes the decision, the id waits no longer, and the
-- decision is remembered. The next call, if it decides the same id again, at any time and either way,
-- changes nothing: it is told that it was decided, or that there is no such id where it names another run.
pub decide_once :
    (now later : ℕ) (id : String) (first second : ApprovalDecision) (run_id named : Option String)
    (b : Broker)
    → (decide now id first run_id b).1 ≡ accepted
    → let c = (decide now id first run_id b).0 in
      (e : PendingEntry) × (find pending_key id b.pending ≡ some e)
      × (other_run run_id e.request.run_id ≡ false)
      × (now < e.request.expires_at)
      × (c.settled ≡ (e.ticket, state_of first) ∷ b.settled)
      × IsEnded id e (state_of first) c
      × (decide later id second named c
          ≡ (c, if other_run named e.request.run_id then not_found else already_decided))
decide_once now later id first second run_id named b h =
    let (e, there, same, early, after) = decide_accepted now id first run_id b h in
    let ended = settle-IsEnded id e (state_of first) b there in
    (
      e,
      there,
      same,
      early,
      rw after (settled-settle e (state_of first) b),
      rw after ended,
      rw after (
          decide_again later id second named e (state_of first) (settle e (state_of first) b) ended
            (state_of-past first).0),
    )

-- How often a promise was resolved with `allow`.
abbrev pub count_allowed : List (ℕ × HistoryState) → ℕ
count_allowed [] = 0
count_allowed ((n, allowed) ∷ xs) = suc (count_allowed xs)
count_allowed ((n, denied) ∷ xs) = count_allowed xs
count_allowed ((n, expired) ∷ xs) = count_allowed xs
count_allowed ((n, cancelled) ∷ xs) = count_allowed xs

abbrev pub IsUnmoved : Broker → Broker → Type 0
IsUnmoved b c = count_allowed c.settled ≡ count_allowed b.settled

settle-IsUnmoved :
    (e : PendingEntry) (state : HistoryState) (b : Broker)
    → state ≢ allowed
    → IsUnmoved b (settle e state b)
unfolding settle
settle-IsUnmoved e allowed b ne = absurd (ne refl)
settle-IsUnmoved e denied b ne = refl
settle-IsUnmoved e expired b ne = refl
settle-IsUnmoved e cancelled b ne = refl

expire-IsUnmoved : (id : String) (b : Broker) → IsUnmoved b (expire id b)
unfolding expire
expire-IsUnmoved id b = elim (Option-cases (find pending_key id b.pending)) [
  | inl missing ↦ rw (missing, expire) refl
  | inr (e, there) ↦ rw (there, expire) (settle-IsUnmoved e expired b (λ x. cc))
]

abort-IsUnmoved : (id : String) (b : Broker) → IsUnmoved b (abort id b)
unfolding abort
abort-IsUnmoved id b = elim (Option-cases (find pending_key id b.pending)) [
  | inl missing ↦ rw (missing, abort) refl
  | inr (e, there) ↦ rw (there, abort) (settle-IsUnmoved e cancelled b (λ x. cc))
]

wait-IsUnmoved :
    (now : ℕ) (r : ApprovalRequest) (signal : Signal) (b : Broker)
    → IsUnmoved b (wait_for_decision now r signal b).0
unfolding wait_for_decision remember_request open_wait
wait-IsUnmoved now r signal b =
    ap count_allowed {x = (wait_for_decision now r signal b).0.settled} {y = b.settled}
      (ground arith)

decide_moves :
    (now : ℕ) (id : String) (decision : ApprovalDecision) (run_id : Option String) (b : Broker)
    → IsUnmoved b (decide now id decision run_id b).0
      ⊎ ((decide now id decision run_id b).1 ≡ accepted)
unfolding decide
decide_moves now id decision run_id b = elim (Option-cases (find pending_key id b.pending)) [
  | inl missing ↦ inl (rw (missing, decide) refl)
  | inr (e, there) ↦ elim (Bool-cases (other_run run_id e.request.run_id)) [
    | inl other ↦ inl (rw (there, decide) (rw (other, decide) refl))
    | inr same ↦ elim (Bool-cases (leb e.request.expires_at now)) [
      | inl late ↦ inl (rw (there, decide) (rw (same, late, decide) (expire-IsUnmoved id b)))
      | inr early ↦ inr (rw (there, decide) (rw (same, early, decide) refl))
    ]
  ]
]

deny-IsUnmoved :
    (now : ℕ) (id : String) (run_id : Option String) (b : Broker)
    → IsUnmoved b (decide now id deny run_id b).0
deny-IsUnmoved now id run_id b = elim (decide_moves now id deny run_id b) [
  | inl same ↦ same
  | inr done ↦
      let (e, _, _, _, after) = decide_accepted now id deny run_id b done in
      rw after (settle-IsUnmoved e denied b (λ x. cc))
]

-- A step that allows a wait is an accepted decision `allow`; every other step, a timer that fires
-- and a signal that aborts among them, allows none.
pub Step-allows :
    {b c : Broker}
    → Step b c
    → IsUnmoved b c
      ⊎ ((now : ℕ) × (id : String) × (run_id : Option String) × (c
            ≡ (decide now id allow run_id b).0)
          × ((decide now id allow run_id b).1 ≡ accepted))
Step-allows {b} (Step.waits now r signal) = inl (wait-IsUnmoved now r signal b)
Step-allows {b} (Step.fires h m) = inl (expire-IsUnmoved h.approval_id b)
Step-allows {b} (Step.aborts h m) = inl (abort-IsUnmoved h.approval_id b)
Step-allows {b} (Step.decides now id deny run_id) = inl (deny-IsUnmoved now id run_id b)
Step-allows {b} (Step.decides now id allow run_id) = elim (decide_moves now id allow run_id b) [
  | inl same ↦ inl same
  | inr done ↦ inr (now, id, run_id, refl, done)
]
