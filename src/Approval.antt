-- ===== src/Approval.antt =====
-- packages/agent/src/approval.ts: the in-memory approval broker.
-- Time is an argument of each call, in milliseconds. A call that waits is named by a ticket, the
-- number of its promise; `settled` lists the promises that were resolved or rejected later, newest
-- first. `timers` are the armed timeouts and `listeners` the abort listeners that are attached.
mod Types
pub mod History
pub mod Bounded
pub mod Once
pub mod Decisions
mod Examples
pub use Types.*
use vibe_go.Base.{
  ℕ, suc, ◌+◌, ◌-◌, ◌^◌, String, Bool, true, false, not, ◌&&◌, ◌||◌, Option, none, some, List, [],
  ◌∷◌, ◌==◌, ◌=s◌, ltb, leb, if◌then◌else◌, length, filter_by, map, max_safe_integer,
}
use vibe_go.Base.Keyed.{find, has, put, delete}

positive_limit : ℕ → Option ℕ
positive_limit n = if ltb 0 n && leb n max_safe_integer then some n else none

abbrev or_else : Option ℕ → ℕ → ℕ
or_else none d = d
or_else (some n) d = n

-- The constructor; `none` is the error of `positiveLimit`.
pub new : Options → Option Broker
unfolding positive_limit
new o = elim (positive_limit (or_else o.timeout_ms 120000)) [
  | none ↦ none
  | some timeout ↦ elim (positive_limit (or_else o.max_pending 256)) [
    | none ↦ none
    | some max_pending ↦ elim (positive_limit (or_else o.max_history 512)) [
      | none ↦ none
      | some max_history ↦ some (record {
        timeout_ms = timeout;
        max_pending = max_pending;
        max_history = max_history;
        pending = [];
        history = [];
        next_ticket = 0;
        settled = [];
        timers = [];
        listeners = [];
      })
    ]
  ]
]

abbrev pub pending_key : PendingEntry → String
pending_key e = e.request.approval_id

abbrev pub history_key : HistoryEntry → String
history_key h = h.approval_id

-- `history.keys().next()` is the first entry; nothing is dropped from an empty map.
abbrev pub drop_oldest : List HistoryEntry → List HistoryEntry
drop_oldest [] = []
drop_oldest (h ∷ hs) = hs

-- The map `history` after `remember`.
pub remember : ℕ → HistoryEntry → List HistoryEntry → List HistoryEntry
remember max_history h hs =
    put history_key h (if leb max_history (length hs) then drop_oldest hs else hs)

abbrev pub without : ℕ → List Hook → List Hook
without n [] = []
without n (h ∷ hs) = let rest = without n hs in if h.ticket == n then rest else h ∷ rest

-- What `decide`, `expire` and the abort listener do to a pending entry: disarm the timer, detach
-- the listener, forget the entry, remember how it ended, and settle its promise.
pub settle : PendingEntry → HistoryState → Broker → Broker
unfolding remember
settle e state b = record b {
  timers = without e.ticket b.timers;
  listeners = without e.ticket b.listeners;
  pending = delete pending_key (pending_key e) b.pending;
  history =
      remember b.max_history
        (record { approval_id = pending_key e; run_id = e.request.run_id; state = state })
        b.history;
  settled = (e.ticket, state) ∷ b.settled;
}

-- `expire(approvalId)`, which the timer calls too.
pub expire : String → Broker → Broker
unfolding settle
expire id b = elim (find pending_key id b.pending) [ none ↦ b | some e ↦ settle e expired b ]

-- `onAbort`
pub abort : String → Broker → Broker
unfolding settle
abort id b = elim (find pending_key id b.pending) [ none ↦ b | some e ↦ settle e cancelled b ]

pub is_live : ℕ → ApprovalRequest → Bool
is_live now r = leb r.expires_at max_safe_integer && ltb now r.expires_at

pub remember_request : ApprovalRequest → HistoryState → Broker → Broker
unfolding remember
remember_request r state b = record b {
  history =
      remember b.max_history
        (record { approval_id = r.approval_id; run_id = r.run_id; state = state }) b.history;
}

hook : ApprovalRequest → Broker → Hook
hook r b = record { ticket = b.next_ticket; approval_id = r.approval_id }

abbrev attach : Signal → Hook → List Hook → List Hook
attach unwatched h hs = hs
attach _ h hs = h ∷ hs

-- The executor of the promise.
pub open_wait : ApprovalRequest → Signal → Broker → Broker
unfolding hook
open_wait r signal b = record b {
  timers = hook r b ∷ b.timers;
  listeners = attach signal (hook r b) b.listeners;
  pending = put pending_key (record { request = r; ticket = b.next_ticket }) b.pending;
  next_ticket = suc b.next_ticket;
}

abbrev pub is_aborted : Signal → Bool
is_aborted aborted = true
is_aborted _ = false

pub is_used : Broker → String → Bool
is_used b id = has pending_key id b.pending || has history_key id b.history

pub wait_for_decision : ℕ → ApprovalRequest → Signal → Broker → Broker × Waited
unfolding is_used is_live remember_request open_wait
wait_for_decision now r signal b =
    if leb b.max_pending (length b.pending)
    then (b, rejected_capacity)
    else if is_used b r.approval_id
    then (b, rejected_in_use)
    else if not (is_live now r)
    then (remember_request r expired b, resolved_expired)
    else if is_aborted signal
    then (remember_request r cancelled b, rejected_cancelled)
    else (open_wait r signal b, waits b.next_ticket)

-- `runId !== undefined && entry.runId !== runId`
abbrev pub other_run : Option String → String → Bool
other_run none id = false
other_run (some run_id) id = not (id =s run_id)

abbrev past : HistoryState → DecisionResult
past expired = was_expired
past _ = already_decided

decide_past : String → Option String → Broker → DecisionResult
decide_past id run_id b = elim (find history_key id b.history) [
  | none ↦ not_found
  | some h ↦ if other_run run_id h.run_id then not_found else past h.state
]

abbrev pub state_of : ApprovalDecision → HistoryState
state_of allow = allowed
state_of deny = denied

pub decide : ℕ → String → ApprovalDecision → Option String → Broker → Broker × DecisionResult
unfolding decide_past expire settle
decide now id decision run_id b = elim (find pending_key id b.pending) [
  | none ↦ (b, decide_past id run_id b)
  | some e ↦
      if other_run run_id e.request.run_id
      then (b, not_found)
      else if leb e.request.expires_at now
      then (expire id b, was_expired)
      else (settle e (state_of decision) b, accepted)
]

abbrev insert_by_creation : ApprovalRequest → List ApprovalRequest → List ApprovalRequest
insert_by_creation r [] = r ∷ []
insert_by_creation r (x ∷ xs) =
    if leb r.created_at x.created_at then r ∷ x ∷ xs else x ∷ insert_by_creation r xs

-- `sort` by `createdAt`; it is stable.
abbrev sort_by_creation : List ApprovalRequest → List ApprovalRequest
sort_by_creation [] = []
sort_by_creation (x ∷ xs) = insert_by_creation x (sort_by_creation xs)

pub pending : Option String → Broker → List ApprovalRequest
pending run_id b =
    sort_by_creation
      (filter_by (λ r. not (other_run run_id r.run_id)) (map (λ e. e.request) b.pending))
