-- ===== src/Approval/History.antt =====
-- Histories of a broker: calls, timers that fire and signals that abort, in any order.
use vibe_go.Base.{
  ℕ, String, ◌≡◌, ◌<◌, ◌≤◌, inl, inr, false, Option, some, [], arith, Bool-cases, Option-cases, leb,
  length, Memᴰ,
}
use vibe_go.Base.Keyed.{find}
use vibe_go.Approval.{
  Broker, Options, ApprovalRequest, ApprovalDecision, Signal, Hook, HistoryState, PendingEntry, new,
  pending_key, settle, expire, abort, open_wait, remember_request, is_used, is_live, is_aborted,
  wait_for_decision, decide, state_of, other_run, expired, cancelled,
}

-- A timer or a listener is called only while it is armed or attached.
pub data Step (b : Broker) : Broker → Type 0 where
  waits :
      (now : ℕ) (r : ApprovalRequest) (signal : Signal)
      → Step b (wait_for_decision now r signal b).0
  decides :
      (now : ℕ) (id : String) (decision : ApprovalDecision) (run_id : Option String)
      → Step b (decide now id decision run_id b).0
  fires : (h : Hook) → Memᴰ h b.timers → Step b (expire h.approval_id b)
  aborts : (h : Hook) → Memᴰ h b.listeners → Step b (abort h.approval_id b)

pub data Reach : Broker → Type 0 where
  start : (o : Options) {b : Broker} → new o ≡ some b → Reach b
  next : {b c : Broker} → Reach b → Step b c → Reach c

-- The rule for histories: what each way to change the maps keeps holds in every history.
module _ (P : Broker → Type 0) (on_new : (o : Options) (b : Broker) → new o ≡ some b → P b)
    (on_settle : (id : String) (e : PendingEntry) (state : HistoryState) (b : Broker)
      → find pending_key id b.pending ≡ some e
      → P b
      → P (settle e state b))
    (on_open : (r : ApprovalRequest) (signal : Signal) (b : Broker)
      → length b.pending < b.max_pending
      → is_used b r.approval_id ≡ false
      → P b
      → P (open_wait r signal b))
    (on_remember : (r : ApprovalRequest) (state : HistoryState) (b : Broker)
      → is_used b r.approval_id ≡ false
      → P b
      → P (remember_request r state b)) where
  expire_inv : (id : String) (b : Broker) → P b → P (expire id b)
  unfolding expire
  expire_inv id b h = elim (Option-cases (find pending_key id b.pending)) [
    | inl missing ↦ rw (missing, expire) h
    | inr (e, there) ↦ rw (there, expire) (on_settle id e expired b there h)
  ]

  abort_inv : (id : String) (b : Broker) → P b → P (abort id b)
  unfolding abort
  abort_inv id b h = elim (Option-cases (find pending_key id b.pending)) [
    | inl missing ↦ rw (missing, abort) h
    | inr (e, there) ↦ rw (there, abort) (on_settle id e cancelled b there h)
  ]

  wait_inv :
      (now : ℕ) (r : ApprovalRequest) (signal : Signal) (b : Broker)
      → P b
      → P (wait_for_decision now r signal b).0
  unfolding wait_for_decision
  wait_inv now r signal b h = elim (Bool-cases (leb b.max_pending (length b.pending))) [
    | inl full ↦ rw (full, wait_for_decision) h
    | inr room ↦ elim (Bool-cases (is_used b r.approval_id)) [
      | inl used ↦ rw (room, used, wait_for_decision) h
      | inr fresh ↦ elim (Bool-cases (is_live now r)) [
        | inr dead ↦ rw (room, fresh, dead, wait_for_decision) (on_remember r expired b fresh h)
        | inl live ↦ elim (Bool-cases (is_aborted signal)) [
          | inl gone ↦
              rw (room, fresh, live, gone, wait_for_decision) (on_remember r cancelled b fresh h)
          | inr going ↦
              rw (room, fresh, live, going, wait_for_decision)
                (on_open r signal b (ground arith) fresh h)
        ]
      ]
    ]
  ]

  decide_inv :
      (now : ℕ) (id : String) (decision : ApprovalDecision) (run_id : Option String) (b : Broker)
      → P b
      → P (decide now id decision run_id b).0
  unfolding decide
  decide_inv now id decision run_id b h = elim (Option-cases (find pending_key id b.pending)) [
    | inl missing ↦ rw (missing, decide) h
    | inr (e, there) ↦ elim (Bool-cases (other_run run_id e.request.run_id)) [
      | inl other ↦ rw (there, decide) (rw (other, decide) h)
      | inr same ↦ elim (Bool-cases (leb e.request.expires_at now)) [
        | inl late ↦ rw (there, decide) (rw (same, late, decide) (expire_inv id b h))
        | inr early ↦
            rw (there, decide)
              (rw (same, early, decide) (on_settle id e (state_of decision) b there h))
      ]
    ]
  ]

  pub Reach_inv : {b : Broker} → Reach b → P b
  Reach_inv (Reach.start o {b} e) = on_new o b e
  Reach_inv (Reach.next {b} r (Step.waits now q signal)) = wait_inv now q signal b (Reach_inv r)
  Reach_inv (Reach.next {b} r (Step.decides now id d run_id)) =
      decide_inv now id d run_id b (Reach_inv r)
  Reach_inv (Reach.next {b} r (Step.fires h m)) = expire_inv h.approval_id b (Reach_inv r)
  Reach_inv (Reach.next {b} r (Step.aborts h m)) = abort_inv h.approval_id b (Reach_inv r)

-- A new broker: valid limits, and nothing in it.
pub record IsNew (b : Broker) : Type 0 where
  pub pending_limit : 1 ≤ b.max_pending
  pub history_limit : 1 ≤ b.max_history
  pub pending : b.pending ≡ []
  pub history : b.history ≡ []
  pub next_ticket : b.next_ticket ≡ 0
  pub settled : b.settled ≡ []
  pub timers : b.timers ≡ []
  pub listeners : b.listeners ≡ []

pub new-IsNew : (o : Options) (b : Broker) → new o ≡ some b → IsNew b
unfolding new
new-IsNew o b h = ground arith
