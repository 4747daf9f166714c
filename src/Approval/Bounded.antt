-- ===== src/Approval/Bounded.antt =====
-- The maps of the broker: their limits, their keys, and that an id is in at most one of them.
use vibe_go.Base.{
  ℕ, String, ◌≡◌, ◌<◌, ◌≤◌, false, some, List, [], ◌∷◌, arith, length, All, All-zip, ◌=s◌,
  =s-false_comm,
}
use vibe_go.Base.Keyed.{
  find, has, delete, Distinct, length-put, length-delete, Distinct-put, Distinct-delete, has-put,
  All-delete, All-put, All-without, All-absent,
}
use vibe_go.Approval.{
  Broker, ApprovalRequest, Signal, HistoryState, HistoryEntry, PendingEntry, pending_key,
  history_key, settle, open_wait, remember_request, remember, is_used,
}
use vibe_go.Approval.History.{Reach, Reach_inv, new-IsNew}

pub record IsBounded (b : Broker) : Type 0 where
  pub pending_limit : 1 ≤ b.max_pending
  pub history_limit : 1 ≤ b.max_history
  pub pending_size : length b.pending ≤ b.max_pending
  pub history_size : length b.history ≤ b.max_history
  pub pending_keys : Distinct pending_key b.pending
  pub history_keys : Distinct history_key b.history
  pub apart : All (λ e. has history_key (pending_key e) b.history ≡ false) b.pending

length-remember :
    (most : ℕ) (h : HistoryEntry) (hs : List HistoryEntry)
    → 1 ≤ most
    → length hs ≤ most
    → length (remember most h hs) ≤ most
unfolding remember
length-remember most h [] pos le = ground (arith, length-put history_key h [])
length-remember most h (x ∷ hs) pos le =
    ground (arith, length-put history_key h (x ∷ hs), length-put history_key h hs)

Distinct-remember :
    (most : ℕ) (h : HistoryEntry) (hs : List HistoryEntry)
    → Distinct history_key hs
    → Distinct history_key (remember most h hs)
unfolding remember
Distinct-remember most h [] d = ground (arith, Distinct-put history_key h [] d)
Distinct-remember most h (x ∷ hs) d =
    ground (arith, Distinct-put history_key h (x ∷ hs) d, Distinct-put history_key h hs d.1)

-- Remembering one id does not bring in another.
has-remember :
    (most : ℕ) (id : String) (h : HistoryEntry) (hs : List HistoryEntry)
    → (history_key h =s id) ≡ false
    → has history_key id hs ≡ false
    → has history_key id (remember most h hs) ≡ false
unfolding remember has
has-remember most id h [] other absent = ground (arith, has-put history_key id h [])
has-remember most id h (x ∷ hs) other absent =
    ground (arith, has-put history_key id h (x ∷ hs), has-put history_key id h hs)

pub settle-IsBounded :
    (id : String) (e : PendingEntry) (state : HistoryState) (b : Broker)
    → find pending_key id b.pending ≡ some e
    → IsBounded b
    → IsBounded (settle e state b)
unfolding settle
settle-IsBounded id e state b there h = record {
  pending_limit = h.pending_limit;
  history_limit = h.history_limit;
  pending_size = omega (arith, length-delete pending_key (pending_key e) b.pending, h.pending_size);
  history_size = length-remember b.max_history _ b.history h.history_limit h.history_size;
  pending_keys = Distinct-delete pending_key (pending_key e) b.pending h.pending_keys;
  history_keys = Distinct-remember b.max_history _ b.history h.history_keys;
  apart =
      All-zip (delete pending_key (pending_key e) b.pending)
        (λ x other absent.
          has-remember b.max_history (pending_key x) _ b.history
            (=s-false_comm (pending_key x) (pending_key e) other) absent)
        (All-without pending_key (pending_key e) b.pending)
        (All-delete pending_key _ (pending_key e) b.pending h.apart);
}

pub open_wait-IsBounded :
    (r : ApprovalRequest) (signal : Signal) (b : Broker)
    → length b.pending < b.max_pending
    → is_used b r.approval_id ≡ false
    → IsBounded b
    → IsBounded (open_wait r signal b)
unfolding open_wait is_used
open_wait-IsBounded r signal b room fresh h = record {
  pending_limit = h.pending_limit;
  history_limit = h.history_limit;
  pending_size = omega (arith, length-put pending_key _ b.pending, room);
  history_size = h.history_size;
  pending_keys = Distinct-put pending_key _ b.pending h.pending_keys;
  history_keys = h.history_keys;
  apart = All-put pending_key _ _ b.pending h.apart (ground arith);
}

pub remember_request-IsBounded :
    (r : ApprovalRequest) (state : HistoryState) (b : Broker)
    → is_used b r.approval_id ≡ false
    → IsBounded b
    → IsBounded (remember_request r state b)
unfolding remember_request is_used
remember_request-IsBounded r state b fresh h = record {
  pending_limit = h.pending_limit;
  history_limit = h.history_limit;
  pending_size = h.pending_size;
  history_size = length-remember b.max_history _ b.history h.history_limit h.history_size;
  pending_keys = h.pending_keys;
  history_keys = Distinct-remember b.max_history _ b.history h.history_keys;
  apart =
      All-zip b.pending
        (λ x other absent.
          has-remember b.max_history (pending_key x) _ b.history
            (=s-false_comm (pending_key x) r.approval_id other) absent)
        (All-absent pending_key r.approval_id b.pending (ground arith)) h.apart;
}

-- In every history the maps keep within their limits, no id stands in one of them twice, and no id
-- that waits is remembered as ended.
pub Reach-IsBounded : {b : Broker} → Reach b → IsBounded b
Reach-IsBounded =
    Reach_inv IsBounded
      (λ o b e.
        let n = new-IsNew o b e in
        record {
          pending_limit = n.pending_limit;
          history_limit = n.history_limit;
          pending_size = rw n.pending (omega arith);
          history_size = rw n.history (omega arith);
          pending_keys = rw n.pending tt;
          history_keys = rw n.history tt;
          apart = rw n.pending tt;
        })
      settle-IsBounded open_wait-IsBounded remember_request-IsBounded
