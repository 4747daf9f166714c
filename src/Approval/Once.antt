-- ===== src/Approval/Once.antt =====
-- Every wait ends once, and no timer or listener outlives it.
use vibe_go.Base.{
  ℕ, ◌+◌, String, ◌≡◌, ◌≤◌, refl, ap, subst, inl, inr, false, some, List, [], ◌∷◌, ◌++◌, arith,
  Bool-cases, ltb, ◌==◌, All, All-map, ◌=s◌, if◌then◌else◌, eq_iff, =s-refl,
}
use vibe_go.Base.Keyed.{
  find, has, put, delete, Distinct, put-append, delete-absent, key-find, find-put, find-delete,
  find-none_of_has,
}
use vibe_go.Approval.{
  Broker, ApprovalRequest, Signal, unwatched, watched, aborted, HistoryState, PendingEntry, Hook,
  pending_key, settle, open_wait, remember_request, without, is_used,
}
use vibe_go.Approval.History.{Reach, Reach_inv, new-IsNew}
use vibe_go.Approval.Bounded.{
  IsBounded, Reach-IsBounded, settle-IsBounded, open_wait-IsBounded, remember_request-IsBounded,
}

abbrev pub one : ℕ → ℕ → ℕ
one n m = if n == m then 1 else 0

abbrev pub count_waiting : ℕ → List PendingEntry → ℕ
count_waiting n [] = 0
count_waiting n (e ∷ es) = one n e.ticket + count_waiting n es

abbrev pub count_settled : ℕ → List (ℕ × HistoryState) → ℕ
count_settled n [] = 0
count_settled n ((m, state) ∷ xs) = one n m + count_settled n xs

abbrev pub count_hooks : ℕ → List Hook → ℕ
count_hooks n [] = 0
count_hooks n (h ∷ hs) = one n h.ticket + count_hooks n hs

count_waiting-delete :
    (n : ℕ) (id : String) (e : PendingEntry) (es : List PendingEntry)
    → Distinct pending_key es
    → find pending_key id es ≡ some e
    → count_waiting n es ≡ count_waiting n (delete pending_key id es) + one n e.ticket
unfolding find delete
count_waiting-delete n id e [] d h = ground arith
count_waiting-delete n id e (x ∷ es) d h = elim (Bool-cases (pending_key x =s id)) [
  | inl hit ↦
      let key : pending_key x ≡ id = (eq_iff (pending_key x) id).0 hit in
      let rest : delete pending_key id es ≡ es =
        delete-absent pending_key id es (subst (λ k. has pending_key k es ≡ false) key d.0) in
      let same : x ≡ e = ground (arith, h, hit) in
      rw (hit, rest) (omega (arith, ap (λ (y : PendingEntry). one n y.ticket) same))
  | inr miss ↦ rw miss (omega (arith, count_waiting-delete n id e es d.1 (rw (miss, find) at h)))
]

count_waiting-append :
    (n : ℕ) (es : List PendingEntry) (e : PendingEntry)
    → count_waiting n (es ++ e ∷ []) ≡ count_waiting n es + one n e.ticket
count_waiting-append n [] e = ground arith
count_waiting-append n (x ∷ es) e = omega (arith, count_waiting-append n es e)

count_hooks-without :
    (n t : ℕ) (hs : List Hook)
    → count_hooks n (without t hs) ≡ (if n == t then 0 else count_hooks n hs)
count_hooks-without n t [] = ground arith
count_hooks-without n t (h ∷ hs) = ground (arith, count_hooks-without n t hs)

All-without_hook :
    (P Q : Hook → Type 0) (t : ℕ) (hs : List Hook)
    → ((k : Hook) → (k.ticket == t) ≡ false → P k → Q k)
    → All P hs
    → All Q (without t hs)
All-without_hook P Q t [] f h = tt
All-without_hook P Q t (k ∷ hs) f h = elim (Bool-cases (k.ticket == t)) [
  | inl gone ↦ rw gone (All-without_hook P Q t hs f h.1)
  | inr kept ↦ rw kept (f k kept h.0, All-without_hook P Q t hs f h.1)
]

-- A hook acts on the wait that it belongs to.
abbrev pub Names : List PendingEntry → Hook → Type 0
Names es h =
    (e : PendingEntry) × (find pending_key h.approval_id es ≡ some e) × (e.ticket ≡ h.ticket)

pub record EndsOnce (b : Broker) : Type 0 where
  pub tickets :
      (n : ℕ)
      → count_waiting n b.pending + count_settled n b.settled
        ≡ (if ltb n b.next_ticket then 1 else 0)
  pub timers : (n : ℕ) → count_hooks n b.timers ≡ count_waiting n b.pending
  pub listeners : (n : ℕ) → count_hooks n b.listeners ≤ count_waiting n b.pending
  pub timers_name : All (Names b.pending) b.timers
  pub listeners_name : All (Names b.pending) b.listeners

module _ (id : String) (e : PendingEntry) (state : HistoryState) (b : Broker)
    (there : find pending_key id b.pending ≡ some e) (bounded : IsBounded b) (h : EndsOnce b) where
  same_id : pending_key e ≡ id
  same_id = key-find pending_key id b.pending e there

  -- The ticket of the settled entry waits no longer; others wait as before.
  count_waiting-settle :
      (n : ℕ)
      → count_waiting n b.pending
        ≡ count_waiting n (delete pending_key (pending_key e) b.pending) + one n e.ticket
  count_waiting-settle n =
      rw same_id (count_waiting-delete n id e b.pending bounded.pending_keys there)

  Names-settle :
      (k : Hook)
      → (k.ticket == e.ticket) ≡ false
      → Names b.pending k
      → Names (delete pending_key (pending_key e) b.pending) k
  Names-settle k other (x, found, same) = (
    x,
    ground (
      arith,
      other,
      same,
      found,
      there,
      same_id,
      find-delete pending_key k.approval_id (pending_key e) b.pending,
      eq_iff (pending_key e) k.approval_id,
      ap (λ i. find pending_key i b.pending),
      ap (λ (y : PendingEntry). y.ticket),
    ),
    same,
  )

  settle-EndsOnce : EndsOnce (settle e state b)
  unfolding settle
  settle-EndsOnce = record {
    tickets = λ n. omega (arith, count_waiting-settle n, h.tickets n);
    timers = λ n. ground (
      arith,
      count_hooks-without n e.ticket b.timers,
      count_waiting-settle n,
      h.timers n,
      h.tickets n,
    );
    listeners = λ n. ground (
      arith,
      count_hooks-without n e.ticket b.listeners,
      count_waiting-settle n,
      h.listeners n,
      h.tickets n,
    );
    timers_name = All-without_hook _ _ e.ticket b.timers Names-settle h.timers_name;
    listeners_name = All-without_hook _ _ e.ticket b.listeners Names-settle h.listeners_name;
  }

module _ (r : ApprovalRequest) (b : Broker)
    (fresh : has pending_key r.approval_id b.pending ≡ false) (h : EndsOnce b) where
  opened : PendingEntry
  opened = record { request = r; ticket = b.next_ticket }

  count_waiting-put :
      (n : ℕ)
      → count_waiting n (put pending_key opened b.pending)
        ≡ count_waiting n b.pending + one n b.next_ticket
  unfolding opened
  count_waiting-put n =
      rw (put-append pending_key opened b.pending fresh) (count_waiting-append n b.pending opened)

  Names-put : (k : Hook) → Names b.pending k → Names (put pending_key opened b.pending) k
  unfolding opened
  Names-put k (x, found, same) = (
    x,
    ground (
      arith,
      found,
      find-put pending_key k.approval_id opened b.pending,
      find-none_of_has pending_key r.approval_id b.pending fresh,
      eq_iff r.approval_id k.approval_id,
      ap (λ i. find pending_key i b.pending),
    ),
    same,
  )

  Names-opened :
      Names
        (put pending_key opened b.pending)
        (record { ticket = b.next_ticket; approval_id = r.approval_id })
  unfolding opened
  Names-opened = (
    opened,
    rw (find-put pending_key r.approval_id opened b.pending, =s-refl r.approval_id),
    refl,
  )

  All-named :
      (hs : List Hook)
      → All (Names b.pending) hs
      → All (Names (put pending_key opened b.pending)) hs
  All-named hs = All-map hs Names-put

open_wait-EndsOnce :
    (r : ApprovalRequest) (signal : Signal) (b : Broker)
    → has pending_key r.approval_id b.pending ≡ false
    → EndsOnce b
    → EndsOnce (open_wait r signal b)
unfolding open_wait opened
open_wait-EndsOnce r signal b fresh h = record {
  tickets = λ n. ground (arith, count_waiting-put r b fresh h n, h.tickets n);
  timers = λ n. omega (arith, count_waiting-put r b fresh h n, h.timers n);
  listeners = λ n. listening signal n;
  timers_name = (Names-opened r b fresh h, All-named r b fresh h b.timers h.timers_name);
  listeners_name = named signal;
}
  where
    listening :
        (g : Signal) (n : ℕ)
        → count_hooks n (open_wait r g b).listeners ≤ count_waiting n (open_wait r g b).pending
    listening unwatched n = omega (arith, count_waiting-put r b fresh h n, h.listeners n)
    listening watched n = omega (arith, count_waiting-put r b fresh h n, h.listeners n)
    listening aborted n = omega (arith, count_waiting-put r b fresh h n, h.listeners n)

    named : (g : Signal) → All (Names (open_wait r g b).pending) (open_wait r g b).listeners
    named unwatched = All-named r b fresh h b.listeners h.listeners_name
    named watched = (Names-opened r b fresh h, All-named r b fresh h b.listeners h.listeners_name)
    named aborted = (Names-opened r b fresh h, All-named r b fresh h b.listeners h.listeners_name)

remember_request-EndsOnce :
    (r : ApprovalRequest) (state : HistoryState) (b : Broker)
    → EndsOnce b
    → EndsOnce (remember_request r state b)
unfolding remember_request
remember_request-EndsOnce r state b h = record {
  tickets = h.tickets;
  timers = h.timers;
  listeners = h.listeners;
  timers_name = h.timers_name;
  listeners_name = h.listeners_name;
}

used_pending :
    (b : Broker) (id : String) → is_used b id ≡ false → has pending_key id b.pending ≡ false
unfolding is_used
used_pending b id h = ground arith

-- In every history each wait that was opened is pending once or was settled once, and never both;
-- exactly the pending waits have an armed timer, at most they have an abort listener, and each of
-- these acts on the wait that it was made for.
pub Reach-EndsOnce : {b : Broker} → Reach b → EndsOnce b
Reach-EndsOnce r =
    (Reach_inv (λ b. IsBounded b × EndsOnce b)
      (λ o b e.
        let n = new-IsNew o b e in
        (
          Reach-IsBounded (Reach.start o e),
          record {
            tickets = λ m. rw (n.pending, n.settled, n.next_ticket) (ground arith);
            timers = λ m. rw (n.pending, n.timers) refl;
            listeners = λ m. rw (n.pending, n.listeners) (omega arith);
            timers_name = rw n.timers tt;
            listeners_name = rw n.listeners tt;
          },
        ))
      (λ id e state b there h.
        (settle-IsBounded id e state b there h.0, settle-EndsOnce id e state b there h.0 h.1))
      (λ q signal b room fresh h. (
        open_wait-IsBounded q signal b room fresh h.0,
        open_wait-EndsOnce q signal b (used_pending b q.approval_id fresh) h.1,
      ))
      (λ q state b fresh h.
        (remember_request-IsBounded q state b fresh h.0, remember_request-EndsOnce q state b h.1))
      r).1
