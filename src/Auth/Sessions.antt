-- ===== src/Auth/Sessions.antt =====
-- The life of a session: from its issue to its end or its revocation.
use vibe_go.Base.{
  ℕ, ◌+◌, ◌≡◌, subst, inl, inr, Bool, false, not, ◌||◌, Option, none, some, List, [], ◌∷◌, String,
  arith, ltb, leb, Bool-cases, Option-cases,
}
use vibe_go.Base.Keyed.{Distinct, Distinct-put, Distinct-delete, Distinct-filter_by}
use vibe_go.Auth.{
  AuthGate, AuthGateOptions, AuthRequest, Loaded, typed, untyped, Secrets, session_key, find_id,
  purge_expired, status, authorize, new, start_pairing, add_session, issue_session,
  complete_pairing, revoke, restore, restore_all, positive_limit, bind_session_persistence,
  is_persisted_session,
}

module _ (sha256 hex unhex : String → String) where
  -- What the daemon can do with a gate, in any order.
  pub data Step (g : AuthGate) : AuthGate → Type 0 where
    binds :
        (at : ℕ) (loaded : List Loaded) {h : AuthGate}
        → bind_session_persistence sha256 hex unhex at loaded g ≡ some h
        → Step g h
    reports : (at : ℕ) → Step g (status at g).0
    starts : (code : String) (at : ℕ) → Step g (start_pairing sha256 hex unhex code at g).0
    completes :
        (code : String) (s : Secrets) (at : ℕ)
        → Step g (complete_pairing sha256 hex unhex code s at g).0
    issues :
        (s : Secrets) (at : ℕ) (ttl : Option ℕ) (durable : Bool)
        → Step g (issue_session sha256 hex unhex s at ttl durable g).0
    revokes : (id : String) → Step g (revoke id g).0
    authorizes : (r : AuthRequest) (at : ℕ) → Step g (authorize sha256 hex unhex r at g).0

  pub data Reach : AuthGate → Type 0 where
    start : (o : AuthGateOptions) {g : AuthGate} → new o ≡ some g → Reach g
    next : {g h : AuthGate} → Reach g → Step g h → Reach h

  -- No key stands twice in the map of sessions.
  abbrev pub IsMap : AuthGate → Type 0
  IsMap g = Distinct session_key g.sessions

  purge_expired-IsMap : (at : ℕ) (g : AuthGate) → IsMap g → IsMap (purge_expired at g)
  unfolding purge_expired
  purge_expired-IsMap at g h =
      Distinct-filter_by session_key (λ s. ltb at s.expires_at) g.sessions h

  add_session-IsMap :
      (s : Secrets) (at end : ℕ) (durable : Bool) (g : AuthGate)
      → IsMap g
      → IsMap (add_session sha256 hex unhex s at end durable g).0
  unfolding add_session
  add_session-IsMap s at end durable g h = Distinct-put session_key _ g.sessions h

  issue_session-IsMap :
      (s : Secrets) (at : ℕ) (ttl : Option ℕ) (durable : Bool) (g : AuthGate)
      → IsMap g
      → IsMap (issue_session sha256 hex unhex s at ttl durable g).0
  unfolding issue_session
  issue_session-IsMap s at none durable g h =
      add_session-IsMap s at (at + g.token_ttl_ms) durable g h
  issue_session-IsMap s at (some ttl) durable g h = elim (Option-cases (positive_limit ttl)) [
    | inl bad ↦ rw (bad, issue_session) h
    | inr (n, good) ↦ rw (good, issue_session) (add_session-IsMap s at (at + n) durable g h)
  ]

  restore-IsMap :
      (at : ℕ) (l : Loaded) (g : AuthGate) → IsMap g → IsMap (restore sha256 hex unhex at l g)
  unfolding restore
  restore-IsMap at (untyped k) g h = h
  restore-IsMap at (typed p) g h =
      elim (Bool-cases (not (is_persisted_session p) || leb p.expires_at at)) [
        | inl bad ↦ rw (bad, restore) h
        | inr good ↦ rw (good, restore) (Distinct-put session_key _ g.sessions h)
      ]

  restore_all-IsMap :
      (at : ℕ) (ls : List Loaded) (g : AuthGate)
      → IsMap g
      → IsMap (restore_all sha256 hex unhex at ls g)
  unfolding restore_all
  restore_all-IsMap at [] g h = h
  restore_all-IsMap at (l ∷ ls) g h =
      restore_all-IsMap at ls (restore sha256 hex unhex at l g) (restore-IsMap at l g h)

  complete_pairing-IsMap :
      (code : String) (s : Secrets) (at : ℕ) (g : AuthGate)
      → IsMap g
      → IsMap (complete_pairing sha256 hex unhex code s at g).0
  unfolding complete_pairing
  complete_pairing-IsMap code s at g h = elim (Option-cases g.pairing_code) [
    | inl idle ↦ rw (idle, complete_pairing) h
    | inr (p, started) ↦
        rw (started, complete_pairing)
          (ground
            (arith, h, issue_session-IsMap s at none false (record g { pairing_code = none }) h))
  ]

  revoke-IsMap : (id : String) (g : AuthGate) → IsMap g → IsMap (revoke id g).0
  unfolding revoke
  revoke-IsMap id g h = elim (Option-cases (find_id id g.sessions)) [
    | inl missing ↦ rw (missing, revoke) h
    | inr (s, there) ↦ rw (there, revoke) (Distinct-delete session_key s.key g.sessions h)
  ]

  Step-IsMap : {g h : AuthGate} → Step g h → IsMap g → IsMap h
  unfolding bind_session_persistence status start_pairing authorize
  Step-IsMap {g} {h} (Step.binds at loaded e) m = elim (Option-cases g.storage) [
    | inr (calls, bound) ↦ absurd (ground arith)
    | inl free ↦
        let same : restore_all sha256 hex unhex at loaded (record g { storage = some [] }) ≡ h =
          ground (arith, free, e) in
        subst IsMap same (restore_all-IsMap at loaded (record g { storage = some [] }) m)
  ]
  Step-IsMap {g} (Step.reports at) m = purge_expired-IsMap at g m
  Step-IsMap {g} (Step.starts code at) m = m
  Step-IsMap {g} (Step.completes code s at) m = complete_pairing-IsMap code s at g m
  Step-IsMap {g} (Step.issues s at ttl durable) m = issue_session-IsMap s at ttl durable g m
  Step-IsMap {g} (Step.revokes id) m = revoke-IsMap id g m
  Step-IsMap {g} (Step.authorizes r at) m = purge_expired-IsMap at g m

  new-IsMap : (o : AuthGateOptions) (g : AuthGate) → new o ≡ some g → IsMap g
  unfolding new
  new-IsMap o g h = let empty : g.sessions ≡ [] = ground arith in rw empty tt

  pub Reach-IsMap : {g : AuthGate} → Reach g → IsMap g
  Reach-IsMap (Reach.start o {g} e) = new-IsMap o g e
  Reach-IsMap (Reach.next r step) = Step-IsMap step (Reach-IsMap r)
