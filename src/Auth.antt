-- ===== src/Auth.antt =====
-- packages/auth/src/index.ts: pairing, sessions and the check of each request.
-- SHA-256 (`sha256`, on the UTF-8 of a text) and the two directions of the hexadecimal encoding
-- (`hex`, `unhex`) are parameters, and the random texts are arguments; so is the time.
mod Text
mod Types
pub mod Access
pub mod Pairing
pub mod Sessions
pub mod Lifetimes
mod Examples
pub use Types.*
unfoldable pub use Text.*
use Prim.Native.String.{◌++◌ as ◌+s◌}
use vibe_go.Base.{
  ℕ, ◌+◌, String, Bool, true, false, not, ◌&&◌, ◌||◌, Option, none, some, List, [], ◌∷◌, ◌=s◌, ltb,
  leb, if◌then◌else◌, any, filter_by, max_safe_integer,
}
use vibe_go.Base.Keyed.{find, put, delete}

abbrev pub session_key : Session → String
session_key s = s.key

abbrev or_else {ℓ} : {A : Type ℓ} → Option A → A → A
or_else none d = d
or_else (some a) d = a

abbrev pub is_lan : TransportMode → Bool
is_lan lan = true
is_lan _ = false

abbrev pub is_loopback_mode : TransportMode → Bool
is_loopback_mode loopback = true
is_loopback_mode _ = false

pub positive_limit : ℕ → Option ℕ
positive_limit n = if ltb 0 n && leb n max_safe_integer then some n else none

-- The constructor, before a persistence is bound; `none` is the error of `positiveLimit`.
pub new : AuthGateOptions → Option AuthGate
unfolding positive_limit
new o = elim (positive_limit (or_else o.token_ttl_ms 86400000)) [
  | none ↦ none
  | some token_ttl ↦ elim (positive_limit (or_else o.pairing_ttl_ms 300000)) [
    | none ↦ none
    | some pairing_ttl ↦ some (record {
      mode = o.mode;
      needs_auth = or_else o.auth_required (is_lan o.mode);
      needs_tls = or_else o.tls_required (is_lan o.mode);
      token_ttl_ms = token_ttl;
      pairing_ttl_ms = pairing_ttl;
      allowed_origins = or_else o.allowed_origins [];
      storage = none;
      sessions = [];
      pairing_code = none;
    })
  ]
]

-- `this.sessionPersistence?.…`
abbrev pub call : StorageCall → Option (List StorageCall) → Option (List StorageCall)
call c none = none
call c (some cs) = some (c ∷ cs)

pub is_persisted_session : PersistedSession → Bool
is_persisted_session p =
    is_digest p.session_key
    && is_digest p.csrf_digest
    && ltb 0 (units (codes p.session_id))
    && leb (units (codes p.session_id)) 128
    && leb p.expires_at max_safe_integer
    && leb p.created_at max_safe_integer

-- The loop of `purgeExpired` over the sessions: the storage after it.
pub drop_expired : ℕ → List Session → Option (List StorageCall) → Option (List StorageCall)
drop_expired at [] storage = storage
drop_expired at (s ∷ ss) storage =
    drop_expired at ss
      (if leb s.expires_at at && s.durable then call (drop s.key) storage else storage)

abbrev pub is_fresh : ℕ → Option PairingCode → Option PairingCode
is_fresh at none = none
is_fresh at (some p) = if leb p.expires_at at then none else some p

pub purge_expired : ℕ → AuthGate → AuthGate
unfolding drop_expired
purge_expired at g = record g {
  sessions = filter_by (λ s. ltb at s.expires_at) g.sessions;
  storage = drop_expired at g.sessions g.storage;
  pairing_code = is_fresh at g.pairing_code;
}

pub status : ℕ → AuthGate → AuthGate × AuthStatus
unfolding purge_expired
status at g =
    let h = purge_expired at g in
    (
      h,
      record {
        mode = h.mode;
        auth_required = h.needs_auth;
        tls_required = h.needs_tls;
        pairing_required = elim h.sessions [ [] ↦ h.needs_auth | (s ∷ ss) ↦ false ];
        insecure_transport = not h.needs_tls;
      },
    )

-- The first session of the id; its key is deleted.
pub find_id : String → List Session → Option Session
find_id id [] = none
find_id id (s ∷ ss) = if s.session_id =s id then some s else find_id id ss

pub revoke : String → AuthGate → AuthGate × Bool
unfolding find_id
revoke id g = elim (find_id id g.sessions) [
  | none ↦ (g, false)
  | some s ↦ (
    record g {
      sessions = delete session_key s.key g.sessions;
      storage = if s.durable then call (drop s.key) g.storage else g.storage;
    },
    true,
  )
]

-- The paths that need no session, decided by the address and the transport.
pub open_path : AuthGate → AuthRequest → Option AuthDecision
open_path g r =
    let path = before_query r.path in
    if r.has_query_token || names_token r.path
    then some (fails token_in_query_forbidden)
    else if (path =s "/health") || (path =s "/api/v1/health")
    then some (allowed none)
    else if path =s "/api/v1/pairing/start"
    then some
        (if is_loopback_address r.remote_address then allowed none else fails pairing_local_only)
    else if path =s "/api/v1/pairing/complete"
    then some (
        if g.needs_tls && not r.secure && not (is_loopback_address r.remote_address)
        then fails tls_required
        else allowed none)
    else if path =s "/api/v1/account/create"
    then some
        (if is_loopback_address r.remote_address then allowed none else fails account_local_only)
    else if path =s "/api/v1/account/login"
    then some (
        if g.needs_tls && not r.secure && not (is_loopback_address r.remote_address)
        then fails tls_required
        else allowed none)
    else none

module _ (sha256 hex unhex : String → String) where
  -- One record of the loop of `bindSessionPersistence`.
  pub restore : ℕ → Loaded → AuthGate → AuthGate
  unfolding is_persisted_session
  restore at (untyped key) g = record g { storage = call (drop (or_else key "")) g.storage }
  restore at (typed p) g =
      if not (is_persisted_session p) || leb p.expires_at at
      then record g { storage = call (drop p.session_key) g.storage }
      else record g {
        sessions =
            put session_key
              (record {
                key = p.session_key;
                session_id = p.session_id;
                token_hash = unhex p.session_key;
                csrf_hash = unhex p.csrf_digest;
                expires_at = p.expires_at;
                durable = true;
              })
              g.sessions;
      }

  restore_all : ℕ → List Loaded → AuthGate → AuthGate
  unfolding restore
  restore_all at [] g = g
  restore_all at (l ∷ ls) g = restore_all at ls (restore at l g)

  -- `none` is the error for a persistence that is bound already.
  pub bind_session_persistence : ℕ → List Loaded → AuthGate → Option AuthGate
  unfolding restore_all
  bind_session_persistence at loaded g = elim g.storage [
    | some calls ↦ none
    | none ↦ some (restore_all at loaded (record g { storage = some [] }))
  ]

  pub start_pairing : String → ℕ → AuthGate → AuthGate × PairingStartResult
  start_pairing code at g = (
    record g {
      pairing_code = some (record { code_hash = sha256 code; expires_at = at + g.pairing_ttl_ms });
    },
    record { code = code; expires_at = at + g.pairing_ttl_ms },
  )

  pub new_session : Secrets → ℕ → Bool → Session
  new_session s expires_at durable = record {
    key = hex (sha256 s.access_token);
    session_id = "session_" +s s.session_suffix;
    token_hash = sha256 s.access_token;
    csrf_hash = sha256 s.csrf_token;
    expires_at = expires_at;
    durable = durable;
  }

  persisted : Secrets → ℕ → ℕ → PersistedSession
  persisted s expires_at at = record {
    session_key = hex (sha256 s.access_token);
    csrf_digest = hex (sha256 s.csrf_token);
    session_id = "session_" +s s.session_suffix;
    expires_at = expires_at;
    created_at = at;
  }

  -- The session is stored once its end is known.
  pub add_session : Secrets → ℕ → ℕ → Bool → AuthGate → AuthGate × Issued
  unfolding new_session persisted
  add_session s at expires_at durable g = (
    record g {
      sessions = put session_key (new_session s expires_at durable) g.sessions;
      storage = if durable then call (save (persisted s expires_at at)) g.storage else g.storage;
    },
    issued (record {
      access_token = s.access_token;
      csrf_token = s.csrf_token;
      session_id = "session_" +s s.session_suffix;
      expires_at = expires_at;
    }),
  )

  pub issue_session : Secrets → ℕ → Option ℕ → Bool → AuthGate → AuthGate × Issued
  issue_session s at none durable g = add_session s at (at + g.token_ttl_ms) durable g
  issue_session s at (some ttl) durable g = elim (positive_limit ttl) [
    | none ↦ (g, bad_ttl)
    | some n ↦ add_session s at (at + n) durable g
  ]

  abbrev pub bad_code : String → Bool
  bad_code code = (code =s "") || ltb 64 (units (codes code))

  -- The code is used up, whatever comes of it.
  pub complete_pairing : String → Secrets → ℕ → AuthGate → AuthGate × Issued
  complete_pairing code s at g = elim g.pairing_code [
    | none ↦ (g, rejected pairing_required)
    | some p ↦
        let used = record g { pairing_code = none } in
        if leb p.expires_at at
        then (used, rejected pairing_expired)
        else if bad_code code
        then (used, rejected pairing_required)
        else if not (p.code_hash =s sha256 code)
        then (used, rejected pairing_required)
        else issue_session s at none false used
  ]

  pub find_session : String → AuthGate → Option Session
  find_session token g = elim (find session_key (hex (sha256 token)) g.sessions) [
    | none ↦ none
    | some s ↦ if s.token_hash =s sha256 token then some s else none
  ]

  -- The check of a request of the browser that holds the session.
  pub check_origin : AuthGate → AuthRequest → Session → AuthDecision
  check_origin g r s = elim r.origin [
    | none ↦ allowed (some s.session_id)
    | some origin ↦
        if not (any (λ o. o =s origin) g.allowed_origins)
        then fails origin_forbidden
        else if is_safe_method r.method
        then allowed (some s.session_id)
        else elim r.csrf_token [
          | none ↦ fails csrf_required
          | some token ↦
              if token =s ""
              then fails csrf_required
              else if s.csrf_hash =s sha256 token
              then allowed (some s.session_id)
              else fails invalid_csrf
        ]
  ]

  pub check_session : AuthGate → AuthRequest → AuthDecision
  unfolding find_session check_origin
  check_session g r = elim (parse_bearer r.authorization) [
    | none ↦ fails auth_required
    | some token ↦ elim (find_session token g) [
      | none ↦ fails invalid_token
      | some s ↦ check_origin g r s
    ]
  ]

  -- What `authorize` decides once the expired sessions are gone.
  pub decide : AuthGate → AuthRequest → AuthDecision
  unfolding open_path check_session
  decide g r = elim (open_path g r) [
    | some d ↦ d
    | none ↦
        if g.needs_tls && not r.secure && not (is_loopback_mode g.mode)
        then fails tls_required
        else if not g.needs_auth
        then allowed none
        else check_session g r
  ]

  pub authorize : AuthRequest → ℕ → AuthGate → AuthGate × AuthDecision
  unfolding purge_expired decide
  authorize r at g = let h = purge_expired at g in (h, decide h r)
