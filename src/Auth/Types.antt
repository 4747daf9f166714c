-- ===== src/Auth/Types.antt =====
-- The data of the access gate. Digests are texts of bytes; times are milliseconds.
use vibe_go.Base.{ℕ, String, Option, List, Bool}

pub data TransportMode : Type 0 where
  loopback lan tailscale ssh : TransportMode

pub data AuthFailureCode : Type 0 where
  auth_required invalid_token pairing_local_only pairing_required pairing_expired : AuthFailureCode
  account_local_only tls_required origin_forbidden csrf_required invalid_csrf : AuthFailureCode
  token_in_query_forbidden : AuthFailureCode

pub record PersistedSession : Type 0 where
  pub session_key : String
  pub csrf_digest : String
  pub session_id : String
  pub expires_at : ℕ
  pub created_at : ℕ

-- What `load` returns: a record whose fields have their types, or another value, with the text that
-- it has for its key, if it has one.
pub data Loaded : Type 0 where
  typed : PersistedSession → Loaded
  untyped : Option String → Loaded

-- A call of the storage behind the sessions.
pub data StorageCall : Type 0 where
  save : PersistedSession → StorageCall
  drop : String → StorageCall

pub record AuthGateOptions : Type 0 where
  pub mode : TransportMode
  pub auth_required : Option Bool
  pub tls_required : Option Bool
  pub token_ttl_ms : Option ℕ
  pub pairing_ttl_ms : Option ℕ
  pub allowed_origins : Option (List String)

-- A session of the map `sessions`, with its key there.
pub record Session : Type 0 where
  pub key : String
  pub session_id : String
  pub token_hash : String
  pub csrf_hash : String
  pub expires_at : ℕ
  pub durable : Bool

pub record PairingCode : Type 0 where
  pub code_hash : String
  pub expires_at : ℕ

-- `storage` is `none` while no persistence is bound; else the calls made to it, newest first.
pub record AuthGate : Type 0 where
  pub mode : TransportMode
  pub needs_auth : Bool
  pub needs_tls : Bool
  pub token_ttl_ms : ℕ
  pub pairing_ttl_ms : ℕ
  pub allowed_origins : List String
  pub storage : Option (List StorageCall)
  pub sessions : List Session
  pub pairing_code : Option PairingCode

pub record PairingStartResult : Type 0 where
  pub code : String
  pub expires_at : ℕ

-- The texts that the random bytes of a session are encoded to.
pub record Secrets : Type 0 where
  pub access_token : String
  pub csrf_token : String
  pub session_suffix : String

pub record PairingCompleteResult : Type 0 where
  pub access_token : String
  pub csrf_token : String
  pub session_id : String
  pub expires_at : ℕ

-- What a call that can fail gives: a session, the code of an `AuthGateError`, or the error for a
-- lifetime that is no positive safe integer.
pub data Issued : Type 0 where
  issued : PairingCompleteResult → Issued
  rejected : AuthFailureCode → Issued
  bad_ttl : Issued

pub record AuthRequest : Type 0 where
  pub method : String
  pub path : String
  pub remote_address : Option String
  pub secure : Bool
  pub authorization : Option String
  pub origin : Option String
  pub csrf_token : Option String
  pub has_query_token : Bool

pub data AuthDecision : Type 0 where
  allowed : Option String → AuthDecision
  fails : AuthFailureCode → AuthDecision

pub record AuthStatus : Type 0 where
  pub mode : TransportMode
  pub auth_required : Bool
  pub tls_required : Bool
  pub pairing_required : Bool
  pub insecure_transport : Bool
