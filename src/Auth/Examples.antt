-- ===== src/Auth/Examples.antt =====
-- A gate on the local network that has issued one session; texts stand for their own digests.
use vibe_go.Base.{◌+◌, ◌<◌, ◌≤◌, ◌≡◌, ◌≢◌, ◌⊎◌, refl, String, true, false, none, some, []}
use vibe_go.Base.Keyed.{find, put}
use vibe_go.Auth.{
  AuthGate, AuthGateOptions, AuthRequest, allowed, lan, Secrets, PairingCode, PairingCompleteResult,
  issued, rejected, pairing_required, pairing_expired, issue_session, add_session, new_session,
  start_pairing, complete_pairing, authorize, bad_code, before_query, names_token, is_loopback_mode,
  open_path, parse_bearer, decide, check_session, find_session, check_origin, purge_expired, trim,
  is_loopback_address,
}
use vibe_go.Auth.Access.{IsOpen, IsAuthenticated, authorize-allowed}
use vibe_go.Auth.Pairing.{complete_pairing_once, start_pairing-complete_pairing}

abbrev same : String → String
same s = s

abbrev options : AuthGateOptions
options = record {
  mode = lan;
  auth_required = none;
  tls_required = none;
  token_ttl_ms = some 100;
  pairing_ttl_ms = some 10;
  allowed_origins = none;
}

abbrev gate : AuthGate
gate = record {
  mode = lan;
  needs_auth = true;
  needs_tls = true;
  token_ttl_ms = 100;
  pairing_ttl_ms = 10;
  allowed_origins = [];
  storage = none;
  sessions = [];
  pairing_code = none;
}

abbrev secrets : Secrets
secrets = record { access_token = "abc"; csrf_token = "def"; session_suffix = "1" }

abbrev session : PairingCompleteResult
session = record {
  access_token = "abc";
  csrf_token = "def";
  session_id = "session_1";
  expires_at = 105;
}

abbrev id_1 : String
id_1 = "session_1"

abbrev other_text : String
other_text = "other"

abbrev request : AuthRequest
request = record {
  method = "GET";
  path = "/api/v1/runs";
  remote_address = none;
  secure = true;
  authorization = some "Bearer abc";
  origin = none;
  csrf_token = none;
  has_query_token = false;
}

abbrev issuing : AuthGate
issuing = (issue_session same same same secrets 5 none false gate).0

authorizes : (authorize same same same request 50 issuing).1 ≡ allowed (some "session_1")
unfolding authorize decide issue_session add_session new_session open_path parse_bearer before_query
    names_token trim is_loopback_address purge_expired check_session find_session check_origin find
    put
authorizes = refl

authorize-allowed_example :
    (false ≡ false)
    × (names_token "/api/v1/runs" ≡ false)
    × ((IsOpen issuing request (before_query "/api/v1/runs") × (some id_1 ≡ none))
        ⊎ ((issuing.needs_tls ≡ true → is_loopback_mode issuing.mode ≡ false → true ≡ true)
            × (((issuing.needs_auth ≡ false) × (some id_1 ≡ none))
                ⊎ ((id : String) × (some id_1 ≡ some id)
                    × IsAuthenticated same same 50 issuing request id))))
authorize-allowed_example =
    authorize-allowed same same same request 50 issuing (some "session_1") authorizes

complete_pairing_once_example :
    let started = (start_pairing same same same "code" 5 gate).0 in
    ((complete_pairing same same same "code" secrets 7
        (complete_pairing same same same "code" secrets 6 started).0).1
      ≡ rejected pairing_required)
    × ((r : PairingCompleteResult)
        → (complete_pairing same same same "code" secrets 6 started).1 ≡ issued r
        → (p : PairingCode) × (started.pairing_code ≡ some p)
          × (6 < p.expires_at)
          × (p.code_hash ≡ "code"))
complete_pairing_once_example =
    complete_pairing_once same same same "code" "code" secrets secrets 6 7
      (start_pairing same same same "code" 5 gate).0

start_pairing-complete_pairing_example :
    let started = (start_pairing same same same "code" 5 gate).0 in
    (bad_code same same same "code" ≡ false
      → 6 < 5 + 10
      → complete_pairing same same same "code" secrets 6 started
        ≡ issue_session same same same secrets 6 none false (record gate { pairing_code = none }))
    × (5 + 10 ≤ 6
        → (complete_pairing same same same other_text secrets 6 started).1
          ≡ rejected pairing_expired)
    × (other_text ≢ "code"
        → 6 < 5 + 10
        → (complete_pairing same same same other_text secrets 6 started).1
          ≡ rejected pairing_required)
start_pairing-complete_pairing_example =
    start_pairing-complete_pairing same same same "code" other_text secrets 5 6 gate
