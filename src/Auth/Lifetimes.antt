-- ===== src/Auth/Lifetimes.antt =====
-- The life of a session: from its issue to its end or its revocation.
use vibe_go.Base.{
  ◌⊎◌, any, ℕ, ◌≡◌, true, false, not, ◌&&◌, Option, none, some, String, ◌=s◌, ltb, if◌then◌else◌,
}
use vibe_go.Auth.{
  is_safe_method, AuthGate, AuthRequest, AuthDecision, fails, invalid_token, Session,
  is_loopback_mode, parse_bearer, open_path, check_origin,
}

-- The request comes from no browser; or from a page of an origin that the gate allows, and reads, or
-- presents the CSRF token.
abbrev pub IsAdmitted : AuthGate → AuthRequest → String → Type 0
IsAdmitted g r csrf =
    (r.origin ≡ none)
    ⊎ ((origin : String) × (r.origin ≡ some origin)
        × (any (λ o. o =s origin) g.allowed_origins ≡ true)
        × ((is_safe_method r.method ≡ true)
            ⊎ ((r.csrf_token ≡ some csrf) × ((csrf =s "") ≡ false))))

-- A request of a client for a path that needs a session, over a transport that the gate takes, with the
-- token of a session, and from a page only as the gate wants it.
pub record IsPresented (g : AuthGate) (r : AuthRequest) (token csrf : String) : Type 0 where
  pub closed : open_path g r ≡ none
  pub transport : (g.needs_tls && not r.secure && not (is_loopback_mode g.mode)) ≡ false
  pub strict : g.needs_auth ≡ true
  pub presented : parse_bearer r.authorization ≡ some token
  pub admitted : IsAdmitted g r csrf

module _ (sha256 hex unhex : String → String) where
  -- What the gate answers to such a request: it turns on the session under the token's key, and then on
  -- the check of the browser.
  answer : ℕ → AuthGate → AuthRequest → String → Option Session → AuthDecision
  answer t g r token none = fails invalid_token
  answer t g r token (some s) =
      if ltb t s.expires_at && (s.token_hash =s sha256 token)
      then check_origin sha256 hex unhex g r s
      else fails invalid_token
