-- ===== src/Auth/Access.antt =====
-- Which requests the gate lets through.
use vibe_go.Base.{
  ℕ, ◌<◌, ◌≡◌, refl, sym, subst, ◌∙◌, ◌⊎◌, inl, inr, true, false, not, ◌&&◌, Option, none, some,
  List, [], ◌∷◌, String, ◌=s◌, any, filter_by, arith, ltb, Bool-cases, Option-cases, All, =s→eq,
  ltb→lt,
}
use vibe_go.Base.Keyed.{find, All-find}
use vibe_go.Auth.{
  AuthGate, AuthRequest, allowed, Session, session_key, is_loopback_mode, is_loopback_address,
  is_safe_method, parse_bearer, names_token, before_query, find_session, check_origin,
  check_session, open_path, decide, purge_expired, authorize,
}

-- The request names a browser's origin only if it is allowed, and then a method that may change
-- something only with the CSRF token of the session.
pub IsCheckedOrigin : (String → String) → AuthGate → AuthRequest → Session → Type 0
IsCheckedOrigin sha256 g r s =
    (o : String)
    → r.origin ≡ some o
    → (any (λ x. x =s o) g.allowed_origins ≡ true)
      × (is_safe_method r.method ≡ false
          → (t : String) × (r.csrf_token ≡ some t) × (s.csrf_hash ≡ sha256 t))

-- The request presents the token of a session that has not run out.
pub record IsAuthenticated (sha256 hex : String → String) (at : ℕ) (g : AuthGate) (r : AuthRequest)
    (id : String) : Type 0 where
  pub token : String
  pub session : Session
  pub presented : parse_bearer r.authorization ≡ some token
  pub known :
      find session_key (hex (sha256 token)) (filter_by (λ s. ltb at s.expires_at) g.sessions)
      ≡ some session
  pub fresh : at < session.expires_at
  pub proved : session.token_hash ≡ sha256 token
  pub named : session.session_id ≡ id
  pub origin : IsCheckedOrigin sha256 g r session

-- A path that needs no session, with what it needs of the address and the transport.
pub data IsOpen (g : AuthGate) (r : AuthRequest) : String → Type 0 where
  health : IsOpen g r "/health"
  api_health : IsOpen g r "/api/v1/health"
  pairing_start : is_loopback_address r.remote_address ≡ true → IsOpen g r "/api/v1/pairing/start"
  pairing_complete :
      (g.needs_tls ≡ true → r.secure ≡ false → is_loopback_address r.remote_address ≡ true)
      → IsOpen g r "/api/v1/pairing/complete"
  account_create : is_loopback_address r.remote_address ≡ true → IsOpen g r "/api/v1/account/create"
  account_login :
      (g.needs_tls ≡ true → r.secure ≡ false → is_loopback_address r.remote_address ≡ true)
      → IsOpen g r "/api/v1/account/login"

filter_by-All :
    (at : ℕ) (ss : List Session)
    → All (λ s. ltb at s.expires_at ≡ true) (filter_by (λ s. ltb at s.expires_at) ss)
filter_by-All at [] = tt
filter_by-All at (s ∷ ss) = ground (arith, filter_by-All at ss)

at_path :
    (g : AuthGate) (r : AuthRequest) (p : String)
    → (before_query r.path =s p) ≡ true
    → IsOpen g r p
    → IsOpen g r (before_query r.path)
at_path g r p h o = subst (IsOpen g r) (sym (=s→eq (before_query r.path) p h)) o

open_path-IsOpen :
    (g : AuthGate) (r : AuthRequest) (d : Option String)
    → open_path g r ≡ some (allowed d)
    → (r.has_query_token ≡ false)
      × (names_token r.path ≡ false)
      × IsOpen g r (before_query r.path)
      × (d ≡ none)
unfolding open_path
open_path-IsOpen g r d h =
    let at = at_path g r in
    (
      ground arith,
      ground arith,
      elim (Bool-cases (before_query r.path =s "/health")) [
        | inl e ↦ at "/health" e IsOpen.health
        | inr a ↦ elim (Bool-cases (before_query r.path =s "/api/v1/health")) [
          | inl e ↦ at "/api/v1/health" e IsOpen.api_health
          | inr b ↦ elim (Bool-cases (before_query r.path =s "/api/v1/pairing/start")) [
            | inl e ↦ at "/api/v1/pairing/start" e (IsOpen.pairing_start (ground arith))
            | inr c ↦ elim (Bool-cases (before_query r.path =s "/api/v1/pairing/complete")) [
              | inl e ↦
                  at "/api/v1/pairing/complete" e (IsOpen.pairing_complete (λ t u. ground arith))
              | inr k ↦ elim (Bool-cases (before_query r.path =s "/api/v1/account/create")) [
                | inl e ↦ at "/api/v1/account/create" e (IsOpen.account_create (ground arith))
                | inr m ↦ elim (Bool-cases (before_query r.path =s "/api/v1/account/login")) [
                  | inl e ↦
                      at "/api/v1/account/login" e (IsOpen.account_login (λ t u. ground arith))
                  | inr n ↦ absurd (ground arith)
                ]
              ]
            ]
          ]
        ]
      ],
      ground arith,
    )

open_path-query :
    (g : AuthGate) (r : AuthRequest)
    → open_path g r ≡ none
    → (r.has_query_token ≡ false) × (names_token r.path ≡ false)
unfolding open_path
open_path-query g r h = ground arith

pub open_path_purge :
    (at : ℕ) (g : AuthGate) (r : AuthRequest) → open_path (purge_expired at g) r ≡ open_path g r
unfolding open_path purge_expired
open_path_purge at g r = refl

module _ (sha256 hex unhex : String → String) where
  find_session-some :
      (token : String) (g : AuthGate) (s : Session)
      → find_session sha256 hex unhex token g ≡ some s
      → (find session_key (hex (sha256 token)) g.sessions ≡ some s) × (s.token_hash ≡ sha256 token)
  unfolding find_session
  find_session-some token g s h =
      elim (Option-cases (find session_key (hex (sha256 token)) g.sessions)) [
        | inl missing ↦ absurd (ground arith)
        | inr (t, there) ↦ ground (arith, =s→eq t.token_hash (sha256 token))
      ]

  check_origin-allowed :
      (g : AuthGate) (r : AuthRequest) (s : Session) (d : Option String)
      → check_origin sha256 hex unhex g r s ≡ allowed d
      → IsCheckedOrigin sha256 g r s × (d ≡ some s.session_id)
  unfolding check_origin IsCheckedOrigin
  check_origin-allowed g r s d h = elim (Option-cases r.origin) [
    | inl direct ↦ ((λ o e. absurd (ground arith)), ground arith)
    | inr (o, named) ↦ elim (Bool-cases (is_safe_method r.method)) [
      | inl safe ↦ ((λ o' e. (ground arith, (λ unsafe. absurd (ground arith)))), ground arith)
      | inr unsafe ↦ elim (Option-cases r.csrf_token) [
        | inl missing ↦ absurd (ground arith)
        | inr (t, given) ↦ (
          (λ o' e. (ground arith, (λ u. (t, given, =s→eq s.csrf_hash (sha256 t) (ground arith))))),
          ground arith,
        )
      ]
    ]
  ]

  check_session-allowed :
      (at : ℕ) (g : AuthGate) (r : AuthRequest) (d : Option String)
      → check_session sha256 hex unhex (purge_expired at g) r ≡ allowed d
      → (id : String) × (d ≡ some id) × IsAuthenticated sha256 hex at g r id
  unfolding check_session purge_expired IsCheckedOrigin
  check_session-allowed at g r d h = elim (Option-cases (parse_bearer r.authorization)) [
    | inl silent ↦ absurd (ground arith)
    | inr (token, presented) ↦
        elim (Option-cases (find_session sha256 hex unhex token (purge_expired at g))) [
          | inl unknown ↦ absurd (ground arith)
          | inr (s, found) ↦
              let (known, proved) = find_session-some token (purge_expired at g) s found in
              let (origin, same) =
                check_origin-allowed (purge_expired at g) r s d
                  (ground (arith, h, presented, found)) in
              (
                s.session_id,
                same,
                record {
                  token = token;
                  session = s;
                  presented = presented;
                  known = known;
                  fresh = ltb→lt at s.expires_at (
                      All-find session_key (λ x. ltb at x.expires_at ≡ true) _ _ s
                        (filter_by-All at g.sessions) known);
                  proved = proved;
                  named = refl;
                  origin = origin;
                },
              )
        ]
  ]

  -- A request that is let through is of one of three kinds. It is for an open path, from an address or
  -- over a transport that the path takes; or the gate asks for no sessions; or it is authenticated,
  -- and then the decision names its session: it presents the token of a session that has not run out,
  -- a browser's origin is an allowed one, and a browser that may change something also presents the
  -- CSRF token of this session. In each case no token stands in the query, and outside the open paths
  -- a gate that needs TLS has it, or is bound to the loopback.
  pub authorize-allowed :
      (r : AuthRequest) (at : ℕ) (g : AuthGate) (d : Option String)
      → (authorize sha256 hex unhex r at g).1 ≡ allowed d
      → (r.has_query_token ≡ false)
        × (names_token r.path ≡ false)
        × ((IsOpen g r (before_query r.path) × (d ≡ none))
            ⊎ ((g.needs_tls ≡ true → is_loopback_mode g.mode ≡ false → r.secure ≡ true)
                × (((g.needs_auth ≡ false) × (d ≡ none))
                    ⊎ ((id : String) × (d ≡ some id) × IsAuthenticated sha256 hex at g r id))))
  unfolding authorize decide purge_expired
  authorize-allowed r at g d h = elim (Option-cases (open_path g r)) [
    | inr (e, opened) ↦
        let (query, path, open_to, none_named) =
          open_path-IsOpen g r d (ground (arith, open_path_purge at g r)) in
        (query, path, inl (open_to, none_named))
    | inl closed ↦
        let (query, path) = open_path-query g r closed in
        let shut : open_path (purge_expired at g) r ≡ none = open_path_purge at g r ∙ closed in
        (
          query,
          path,
          elim (Bool-cases (g.needs_tls && not r.secure && not (is_loopback_mode g.mode))) [
            | inl bare ↦ absurd (ground (arith, shut))
            | inr tls ↦ inr (
              (λ t m. ground (arith, tls)),
              elim (Bool-cases g.needs_auth) [
                | inr lax ↦ inl (lax, ground (arith, shut))
                | inl strict ↦
                    inr (check_session-allowed at g r d (ground (arith, shut, tls, strict)))
              ],
            )
          ],
        )
  ]
