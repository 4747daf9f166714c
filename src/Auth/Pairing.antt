-- ===== src/Auth/Pairing.antt =====
-- Pairing: a code is used at most once, and until it runs out.
use vibe_go.Base.{
  ℕ, ◌+◌, ◌<◌, ◌≤◌, ◌≡◌, refl, inl, inr, false, none, some, String, arith, Option-cases, =s→eq,
  =s-refl, ◌≢◌, eq_iff,
}
use vibe_go.Auth.{
  AuthGate, PairingCode, Secrets, issued, rejected, pairing_required, pairing_expired,
  PairingCompleteResult, bad_code, start_pairing, add_session, issue_session, complete_pairing,
}

module _ (sha256 hex unhex : String → String) where
  issue_session-pairing_code :
      (s : Secrets) (at : ℕ) (g : AuthGate)
      → (issue_session sha256 hex unhex s at none false g).0.pairing_code ≡ g.pairing_code
  unfolding issue_session add_session
  issue_session-pairing_code s at g = refl

  complete_pairing-pairing_code :
      (code : String) (s : Secrets) (at : ℕ) (g : AuthGate)
      → (complete_pairing sha256 hex unhex code s at g).0.pairing_code ≡ none
  unfolding complete_pairing
  complete_pairing-pairing_code code s at g = elim (Option-cases g.pairing_code) [
    | inl idle ↦ rw (idle, complete_pairing) idle
    | inr (p, started) ↦
        rw (started, complete_pairing)
          (ground (arith, issue_session-pairing_code s at (record g { pairing_code = none })))
  ]

  complete_pairing_idle :
      (code : String) (s : Secrets) (at : ℕ) (g : AuthGate)
      → g.pairing_code ≡ none
      → (complete_pairing sha256 hex unhex code s at g).1 ≡ rejected pairing_required
  unfolding complete_pairing
  complete_pairing_idle code s at g idle = rw (idle, complete_pairing) refl

  -- Between two starts of a pairing at most one attempt can succeed: whatever an attempt gave, the
  -- next one is rejected. One that succeeds met a code that had not run out and whose digest is that
  -- of the text that was sent.
  pub complete_pairing_once :
      (code again : String) (s s' : Secrets) (at later : ℕ) (g : AuthGate)
      → ((complete_pairing sha256 hex unhex again s' later
            (complete_pairing sha256 hex unhex code s at g).0).1
          ≡ rejected pairing_required)
        × ((r : PairingCompleteResult)
            → (complete_pairing sha256 hex unhex code s at g).1 ≡ issued r
            → (p : PairingCode) × (g.pairing_code ≡ some p)
              × (at < p.expires_at)
              × (p.code_hash ≡ sha256 code))
  unfolding complete_pairing
  complete_pairing_once code again s s' at later g = (
    complete_pairing_idle again s' later _ (complete_pairing-pairing_code code s at g),
    (λ r h. elim (Option-cases g.pairing_code) [
      | inl idle ↦ absurd (ground arith)
      | inr (p, started) ↦
          (p, started, ground arith, =s→eq p.code_hash (sha256 code) (ground arith))
    ]),
  )

  -- A pairing that was started can be completed: the code, if it has 1 to 64 characters, brings a
  -- session until the lifetime of the code has passed, and an error from then on; and a text with
  -- another digest always brings an error.
  pub start_pairing-complete_pairing :
      (code sent : String) (s : Secrets) (at t : ℕ) (g : AuthGate)
      → let started = (start_pairing sha256 hex unhex code at g).0 in
        (bad_code sha256 hex unhex code ≡ false
          → t < at + g.pairing_ttl_ms
          → complete_pairing sha256 hex unhex code s t started
            ≡ issue_session sha256 hex unhex s t none false (record g { pairing_code = none }))
        × (at + g.pairing_ttl_ms ≤ t
            → (complete_pairing sha256 hex unhex sent s t started).1 ≡ rejected pairing_expired)
        × (sha256 sent ≢ sha256 code
            → t < at + g.pairing_ttl_ms
            → (complete_pairing sha256 hex unhex sent s t started).1 ≡ rejected pairing_required)
  unfolding start_pairing complete_pairing
  start_pairing-complete_pairing code sent s at t g = (
    (λ good lt. ground (arith, =s-refl (sha256 code))),
    (λ le. ground arith),
    (λ ne lt. ground (arith, eq_iff (sha256 code) (sha256 sent))),
  )
