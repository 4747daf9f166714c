-- ===== src/Policy/Grants.antt =====
-- The life of a grant: from the approval of a prompt to its expiry or its use.
use vibe_go.Base.{
  ℕ, ◌+◌, ◌<◌, ◌≤◌, ◌≡◌, subst, inl, inr, true, false, none, some, arith, Option-cases, String,
  if◌then◌else◌, =s-refl,
}
use vibe_go.Base.Keyed.{find, put, delete, find-put, find-delete}
use vibe_go.Tools.{Registry, get}
use vibe_go.Policy.{
  ToolIntent, ApprovalKey, Cache, allow, prompt, PolicyEvaluation, approved, session_approval,
  entry_key, create_approval_cache_key, has_grant, grant, revoke, result, decision_for_policy,
  refusal, evaluate, approve,
}

module _ (stringify : ApprovalKey → String) (registry : Registry) (i : ToolIntent) where
  -- What an approval rests on: the checks pass, and the policy prompts.
  record IsPrompted : Type 0 where
    passes : refusal stringify i (get i.tool_id i.tool_version registry) ≡ none
    prompts : (decision_for_policy stringify i).decision ≡ prompt

  evaluate_passed :
      (now : ℕ) (c : Cache)
      → refusal stringify i (get i.tool_id i.tool_version registry) ≡ none
      → evaluate stringify registry i now c ≡ (
        (has_grant stringify i now c).0,
        if (has_grant stringify i now c).1
            then result stringify allow session_approval i
            else decision_for_policy stringify i,
      )
  unfolding evaluate
  evaluate_passed now c h = rw (h, evaluate)

  evaluate-prompt :
      (now : ℕ) (c : Cache) → (evaluate stringify registry i now c).1.decision ≡ prompt → IsPrompted
  unfolding evaluate result
  evaluate-prompt now c h = record { passes = ground arith; prompts = ground arith }

  -- The cache holds one grant for the intent, until `t`.
  abbrev Holds : ℕ → Cache → Type 0
  Holds t c =
      find entry_key (create_approval_cache_key stringify i) c
      ≡ some (record { key = create_approval_cache_key stringify i; expires_at = t })

  grant-Holds :
      (ttl now : ℕ) (c c' : Cache) → grant stringify i ttl now c ≡ some c' → Holds (now + ttl) c'
  unfolding grant
  grant-Holds ttl now c c' h =
      let same : put entry_key
            (record { key = create_approval_cache_key stringify i; expires_at = now + ttl }) c
          ≡ c' =
        ground arith in
      rw (← same) (
        rw (
          find-put entry_key (create_approval_cache_key stringify i)
              (record { key = create_approval_cache_key stringify i; expires_at = now + ttl }) c,
          =s-refl (create_approval_cache_key stringify i),
        ))

  approve_inv :
      (ttl now clock : ℕ) (c c' : Cache) (ev : PolicyEvaluation)
      → approve stringify registry i ttl now clock c ≡ (c', approved ev)
      → IsPrompted × Holds (now + ttl) c'
  unfolding approve
  approve_inv ttl now clock c c' ev h =
      let prompted : (evaluate stringify registry i clock c).1.decision ≡ prompt = ground arith in
      (
        evaluate-prompt clock c prompted,
        elim (Option-cases (grant stringify i ttl now (evaluate stringify registry i clock c).0)) [
          | inl bad ↦ absurd (ground arith)
          | inr (c'', stored) ↦
              let same : c'' ≡ c' = ground arith in
              subst (Holds (now + ttl)) same (grant-Holds ttl now _ c'' stored)
        ],
      )

  -- With the grant, before its end; after it; and with no grant.
  has_grant_live :
      (t end : ℕ) (c : Cache)
      → Holds end c
      → t < end
      → has_grant stringify i t c ≡ (
        if i.always_prompt then delete entry_key (create_approval_cache_key stringify i) c else c,
        true,
      )
  unfolding has_grant
  has_grant_live t end c h lt = ground arith

  has_grant_late :
      (t end : ℕ) (c : Cache) → Holds end c → end ≤ t → (has_grant stringify i t c).1 ≡ false
  unfolding has_grant
  has_grant_late t end c h le = ground arith

  has_grant_deleted :
      (t : ℕ) (c : Cache)
      → (has_grant stringify i t (delete entry_key (create_approval_cache_key stringify i) c)).1
        ≡ false
  unfolding has_grant
  has_grant_deleted t c = ground (
    arith,
    find-delete entry_key (create_approval_cache_key stringify i)
        (create_approval_cache_key stringify i) c,
    =s-refl (create_approval_cache_key stringify i),
  )

  evaluate_ungranted :
      (t : ℕ) (c : Cache)
      → IsPrompted
      → (has_grant stringify i t c).1 ≡ false
      → (evaluate stringify registry i t c).1.decision ≡ prompt
  evaluate_ungranted t c p h = ground (arith, p.passes, p.prompts, h, evaluate_passed t c p.passes)

  -- An approval that is accepted allows the same intent until its lifetime has passed, and then the
  -- user is prompted again. A tool that always prompts uses the approval up: the next call
  -- prompts. For other tools the cache stays as it is. After a revocation the user is prompted.
  pub approve_lifecycle :
      (ttl now clock t later : ℕ) (c c' : Cache) (ev : PolicyEvaluation)
      → approve stringify registry i ttl now clock c ≡ (c', approved ev)
      → (t < now + ttl
          → (evaluate stringify registry i t c').1 ≡ result stringify allow session_approval i)
        × (now + ttl ≤ t → (evaluate stringify registry i t c').1.decision ≡ prompt)
        × (t < now + ttl
            → i.always_prompt ≡ true
            → (evaluate stringify registry i later
                (evaluate stringify registry i t c').0).1.decision
              ≡ prompt)
        × (t < now + ttl → i.always_prompt ≡ false → (evaluate stringify registry i t c').0 ≡ c')
        × ((evaluate stringify registry i later (revoke stringify i c')).1.decision ≡ prompt)
  unfolding revoke
  approve_lifecycle ttl now clock t later c c' ev h =
      let (p, held) = approve_inv ttl now clock c c' ev h in
      (
        λ lt.
            ground (arith, has_grant_live t (now + ttl) c' held lt, evaluate_passed t c' p.passes),
        (λ le. evaluate_ungranted t c' p (has_grant_late t (now + ttl) c' held le)),
        (λ lt once.
            let used : (evaluate stringify registry i t c').0
                ≡ delete entry_key (create_approval_cache_key stringify i) c' =
              ground (
                arith,
                has_grant_live t (now + ttl) c' held lt,
                evaluate_passed t c' p.passes,
                once,
              ) in
            rw used (evaluate_ungranted later _ p (has_grant_deleted later c'))),
        (λ lt again.
            ground (
              arith,
              has_grant_live t (now + ttl) c' held lt,
              evaluate_passed t c' p.passes,
              again,
            )),
        evaluate_ungranted later _ p (has_grant_deleted later c'),
      )
