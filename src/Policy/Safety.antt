-- ===== src/Policy/Safety.antt =====
-- What the approval policy lets through.
use vibe_go.Base.{
  ℕ, ◌<◌, ◌≡◌, ◌⊎◌, inl, inr, true, Option, none, some, arith, Bool-cases, Option-cases, String,
  any, ◌≢◌,
}
use vibe_go.Base.Keyed.{find}
use vibe_go.Tools.{
  ToolRisk, read, network, ToolSandboxMode, external_sandbox, ToolDescriptor, Registry, get,
}
use vibe_go.Policy.{
  ToolIntent, ApprovalKey, Cache, CacheEntry, allow, danger_full_access_forbidden,
  untrusted_content, enabled, same_risk, same_mode, entry_key, create_approval_cache_key, has_grant,
  result, decision_for_policy, refusal, evaluate,
}

same_risk-eq : (a b : ToolRisk) → same_risk a b ≡ true → a ≡ b
same_risk-eq a b h = ground arith

same_mode-eq : (a b : ToolSandboxMode) → same_mode a b ≡ true → a ≡ b
same_mode-eq a b h = ground arith

module _ (stringify : ApprovalKey → String) (i : ToolIntent) where
  -- What the descriptor and the intent must satisfy for the checks to pass.
  pub record Passes (d : ToolDescriptor) : Type 0 where
    pub risk : d.risk ≡ i.risk
    pub supported : any (same_mode i.sandbox_mode) d.supported_sandbox_modes ≡ true
    pub trust : i.task_trust ≡ untrusted_content → i.sandbox_mode ≡ external_sandbox
    pub network : i.risk ≡ network → i.network_access ≡ enabled

  refusal-Passes : (d : ToolDescriptor) → refusal stringify i (some d) ≡ none → Passes d
  unfolding refusal
  refusal-Passes d h = record {
    risk = same_risk-eq d.risk i.risk (ground arith);
    supported = ground arith;
    trust = λ e. same_mode-eq i.sandbox_mode external_sandbox (ground arith);
    network = λ e. ground arith;
  }

  -- A grant in the cache that has not run out.
  abbrev pub IsGranted : ℕ → Cache → Type 0
  IsGranted now c =
      (e : CacheEntry) × (find entry_key (create_approval_cache_key stringify i) c ≡ some e)
      × (now < e.expires_at)

  has_grant-IsGranted :
      (now : ℕ) (c : Cache) → (has_grant stringify i now c).1 ≡ true → IsGranted now c
  unfolding has_grant
  has_grant-IsGranted now c h =
      elim (Option-cases (find entry_key (create_approval_cache_key stringify i) c)) [
        | inl missing ↦ absurd (ground arith)
        | inr (e, there) ↦ (e, there, ground arith)
      ]

  decision_for_policy-allow : (decision_for_policy stringify i).decision ≡ allow → i.risk ≡ read
  unfolding decision_for_policy result
  decision_for_policy-allow h = same_risk-eq i.risk read (ground arith)

  -- A tool call is allowed only if the tool is registered with this very risk and supports the
  -- sandbox mode, if untrusted content runs in the external sandbox, if a network tool has the
  -- network enabled, and if it only reads or the session holds a grant for it that has not run
  -- out.
  pub evaluate-allow :
      (registry : Registry) (now : ℕ) (c : Cache)
      → (evaluate stringify registry i now c).1.decision ≡ allow
      → (d : ToolDescriptor) × (get i.tool_id i.tool_version registry ≡ some d)
        × Passes d
        × ((i.risk ≡ read) ⊎ IsGranted now c)
  unfolding evaluate result
  evaluate-allow registry now c h = elim (Option-cases (get i.tool_id i.tool_version registry)) [
    | inl missing ↦ absurd (unfold refusal in ground (arith, missing, h))
    | inr (d, there) ↦
        elim (Option-cases (refusal stringify i (get i.tool_id i.tool_version registry))) [
          | inr (reason, refused) ↦ absurd (ground arith)
          | inl passed ↦ (
            d,
            there,
            refusal-Passes d (rw there at passed),
            elim (Bool-cases (has_grant stringify i now c).1) [
              | inl granted ↦ inr (has_grant-IsGranted now c granted)
              | inr not_granted ↦ inl (decision_for_policy-allow (ground arith))
            ],
          )
        ]
  ]

  refusal-reason :
      (d : Option ToolDescriptor) → refusal stringify i d ≢ some danger_full_access_forbidden
  unfolding refusal
  refusal-reason none h = ground arith
  refusal-reason (some d) h = ground arith

  decision_for_policy-reason :
      (decision_for_policy stringify i).reason_code ≢ danger_full_access_forbidden
  unfolding decision_for_policy result
  decision_for_policy-reason h = ground arith

  -- The reason `DANGER_FULL_ACCESS_FORBIDDEN` is never given: the check above it refuses first.
  pub evaluate-reason :
      (registry : Registry) (now : ℕ) (c : Cache)
      → (evaluate stringify registry i now c).1.reason_code ≢ danger_full_access_forbidden
  unfolding evaluate result
  evaluate-reason registry now c h =
      ground (
        arith,
        h,
        refusal-reason (get i.tool_id i.tool_version registry),
        decision_for_policy-reason,
      )
