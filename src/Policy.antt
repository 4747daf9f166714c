-- ===== src/Policy.antt =====
-- packages/policy/src/index.ts: the approval policy and its session cache of grants.
-- `JSON.stringify`, by which the cache makes its keys, is a parameter; so are the readings of the
-- clock, `now` where the caller gives one and `clock` where the code reads `Date.now()` itself.
mod Types
pub mod Safety
pub mod Grants
mod Examples
pub use Types.*
use vibe_go.Base.{
  ℕ, ◌+◌, String, Bool, true, false, not, ◌&&◌, ◌||◌, Option, none, some, List, [], ◌∷◌, ◌=s◌, ltb,
  leb, if◌then◌else◌, max_safe_integer, any,
}
use vibe_go.Base.Keyed.{find, put, delete}
use vibe_go.Tools.{
  ToolRisk, read, write, destructive, network, ToolSandboxMode, read_only, workspace_write,
  external_sandbox, danger_full_access, ToolDescriptor, Registry, get,
}

abbrev pub entry_key : CacheEntry → String
entry_key e = e.key

abbrev pub same_risk : ToolRisk → ToolRisk → Bool
same_risk read read = true
same_risk write write = true
same_risk destructive destructive = true
same_risk network network = true
same_risk _ _ = false

abbrev pub same_mode : ToolSandboxMode → ToolSandboxMode → Bool
same_mode read_only read_only = true
same_mode workspace_write workspace_write = true
same_mode external_sandbox external_sandbox = true
same_mode danger_full_access danger_full_access = true
same_mode _ _ = false

abbrev pub is_untrusted : TaskTrust → Bool
is_untrusted untrusted_content = true
is_untrusted trusted_workspace = false

abbrev pub is_enabled : NetworkAccess → Bool
is_enabled enabled = true
is_enabled restricted = false

abbrev is_some {ℓ} : {A : Type ℓ} → Option A → Bool
is_some none = false
is_some (some a) = true

pub approval_key : ToolIntent → ApprovalKey
approval_key i = record {
  workspace_id = i.workspace_id;
  tool_id = i.tool_id;
  tool_version = i.tool_version;
  command_prefix = i.command_prefix;
  path = i.path;
  network_target = i.network_target;
  sandbox_mode = i.sandbox_mode;
  sandbox_provider = i.sandbox_provider;
  policy_revision = i.policy_revision;
}

-- `SessionApprovalCache.clear`
pub clear : Cache → Cache
clear c = []

-- `typeof approvalPolicy === 'object' && !approvalPolicy.granular.permissionRequest`
abbrev requests_disabled : ApprovalPolicyConfig → Bool
requests_disabled (granular g) = not g.permission_request
requests_disabled _ = false

abbrev is_never : ApprovalPolicyConfig → Bool
is_never never = true
is_never _ = false

module _ (stringify : ApprovalKey → String) where
  pub create_approval_cache_key : ToolIntent → String
  unfolding approval_key
  create_approval_cache_key i = stringify (approval_key i)

  -- `none` is the error for a lifetime that is no positive safe integer.
  pub grant : ToolIntent → ℕ → ℕ → Cache → Option Cache
  unfolding create_approval_cache_key
  grant i ttl now c =
      if not (ltb 0 ttl && leb ttl max_safe_integer)
      then none
      else some
          (put entry_key (record { key = create_approval_cache_key i; expires_at = now + ttl }) c)

  -- The methods of the cache that change it return it too.
  pub has_grant : ToolIntent → ℕ → Cache → Cache × Bool
  unfolding create_approval_cache_key
  has_grant i now c = elim (find entry_key (create_approval_cache_key i) c) [
    | none ↦ (c, false)
    | some e ↦
        if leb e.expires_at now
        then (delete entry_key (create_approval_cache_key i) c, false)
        else if i.always_prompt
        then (delete entry_key (create_approval_cache_key i) c, true)
        else (c, true)
  ]

  pub revoke : ToolIntent → Cache → Cache
  unfolding create_approval_cache_key
  revoke i c = delete entry_key (create_approval_cache_key i) c

  pub result : PolicyDecision → ReasonCode → ToolIntent → PolicyEvaluation
  result d r i = record { decision = d; reason_code = r; cache_key = create_approval_cache_key i }

  -- A destructive operation where neither the host's restricted shell nor a named external sandbox
  -- takes it.
  pub destructive_forbidden : ToolIntent → Bool
  destructive_forbidden i =
      same_risk i.risk destructive
      && not
          (same_mode i.sandbox_mode workspace_write || same_mode i.sandbox_mode danger_full_access)
      && (not (same_mode i.sandbox_mode external_sandbox) || not (is_some i.sandbox_provider))

  pub decision_for_policy : ToolIntent → PolicyEvaluation
  unfolding destructive_forbidden result
  decision_for_policy i =
      if same_risk i.risk read
      then result allow read_only_tool i
      else if destructive_forbidden i
      then result forbidden destructive_operation i
      else if is_never i.approval_policy
      then result forbidden approval_disabled i
      else if requests_disabled i.approval_policy
      then result forbidden permission_request_disabled i
      else result prompt user_approval_required i

  -- The checks of `evaluate` before it asks the cache; `none` passes.
  pub refusal : ToolIntent → Option ToolDescriptor → Option ReasonCode
  refusal i none = some unknown_tool
  refusal i (some d) =
      if not (same_risk d.risk i.risk)
      then some risk_mismatch
      else if not (any (same_mode i.sandbox_mode) d.supported_sandbox_modes)
      then some sandbox_unsupported
      else if is_untrusted i.task_trust && not (same_mode i.sandbox_mode external_sandbox)
      then some untrusted_requires_external_sandbox
      else if is_untrusted i.task_trust && same_mode i.sandbox_mode danger_full_access
      then some danger_full_access_forbidden
      else if same_risk i.risk network && not (is_enabled i.network_access)
      then some network_disabled
      else none

  pub evaluate : Registry → ToolIntent → ℕ → Cache → Cache × PolicyEvaluation
  evaluate registry i now c = elim (refusal i (get i.tool_id i.tool_version registry)) [
    | some reason ↦ (c, result forbidden reason i)
    | none ↦
        let (c', granted) = has_grant i now c in
        (c', if granted then result allow session_approval i else decision_for_policy i)
  ]

  pub approve : Registry → ToolIntent → ℕ → ℕ → ℕ → Cache → Cache × Approved
  approve registry i ttl now clock c =
      let (c', evaluation) = evaluate registry i clock c in
      elim evaluation.decision [
        | prompt ↦ elim (grant i ttl now c') [
          | none ↦ (c', bad_ttl)
          | some c'' ↦ (c'', approved (result allow session_approval_granted i))
        ]
        | allow ↦ (c', not_promptable evaluation.reason_code)
        | forbidden ↦ (c', not_promptable evaluation.reason_code)
      ]
