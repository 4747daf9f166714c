-- ===== src/Policy/Types.antt =====
-- The data of the approval policy.
use vibe_go.Base.{ℕ, String, Bool, Option, List}
use vibe_go.Tools.{ToolRisk, ToolSandboxMode}

pub data PolicyDecision : Type 0 where
  allow prompt forbidden : PolicyDecision

pub data TaskTrust : Type 0 where
  trusted_workspace untrusted_content : TaskTrust

pub data SandboxProvider : Type 0 where
  docker podman vm : SandboxProvider

pub data NetworkAccess : Type 0 where
  restricted enabled : NetworkAccess

pub record Granular : Type 0 where
  pub sandbox_approval : Bool
  pub rule_approval : Bool
  pub skill_approval : Bool
  pub permission_request : Bool
  pub mcp_elicitation : Bool

pub data ApprovalPolicyConfig : Type 0 where
  untrusted on_request never : ApprovalPolicyConfig
  granular : Granular → ApprovalPolicyConfig

pub record ToolIntent : Type 0 where
  pub workspace_id : String
  pub tool_id : String
  pub tool_version : String
  pub risk : ToolRisk
  pub command_prefix : Option String
  pub path : Option String
  pub network_target : Option String
  pub task_trust : TaskTrust
  pub sandbox_mode : ToolSandboxMode
  pub sandbox_provider : Option SandboxProvider
  pub network_access : NetworkAccess
  pub approval_policy : ApprovalPolicyConfig
  pub policy_revision : String
  pub session_id : String
  pub always_prompt : Bool

-- What a cache key is made of.
pub record ApprovalKey : Type 0 where
  pub workspace_id : String
  pub tool_id : String
  pub tool_version : String
  pub command_prefix : Option String
  pub path : Option String
  pub network_target : Option String
  pub sandbox_mode : ToolSandboxMode
  pub sandbox_provider : Option SandboxProvider
  pub policy_revision : String

pub record CacheEntry : Type 0 where
  pub key : String
  pub expires_at : ℕ

-- The map `entries`.
abbrev pub Cache : Type 0
Cache = List CacheEntry

pub data ReasonCode : Type 0 where
  unknown_tool risk_mismatch sandbox_unsupported untrusted_requires_external_sandbox : ReasonCode
  danger_full_access_forbidden network_disabled session_approval read_only_tool : ReasonCode
  destructive_operation approval_disabled permission_request_disabled : ReasonCode
  user_approval_required session_approval_granted : ReasonCode

pub record PolicyEvaluation : Type 0 where
  pub decision : PolicyDecision
  pub reason_code : ReasonCode
  pub cache_key : String

-- What `approve` returns, or the error that it throws.
pub data Approved : Type 0 where
  approved : PolicyEvaluation → Approved
  not_promptable : ReasonCode → Approved
  bad_ttl : Approved
