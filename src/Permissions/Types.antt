-- ===== src/Permissions/Types.antt =====
-- The data of permission profiles, packages/contracts/src/permission-profile.ts and
-- packages/policy/src/permission-profile.ts. Times are those that `Date.parse` reads.
use vibe_go.Base.{ℕ, String, Bool, Option}
use vibe_go.Tools.{ToolRisk, Registry}
use vibe_go.Policy.{TaskTrust, NetworkAccess, ApprovalPolicyConfig}
use vibe_go.Sandbox.{SandboxPolicy}
use vibe_go.Compiler.{NetworkApproval, Grant, CompiledPolicy}

pub data ProfileId : Type 0 where
  workspace_coding full_host custom : ProfileId

pub data FilesystemScope : Type 0 where
  workspace_only host_files : FilesystemScope

pub data ProcessScope : Type 0 where
  no_process external_process host_process : ProcessScope

pub data NetworkMode : Type 0 where
  off restricted_mode enabled_mode : NetworkMode

pub data McpSkillMode : Type 0 where
  mcp_off configured : McpSkillMode

pub data ApprovalPosture : Type 0 where
  bounded_auto session_auto explicit_posture no_posture : ApprovalPosture

pub data ProfileTrust : Type 0 where
  trusted_user trusted untrusted : ProfileTrust

pub data GrantStatus : Type 0 where
  active_grant expired_grant revoked_grant exhausted_grant : GrantStatus

pub record Profile : Type 0 where
  pub profile_id : ProfileId
  pub filesystem_scope : FilesystemScope
  pub process_scope : ProcessScope
  pub network_mode : NetworkMode
  pub mcp_skill_mode : McpSkillMode
  pub approval_posture : ApprovalPosture
  pub task_trust : ProfileTrust
  pub workspace_id : Option String
  pub policy_revision : String
  pub sandbox_revision : Option String
  pub profile_revision : String
  pub requires_confirmation : Bool

pub record GrantScope : Type 0 where
  pub profile_id : ProfileId
  pub filesystem_scope : FilesystemScope
  pub process_scope : ProcessScope
  pub network_mode : NetworkMode
  pub mcp_skill_mode : McpSkillMode
  pub approval_posture : ApprovalPosture
  pub task_trust : ProfileTrust
  pub workspace_id : Option String

pub record SessionGrant : Type 0 where
  pub session_id : String
  pub user_id : String
  pub scope : GrantScope
  pub policy_revision : String
  pub profile_revision : String
  pub expires_at : ℕ
  pub max_uses : ℕ
  pub used_uses : ℕ
  pub status : GrantStatus

pub record Run : Type 0 where
  pub workspace_id : String
  pub task_trust : TaskTrust
  pub sandbox : SandboxPolicy
  pub approval : ApprovalPolicyConfig
  pub created_by_session_id : String

pub data ReasonCode : Type 0 where
  profile_ready full_host_confirmation_required untrusted_content_reason policy_denied : ReasonCode
  stale_policy stale_profile_revision workspace_unavailable sandbox_required : ReasonCode
  sandbox_unavailable session_grant_required session_grant_expired : ReasonCode
  session_grant_revoked session_grant_exhausted invalid_request profile_narrowed : ReasonCode
  workspace_required_reason capability_unavailable transport_unavailable : ReasonCode

-- `now` is the parsed time, or nothing where it is no finite number.
pub record ApplicationInput : Type 0 where
  pub profile : Profile
  pub run : Run
  pub current_policy_revision : String
  pub current_profile_revision : Option String
  pub current_sandbox_revision : Option String
  pub full_host_confirmed : Bool
  pub session_id : Option String
  pub user_id : Option String
  pub session_grant : Option SessionGrant
  pub now : Option ℕ

pub data Status : Type 0 where
  ready degraded blocked : Status

pub record Application : Type 0 where
  pub status : Status
  pub reason_code : ReasonCode
  pub effective_profile : Option Profile
  pub approval_policy : ApprovalPolicyConfig
  pub network_access : NetworkAccess
  pub danger_full_access_confirmed : Bool

pub record PolicyInput : Type 0 where
  pub application : ApplicationInput
  pub registry : Registry
  pub tool_id : String
  pub tool_version : String
  pub risk : ToolRisk
  pub arguments_fingerprint : String
  pub network_approval : Option NetworkApproval
  pub grant : Option Grant

pub record Compilation : Type 0 where
  pub application : Application
  pub compiled : Option CompiledPolicy

-- The patterns for the texts of a profile, and the schema of a session grant.
pub record Schemas : Type 0 where
  pub is_opaque_id : String → Bool
  pub parses_grant : SessionGrant → Bool
