-- ===== src/Compiler/Types.antt =====
-- The data of the policy compiler.
use vibe_go.Base.{ℕ, String, Bool, Option}
use vibe_go.Tools.{ToolRisk, ToolSandboxMode, ToolDescriptor, Registry}
use vibe_go.Policy.{TaskTrust, SandboxProvider, NetworkAccess, ApprovalPolicyConfig}

pub data Decision : Type 0 where
  allow ask deny : Decision

pub data NetworkApproval : Type 0 where
  no_approval explicit : NetworkApproval

pub data WriteScope : Type 0 where
  workspace outside_workspace : WriteScope

pub data ReasonCode : Type 0 where
  read_only_work session_grant user_approval_required client_requested_approval : ReasonCode
  client_denied network_approval_required unknown_tool schema_unavailable schema_unsafe : ReasonCode
  risk_mismatch sandbox_unsupported sandbox_provider_required : ReasonCode
  sandbox_provider_mismatch untrusted_requires_external_sandbox : ReasonCode
  untrusted_network_forbidden danger_full_access_forbidden privilege_forbidden : ReasonCode
  workspace_scope_forbidden network_disabled approval_disabled : ReasonCode
  permission_request_disabled stale_policy_revision invalid_argument_fingerprint : ReasonCode
  invalid_policy_input grant_key_mismatch grant_expired grant_exhausted : ReasonCode
  grant_not_eligible destructive_operation : ReasonCode

pub record Grant : Type 0 where
  pub approval_key : String
  pub policy_revision : String
  pub issued_at : ℕ
  pub expires_at : ℕ
  pub remaining_uses : ℕ
  pub reason : String

pub record CompileInput : Type 0 where
  pub registry : Registry
  pub workspace_id : String
  pub tool_id : String
  pub tool_version : String
  pub risk : ToolRisk
  pub task_trust : TaskTrust
  pub sandbox_mode : ToolSandboxMode
  pub sandbox_provider : Option SandboxProvider
  pub network_access : NetworkAccess
  pub network_approval : Option NetworkApproval
  pub approval_policy : Option ApprovalPolicyConfig
  pub policy_revision : String
  pub current_policy_revision : String
  pub session_id : String
  pub arguments_fingerprint : String
  pub write_scope : Option WriteScope
  pub privilege_requested : Bool
  pub danger_full_access_confirmed : Bool
  pub client_requested_decision : Option Decision
  pub now : Option ℕ
  pub grant : Option Grant

-- What an approval key is made of.
pub record KeyFields : Type 0 where
  pub workspace_id : String
  pub tool_id : String
  pub tool_version : String
  pub risk : ToolRisk
  pub task_trust : TaskTrust
  pub sandbox_mode : ToolSandboxMode
  pub sandbox_provider : Option SandboxProvider
  pub network_access : NetworkAccess
  pub policy_revision : String
  pub session_id : String
  pub arguments_fingerprint : String

-- The fields of an input that a result copies.
pub record Subject : Type 0 where
  pub workspace_id : String
  pub tool_id : String
  pub tool_version : String
  pub risk : ToolRisk
  pub task_trust : TaskTrust
  pub sandbox_mode : ToolSandboxMode
  pub sandbox_provider : Option SandboxProvider
  pub network_access : NetworkAccess
  pub policy_revision : String
  pub arguments_fingerprint : String

pub record EffectivePolicy : Type 0 where
  pub sandbox_mode : ToolSandboxMode
  pub network_access : NetworkAccess

pub record AuditMetadata : Type 0 where
  pub subject : Subject
  pub decision : Decision
  pub reason_code : ReasonCode
  pub reason : String

pub record CompiledPolicy : Type 0 where
  pub decision : Decision
  pub reason_code : ReasonCode
  pub reason : String
  pub approval_key : String
  pub effective : EffectivePolicy
  pub audit : AuditMetadata
  pub grant : Option Grant

-- What `isSafeSchema` finds of a tool's schema; without a schema it is unavailable.
pub data SchemaState : Type 0 where
  unavailable unsafe safe : SchemaState

-- Code outside the repository, and the patterns on JSON that are left out: `JSON.stringify`, SHA-256 in
-- hexadecimal, the check of a schema, and `SECRET_VALUE`.
pub record Host : Type 0 where
  pub stringify : KeyFields → String
  pub sha256 : String → String
  pub schema_state : ToolDescriptor → SchemaState
  pub is_secret_value : String → Bool
