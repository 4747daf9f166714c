-- ===== src/Permissions/Tests.antt =====
-- Tests on the values of a profile, and what a run's sandbox allows: `===` and the reads of
-- packages/policy/src/permission-profile.ts.
use vibe_go.Base.{String, Bool, true, false, not, ◌||◌, Option, none, some, ◌=s◌}
use vibe_go.Tools.{
  ToolSandboxMode, read_only, workspace_write, external_sandbox, danger_full_access,
}
use vibe_go.Policy.{
  TaskTrust, SandboxProvider, NetworkAccess, ApprovalPolicyConfig, never, same_mode,
}
use vibe_go.Sandbox.{SandboxPolicy}
use vibe_go.Permissions.Types.{
  Profile, ProfileId, workspace_coding, full_host, custom, FilesystemScope, workspace_only,
  host_files, ProcessScope, no_process, external_process, host_process, NetworkMode, off,
  restricted_mode, enabled_mode, McpSkillMode, mcp_off, configured, ApprovalPosture, bounded_auto,
  session_auto, explicit_posture, no_posture, ProfileTrust, trusted_user, trusted, untrusted,
  GrantStatus, active_grant, expired_grant, revoked_grant, exhausted_grant,
}
use vibe_go.Policy
use vibe_go.Sandbox

abbrev pub is_host_files : FilesystemScope → Bool
is_host_files host_files = true
is_host_files workspace_only = false

abbrev pub is_host_process : ProcessScope → Bool
is_host_process host_process = true
is_host_process _ = false

abbrev pub is_external : ProcessScope → Bool
is_external external_process = true
is_external _ = false

abbrev pub is_configured : McpSkillMode → Bool
is_configured configured = true
is_configured mcp_off = false

abbrev pub same_profile_id : ProfileId → ProfileId → Bool
same_profile_id workspace_coding workspace_coding = true
same_profile_id full_host full_host = true
same_profile_id custom custom = true
same_profile_id _ _ = false

abbrev pub same_files : FilesystemScope → FilesystemScope → Bool
same_files workspace_only workspace_only = true
same_files host_files host_files = true
same_files _ _ = false

abbrev pub same_process : ProcessScope → ProcessScope → Bool
same_process no_process no_process = true
same_process external_process external_process = true
same_process host_process host_process = true
same_process _ _ = false

abbrev pub same_network : NetworkMode → NetworkMode → Bool
same_network off off = true
same_network restricted_mode restricted_mode = true
same_network enabled_mode enabled_mode = true
same_network _ _ = false

abbrev pub same_mcp : McpSkillMode → McpSkillMode → Bool
same_mcp mcp_off mcp_off = true
same_mcp configured configured = true
same_mcp _ _ = false

abbrev pub same_posture : ApprovalPosture → ApprovalPosture → Bool
same_posture bounded_auto bounded_auto = true
same_posture session_auto session_auto = true
same_posture explicit_posture explicit_posture = true
same_posture no_posture no_posture = true
same_posture _ _ = false

abbrev pub same_trust : ProfileTrust → ProfileTrust → Bool
same_trust trusted_user trusted_user = true
same_trust trusted trusted = true
same_trust untrusted untrusted = true
same_trust _ _ = false

abbrev pub same_status : GrantStatus → GrantStatus → Bool
same_status active_grant active_grant = true
same_status expired_grant expired_grant = true
same_status revoked_grant revoked_grant = true
same_status exhausted_grant exhausted_grant = true
same_status _ _ = false

abbrev pub same_text : Option String → Option String → Bool
same_text none none = true
same_text (some s) (some t) = s =s t
same_text _ _ = false

abbrev pub is_never : ApprovalPolicyConfig → Bool
is_never never = true
is_never _ = false

-- A text that is given and not empty.
abbrev pub truthy : Option String → Bool
truthy none = false
truthy (some s) = not (s =s "")

abbrev pub mode_of : SandboxPolicy → ToolSandboxMode
mode_of (Sandbox.read_only n) = read_only
mode_of (Sandbox.workspace_write roots n) = workspace_write
mode_of (Sandbox.external_sandbox r n roots) = external_sandbox
mode_of Sandbox.danger_full_access = danger_full_access

abbrev pub network_of : Sandbox.SandboxNetwork → NetworkAccess
network_of Sandbox.restricted = Policy.restricted
network_of Sandbox.enabled = Policy.enabled

-- `'network' in sandbox ? sandbox.network : 'restricted'`
abbrev pub run_network : SandboxPolicy → NetworkAccess
run_network (Sandbox.read_only n) = network_of n
run_network (Sandbox.workspace_write roots n) = network_of n
run_network (Sandbox.external_sandbox r n roots) = network_of n
run_network Sandbox.danger_full_access = Policy.restricted

abbrev pub provider_name : Sandbox.SandboxRuntime → SandboxProvider
provider_name Sandbox.docker = Policy.docker
provider_name Sandbox.podman = Policy.podman
provider_name Sandbox.vm = Policy.vm

abbrev pub provider_of : SandboxPolicy → Option SandboxProvider
provider_of (Sandbox.external_sandbox r n roots) = some (provider_name r)
provider_of _ = none

abbrev pub host_capable : Profile → Bool
host_capable p = is_host_files p.filesystem_scope || is_host_process p.process_scope
