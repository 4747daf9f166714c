-- ===== src/Permissions.antt =====
-- Permission profiles: packages/policy/src/permission-profile.ts, the schema of a profile in
-- packages/contracts/src/permission-profile.ts, and the request that packages/sandbox makes of one. The
-- patterns for texts and the schema of a session grant are parameters (Schemas).
mod Types
mod Tests
mod Checks
pub mod Ready
pub mod Agreement
mod Examples
pub use Types.*
pub use Tests.*
unfoldable pub use Checks.*
use vibe_go.Base.{
  ℕ, String, Bool, true, false, not, ◌&&◌, ◌||◌, Option, none, some, ◌=s◌, leb, if◌then◌else◌,
}
use vibe_go.Tools.{
  ToolSandboxMode, read_only, workspace_write, external_sandbox, danger_full_access,
}
use vibe_go.Policy.{
  TaskTrust, SandboxProvider, NetworkAccess, ApprovalPolicyConfig, never, same_mode,
}
use vibe_go.Policy
use vibe_go.Sandbox
use vibe_go.Sandbox.{SandboxPolicy}
use vibe_go.Compiler.{Host, CompileInput, WriteScope, workspace, compile_policy}

abbrev pub workspace_required : Profile → Bool
workspace_required p =
    not (is_host_files p.filesystem_scope)
    || is_external p.process_scope
    || is_configured p.mcp_skill_mode

abbrev pub is_workspace : String → Option String → Bool
is_workspace id none = false
is_workspace id (some s) = not (s =s "") && (s =s id)

-- The tests of `resolvePermissionProfile` in their order; the first that holds blocks the profile.
abbrev pub revision_block : ApplicationInput → Option ReasonCode
revision_block i =
    if not (i.profile.policy_revision =s i.current_policy_revision)
    then some stale_policy
    else if differs i.profile.profile_revision i.current_profile_revision
    then some stale_profile_revision
    else if both_differ i.profile.sandbox_revision i.current_sandbox_revision
    then some stale_policy
    else none

abbrev pub workspace_block : ApplicationInput → Option ReasonCode
workspace_block i =
    if workspace_required i.profile && not (is_workspace i.run.workspace_id i.profile.workspace_id)
    then some workspace_unavailable
    else if not (same_trust i.profile.task_trust untrusted) && Policy.is_untrusted i.run.task_trust
    then some untrusted_content_reason
    else none

abbrev pub host_block : ApplicationInput → Option ReasonCode
host_block i =
    if not (host_capable i.profile)
    then (if same_mode (mode_of i.run.sandbox) danger_full_access then some policy_denied else none)
    else if Policy.is_untrusted i.run.task_trust || same_trust i.profile.task_trust untrusted
    then some untrusted_content_reason
    else if not i.full_host_confirmed
    then some full_host_confirmation_required
    else if not (same_mode (mode_of i.run.sandbox) danger_full_access)
    then some policy_denied
    else none

abbrev pub given {ℓ} : {A : Type ℓ} → Option A → Bool
given none = false
given (some a) = true

abbrev pub sandbox_block : ApplicationInput → Option ReasonCode
sandbox_block i =
    if is_external i.profile.process_scope
      && not (same_mode (mode_of i.run.sandbox) external_sandbox)
    then some sandbox_required
    else if is_external i.profile.process_scope
        && given i.profile.sandbox_revision
        && not (given i.current_sandbox_revision)
    then some sandbox_unavailable
    else none

abbrev pub network_block : ApplicationInput → Option ReasonCode
network_block i =
    if same_network i.profile.network_mode enabled_mode
      && not (Policy.is_enabled (run_network i.run.sandbox))
    then some policy_denied
    else if same_network i.profile.network_mode restricted_mode
        && Policy.is_enabled (run_network i.run.sandbox)
    then some policy_denied
    else if is_never i.run.approval && not (same_posture i.profile.approval_posture no_posture)
    then some policy_denied
    else none

abbrev pub grant_block : Schemas → ApplicationInput → Option ReasonCode
grant_block k i =
    if same_posture i.profile.approval_posture session_auto
    then validate_session_grant k i
    else none

abbrev pub schema_block : Schemas → ApplicationInput → Option ReasonCode
schema_block k i = if parses_profile k i.profile then none else some invalid_request

abbrev pub first : Option ReasonCode → Option ReasonCode → Option ReasonCode
first none later = later
first (some code) later = some code

unfoldable pub blocking : Schemas → ApplicationInput → Option ReasonCode
blocking k i = first (schema_block k i) (
    first (revision_block i) (
      first (workspace_block i) (
        first (host_block i)
          (first (sandbox_block i) (first (network_block i) (grant_block k i))))))

abbrev pub approval_policy_for : Profile → ApprovalPolicyConfig → ApprovalPolicyConfig
approval_policy_for p configured_policy =
    if same_posture p.approval_posture no_posture then never else configured_policy

abbrev pub block : ReasonCode → ApprovalPolicyConfig → Application
block code configured_policy = record {
  status = blocked;
  reason_code = code;
  effective_profile = none;
  approval_policy = configured_policy;
  network_access = Policy.restricted;
  danger_full_access_confirmed = false;
}

abbrev pub apply : ApplicationInput → Option ReasonCode → Application
apply i (some code) = block code i.run.approval
apply i none = record {
  status = ready;
  reason_code = profile_ready;
  effective_profile = some i.profile;
  approval_policy = approval_policy_for i.profile i.run.approval;
  network_access = run_network i.run.sandbox;
  danger_full_access_confirmed = host_capable i.profile && i.full_host_confirmed;
}

unfoldable pub resolve_permission_profile : Schemas → ApplicationInput → Application
resolve_permission_profile k i = apply i (blocking k i)

-- The input that the policy compiler gets for a profile that is ready.
abbrev pub compile_input : PolicyInput → Application → Profile → CompileInput
compile_input x a p = record {
  registry = x.registry;
  workspace_id = x.application.run.workspace_id;
  tool_id = x.tool_id;
  tool_version = x.tool_version;
  risk = x.risk;
  task_trust = x.application.run.task_trust;
  sandbox_mode = if host_capable p then danger_full_access else mode_of x.application.run.sandbox;
  sandbox_provider = provider_of x.application.run.sandbox;
  network_access = a.network_access;
  network_approval = x.network_approval;
  approval_policy = some a.approval_policy;
  policy_revision = p.policy_revision;
  current_policy_revision = x.application.current_policy_revision;
  session_id = x.application.run.created_by_session_id;
  arguments_fingerprint = x.arguments_fingerprint;
  write_scope = if is_host_files p.filesystem_scope then none else some workspace;
  privilege_requested = false;
  danger_full_access_confirmed = a.danger_full_access_confirmed;
  client_requested_decision = none;
  now = none;
  grant = x.grant;
}

abbrev pub compile_with : Host → PolicyInput → ℕ → Application → Option Profile → Compilation
compile_with h x clock a none = record { application = a; compiled = none }
compile_with h x clock a (some p) = record {
  application = a;
  compiled = some (compile_policy h (compile_input x a p) clock);
}

unfoldable pub compile_permission_profile_policy : Schemas → Host → PolicyInput → ℕ → Compilation
compile_permission_profile_policy k h x clock =
    let a = resolve_permission_profile k x.application in
    compile_with h x clock a a.effective_profile

abbrev pub sandbox_trust : TaskTrust → Sandbox.TaskTrust
sandbox_trust Policy.trusted_workspace = Sandbox.trusted_workspace
sandbox_trust Policy.untrusted_content = Sandbox.untrusted_content

-- `createPermissionSandboxRequest` for the profile and the sandbox of a run.
unfoldable pub create_permission_sandbox_request :
    Schemas
    → ApplicationInput
    → Option Sandbox.SandboxResourceRequirements
    → Option Sandbox.SandboxResolveRequest
create_permission_sandbox_request k i resources =
    if not (parses_profile k i.profile)
    then none
    else if same_network i.profile.network_mode enabled_mode
        && not (Policy.is_enabled (run_network i.run.sandbox))
    then none
    else if not (same_network i.profile.network_mode enabled_mode)
        && Policy.is_enabled (run_network i.run.sandbox)
    then none
    else if host_capable i.profile
    then (if Policy.is_untrusted i.run.task_trust || not i.full_host_confirmed
        then none
        else some (record {
          task_trust = sandbox_trust i.run.task_trust;
          policy = Sandbox.danger_full_access;
          explicit_danger_full_access = true;
          resources = resources;
        }))
    else if same_mode (mode_of i.run.sandbox) danger_full_access
    then none
    else if is_external i.profile.process_scope
        && not (same_mode (mode_of i.run.sandbox) external_sandbox)
    then none
    else some (record {
      task_trust = sandbox_trust i.run.task_trust;
      policy = i.run.sandbox;
      explicit_danger_full_access = false;
      resources = resources;
    })
