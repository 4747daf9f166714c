-- ===== src/Permissions/Examples.antt =====
-- A profile for coding in a workspace, and a tool that reads under it.
use vibe_go.Base.{◌≡◌, refl, true, false, none, some, [], ◌∷◌}
use vibe_go.Base.Keyed.{find}
use vibe_go.Tools.{ToolDescriptor, read, workspace_write, get}
use vibe_go.Compiler.{
  is_safe_revision, default_ruling, by_grant, tool_ruling, ruling, apply_client_decision, result,
  validate_input, Host, CompiledPolicy, safe, allow, compile_policy,
}
use vibe_go.Compiler.Safety.{RestsOn}
use vibe_go.Permissions.{
  trusted, bounded_auto, ready, mcp_off, restricted_mode, is_consistent, parses_profile, no_process,
  workspace_only, blocking, workspace_coding, resolve_permission_profile,
  create_permission_sandbox_request, compile_permission_profile_policy, Schemas, Profile,
  ApplicationInput, PolicyInput,
}
use vibe_go.Permissions.Ready.{IsWithin, resolve_permission_profile-ready}
use vibe_go.Permissions.Agreement.{
  run_input, compile_permission_profile_policy-allow, create_permission_sandbox_request-ready,
}
use vibe_go.Policy
use vibe_go.Sandbox

abbrev schemas : Schemas
schemas = record { is_opaque_id = λ s. true; parses_grant = λ g. true }

abbrev host : Host
host = record {
  stringify = λ k. k.workspace_id;
  sha256 = λ s. s;
  schema_state = λ d. safe;
  is_secret_value = λ s. false;
}

abbrev list_files : ToolDescriptor
list_files = record {
  id = "filesystem.list";
  version = "1";
  risk = read;
  summary = "Lists files.";
  supported_sandbox_modes = workspace_write ∷ [];
  always_prompt = none;
}

abbrev coding : Profile
coding = record {
  profile_id = workspace_coding;
  filesystem_scope = workspace_only;
  process_scope = no_process;
  network_mode = restricted_mode;
  mcp_skill_mode = mcp_off;
  approval_posture = bounded_auto;
  task_trust = trusted;
  workspace_id = some "w";
  policy_revision = "r1";
  sandbox_revision = none;
  profile_revision = "p1";
  requires_confirmation = false;
}

abbrev application : ApplicationInput
application = record {
  profile = coding;
  run = record {
    workspace_id = "w";
    task_trust = Policy.trusted_workspace;
    sandbox = Sandbox.workspace_write [] Sandbox.restricted;
    approval = Policy.on_request;
    created_by_session_id = "s";
  };
  current_policy_revision = "r1";
  current_profile_revision = some "p1";
  current_sandbox_revision = none;
  full_host_confirmed = false;
  session_id = none;
  user_id = none;
  session_grant = none;
  now = some 5;
}

abbrev call : PolicyInput
call = record {
  application = application;
  registry = list_files ∷ [];
  tool_id = "filesystem.list";
  tool_version = "1";
  risk = read;
  arguments_fingerprint = "0123456789abcdef0123456789abcdef0123456789abcdef0123456789abcdef";
  network_approval = none;
  grant = none;
}

application_ready : (resolve_permission_profile schemas application).status ≡ ready
unfolding resolve_permission_profile blocking parses_profile is_consistent
application_ready = refl

resolve_permission_profile-ready_example :
    IsWithin schemas application
    × ((resolve_permission_profile schemas application).effective_profile ≡ some coding)
    × ((resolve_permission_profile schemas application).network_access ≡ Policy.restricted)
    × ((resolve_permission_profile schemas application).danger_full_access_confirmed ≡ false)
resolve_permission_profile-ready_example =
    resolve_permission_profile-ready schemas application application_ready

abbrev decided : CompiledPolicy
decided = compile_policy host (run_input call) 50

call_compiled : (compile_permission_profile_policy schemas host call 50).compiled ≡ some decided
unfolding compile_permission_profile_policy resolve_permission_profile blocking parses_profile
    is_consistent
call_compiled = refl

call_allowed : decided.decision ≡ allow
unfolding compile_policy validate_input result apply_client_decision ruling tool_ruling by_grant
    default_ruling get find is_safe_revision
call_allowed = refl

compile_permission_profile_policy-allow_example :
    IsWithin schemas application
    × (decided ≡ compile_policy host (run_input call) 50)
    × RestsOn host (run_input call) 50
compile_permission_profile_policy-allow_example =
    compile_permission_profile_policy-allow schemas host call 50 decided call_compiled call_allowed

create_permission_sandbox_request-ready_example :
    create_permission_sandbox_request schemas application none
    ≡ some (record {
      task_trust = Sandbox.trusted_workspace;
      policy = Sandbox.workspace_write [] Sandbox.restricted;
      explicit_danger_full_access = false;
      resources = none;
    })
create_permission_sandbox_request-ready_example =
    create_permission_sandbox_request-ready schemas application none application_ready
